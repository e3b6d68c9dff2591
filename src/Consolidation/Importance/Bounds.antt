-- ===== src/Consolidation/Importance/Bounds.antt =====
-- What `compute_consolidation_importance` answers, for every input.
use mathlib.Core.Path.{subst}
use memory_system.Shared.{
  ◌≡◌, ◌≤◌, ◌<◌, ◌==◌, refl, ap, Bool, true, false, Option, none, some, if◌then◌else◌, arith,
}
use memory_system.Shared.Int.{ℤ, pos, negsuc, is_negative}
use memory_system.Shared.Exec.{Result, ok, err}
use memory_system.Consolidation.Double.{Double, IsOrdered}
use memory_system.Consolidation.Importance.{
  MemoryType, MemoryStatus, active, conflicted, superseded, ConsolidationImportanceInput,
  ConsolidationImportanceOutcome, success, missing_evidence, MemoryConsolidationSettings,
  ImportanceError, invalid_memory_type, invalid_status, negative_created_time,
  negative_evaluation_time, negative_archive_count, Validated, memory_type_of, memory_status_of,
  validate_count, validate_times, validate_status, validate_type, validate_input, clamp,
  half_life_days_for, compute_effective_min_importance, compute_new_importance, raw_importance_of,
  importance_of, compute_consolidation_importance,
}

module _ {W : Type 0} (double : Double W) (settings : MemoryConsolidationSettings W) where
  infix 40 ◌≼◌
  abbrev pub ◌≼◌ : W → W → Type 0
  x ≼ y = double.le x y ≡ true

  -- The limits of the settings are ordered, and have at most four decimal places.
  pub record HasLimits : Type 0 where
    pub least : settings.min_importance ≼ settings.max_importance
    pub least_conflicted : settings.conflicted_min_importance ≼ settings.max_importance
    pub rounded_min : double.round4 settings.min_importance ≡ settings.min_importance
    pub rounded_conflicted :
        double.round4 settings.conflicted_min_importance ≡ settings.conflicted_min_importance
    pub rounded_max : double.round4 settings.max_importance ≡ settings.max_importance

  abbrev pub IsWithin : MemoryStatus → W → Type 0
  IsWithin s w =
      (compute_effective_min_importance double settings s ≼ w) × (w ≼ settings.max_importance)

  -- What is known of an input, and the answer to it.
  abbrev pub IsValid : ConsolidationImportanceInput W → Validated → Type 0
  IsValid input v =
      (memory_type_of input.memory_type ≡ some v.memory_type)
      × (memory_status_of input.status ≡ some v.status)
      × (is_negative input.created_time ≡ false)
      × (is_negative input.evaluation_time ≡ false)
      × (input.independent_archive_count ≡ pos v.archive_count)

  abbrev pub IsReason : ConsolidationImportanceInput W → ImportanceError → Type 0
  IsReason input invalid_memory_type = memory_type_of input.memory_type ≡ none
  IsReason input invalid_status = memory_status_of input.status ≡ none
  IsReason input negative_created_time = is_negative input.created_time ≡ true
  IsReason input negative_evaluation_time = is_negative input.evaluation_time ≡ true
  IsReason input negative_archive_count = is_negative input.independent_archive_count ≡ true

  abbrev IsValidated : ConsolidationImportanceInput W → Result ImportanceError Validated → Type 0
  IsValidated input (ok v) = IsValid input v
  IsValidated input (err e) = IsReason input e

  abbrev pub IsImportance :
      ConsolidationImportanceInput W
      → Result ImportanceError (ConsolidationImportanceOutcome W)
      → Type 0
  IsImportance input (err e) = IsReason input e
  IsImportance input (ok missing_evidence) =
      (v : Validated) × IsValid input v × (v.archive_count ≡ 0)
  IsImportance input (ok (success w)) =
      (v : Validated) × IsValid input v × (0 < v.archive_count) × IsWithin v.status w

  validate_count-IsValidated :
      (input : ConsolidationImportanceInput W) (t : MemoryType) (s : MemoryStatus) (n : ℤ)
      → memory_type_of input.memory_type ≡ some t
      → memory_status_of input.status ≡ some s
      → is_negative input.created_time ≡ false
      → is_negative input.evaluation_time ≡ false
      → input.independent_archive_count ≡ n
      → IsValidated input (validate_count t s n)
  unfolding validate_count
  validate_count-IsValidated input t s (pos n) et es ec ee en = (et, es, ec, ee, en)
  validate_count-IsValidated input t s (negsuc n) et es ec ee en = ap is_negative en

  validate_times-IsValidated :
      (input : ConsolidationImportanceInput W) (t : MemoryType) (s : MemoryStatus)
      → memory_type_of input.memory_type ≡ some t
      → memory_status_of input.status ≡ some s
      → IsValidated input (validate_times input t s)
  unfolding validate_times
  validate_times-IsValidated input t s et es =
      at (is_negative input.created_time) (is_negative input.evaluation_time) refl refl
    where
      at :
          (c e : Bool)
          → is_negative input.created_time ≡ c
          → is_negative input.evaluation_time ≡ e
          → IsValidated input (
              if c
              then err negative_created_time
              else if e
              then err negative_evaluation_time
              else validate_count t s input.independent_archive_count)
      at true e ec ee = ec
      at false true ec ee = ee
      at false false ec ee = validate_count-IsValidated input t s _ et es ec ee refl

  validate_status-IsValidated :
      (input : ConsolidationImportanceInput W) (t : MemoryType) (o : Option MemoryStatus)
      → memory_type_of input.memory_type ≡ some t
      → memory_status_of input.status ≡ o
      → IsValidated input (validate_status input t o)
  unfolding validate_status
  validate_status-IsValidated input t none et es = es
  validate_status-IsValidated input t (some s) et es = validate_times-IsValidated input t s et es

  validate_type-IsValidated :
      (input : ConsolidationImportanceInput W) (o : Option MemoryType)
      → memory_type_of input.memory_type ≡ o
      → IsValidated input (validate_type input o)
  unfolding validate_type
  validate_type-IsValidated input none et = et
  validate_type-IsValidated input (some t) et = validate_status-IsValidated input t _ et refl

  validate-IsValidated :
      (input : ConsolidationImportanceInput W) → IsValidated input (validate_input input)
  unfolding validate_input
  validate-IsValidated input = validate_type-IsValidated input _ refl

  module _ (laws : IsOrdered W double) (limits : HasLimits) where
    rounded_between :
        (low raw : W)
        → low ≼ settings.max_importance
        → double.round4 low ≡ low
        → (low ≼ double.round4 (clamp double raw low settings.max_importance))
          × (double.round4 (clamp double raw low settings.max_importance) ≼ settings.max_importance)
    unfolding clamp
    rounded_between low raw h e =
        let (ll, uu) = laws.refl_of_le low settings.max_importance h in
        (
          subst
              (λ x.
                x ≼ double.round4 (double.max_of low (double.min_of settings.max_importance raw)))
              e (laws.round4-mono _ _ (laws.le-max_of low _ ll)),
          subst
              (λ x.
                double.round4 (double.max_of low (double.min_of settings.max_importance raw)) ≼ x)
              limits.rounded_max
              (laws.round4-mono _ _
                (laws.max_of-le low _ settings.max_importance h (laws.min_of-le _ raw uu))),
        )

    new_importance-IsWithin :
        (raw : W) (s : MemoryStatus) → IsWithin s (compute_new_importance double settings raw s)
    unfolding compute_new_importance compute_effective_min_importance
    new_importance-IsWithin raw conflicted =
        rounded_between _ raw limits.least_conflicted limits.rounded_conflicted
    new_importance-IsWithin raw active = rounded_between _ raw limits.least limits.rounded_min
    new_importance-IsWithin raw superseded = rounded_between _ raw limits.least limits.rounded_min

    importance_of-IsImportance :
        (input : ConsolidationImportanceInput W) (r : Result ImportanceError Validated)
        → IsValidated input r
        → IsImportance input (importance_of double settings input r)
    unfolding importance_of
    importance_of-IsImportance input (err e) h = h
    importance_of-IsImportance input (ok v) h = at (v.archive_count == 0) refl
      where
        at :
            (b : Bool)
            → (v.archive_count == 0) ≡ b
            → IsImportance input (
                if b
                then ok missing_evidence
                else ok (
                    success (
                      compute_new_importance double settings
                        (raw_importance_of double settings input v)
                        v.status)))
        at true e = (v, h, ground (arith, e))
        at false e = (v, h, ground (arith, e), new_importance-IsWithin _ v.status)

    -- If floats compare as the laws say and the limits of the settings are ordered and rounded, then
    -- every input has one of these answers: an error with its reason (an unknown type or status, or a
    -- negative time or count); missing evidence, exactly when the count of archives is zero; or an
    -- importance between the least one of the status and the largest one, also when the arithmetic
    -- in between overflows or gives NaN.
    pub consolidation-IsImportance :
        (input : ConsolidationImportanceInput W)
        → IsImportance input (compute_consolidation_importance double settings input)
    unfolding compute_consolidation_importance
    consolidation-IsImportance input =
        importance_of-IsImportance input (validate_input input) (validate-IsValidated input)

  -- A superseded memory fades at least as fast as any other of its type, and no slower than the
  -- limit for superseded memories.
  pub superseded-half_life :
      (t : MemoryType) (s : MemoryStatus)
      → (half_life_days_for double settings t superseded ≤ half_life_days_for double settings t s)
        × (half_life_days_for double settings t superseded ≤ settings.superseded_half_life_days)
  unfolding half_life_days_for
  superseded-half_life t active = (ground arith, ground arith)
  superseded-half_life t conflicted = (ground arith, ground arith)
  superseded-half_life t superseded = (ground arith, ground arith)
