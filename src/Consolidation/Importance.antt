-- ===== src/Consolidation/Importance.antt =====
-- src/memory_system/domain/services/consolidation_importance.py: the importance of one memory at one
-- time. `memory_type` and `status` come from the graph as strings, and are read into their literals
-- where the source tests them; the arithmetic of floats is a parameter.
pub mod Bounds
use memory_system.Shared.{
  ℕ, zero, suc, ◌+◌, ◌==◌, String, Bool, true, false, Option, none, some, if◌then◌else◌, str_eq,
  ltb, leb,
}
use memory_system.Shared.Int.{ℤ, pos, negsuc, is_negative, max_int, ◌-ℤ◌}
use memory_system.Shared.Exec.{Result, ok, err}
use memory_system.Consolidation.Double.{Double}

pub data MemoryType : Type 0 where
  profile fact preference event : MemoryType

pub data MemoryStatus : Type 0 where
  active conflicted superseded : MemoryStatus

pub record ConsolidationImportanceInput (W : Type 0) : Type 0 where
  pub memory_type : String
  pub confidence : W
  pub status : String
  pub created_time : ℤ
  pub latest_source_time : Option ℤ
  pub independent_archive_count : ℤ
  pub evaluation_time : ℤ

pub data ConsolidationImportanceOutcome (W : Type 0) : Type 0 where
  success : W → ConsolidationImportanceOutcome W
  missing_evidence : ConsolidationImportanceOutcome W

pub record MemoryConsolidationSettings (W : Type 0) : Type 0 where
  pub batch_size : ℕ
  pub evidence_saturation_count : ℕ
  pub profile_half_life_days : ℕ
  pub fact_half_life_days : ℕ
  pub preference_half_life_days : ℕ
  pub event_half_life_days : ℕ
  pub superseded_half_life_days : ℕ
  pub confidence_weight : W
  pub evidence_weight : W
  pub reinforcement_bonus_weight : W
  pub min_importance : W
  pub conflicted_min_importance : W
  pub max_importance : W

-- The `ValueError` of a check.
pub data ImportanceError : Type 0 where
  invalid_memory_type invalid_status negative_created_time : ImportanceError
  negative_evaluation_time negative_archive_count : ImportanceError

pub record Validated : Type 0 where
  pub memory_type : MemoryType
  pub status : MemoryStatus
  pub archive_count : ℕ

unfoldable pub memory_type_of : String → Option MemoryType
memory_type_of s =
    if str_eq s "profile"
    then some profile
    else if str_eq s "fact"
    then some fact
    else if str_eq s "preference"
    then some preference
    else if str_eq s "event"
    then some event
    else none

unfoldable pub memory_status_of : String → Option MemoryStatus
memory_status_of s =
    if str_eq s "active"
    then some active
    else if str_eq s "conflicted"
    then some conflicted
    else if str_eq s "superseded"
    then some superseded
    else none

unfoldable pub validate_count : MemoryType → MemoryStatus → ℤ → Result ImportanceError Validated
validate_count t s (negsuc n) = err negative_archive_count
validate_count t s (pos n) = ok (record { memory_type = t; status = s; archive_count = n })

unfoldable pub validate_times :
    {W : Type 0}
    → ConsolidationImportanceInput W
    → MemoryType
    → MemoryStatus
    → Result ImportanceError Validated
validate_times input t s =
    if is_negative input.created_time
    then err negative_created_time
    else if is_negative input.evaluation_time
    then err negative_evaluation_time
    else validate_count t s input.independent_archive_count

unfoldable pub validate_status :
    {W : Type 0}
    → ConsolidationImportanceInput W
    → MemoryType
    → Option MemoryStatus
    → Result ImportanceError Validated
validate_status input t none = err invalid_status
validate_status input t (some s) = validate_times input t s

unfoldable pub validate_type :
    {W : Type 0}
    → ConsolidationImportanceInput W
    → Option MemoryType
    → Result ImportanceError Validated
validate_type input none = err invalid_memory_type
validate_type input (some t) = validate_status input t (memory_status_of input.status)

unfoldable pub validate_input :
    {W : Type 0} → ConsolidationImportanceInput W → Result ImportanceError Validated
validate_input input = validate_type input (memory_type_of input.memory_type)

-- latest_source_time or 0
abbrev pub or_zero : Option ℤ → ℤ
or_zero none = pos 0
or_zero (some t) = t

unfoldable pub compute_reference_time : Option ℤ → ℤ → ℤ
compute_reference_time latest created = max_int (or_zero latest) created

abbrev pub seconds_per_day : ℕ
seconds_per_day = 86400

module _ {W : Type 0} (double : Double W) where
  unfoldable pub clamp : W → W → W → W
  clamp value lower upper = double.max_of lower (double.min_of upper value)

  unfoldable pub clamp01 : W → W
  clamp01 value = clamp value double.nought double.one

  unfoldable pub base_importance_for_type : MemoryType → W
  base_importance_for_type profile = double.hundredths 75
  base_importance_for_type fact = double.hundredths 70
  base_importance_for_type preference = double.hundredths 65
  base_importance_for_type event = double.hundredths 55

  unfoldable pub compute_evidence_score : ℕ → ℕ → W
  compute_evidence_score count saturation = double.min_of double.one (
      double.over (double.log (double.of_count (1 + count)))
        (double.log (double.of_count (1 + saturation))))

  unfoldable pub compute_inactive_days : ℤ → ℤ → W
  compute_inactive_days reference evaluation =
      double.max_of double.nought
        (double.over (double.of_int (evaluation -ℤ reference)) (double.of_count seconds_per_day))

  unfoldable pub compute_recency_score : W → ℕ → W
  compute_recency_score inactive_days half_life =
      if half_life == 0
      then double.nought
      else double.exp
          (double.over (double.times double.neg_ln2 inactive_days) (double.of_count half_life))

  module _ (settings : MemoryConsolidationSettings W) where
    unfoldable pub type_half_life : MemoryType → ℕ
    type_half_life profile = settings.profile_half_life_days
    type_half_life fact = settings.fact_half_life_days
    type_half_life preference = settings.preference_half_life_days
    type_half_life event = settings.event_half_life_days

    unfoldable pub half_life_days_for : MemoryType → MemoryStatus → ℕ
    half_life_days_for t superseded =
        if ltb settings.superseded_half_life_days (type_half_life t)
        then settings.superseded_half_life_days
        else type_half_life t
    half_life_days_for t s = type_half_life t

    unfoldable pub compute_reinforcement_score : W → W → W
    compute_reinforcement_score confidence evidence =
        double.plus (double.times settings.confidence_weight confidence)
          (double.times settings.evidence_weight evidence)

    unfoldable pub compute_effective_min_importance : MemoryStatus → W
    compute_effective_min_importance conflicted = settings.conflicted_min_importance
    compute_effective_min_importance s = settings.min_importance

    unfoldable pub compute_raw_importance : W → W → W → W
    compute_raw_importance base recency reinforcement =
        double.plus (double.times base recency)
          (double.times settings.reinforcement_bonus_weight reinforcement)

    unfoldable pub compute_new_importance : W → MemoryStatus → W
    compute_new_importance raw s =
        double.round4 (clamp raw (compute_effective_min_importance s) settings.max_importance)

    -- The raw importance of a validated input whose archive count is positive.
    unfoldable pub raw_importance_of : ConsolidationImportanceInput W → Validated → W
    raw_importance_of input v =
        compute_raw_importance (base_importance_for_type v.memory_type)
          (compute_recency_score
            (compute_inactive_days
              (compute_reference_time input.latest_source_time input.created_time)
              input.evaluation_time)
            (half_life_days_for v.memory_type v.status))
          (compute_reinforcement_score (clamp01 input.confidence)
            (compute_evidence_score v.archive_count settings.evidence_saturation_count))

    unfoldable pub importance_of :
        ConsolidationImportanceInput W
        → Result ImportanceError Validated
        → Result ImportanceError (ConsolidationImportanceOutcome W)
    importance_of input (err e) = err e
    importance_of input (ok v) =
        if v.archive_count == 0
        then ok missing_evidence
        else ok (success (compute_new_importance (raw_importance_of input v) v.status))

    unfoldable pub compute_consolidation_importance :
        ConsolidationImportanceInput W → Result ImportanceError (ConsolidationImportanceOutcome W)
    compute_consolidation_importance input = importance_of input (validate_input input)
