-- ===== src/Consolidation/Batch/Accounts.antt =====
-- Every memory of a batch is accounted for.
use memory_system.Shared.{
  ◌+◌, ◌≡◌, ◌⊎◌, inl, inr, refl, String, Bool, true, false, Option, none, some, List, [], ◌∷◌,
  length, arith, if◌then◌else◌,
}
use memory_system.Shared.Int.{ℤ}
use memory_system.Shared.Exec.{Result, ok, err}
use memory_system.Consolidation.Double.{Double}
use memory_system.Consolidation.Write.{ConsolidationScoredCandidate}
use memory_system.Consolidation.Importance.{
  MemoryConsolidationSettings, ConsolidationImportanceInput, ConsolidationImportanceOutcome,
  success, missing_evidence, ImportanceError, compute_consolidation_importance,
}
use memory_system.Consolidation.Batch.{
  BatchSkipReason, no_evidence, invalid_memory_state, ConsolidationSkippedCandidate,
  ConsolidationMemoryRow, RowOutcome, scored_row, skipped_row, input_of_fields,
  build_importance_input, skip, scored_or_skipped, outcome_of, outcome_of_input, process_row,
  Sorted, sort_outcome, process_rows,
}

module _ {W : Type 0} (double : Double W) (settings : MemoryConsolidationSettings W)
    (time : ℤ) where
  -- The importance input of a complete row.
  abbrev pub IsInput : ConsolidationMemoryRow W → ConsolidationImportanceInput W → Type 0
  IsInput row input =
      (row.memory_type ≡ some input.memory_type)
      × (row.confidence ≡ some input.confidence)
      × (row.status ≡ some input.status)
      × (row.created_time ≡ some input.created_time)
      × (input.latest_source_time ≡ row.latest_source_time)
      × (input.independent_archive_count ≡ row.independent_archive_count)
      × (input.evaluation_time ≡ time)

  abbrev pub IsIncomplete : ConsolidationMemoryRow W → Type 0
  IsIncomplete row =
      (row.memory_type ≡ none)
      ⊎ (row.confidence ≡ none)
      ⊎ (row.status ≡ none)
      ⊎ (row.created_time ≡ none)

  -- The importance computed for a row.
  abbrev pub Computes :
      ConsolidationMemoryRow W → Result ImportanceError (ConsolidationImportanceOutcome W) → Type 0
  Computes row r =
      (input : ConsolidationImportanceInput W) × IsInput row input
      × (compute_consolidation_importance double settings input ≡ r)

  abbrev pub IsScored : ConsolidationMemoryRow W → ConsolidationScoredCandidate W → Type 0
  IsScored row c =
      (row.mapping_valid ≡ true)
      × (c.memory_id ≡ row.memory_id)
      × (row.memory_version ≡ some c.memory_version)
      × Computes row (ok (success c.new_importance))

  abbrev pub IsReasonFor : ConsolidationMemoryRow W → BatchSkipReason → Type 0
  IsReasonFor row no_evidence = (row.mapping_valid ≡ true) × Computes row (ok missing_evidence)
  IsReasonFor row invalid_memory_state =
      (row.mapping_valid ≡ false)
      ⊎ IsIncomplete row
      ⊎ ((e : ImportanceError) × Computes row (err e))
      ⊎ ((row.memory_version ≡ none) × ((w : W) × Computes row (ok (success w))))

  abbrev pub IsSkipped : ConsolidationMemoryRow W → ConsolidationSkippedCandidate → Type 0
  IsSkipped row c = (c.memory_id ≡ row.memory_id) × IsReasonFor row c.reason

  -- The rows, each with the outcome of its own, in order.
  pub data IsSorted
      : List (ConsolidationMemoryRow W)
        → List (ConsolidationScoredCandidate W)
        → List ConsolidationSkippedCandidate
        → Type 0 where
    nothing : IsSorted [] [] []
    to_scored :
        {r : ConsolidationMemoryRow W} {rs : List (ConsolidationMemoryRow W)}
        {c : ConsolidationScoredCandidate W} {cs : List (ConsolidationScoredCandidate W)}
        {ss : List ConsolidationSkippedCandidate}
        → IsScored r c
        → IsSorted rs cs ss
        → IsSorted (r ∷ rs) (c ∷ cs) ss
    to_skipped :
        {r : ConsolidationMemoryRow W} {rs : List (ConsolidationMemoryRow W)}
        {c : ConsolidationSkippedCandidate} {cs : List (ConsolidationScoredCandidate W)}
        {ss : List ConsolidationSkippedCandidate}
        → IsSkipped r c
        → IsSorted rs cs ss
        → IsSorted (r ∷ rs) cs (c ∷ ss)

  abbrev IsOutcomeOf : ConsolidationMemoryRow W → RowOutcome W → Type 0
  IsOutcomeOf r (scored_row c) = IsScored r c
  IsOutcomeOf r (skipped_row c) = IsSkipped r c

  success-IsOutcomeOf :
      (r : ConsolidationMemoryRow W) (w : W) (o : Option ℤ)
      → r.mapping_valid ≡ true
      → r.memory_version ≡ o
      → Computes r (ok (success w))
      → IsOutcomeOf r (scored_or_skipped double settings r w o)
  unfolding scored_or_skipped
  success-IsOutcomeOf r w none v e c = (refl, inr (inr (inr (e, (w, c)))))
  success-IsOutcomeOf r w (some n) v e c = (v, refl, e, c)

  computed-IsOutcomeOf :
      (r : ConsolidationMemoryRow W) (x : Result ImportanceError (ConsolidationImportanceOutcome W))
      → r.mapping_valid ≡ true
      → Computes r x
      → IsOutcomeOf r (outcome_of double settings r x)
  unfolding outcome_of
  computed-IsOutcomeOf r (err e) v c = (refl, inr (inr (inl (e, c))))
  computed-IsOutcomeOf r (ok missing_evidence) v c = (refl, (v, c))
  computed-IsOutcomeOf r (ok (success w)) v c = success-IsOutcomeOf r w _ v refl c

  -- What is read from the fields of a row.
  abbrev IsRead : ConsolidationMemoryRow W → Option (ConsolidationImportanceInput W) → Type 0
  IsRead r none = IsIncomplete r
  IsRead r (some input) = IsInput r input

  fields-IsRead :
      (r : ConsolidationMemoryRow W) (t : Option String) (c : Option W) (s : Option String)
      (created : Option ℤ)
      → r.memory_type ≡ t
      → r.confidence ≡ c
      → r.status ≡ s
      → r.created_time ≡ created
      → IsRead r (input_of_fields double settings r time t c s created)
  unfolding input_of_fields
  fields-IsRead r (some t) (some c) (some s) (some n) a b d e = (a, b, d, e, refl, refl, refl)
  fields-IsRead r (some t) (some c) (some s) none a b d e = inr (inr (inr e))
  fields-IsRead r (some t) (some c) none created a b d e = inr (inr (inl d))
  fields-IsRead r (some t) none s created a b d e = inr (inl b)
  fields-IsRead r none c s created a b d e = inl a

  read-IsOutcomeOf :
      (r : ConsolidationMemoryRow W) (o : Option (ConsolidationImportanceInput W))
      → r.mapping_valid ≡ true
      → IsRead r o
      → IsOutcomeOf r (outcome_of_input double settings r o)
  unfolding outcome_of_input
  read-IsOutcomeOf r none v i = (refl, inr (inl i))
  read-IsOutcomeOf r (some input) v i = computed-IsOutcomeOf r _ v (input, i, refl)

  row-IsOutcomeOf :
      (r : ConsolidationMemoryRow W) → IsOutcomeOf r (process_row double settings r time)
  unfolding process_row build_importance_input
  row-IsOutcomeOf r = at r.mapping_valid refl
    where
      at :
          (b : Bool)
          → r.mapping_valid ≡ b
          → IsOutcomeOf r (
              if b
              then outcome_of_input double settings r (
                  input_of_fields double settings r time r.memory_type r.confidence r.status
                    r.created_time)
              else skip double settings r invalid_memory_state)
      at true v = read-IsOutcomeOf r _ v (fields-IsRead r _ _ _ _ refl refl refl refl)
      at false v = (refl, inl v)

  sort-IsSorted :
      (r : ConsolidationMemoryRow W) (rs : List (ConsolidationMemoryRow W)) (o : RowOutcome W)
      (p : Sorted double settings)
      → IsOutcomeOf r o
      → IsSorted rs p.0 p.1
      → IsSorted (r ∷ rs) (sort_outcome double settings o p).0 (sort_outcome double settings o p).1
  sort-IsSorted r rs (scored_row c) (cs, ss) e h = to_scored e h
  sort-IsSorted r rs (skipped_row c) (cs, ss) e h = to_skipped e h

  -- Every row of a batch is in one of the two lists, in the order of the rows, under its memory's id.
  -- A scored one has a valid mapping, all its fields and a version, which it keeps, and its importance
  -- is the one computed from those fields. A row is skipped for lack of evidence when its mapping is
  -- valid and the computation finds none, and as invalid when its mapping is not valid, a field or the
  -- version is missing, or the computation refuses its fields.
  pub process_rows-IsSorted :
      (rows : List (ConsolidationMemoryRow W))
      → IsSorted rows
          (process_rows double settings rows time).0
          (process_rows double settings rows time).1
  unfolding process_rows
  process_rows-IsSorted [] = nothing
  process_rows-IsSorted (r ∷ rs) =
      sort-IsSorted r rs (process_row double settings r time) (process_rows double settings rs time)
        (row-IsOutcomeOf r) (process_rows-IsSorted rs)

  pub IsSorted-length :
      {rs : List (ConsolidationMemoryRow W)} {cs : List (ConsolidationScoredCandidate W)}
      {ss : List ConsolidationSkippedCandidate}
      → IsSorted rs cs ss
      → length rs ≡ length cs + length ss
  IsSorted-length nothing = omega arith
  IsSorted-length (to_scored e h) = omega (arith, IsSorted-length h)
  IsSorted-length (to_skipped e h) = omega (arith, IsSorted-length h)
