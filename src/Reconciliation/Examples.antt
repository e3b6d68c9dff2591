-- ===== src/Reconciliation/Examples.antt =====
-- The plan of a few candidates: two merge into one memory, one supersedes another, one is new and one
-- was processed before.
use memory_system.Shared.{ℕ, ◌≡◌, ◌↔◌, refl, String, Option, none, some, List, [], ◌∷◌}
use memory_system.Shared.Int.{pos}
use memory_system.Shared.Exec.{Result, ok, err}
use memory_system.Consolidation.Examples.{parts}
use memory_system.Reconciliation.Candidate.{
  ReconciliationAction, create_action, merge_action, supersede_action, MemoryNodeSnapshot,
  SkipReason, evidence_already_processed, CandidatePlanInput, PlanError,
  reconciliation_plan_conflict, ReconciliationSuccess,
}
use memory_system.Reconciliation.Groups.{
  group_candidates, no_groups, add_candidate, participates_in_aggregation, add_by, add_create,
  add_existing, append_to_group,
}
use memory_system.Reconciliation.Groups.Refused.{Some, IsUnplaced, group_candidates-refused}
use memory_system.Reconciliation.Groups.Split.{IsGrouping, group_candidates-IsGrouping}
use memory_system.Reconciliation.Plan.{build_reconciliation_plan}

abbrev memory : String → MemoryNodeSnapshot ℕ
memory id = record { memory_id = id; confidence = 8000 }

abbrev candidate :
    ℕ
    → ReconciliationAction
    → Option String
    → Option SkipReason
    → Option String
    → CandidatePlanInput ℕ
candidate n action target skip key = record {
  candidate_index = n;
  candidate_fingerprint = "f";
  evidence_id = "e";
  action = action;
  target_memory_id = target;
  reason_code = none;
  skip_reason = skip;
  merged_content = none;
  recalled_memory_count = 2;
  aligned_memory_key = key;
  memory_type = "fact";
  content = "lives in Rome";
  subject_entity_id = "user";
  predicate = "lives_in";
  object_entity_id = none;
  object_value = some "Rome";
  event_status = none;
  start_time = none;
  end_time = none;
  original_time_text = none;
  confidence = 9000;
  candidate_source_time = pos 50;
  recalled_memories = memory "m-1" ∷ memory "m-2" ∷ [];
}

abbrev candidates : List (CandidatePlanInput ℕ)
candidates =
    candidate 0 merge_action (some "m-1") none none
    ∷ candidate 1 supersede_action (some "m-2") none none
    ∷ candidate 2 create_action none none (some "k-1")
    ∷ candidate 3 merge_action (some "m-1") none none
    ∷ candidate 4 merge_action (some "m-1") (some evidence_already_processed) none
    ∷ []

abbrev id_of : ℕ → String
id_of n = "new"

abbrev built : Result PlanError (ReconciliationSuccess ℕ)
built = build_reconciliation_plan parts (λ s. s) id_of "u-1" "a-1" candidates

abbrev value_or : {A : Type 0} → A → Result PlanError A → A
value_or a (ok b) = b
value_or a (err e) = a

abbrev nothing : ReconciliationSuccess ℕ
nothing = record {
  user_id = "";
  archive_id = "";
  per_candidate_decisions = [];
  existing_memory_update_plans = [];
  new_memory_create_plans = [];
}

grouped :
    group_candidates candidates no_groups
    ≡ ok (value_or no_groups (group_candidates candidates no_groups))
unfolding group_candidates add_candidate participates_in_aggregation add_by add_create add_existing
    append_to_group
grouped = refl

group_candidates-IsGrouping_example :
    IsGrouping candidates (value_or no_groups (group_candidates candidates no_groups))
group_candidates-IsGrouping_example =
    group_candidates-IsGrouping candidates
      (value_or no_groups (group_candidates candidates no_groups)) grouped

-- A merge without a target among them.
abbrev misplaced : List (CandidatePlanInput ℕ)
misplaced = candidate 0 merge_action none none none ∷ candidates

group_candidates-refused_example :
    (group_candidates misplaced no_groups ≡ err reconciliation_plan_conflict)
    ↔ Some IsUnplaced misplaced
group_candidates-refused_example = group_candidates-refused misplaced no_groups
