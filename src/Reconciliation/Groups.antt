-- ===== src/Reconciliation/Groups.antt =====
-- The groups of candidates that `build_reconciliation_plan` forms: one for each target memory and one
-- for each aligned key, in the order of their first candidates. A group is not empty.
pub mod Append
pub mod Split
pub mod Refused
use memory_system.Shared.{
  ℕ, String, Bool, true, false, Option, none, some, List, [], ◌∷◌, ◌++◌, if◌then◌else◌, str_eq,
}
use memory_system.Shared.Exec.{Result, ok, err}
use memory_system.Reconciliation.Candidate.{
  ReconciliationAction, create_action, merge_action, supersede_action, conflict_action, skip_action,
  SkipReason, evidence_already_processed, CandidatePlanInput, PlanError,
  reconciliation_plan_conflict,
}

pub record Group (W : Type 0) : Type 0 where
  pub key : String
  pub first : CandidatePlanInput W
  pub rest : List (CandidatePlanInput W)

-- `existing_groups` and `create_groups`.
pub record Groups (W : Type 0) : Type 0 where
  pub existing : List (Group W)
  pub creates : List (Group W)

abbrev pub is_planned : ReconciliationAction → Bool
is_planned skip_action = false
is_planned a = true

abbrev pub participates_by : Option SkipReason → ReconciliationAction → Bool
participates_by (some evidence_already_processed) a = false
participates_by none a = is_planned a

abbrev pub and_then :
    {A B : Type 0} → Result PlanError A → (A → Result PlanError B) → Result PlanError B
and_then (ok a) f = f a
and_then (err e) f = err e

module _ {W : Type 0} where
  unfoldable pub participates_in_aggregation : CandidatePlanInput W → Bool
  participates_in_aggregation c = participates_by c.skip_reason c.action

  abbrev pub joined : Group W → CandidatePlanInput W → Group W
  joined g c = record { key = g.key; first = g.first; rest = g.rest ++ (c ∷ []) }

  -- groups[key].append(c), of a defaultdict(list)
  unfoldable pub append_to_group : String → CandidatePlanInput W → List (Group W) → List (Group W)
  append_to_group key c [] = record { key = key; first = c; rest = [] } ∷ []
  append_to_group key c (g ∷ gs) =
      if str_eq g.key key then joined g c ∷ gs else g ∷ append_to_group key c gs

  unfoldable pub add_create :
      Groups W → CandidatePlanInput W → Option String → Result PlanError (Groups W)
  add_create gs c none = err reconciliation_plan_conflict
  add_create gs c (some key) =
      ok (record { existing = gs.existing; creates = append_to_group key c gs.creates })

  unfoldable pub add_existing :
      Groups W → CandidatePlanInput W → Option String → Result PlanError (Groups W)
  add_existing gs c none = err reconciliation_plan_conflict
  add_existing gs c (some key) =
      ok (record { existing = append_to_group key c gs.existing; creates = gs.creates })

  unfoldable pub add_by :
      Groups W → CandidatePlanInput W → ReconciliationAction → Result PlanError (Groups W)
  add_by gs c create_action = add_create gs c c.aligned_memory_key
  add_by gs c a = add_existing gs c c.target_memory_id

  unfoldable pub add_candidate : Groups W → CandidatePlanInput W → Result PlanError (Groups W)
  add_candidate gs c = if participates_in_aggregation c then add_by gs c c.action else ok gs

  unfoldable pub group_candidates :
      List (CandidatePlanInput W) → Groups W → Result PlanError (Groups W)
  group_candidates [] gs = ok gs
  group_candidates (c ∷ cs) gs = and_then (add_candidate gs c) (group_candidates cs)

  abbrev pub no_groups : Groups W
  no_groups = record { existing = []; creates = [] }
