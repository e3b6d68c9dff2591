-- ===== src/Reconciliation/Plan.antt =====
-- src/memory_system/domain/services/reconciliation_plan_builder.py. The arithmetic of floats, the
-- normalisation of a content (Unicode and regular expressions) and the n-th id of the factory are
-- parameters.
pub mod Parts
pub mod Wanted
pub mod Steps
pub mod Laws
use memory_system.Shared.{
  ℕ, zero, suc, ◌+◌, String, Bool, true, false, not, ◌&&◌, ◌||◌, Option, none, some, List, [], ◌∷◌,
  ◌++◌, map, if◌then◌else◌, str_eq, str_ltb,
}
use memory_system.Shared.Int.{ℤ, max_int, int_ltb, int_eq}
use memory_system.Shared.Exec.{Result, ok, err}
use memory_system.Consolidation.Double.{Double}
use memory_system.Reconciliation.Candidate.{
  ReconciliationAction, create_action, merge_action, supersede_action, conflict_action, skip_action,
  MemoryNodeSnapshot, CandidatePlanInput, PerCandidateDecision, CreateKind, plain_create,
  supersede_new, conflict_new, PlannedExistingMemoryUpdate, PlannedMemoryCreate,
  ReconciliationSuccess, PlanError, reconciliation_plan_conflict, unknown_memory_type,
}
use memory_system.Reconciliation.Groups.{Group, Groups, group_candidates, no_groups, and_then}
use memory_system.Reconciliation.Choice.{
  same_action, present, all_equal_to, members, all_do, memory_among, or_else, find_target,
  latest_source_time, decision, greatest_confidence, merge_confidence, importance_for_type,
  same_value, precedes, select_structural_representative, select_create_content, merged_of,
  normalized, resolve_merge_merged_content,
}

module _ {W : Type 0} (double : Double W) (normalize : String → String)
    (memory_id_factory : ℕ → String) where
  abbrev pub indices : Group W → List ℕ
  indices g = map (λ c. c.candidate_index) (members g)

  abbrev pub evidence : Group W → List String
  evidence g = map (λ c. c.evidence_id) (members g)

  abbrev pub group_confidence : Group W → W
  group_confidence g =
      double.round4 (greatest_confidence double normalize g.first.confidence g.rest)

  unfoldable pub planned_update :
      Group W → Option String → Option W → Option String → PlannedExistingMemoryUpdate W
  planned_update g content confidence new_id = record {
    target_memory_id = g.key;
    aggregated_action = g.first.action;
    contributing_candidate_indices = indices g;
    contributing_evidence_ids = evidence g;
    planned_merged_content = content;
    planned_merged_confidence = confidence;
    planned_latest_source_time = latest_source_time g.first.candidate_source_time g.rest;
    increment_memory_version = true;
    planned_new_memory_id = new_id;
  }

  abbrev pub key_if : CreateKind → CreateKind → String → Option String
  key_if supersede_new supersede_new k = some k
  key_if conflict_new conflict_new k = some k
  key_if a b k = none

  -- The memory that supersedes the target of a group, or conflicts with it.
  unfoldable pub planned_replacement : Group W → CreateKind → String → W → PlannedMemoryCreate W
  planned_replacement g kind id importance = record {
    create_kind = kind;
    planned_memory_id = id;
    aligned_memory_key = none;
    supersedes_target_memory_id = key_if supersede_new kind g.key;
    conflicts_with_target_memory_id = key_if conflict_new kind g.key;
    memory_type = g.first.memory_type;
    planned_content = g.first.content;
    subject_entity_id = g.first.subject_entity_id;
    predicate = g.first.predicate;
    object_entity_id = g.first.object_entity_id;
    object_value = g.first.object_value;
    event_status = g.first.event_status;
    start_time = g.first.start_time;
    end_time = g.first.end_time;
    original_time_text = g.first.original_time_text;
    planned_confidence = double.round4 g.first.confidence;
    planned_importance = importance;
    planned_latest_source_time = g.first.candidate_source_time;
    contributing_candidate_indices = indices g;
    contributing_evidence_ids = evidence g;
  }

  abbrev pub create_of : Group W → CandidatePlanInput W → String → W → PlannedMemoryCreate W
  create_of g r id importance = record {
    create_kind = plain_create;
    planned_memory_id = id;
    aligned_memory_key = some g.key;
    supersedes_target_memory_id = none;
    conflicts_with_target_memory_id = none;
    memory_type = r.memory_type;
    planned_content = select_create_content double normalize g;
    subject_entity_id = r.subject_entity_id;
    predicate = r.predicate;
    object_entity_id = r.object_entity_id;
    object_value = r.object_value;
    event_status = r.event_status;
    start_time = r.start_time;
    end_time = r.end_time;
    original_time_text = r.original_time_text;
    planned_confidence = group_confidence g;
    planned_importance = importance;
    planned_latest_source_time = latest_source_time g.first.candidate_source_time g.rest;
    contributing_candidate_indices = indices g;
    contributing_evidence_ids = evidence g;
  }

  unfoldable pub planned_create : Group W → String → Result PlanError (PlannedMemoryCreate W)
  planned_create g id =
      let r = select_structural_representative double normalize g.first g.rest in
      and_then (importance_for_type double normalize r.memory_type) (λ w. ok (create_of g r id w))

  -- The plans of the groups so far, and the count of ids taken from the factory.
  pub record Plans : Type 0 where
    pub updates : List (PlannedExistingMemoryUpdate W)
    pub creates : List (PlannedMemoryCreate W)
    pub taken : ℕ

  abbrev pub with_update : Plans → PlannedExistingMemoryUpdate W → Plans
  with_update p u = record { updates = p.updates ++ (u ∷ []); creates = p.creates; taken = p.taken }

  abbrev pub with_create : Plans → PlannedMemoryCreate W → Plans
  with_create p c = record {
    updates = p.updates;
    creates = p.creates ++ (c ∷ []);
    taken = p.taken + 1;
  }

  abbrev pub merged_plans : Group W → MemoryNodeSnapshot W → Plans → Option String → Plans
  merged_plans g target p content = with_update p (
      planned_update g content
        (some (merge_confidence double normalize target.confidence (group_confidence g))) none)

  unfoldable pub plan_merge : Group W → MemoryNodeSnapshot W → Plans → Result PlanError Plans
  plan_merge g target p =
      and_then (resolve_merge_merged_content double normalize (members g))
        (λ content. ok (merged_plans g target p content))

  abbrev pub replaced_plans : Group W → CreateKind → Plans → W → Plans
  replaced_plans g kind p importance =
      with_update
        (with_create p (planned_replacement g kind (memory_id_factory p.taken) importance))
        (planned_update g none none (some (memory_id_factory p.taken)))

  unfoldable pub plan_replacement : Group W → CreateKind → Plans → Result PlanError Plans
  plan_replacement g kind p =
      and_then (importance_for_type double normalize g.first.memory_type)
        (λ w. ok (replaced_plans g kind p w))

  unfoldable pub plan_found :
      Group W
      → Option (MemoryNodeSnapshot W)
      → ReconciliationAction
      → Plans
      → Result PlanError Plans
  plan_found g none a p = err reconciliation_plan_conflict
  plan_found g (some target) merge_action p = plan_merge g target p
  plan_found g (some target) supersede_action p = plan_replacement g supersede_new p
  plan_found g (some target) conflict_action p = plan_replacement g conflict_new p
  plan_found g (some target) a p = ok (with_update p (planned_update g none none none))

  abbrev pub is_replacing : ReconciliationAction → Bool
  is_replacing supersede_action = true
  is_replacing conflict_action = true
  is_replacing a = false

  abbrev pub is_several : List (CandidatePlanInput W) → Bool
  is_several [] = false
  is_several (c ∷ cs) = true

  -- The body of the loop over `existing_groups`.
  unfoldable pub plan_existing : Group W → Plans → Result PlanError Plans
  plan_existing g p =
      if all_do g.first.action g.rest
      then (if is_replacing g.first.action && is_several g.rest
          then err reconciliation_plan_conflict
          else plan_found g (find_target g.key (members g)) g.first.action p)
      else err reconciliation_plan_conflict

  unfoldable pub plan_all_existing : List (Group W) → Plans → Result PlanError Plans
  plan_all_existing [] p = ok p
  plan_all_existing (g ∷ gs) p = and_then (plan_existing g p) (plan_all_existing gs)

  unfoldable pub plan_all_creates : List (Group W) → Plans → Result PlanError Plans
  plan_all_creates [] p = ok p
  plan_all_creates (g ∷ gs) p =
      and_then (planned_create g (memory_id_factory p.taken))
        (λ c. plan_all_creates gs (with_create p c))

  abbrev pub no_plans : Plans
  no_plans = record { updates = []; creates = []; taken = 0 }

  unfoldable pub plan_groups : Groups W → Result PlanError Plans
  plan_groups gs = and_then (plan_all_existing gs.existing no_plans) (plan_all_creates gs.creates)

  abbrev pub success_of :
      String → String → List (CandidatePlanInput W) → Plans → ReconciliationSuccess W
  success_of user_id archive_id candidates p = record {
    user_id = user_id;
    archive_id = archive_id;
    per_candidate_decisions = map decision candidates;
    existing_memory_update_plans = p.updates;
    new_memory_create_plans = p.creates;
  }

  unfoldable pub build_reconciliation_plan :
      String → String → List (CandidatePlanInput W) → Result PlanError (ReconciliationSuccess W)
  build_reconciliation_plan user_id archive_id candidates =
      and_then (group_candidates candidates no_groups)
        (λ gs. and_then (plan_groups gs) (λ p. ok (success_of user_id archive_id candidates p)))
