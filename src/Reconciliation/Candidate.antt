-- ===== src/Reconciliation/Candidate.antt =====
-- src/memory_system/domain/models/reconciliation.py and the candidates of
-- src/memory_system/domain/services/reconciliation_plan_builder.py. Fields with a single value are left
-- out.
use memory_system.Shared.{ℕ, String, Bool, Option, List}
use memory_system.Shared.Int.{ℤ}

pub data ReconciliationAction : Type 0 where
  create_action merge_action supersede_action conflict_action skip_action : ReconciliationAction

pub data ReasonCode : Type 0 where
  new_memory same_semantic_memory additional_evidence explicit_correction newer_value : ReasonCode
  unresolved_contradiction different_event_time not_durable invalid_candidate : ReasonCode

pub data SkipReason : Type 0 where
  evidence_already_processed : SkipReason

-- The fields of a recalled memory that the plan reads.
pub record MemoryNodeSnapshot (W : Type 0) : Type 0 where
  pub memory_id : String
  pub confidence : W

pub record CandidatePlanInput (W : Type 0) : Type 0 where
  pub candidate_index : ℕ
  pub candidate_fingerprint : String
  pub evidence_id : String
  pub action : ReconciliationAction
  pub target_memory_id : Option String
  pub reason_code : Option ReasonCode
  pub skip_reason : Option SkipReason
  pub merged_content : Option String
  pub recalled_memory_count : ℕ
  pub aligned_memory_key : Option String
  pub memory_type : String
  pub content : String
  pub subject_entity_id : String
  pub predicate : String
  pub object_entity_id : Option String
  pub object_value : Option String
  pub event_status : Option String
  pub start_time : Option String
  pub end_time : Option String
  pub original_time_text : Option String
  pub confidence : W
  pub candidate_source_time : ℤ
  pub recalled_memories : List (MemoryNodeSnapshot W)

pub record PerCandidateDecision : Type 0 where
  pub candidate_index : ℕ
  pub candidate_fingerprint : String
  pub evidence_id : String
  pub action : ReconciliationAction
  pub target_memory_id : Option String
  pub reason_code : Option ReasonCode
  pub skip_reason : Option SkipReason
  pub merged_content : Option String
  pub recalled_memory_count : ℕ
  pub aligned_memory_key : Option String

pub data CreateKind : Type 0 where
  plain_create supersede_new conflict_new : CreateKind

pub record PlannedExistingMemoryUpdate (W : Type 0) : Type 0 where
  pub target_memory_id : String
  pub aggregated_action : ReconciliationAction
  pub contributing_candidate_indices : List ℕ
  pub contributing_evidence_ids : List String
  pub planned_merged_content : Option String
  pub planned_merged_confidence : Option W
  pub planned_latest_source_time : ℤ
  pub increment_memory_version : Bool
  pub planned_new_memory_id : Option String

pub record PlannedMemoryCreate (W : Type 0) : Type 0 where
  pub create_kind : CreateKind
  pub planned_memory_id : String
  pub aligned_memory_key : Option String
  pub supersedes_target_memory_id : Option String
  pub conflicts_with_target_memory_id : Option String
  pub memory_type : String
  pub planned_content : String
  pub subject_entity_id : String
  pub predicate : String
  pub object_entity_id : Option String
  pub object_value : Option String
  pub event_status : Option String
  pub start_time : Option String
  pub end_time : Option String
  pub original_time_text : Option String
  pub planned_confidence : W
  pub planned_importance : W
  pub planned_latest_source_time : ℤ
  pub contributing_candidate_indices : List ℕ
  pub contributing_evidence_ids : List String

pub record ReconciliationSuccess (W : Type 0) : Type 0 where
  pub user_id : String
  pub archive_id : String
  pub per_candidate_decisions : List PerCandidateDecision
  pub existing_memory_update_plans : List (PlannedExistingMemoryUpdate W)
  pub new_memory_create_plans : List (PlannedMemoryCreate W)

-- The failure that a plan answers, and the `KeyError` of a memory type without an importance.
pub data PlanError : Type 0 where
  reconciliation_plan_conflict unknown_memory_type : PlanError
