-- ===== src/Extraction/Admin.antt =====
-- src/memory_system/domain/services/extraction_admin_service.py, with the error codes of
-- src/memory_system/domain/constants/extraction_retry_policy.py and the republishing of
-- src/memory_system/domain/services/archive_event_republish_service.py.
pub mod Follows
pub mod Outcome
pub mod Restarts
use memory_system.Shared.{
  ℕ, String, Bool, true, false, ◌||◌, not, Option, none, some, List, [], ◌∷◌, str_eq, if◌then◌else◌,
}
use memory_system.Shared.Int.{ℤ}
use memory_system.Shared.Exec.{Exec, ◌>>=◌, ◌>>◌, pure, raise, gets, catch}
use memory_system.Extraction.Event.{ArchiveCreatedEvent, archive_created_event_type}
use memory_system.Extraction.Task.{Task, Status, pending, processing, completed, failed, LastError}
use memory_system.Extraction.World.{
  Deployment, Action, Error, task_not_found, retry_not_allowed, infrastructure_error,
}
use memory_system.Extraction.Repository.{
  find_extraction_task_by_user_and_archive_id, admin_reset_failed_to_pending,
  admin_mark_failed_from_admin_action,
}
use memory_system.Extraction.Strip.{strip}

abbrev pub one_of : List String → String → Bool
one_of [] s = false
one_of (x ∷ xs) s = str_eq s x || one_of xs s

abbrev pub manual_retry_allowed : List String
manual_retry_allowed =
    "llm_timeout" ∷ "llm_request_failed" ∷ "llm_invalid_output" ∷ "entity_alignment_failed"
    ∷ "graph_query_failed" ∷ "graph_write_failed" ∷ "retrieval_index_write_failed"
    ∷ "kafka_publish_failed" ∷ []

abbrev pub rebuild_allowed : List String
rebuild_allowed = "reconciliation_plan_conflict" ∷ []

abbrev pub kafka_publish_failed_error : LastError
kafka_publish_failed_error = record {
  error_code = "kafka_publish_failed";
  failed_stage = "extraction_admin";
  message = "Kafka publish failed during extraction admin action";
}

pub record ExtractionAdminGetResult : Type 0 where
  pub user_id : String
  pub archive_id : String
  pub status : Status
  pub attempt_count : ℕ
  pub last_error : Option LastError
  pub completed_time : Option ℕ

pub record ExtractionAdminMutationSuccess : Type 0 where
  pub user_id : String
  pub archive_id : String
  pub status : Status

pub data RepublishStatus : Type 0 where
  success archive_not_found archive_ownership_mismatch invalid_archive : RepublishStatus
  kafka_publish_failed invalid_input : RepublishStatus

-- What the republishing needs of a stored archive.
pub record ContextArchive : Type 0 where
  pub archive_id : String
  pub user_id : String
  pub session_id : String
  pub created_time : ℤ

-- The read of an archive: a document that is no archive raises `ValueError`.
pub data ArchiveRead : Type 0 where
  found : Option ContextArchive → ArchiveRead
  value_error : ArchiveRead

-- Only an error whose code is allowed lets a failed task be reset.
abbrev pub is_allowed : List String → Option LastError → Bool
is_allowed codes none = false
is_allowed codes (some e) = one_of codes e.error_code

module _ (d : Deployment) where
  map_task_to_get_result : Option Task → Action d ExtractionAdminGetResult
  map_task_to_get_result none = raise task_not_found
  map_task_to_get_result (some t) = pure (record {
    user_id = t.user_id;
    archive_id = t.archive_id;
    status = t.status;
    attempt_count = t.attempt_count;
    last_error = t.last_error;
    completed_time = t.completed_time;
  })

  unfoldable pub get_status : String → String → Action d ExtractionAdminGetResult
  unfolding map_task_to_get_result
  get_status u a = do
    task ← find_extraction_task_by_user_and_archive_id d u a
    map_task_to_get_result task

  -- `find_archive` is `find_context_archive_by_id`, and `publish` hands an event to the producer.
  module _ (find_archive : String → Action d ArchiveRead)
      (publish : ArchiveCreatedEvent → Action d (Unit {0})) (event_id : String) where
    pub created_event : ContextArchive → ArchiveCreatedEvent
    created_event c = record {
      event_id = event_id;
      event_type = archive_created_event_type;
      archive_id = c.archive_id;
      user_id = c.user_id;
      session_id = c.session_id;
      created_time = c.created_time;
    }

    publish_archive : ContextArchive → Action d RepublishStatus
    unfolding created_event
    publish_archive c =
        catch (do publish (created_event c); pure success) (λ e. pure kafka_publish_failed)

    republish_read : String → ArchiveRead → Action d RepublishStatus
    unfolding publish_archive
    republish_read u value_error = pure invalid_archive
    republish_read u (found none) = pure archive_not_found
    republish_read u (found (some c)) =
        if str_eq c.user_id u then publish_archive c else pure archive_ownership_mismatch

    republish_archive_created_event : String → String → Action d RepublishStatus
    unfolding republish_read
    republish_archive_created_event a u =
        let archive_id = strip a in
        if str_eq archive_id ""
        then pure invalid_input
        else (do read ← find_archive archive_id; republish_read u read)

    mark_after_publish_failure : String → String → ℕ → Action d ExtractionAdminMutationSuccess
    mark_after_publish_failure u a time = do
      catch (admin_mark_failed_from_admin_action d u a kafka_publish_failed_error time)
          (λ e. raise infrastructure_error)
      raise infrastructure_error

    finish_mutation :
        String → String → ℕ → RepublishStatus → Action d ExtractionAdminMutationSuccess
    unfolding mark_after_publish_failure
    finish_mutation u a time success =
        pure (record { user_id = u; archive_id = a; status = pending })
    finish_mutation u a time _ = mark_after_publish_failure u a time

    after_reset : String → String → ℕ → Option Task → Action d ExtractionAdminMutationSuccess
    unfolding republish_archive_created_event finish_mutation
    after_reset u a time none = raise retry_not_allowed
    after_reset u a time (some updated) = do
      status ← republish_archive_created_event a u
      finish_mutation u a time status

    reset_and_republish : String → String → ℕ → Bool → Action d ExtractionAdminMutationSuccess
    unfolding after_reset
    reset_and_republish u a time clear = do
      updated ←
          catch (admin_reset_failed_to_pending d u a time clear) (λ e. raise infrastructure_error)
      after_reset u a time updated

    check_and_reset :
        String
        → String
        → ℕ
        → Bool
        → List String
        → Option LastError
        → Status
        → Action d ExtractionAdminMutationSuccess
    unfolding reset_and_republish
    check_and_reset u a time clear codes e failed =
        if is_allowed codes e then reset_and_republish u a time clear else raise retry_not_allowed
    check_and_reset u a time clear codes e _ = raise retry_not_allowed

    mutate_found :
        String
        → String
        → ℕ
        → Bool
        → List String
        → Option Task
        → Action d ExtractionAdminMutationSuccess
    unfolding check_and_reset
    mutate_found u a time clear codes none = raise task_not_found
    mutate_found u a time clear codes (some t) =
        check_and_reset u a time clear codes t.last_error t.status

    unfoldable pub mutate_failed_to_pending_and_republish :
        String → String → ℕ → Bool → List String → Action d ExtractionAdminMutationSuccess
    unfolding mutate_found
    mutate_failed_to_pending_and_republish u a time clear codes = do
      task ← find_extraction_task_by_user_and_archive_id d u a
      mutate_found u a time clear codes task

    unfoldable pub retry_task : String → String → ℕ → Action d ExtractionAdminMutationSuccess
    unfolding mutate_failed_to_pending_and_republish
    retry_task u a time = mutate_failed_to_pending_and_republish u a time false manual_retry_allowed

    unfoldable pub rebuild_task : String → String → ℕ → Action d ExtractionAdminMutationSuccess
    unfolding mutate_failed_to_pending_and_republish
    rebuild_task u a time = mutate_failed_to_pending_and_republish u a time true rebuild_allowed
