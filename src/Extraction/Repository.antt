-- ===== src/Extraction/Repository.antt =====
-- src/memory_system/infrastructure/mongodb/extraction_task_repository.py: each function is one call
-- to the collection, with the filter and the update document of the source.
pub mod Moves
pub mod Replies
pub mod Quiet
use memory_system.Shared.{ℕ, String, Option, none, some, [], ◌∷◌, Bool, if◌then◌else◌}
use memory_system.Shared.Exec.{◌>>=◌, ◌>>◌, pure, raise, catch}
use memory_system.Extraction.Task.{
  Task, Status, pending, processing, completed, failed, LastError, Filter, Update,
}
use memory_system.Extraction.Collection.{by_archive}
use memory_system.Extraction.World.{
  Deployment, Action, call, Error, duplicate_key, mongo_error, missing_after_upsert,
  mark_completed_failed, mark_failed_failed, admin_mark_failed_failed,
}

abbrev pub in_status : String → Status → Filter
in_status a s = record { archive_id = a; user_id = none; statuses = some (s ∷ []) }

abbrev pub new_task : String → String → String → ℕ → Task
new_task id a u time = record {
  task_id = id;
  archive_id = a;
  user_id = u;
  status = pending;
  attempt_count = 0;
  extraction_result = none;
  last_error = none;
  created_time = time;
  updated_time = time;
  completed_time = none;
}

abbrev pub to_processing : ℕ → Update
to_processing time = record {
  set_status = some processing;
  set_last_error = some none;
  new_extraction_result = none;
  set_updated_time = time;
  set_completed_time = none;
  inc_attempt_count = 1;
}

abbrev pub bump : ℕ → Update
bump time = record {
  set_status = none;
  set_last_error = none;
  new_extraction_result = none;
  set_updated_time = time;
  set_completed_time = none;
  inc_attempt_count = 1;
}

abbrev pub to_completed : ℕ → Update
to_completed time = record {
  set_status = some completed;
  set_last_error = some none;
  new_extraction_result = none;
  set_updated_time = time;
  set_completed_time = some time;
  inc_attempt_count = 0;
}

abbrev pub with_result : String → ℕ → Update
with_result result time = record {
  set_status = none;
  set_last_error = none;
  new_extraction_result = some (some result);
  set_updated_time = time;
  set_completed_time = none;
  inc_attempt_count = 0;
}

abbrev pub to_failed : LastError → ℕ → Update
to_failed e time = record {
  set_status = some failed;
  set_last_error = some (some e);
  new_extraction_result = none;
  set_updated_time = time;
  set_completed_time = none;
  inc_attempt_count = 0;
}

abbrev pub to_pending : Bool → ℕ → Update
to_pending clear time = record {
  set_status = some pending;
  set_last_error = some none;
  new_extraction_result = if clear then some none else none;
  set_updated_time = time;
  set_completed_time = none;
  inc_attempt_count = 0;
}

module _ (d : Deployment) where
  open d.collection use {Db, find_one, find_one_and_update, upsert}

  unfoldable pub find_extraction_task_by_archive_id : String → Action d (Option Task)
  find_extraction_task_by_archive_id a = call d (λ db. (find_one (by_archive a) db, db))

  unfoldable pub find_extraction_task_by_user_and_archive_id :
      String → String → Action d (Option Task)
  find_extraction_task_by_user_and_archive_id u a =
      call d
        (λ db. (find_one (record { archive_id = a; user_id = some u; statuses = none }) db, db))

  -- DuplicateKeyError is passed over.
  ignore_duplicate : Error → Action d (Unit {0})
  ignore_duplicate (mongo_error duplicate_key) = pure tt
  ignore_duplicate e = raise e

  pub require : Error → Option Task → Action d Task
  require e none = raise e
  require e (some t) = pure t

  insert_if_missing : String → String → ℕ → Action d (Unit {0})
  insert_if_missing a u time w =
      call d (λ db. (tt, upsert a (new_task (d.uuid w.tick) a u time) db)) w

  unfoldable pub upsert_pending_extraction_task : String → String → ℕ → Action d Task
  unfolding ignore_duplicate require insert_if_missing
  upsert_pending_extraction_task a u time = do
    catch (insert_if_missing a u time) ignore_duplicate
    found ← find_extraction_task_by_archive_id a
    require missing_after_upsert found

  unfoldable pub mark_processing_from_pending : String → ℕ → Action d (Option Task)
  mark_processing_from_pending a time =
      call d (find_one_and_update (in_status a pending) (to_processing time))

  unfoldable pub bump_processing_attempt : String → ℕ → Action d (Option Task)
  bump_processing_attempt a time = call d (find_one_and_update (in_status a processing) (bump time))

  unfoldable pub mark_completed : String → ℕ → Action d Task
  unfolding require
  mark_completed a time = do
    document ← call d (find_one_and_update (in_status a processing) (to_completed time))
    require mark_completed_failed document

  unfoldable pub set_extraction_result : String → String → ℕ → Action d (Option Task)
  set_extraction_result a result time =
      call d (find_one_and_update (in_status a processing) (with_result result time))

  unfoldable pub mark_failed : String → LastError → ℕ → Action d Task
  unfolding require
  mark_failed a e time = do
    document ← call d (find_one_and_update (in_status a processing) (to_failed e time))
    require mark_failed_failed document

  unfoldable pub admin_reset_failed_to_pending : String → String → ℕ → Bool → Action d (Option Task)
  admin_reset_failed_to_pending u a time clear = call d (
      find_one_and_update
        (record { archive_id = a; user_id = some u; statuses = some (failed ∷ []) })
        (to_pending clear time))

  unfoldable pub admin_mark_failed_from_admin_action :
      String → String → LastError → ℕ → Action d Task
  unfolding require
  admin_mark_failed_from_admin_action u a e time = do
    document ← call d (
        find_one_and_update
          (record { archive_id = a; user_id = some u; statuses = some (pending ∷ failed ∷ []) })
          (to_failed e time))
    require admin_mark_failed_failed document
