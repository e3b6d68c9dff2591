-- ===== src/Extraction/Admin/Restarts.antt =====
-- What a retry and a rebuild do to a failed task.
use memory_system.Shared.{ℕ, ◌≡◌, String, true, false, none, some}
use memory_system.Shared.Exec.{ok}
use memory_system.Shared.Returns.{Returns}
use memory_system.Extraction.Event.{ArchiveCreatedEvent}
use memory_system.Extraction.Task.{Task, pending, failed}
use memory_system.Extraction.World.{Deployment, Action, World}
use memory_system.Extraction.Repository.Moves.{view}
use memory_system.Extraction.Repository.Quiet.{Quiet, Shows}
use memory_system.Extraction.Strip.{strip}
use memory_system.Extraction.Admin.{
  ArchiveRead, found, ContextArchive, manual_retry_allowed, rebuild_allowed, is_allowed, retry_task,
  rebuild_task,
}
use memory_system.Extraction.Admin.Outcome.{action-restarts}
use memory_system.Shared.{str_eq}

module _ (d : Deployment) (find_archive : String → Action d ArchiveRead)
    (publish : ArchiveCreatedEvent → Action d (Unit {0})) (event_id u a : String) (t : Task)
    (w : World d.collection.Db) (time : ℕ) (c : ContextArchive) (quiet : Quiet d)
    (held : view d.collection w.db a ≡ some t) (owner : t.user_id ≡ u)
    (is_failed : t.status ≡ failed) (nonempty : str_eq (strip a) "" ≡ false)
    (reads : (v : World d.collection.Db) → find_archive (strip a) v ≡ (ok (found (some c)), v))
    (owned : c.user_id ≡ u)
    (sends : (e : ArchiveCreatedEvent) (v : World d.collection.Db) → publish e v ≡ (ok tt, v)) where
  -- A retry of a failed task whose error code is one of those for a manual retry, undisturbed, when
  -- the archive belongs to the user and the producer takes the event: the retry returns, the task is
  -- pending again with its error cleared, its result and its attempts are kept, and no other archive
  -- changes.
  pub retry_task-restarts :
      is_allowed manual_retry_allowed t.last_error ≡ true
      → Returns
          (λ r w'.
            (r ≡ record { user_id = u; archive_id = a; status = pending })
            × Shows d a
                (record t { status = pending; last_error = none; updated_time = time })
                2
                w
                w')
          (retry_task d find_archive publish event_id u a time)
          w
  unfolding retry_task
  retry_task-restarts allowed =
      action-restarts d find_archive publish event_id u a t w false manual_retry_allowed time c
        quiet held owner is_failed allowed nonempty reads owned sends

  -- A rebuild of a failed task whose error code is one of those for a rebuild, undisturbed, when the
  -- archive belongs to the user and the producer takes the event: the rebuild returns, the task is
  -- pending again with its error and its result cleared, its attempts are kept, and no other archive
  -- changes.
  pub rebuild_task-restarts :
      is_allowed rebuild_allowed t.last_error ≡ true
      → Returns
          (λ r w'.
            (r ≡ record { user_id = u; archive_id = a; status = pending })
            × Shows d a
                (record t {
                  status = pending;
                  extraction_result = none;
                  last_error = none;
                  updated_time = time;
                })
                2
                w
                w')
          (rebuild_task d find_archive publish event_id u a time)
          w
  unfolding rebuild_task
  rebuild_task-restarts allowed =
      action-restarts d find_archive publish event_id u a t w true rebuild_allowed time c quiet held
        owner is_failed allowed nonempty reads owned sends
