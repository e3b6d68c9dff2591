-- ===== src/Extraction/Consumer.antt =====
-- src/memory_system/domain/services/extraction_task_consumer_service.py: what one archive-created
-- event does to its task, and whether its Kafka offset may be committed. Logs and metrics are left
-- out: they change nothing.
pub mod Follows
pub mod Claims
pub mod Commit
pub mod Outcome
use memory_system.Shared.{ℕ, String, Bool, true, false, Option, none, some}
use memory_system.Shared.Exec.{Exec, ◌>>=◌, ◌>>◌, pure, raise, gets, catch}
use memory_system.Extraction.Event.{ArchiveCreatedEvent}
use memory_system.Extraction.Task.{Task, Status, pending, processing, completed, failed, LastError}
use memory_system.Extraction.World.{
  Deployment, Action, World, now, Error, task_vanished, unexpected_status, terminal_persist_error,
}
use memory_system.Extraction.Repository.{
  find_extraction_task_by_archive_id, upsert_pending_extraction_task, mark_processing_from_pending,
  bump_processing_attempt, mark_completed, mark_failed,
}

-- The decision of the pipeline: its validator ties `last_error` to the kind `fail`.
pub data PipelineTerminalDecision : Type 0 where
  complete : PipelineTerminalDecision
  fail : LastError → PipelineTerminalDecision
  abort_without_terminal : PipelineTerminalDecision

pub record ProcessArchiveCreatedResult : Type 0 where
  pub should_commit_offset : Bool
  pub task : Option Task

-- An early return of the handler, or the task with which the pipeline runs.
pub data Claim : Type 0 where
  settled : ProcessArchiveCreatedResult → Claim
  claimed : Task → Claim

abbrev pub commit : Task → ProcessArchiveCreatedResult
commit t = record { should_commit_offset = true; task = some t }

module _ (d : Deployment) where
  -- bumped or reloaded
  or_reloaded : Option Task → Task → Task
  or_reloaded none reloaded = reloaded
  or_reloaded (some bumped) reloaded = bumped

  -- The status found after a lost race for a pending task.
  after_pending_race : Task → Status → Action d Claim
  unfolding or_reloaded
  after_pending_race reloaded completed = pure (settled (commit reloaded))
  after_pending_race reloaded failed = pure (settled (commit reloaded))
  after_pending_race reloaded processing = do
    time ← gets (now d)
    bumped ← bump_processing_attempt d reloaded.archive_id time
    pure (claimed (or_reloaded bumped reloaded))
  after_pending_race reloaded pending = raise unexpected_status

  after_pending_reload : Option Task → Action d Claim
  unfolding after_pending_race
  after_pending_reload none = raise task_vanished
  after_pending_reload (some reloaded) = after_pending_race reloaded reloaded.status

  pending_transitioned : Task → Option Task → Action d Claim
  unfolding after_pending_reload
  pending_transitioned t (some transitioned) = pure (claimed transitioned)
  pending_transitioned t none = do
    reloaded ← find_extraction_task_by_archive_id d t.archive_id
    after_pending_reload reloaded

  after_processing_race : Task → Status → Action d Claim
  after_processing_race reloaded completed = pure (settled (commit reloaded))
  after_processing_race reloaded failed = pure (settled (commit reloaded))
  after_processing_race reloaded _ = pure (claimed reloaded)

  after_processing_reload : Option Task → Action d Claim
  unfolding after_processing_race
  after_processing_reload none = raise task_vanished
  after_processing_reload (some reloaded) = after_processing_race reloaded reloaded.status

  processing_bumped : Task → Option Task → Action d Claim
  unfolding after_processing_reload
  processing_bumped t (some bumped) = pure (claimed bumped)
  processing_bumped t none = do
    reloaded ← find_extraction_task_by_archive_id d t.archive_id
    after_processing_reload reloaded

  -- The branches on the status of the task that the upsert returned.
  pub claim_task : Task → Status → Action d Claim
  unfolding pending_transitioned processing_bumped
  claim_task t completed = pure (settled (commit t))
  claim_task t failed = pure (settled (commit t))
  claim_task t pending = do
    time ← gets (now d)
    transitioned ← mark_processing_from_pending d t.archive_id time
    pending_transitioned t transitioned
  claim_task t processing = do
    time ← gets (now d)
    bumped ← bump_processing_attempt d t.archive_id time
    processing_bumped t bumped

  -- try: …  except Exception as exc: raise TerminalPersistError from exc
  or_persist_error : {A : Type 0} → Action d A → Action d A
  or_persist_error m = catch m (λ e. raise terminal_persist_error)

  write_completed : Task → Action d ProcessArchiveCreatedResult
  unfolding or_persist_error
  write_completed t = do
    time ← gets (now d)
    done ← or_persist_error (mark_completed d t.archive_id time)
    pure (commit done)

  write_failed : Task → LastError → Action d ProcessArchiveCreatedResult
  unfolding or_persist_error
  write_failed t e = do
    time ← gets (now d)
    done ← or_persist_error (mark_failed d t.archive_id e time)
    pure (commit done)

  completed_or_write : Task → Task → Status → Action d ProcessArchiveCreatedResult
  unfolding write_completed
  completed_or_write t reloaded completed = pure (commit reloaded)
  completed_or_write t reloaded _ = write_completed t

  unless_completed : Task → Option Task → Action d ProcessArchiveCreatedResult
  unfolding completed_or_write
  unless_completed t none = write_completed t
  unless_completed t (some reloaded) = completed_or_write t reloaded reloaded.status

  failed_or_write : Task → LastError → Task → Status → Action d ProcessArchiveCreatedResult
  unfolding write_failed
  failed_or_write t e reloaded failed = pure (commit reloaded)
  failed_or_write t e reloaded _ = write_failed t e

  unless_failed : Task → LastError → Option Task → Action d ProcessArchiveCreatedResult
  unfolding failed_or_write
  unless_failed t e none = write_failed t e
  unless_failed t e (some reloaded) = failed_or_write t e reloaded reloaded.status

  -- The terminal write of the decision.
  persist : Task → PipelineTerminalDecision → Action d ProcessArchiveCreatedResult
  unfolding unless_completed unless_failed
  persist t abort_without_terminal = pure (record { should_commit_offset = false; task = some t })
  persist t complete = do
    reloaded ← or_persist_error (find_extraction_task_by_archive_id d t.archive_id)
    unless_completed t reloaded
  persist t (fail e) = do
    reloaded ← or_persist_error (find_extraction_task_by_archive_id d t.archive_id)
    unless_failed t e reloaded

  -- `pipeline` is the injected `ExtractionPipelinePort`.
  module _ (pipeline : Task → ArchiveCreatedEvent → Action d PipelineTerminalDecision) where
    run_claim : ArchiveCreatedEvent → Claim → Action d ProcessArchiveCreatedResult
    unfolding persist
    run_claim event (settled r) = pure r
    run_claim event (claimed t) = do decision ← pipeline t event; persist t decision

    unfoldable pub process_archive_created_event :
        ArchiveCreatedEvent → Action d ProcessArchiveCreatedResult
    unfolding claim_task run_claim
    process_archive_created_event event = do
      time ← gets (now d)
      task ← upsert_pending_extraction_task d event.archive_id event.user_id time
      c ← claim_task task task.status
      run_claim event c
