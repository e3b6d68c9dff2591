-- ===== src/Extraction/Consumer/Commit.antt =====
-- When the consumer lets the offset be committed, the task is settled in the collection.
use mathlib.Core.Path.{subst}
use memory_system.Shared.{◌≡◌, refl, inl, inr, String, Option, none, some, true}
use memory_system.Shared.Exec.{
  ok, Ensures, Ensures-at, Ensures-gets, Ensures-pure, Ensures-raise, Ensures-bind, Ensures-catch,
}
use memory_system.Extraction.Event.{ArchiveCreatedEvent}
use memory_system.Extraction.Task.{Task, Status, completed, failed, LastError}
use memory_system.Extraction.World.{Deployment, World, Action}
use memory_system.Extraction.Repository.Replies.{
  IsStored, StoredIf, upsert-Ensures, any-Ensures, mark_completed-Ensures, mark_failed-Ensures,
}
use memory_system.Extraction.Consumer.{
  PipelineTerminalDecision, complete, fail, abort_without_terminal, Claim, settled, claimed,
  ProcessArchiveCreatedResult, or_persist_error, write_completed, write_failed, completed_or_write,
  unless_completed, failed_or_write, unless_failed, persist, run_claim,
  process_archive_created_event,
}
use memory_system.Extraction.Consumer.Claims.{
  IsTerminal, Settles, Claims, settled_by, find_at, claim_task-Claims,
}

module _ (d : Deployment) (a : String) where
  write_completed-Settles :
      (t : Task) (w : World d.collection.Db)
      → t.archive_id ≡ a
      → Ensures (Settles d a) (write_completed d t) w
  unfolding write_completed or_persist_error
  write_completed-Settles t w e = Ensures-gets _ _ _ w (
      Ensures-bind _ _ _ _ w
        (Ensures-catch _ _ _ w (mark_completed-Ensures d t.archive_id _ w)
          (λ x w'. Ensures-raise _ _ w'))
        λ u w' h.
          Ensures-pure _ _ w'
            (settled_by d a u w' (subst (λ x. IsStored d x u w') e h.0) (inl h.1)))

  write_failed-Settles :
      (t : Task) (x : LastError) (w : World d.collection.Db)
      → t.archive_id ≡ a
      → Ensures (Settles d a) (write_failed d t x) w
  unfolding write_failed or_persist_error
  write_failed-Settles t x w e = Ensures-gets _ _ _ w (
      Ensures-bind _ _ _ _ w
        (Ensures-catch _ _ _ w (mark_failed-Ensures d t.archive_id x _ w)
          (λ x' w'. Ensures-raise _ _ w'))
        λ u w' h.
          Ensures-pure _ _ w'
            (settled_by d a u w' (subst (λ y. IsStored d y u w') e h.0) (inr h.1)))

  completed_or_write-Settles :
      (t r : Task) (s : Status) (w : World d.collection.Db)
      → t.archive_id ≡ a
      → IsStored d a r w
      → r.status ≡ s
      → Ensures (Settles d a) (completed_or_write d t r s) w
  unfolding completed_or_write
  completed_or_write-Settles t r completed w e h k =
      Ensures-pure _ _ w (settled_by d a r w h (inl k))
  completed_or_write-Settles t r _ w e h k = write_completed-Settles t w e

  failed_or_write-Settles :
      (t : Task) (x : LastError) (r : Task) (s : Status) (w : World d.collection.Db)
      → t.archive_id ≡ a
      → IsStored d a r w
      → r.status ≡ s
      → Ensures (Settles d a) (failed_or_write d t x r s) w
  unfolding failed_or_write
  failed_or_write-Settles t x r failed w e h k = Ensures-pure _ _ w (settled_by d a r w h (inr k))
  failed_or_write-Settles t x r _ w e h k = write_failed-Settles t x w e

  unless_completed-Settles :
      (t : Task) (o : Option Task) (w : World d.collection.Db)
      → t.archive_id ≡ a
      → StoredIf d a o w
      → Ensures (Settles d a) (unless_completed d t o) w
  unfolding unless_completed
  unless_completed-Settles t none w e h = write_completed-Settles t w e
  unless_completed-Settles t (some r) w e h = completed_or_write-Settles t r r.status w e h refl

  unless_failed-Settles :
      (t : Task) (x : LastError) (o : Option Task) (w : World d.collection.Db)
      → t.archive_id ≡ a
      → StoredIf d a o w
      → Ensures (Settles d a) (unless_failed d t x o) w
  unfolding unless_failed
  unless_failed-Settles t x none w e h = write_failed-Settles t x w e
  unless_failed-Settles t x (some r) w e h = failed_or_write-Settles t x r r.status w e h refl

  persist-Settles :
      (t : Task) (p : PipelineTerminalDecision) (w : World d.collection.Db)
      → t.archive_id ≡ a
      → Ensures (Settles d a) (persist d t p) w
  unfolding persist or_persist_error
  persist-Settles t abort_without_terminal w e = Ensures-pure _ _ w (λ c. cc)
  persist-Settles t complete w e =
      Ensures-bind _ _ _ _ w
        (Ensures-catch _ _ _ w (find_at d a t w e) (λ x w'. Ensures-raise _ _ w'))
        (λ o w'. unless_completed-Settles t o w' e)
  persist-Settles t (fail x) w e =
      Ensures-bind _ _ _ _ w
        (Ensures-catch _ _ _ w (find_at d a t w e) (λ y w'. Ensures-raise _ _ w'))
        (λ o w'. unless_failed-Settles t x o w' e)

  module _ (pipeline : Task → ArchiveCreatedEvent → Action d PipelineTerminalDecision) where
    run_claim-Settles :
        (event : ArchiveCreatedEvent) (c : Claim) (w : World d.collection.Db)
        → Claims d a c w
        → Ensures (Settles d a) (run_claim d pipeline event c) w
    unfolding run_claim
    run_claim-Settles event (settled r) w h = Ensures-pure _ r w h
    run_claim-Settles event (claimed t) w h =
        Ensures-bind _ _ _ _ w (any-Ensures d (pipeline t event) w)
          (λ p w' _. persist-Settles t p w' h)

process-Settles :
    (d : Deployment) (pipeline : Task → ArchiveCreatedEvent → Action d PipelineTerminalDecision)
    (event : ArchiveCreatedEvent) (w : World d.collection.Db)
    → Ensures (Settles d event.archive_id) (process_archive_created_event d pipeline event) w
unfolding process_archive_created_event
process-Settles d pipeline event w = Ensures-gets _ _ _ w (
    Ensures-bind _ _ _ _ w (upsert-Ensures d event.archive_id event.user_id _ w) λ t w1 h.
      Ensures-bind _ _ _ _ w1 (claim_task-Claims d event.archive_id t t.status w1 h refl)
        (run_claim-Settles d event.archive_id pipeline event))

-- Whatever other workers do between the calls, whatever faults occur and whatever the pipeline
-- does: if the consumer returns a result that lets the offset be committed, then the result names
-- a task, the collection holds exactly that task for the archive of the event, and the task is
-- completed or failed.
pub process-commit :
    (d : Deployment) (pipeline : Task → ArchiveCreatedEvent → Action d PipelineTerminalDecision)
    (event : ArchiveCreatedEvent) (w : World d.collection.Db) (r : ProcessArchiveCreatedResult)
    → (process_archive_created_event d pipeline event w).0 ≡ ok r
    → r.should_commit_offset ≡ true
    → (t : Task) × (r.task ≡ some t)
      × IsStored d event.archive_id t (process_archive_created_event d pipeline event w).1
      × IsTerminal t.status
process-commit d pipeline event w r returned committed =
    Ensures-at _ _ w r (process-Settles d pipeline event w) returned committed
