-- ===== src/Extraction/Consumer/Follows.antt =====
-- The consumer moves every task along its life only.
use mathlib.Core.Path.{subst}
use memory_system.Shared.{sym, ◌≡◌, String, Option, none, some}
use memory_system.Shared.Exec.{
  Keeps, Keeps-pure, Keeps-raise, Keeps-bind, Keeps-catch, Keeps-gets, keeps_rules,
}
use memory_system.Extraction.Event.{ArchiveCreatedEvent}
use memory_system.Extraction.Task.{Task, Status, pending, processing, completed, failed, LastError}
use memory_system.Extraction.World.{Deployment, World, Action}
use memory_system.Extraction.Lifecycle.{
  Reach, here, Holds, IsWellFormed, Reach-IsWellFormed, Reach-trans, Reach-completed,
  Reach-Continues, Continues, SameTask, SameTask-refl, Continues-task,
}
use memory_system.Extraction.Repository.Moves.{
  view, OthersFollow, Since, find-Keeps, upsert-Keeps, mark_processing-Keeps, bump-Keeps,
  mark_completed-Keeps, mark_failed-Keeps,
}
use memory_system.Extraction.Consumer.{
  PipelineTerminalDecision, complete, fail, abort_without_terminal, Claim, settled, claimed,
  after_pending_race, after_pending_reload, pending_transitioned, after_processing_race,
  after_processing_reload, processing_bumped, claim_task, or_persist_error, write_completed,
  write_failed, completed_or_write, unless_completed, failed_or_write, unless_failed, persist,
  run_claim, process_archive_created_event,
}

module _ (d : Deployment) (follow : OthersFollow d) (o : Option Task) (b : String) where
  pending_race-Keeps : (t : Task) (s : Status) → Keeps (Since d o b) (after_pending_race d t s)
  unfolding after_pending_race
  pending_race-Keeps t processing = search (keeps_rules, bump-Keeps d follow o b)
  pending_race-Keeps t pending = Keeps-raise _
  pending_race-Keeps t _ = Keeps-pure _

  pending_reload-Keeps : (r : Option Task) → Keeps (Since d o b) (after_pending_reload d r)
  unfolding after_pending_reload
  pending_reload-Keeps none = Keeps-raise _
  pending_reload-Keeps (some t) = pending_race-Keeps t t.status

  transitioned-Keeps :
      (t : Task) (r : Option Task) → Keeps (Since d o b) (pending_transitioned d t r)
  unfolding pending_transitioned
  transitioned-Keeps t none =
      Keeps-bind _ _ (find-Keeps d follow o b t.archive_id) pending_reload-Keeps
  transitioned-Keeps t (some x) = Keeps-pure _

  processing_race-Keeps :
      (t : Task) (s : Status) → Keeps (Since d o b) (after_processing_race d t s)
  unfolding after_processing_race
  processing_race-Keeps t completed = Keeps-pure _
  processing_race-Keeps t _ = Keeps-pure _

  processing_reload-Keeps : (r : Option Task) → Keeps (Since d o b) (after_processing_reload d r)
  unfolding after_processing_reload
  processing_reload-Keeps none = Keeps-raise _
  processing_reload-Keeps (some t) = processing_race-Keeps t t.status

  bumped-Keeps : (t : Task) (r : Option Task) → Keeps (Since d o b) (processing_bumped d t r)
  unfolding processing_bumped
  bumped-Keeps t none =
      Keeps-bind _ _ (find-Keeps d follow o b t.archive_id) processing_reload-Keeps
  bumped-Keeps t (some x) = Keeps-pure _

  claim_task-Keeps : (t : Task) (s : Status) → Keeps (Since d o b) (claim_task d t s)
  unfolding claim_task
  claim_task-Keeps t pending =
      search (keeps_rules, mark_processing-Keeps d follow o b, transitioned-Keeps)
  claim_task-Keeps t processing = search (keeps_rules, bump-Keeps d follow o b, bumped-Keeps)
  claim_task-Keeps t _ = Keeps-pure _

  or_persist-Keeps :
      {A : Type 0} (m : Action d A)
      → Keeps (Since d o b) m
      → Keeps (Since d o b) (or_persist_error d m)
  unfolding or_persist_error
  or_persist-Keeps m k = Keeps-catch m _ k (λ e. Keeps-raise _)

  write_completed-Keeps : (t : Task) → Keeps (Since d o b) (write_completed d t)
  unfolding write_completed
  write_completed-Keeps t =
      search (keeps_rules, or_persist-Keeps, mark_completed-Keeps d follow o b)

  write_failed-Keeps : (t : Task) (e : LastError) → Keeps (Since d o b) (write_failed d t e)
  unfolding write_failed
  write_failed-Keeps t e = search (keeps_rules, or_persist-Keeps, mark_failed-Keeps d follow o b)

  completed_or_write-Keeps :
      (t r : Task) (s : Status) → Keeps (Since d o b) (completed_or_write d t r s)
  unfolding completed_or_write
  completed_or_write-Keeps t r completed = Keeps-pure _
  completed_or_write-Keeps t r _ = write_completed-Keeps t

  unless_completed-Keeps :
      (t : Task) (r : Option Task) → Keeps (Since d o b) (unless_completed d t r)
  unfolding unless_completed
  unless_completed-Keeps t none = write_completed-Keeps t
  unless_completed-Keeps t (some x) = completed_or_write-Keeps t x x.status

  failed_or_write-Keeps :
      (t : Task) (e : LastError) (r : Task) (s : Status)
      → Keeps (Since d o b) (failed_or_write d t e r s)
  unfolding failed_or_write
  failed_or_write-Keeps t e r failed = Keeps-pure _
  failed_or_write-Keeps t e r _ = write_failed-Keeps t e

  unless_failed-Keeps :
      (t : Task) (e : LastError) (r : Option Task) → Keeps (Since d o b) (unless_failed d t e r)
  unfolding unless_failed
  unless_failed-Keeps t e none = write_failed-Keeps t e
  unless_failed-Keeps t e (some x) = failed_or_write-Keeps t e x x.status

  persist-Keeps : (t : Task) (p : PipelineTerminalDecision) → Keeps (Since d o b) (persist d t p)
  unfolding persist
  persist-Keeps t abort_without_terminal = Keeps-pure _
  persist-Keeps t complete =
      Keeps-bind _ _ (or_persist-Keeps _ (find-Keeps d follow o b t.archive_id))
        (unless_completed-Keeps t)
  persist-Keeps t (fail e) =
      Keeps-bind _ _ (or_persist-Keeps _ (find-Keeps d follow o b t.archive_id))
        (unless_failed-Keeps t e)

  module _ (pipeline : Task → ArchiveCreatedEvent → Action d PipelineTerminalDecision)
      (pipeline_keeps : (t : Task) (event : ArchiveCreatedEvent)
        → Keeps (Since d o b) (pipeline t event)) where
    run_claim-Keeps :
        (event : ArchiveCreatedEvent) (c : Claim)
        → Keeps (Since d o b) (run_claim d pipeline event c)
    unfolding run_claim
    run_claim-Keeps event (settled r) = Keeps-pure r
    run_claim-Keeps event (claimed t) = Keeps-bind _ _ (pipeline_keeps t event) (persist-Keeps t)

    process-Keeps :
        (event : ArchiveCreatedEvent)
        → Keeps (Since d o b) (process_archive_created_event d pipeline event)
    unfolding process_archive_created_event
    process-Keeps event = Keeps-bind _ _ (Keeps-gets _) λ time.
        Keeps-bind _ _ (upsert-Keeps d follow o b event.archive_id event.user_id time)
          λ t. Keeps-bind _ _ (claim_task-Keeps t t.status) (run_claim-Keeps event)

-- What the pipeline does to the collection is made of events in the life of a task.
abbrev pub PipelineFollows :
    (d : Deployment) → (Task → ArchiveCreatedEvent → Action d PipelineTerminalDecision) → Type 0
PipelineFollows d pipeline =
    (t : Task) (event : ArchiveCreatedEvent) (w : World d.collection.Db) (a : String)
    → Reach (view d.collection w.db a) (view d.collection (pipeline t event w).1.db a)

module _ (d : Deployment)
    (pipeline : Task → ArchiveCreatedEvent → Action d PipelineTerminalDecision)
    (event : ArchiveCreatedEvent) (w : World d.collection.Db) where
  abbrev after : World d.collection.Db
  after = (process_archive_created_event d pipeline event w).1

  -- If other workers and the pipeline change the collection only by events in the life of a task
  -- (created, claimed, delivered again, given a result, completed, failed, reset, given up), then
  -- so does the consumer, to the task of every archive, whether it returns or raises.
  pub process-Reach :
      OthersFollow d
      → PipelineFollows d pipeline
      → (a : String) → Reach (view d.collection w.db a) (view d.collection after.db a)
  process-Reach others pipes a =
      (process-Keeps d others (view d.collection w.db a) a pipeline
          (λ t e. record { at = λ v r. Reach-trans r (pipes t e v a) }) event).at
        w here

  -- Under the same hypotheses a well-formed task stays well-formed: it has a time of completion
  -- exactly if it is completed and an error exactly if it failed, and a claimed one was attempted.
  pub process-IsWellFormed :
      OthersFollow d
      → PipelineFollows d pipeline
      → (a : String) → Holds IsWellFormed (view d.collection w.db a)
      → Holds IsWellFormed (view d.collection after.db a)
  process-IsWellFormed others pipes a h = Reach-IsWellFormed (process-Reach others pipes a) h

  -- Under the same hypotheses a completed task is never touched again, by whatever event.
  pub process-completed :
      OthersFollow d
      → PipelineFollows d pipeline
      → (a : String) (t : Task) → view d.collection w.db a ≡ some t
      → t.status ≡ completed
      → view d.collection after.db a ≡ some t
  process-completed others pipes a t held done =
      Reach-completed t (process-Reach others pipes a) held done

  -- Under the same hypotheses a stored task keeps its ids, its owner and its time of creation, and
  -- its attempts are never counted down.
  pub process-Continues :
      OthersFollow d
      → PipelineFollows d pipeline
      → (a : String) (t : Task) → view d.collection w.db a ≡ some t
      → (t' : Task) × (view d.collection after.db a ≡ some t') × SameTask t t'
  process-Continues others pipes a t held = Continues-task t _ (
      Reach-Continues t (process-Reach others pipes a)
        (subst (Continues t) (sym held) (SameTask-refl t)))
