-- ===== src/Extraction/Consumer/Outcome.antt =====
-- What the consumer does to one event while nothing disturbs it: a table over the status of the
-- task and the decision of the pipeline.
use mathlib.Core.Path.{subst}
use memory_system.Shared.{
  ap, str_eq, if◌then◌else◌, ℕ, ◌+◌, ◌≡◌, refl, sym, ◌∙◌, String, Bool, true, false, Option, none,
  some, arith,
}
use memory_system.Shared.Exec.{ok, pure, ◌>>=◌}
use memory_system.Shared.Returns.{
  Returns, Returns-mono, Returns-pure, Returns-bind, Returns-catch, Returns-gets,
}
use memory_system.Extraction.Event.{ArchiveCreatedEvent}
use memory_system.Extraction.Task.{
  Task, Status, pending, processing, completed, failed, LastError, apply,
}
use memory_system.Extraction.World.{Deployment, World, Action}
use memory_system.Extraction.Repository.{new_task, to_processing, bump, to_completed}
use memory_system.Extraction.Repository.Moves.{view}
use memory_system.Extraction.Repository.Quiet.{
  Quiet, merged, Shows, Shows-held, Shows-same, started, find-Returns, upsert-Returns,
  mark_processing-Returns, bump-Returns, mark_completed-Returns, apply-to_failed,
  mark_failed-Returns,
}
use memory_system.Extraction.Consumer.{
  PipelineTerminalDecision, complete, fail, abort_without_terminal, Claim, settled, claimed,
  ProcessArchiveCreatedResult, commit, pending_transitioned, processing_bumped, claim_task,
  or_persist_error, write_completed, write_failed, completed_or_write, unless_completed,
  failed_or_write, unless_failed, persist, run_claim, process_archive_created_event,
}

-- The task with which the pipeline runs.
abbrev pub attempted : ℕ → Status → Task → Task
attempted now pending t = record t {
  status = processing;
  attempt_count = t.attempt_count + 1;
  last_error = none;
  updated_time = now;
}
attempted now processing t = record t { attempt_count = t.attempt_count + 1; updated_time = now }
attempted now _ t = t

-- What the decision makes of it.
abbrev pub decided : ℕ → PipelineTerminalDecision → Task → Task
decided now complete t = record t {
  status = completed;
  last_error = none;
  updated_time = now;
  completed_time = some now;
}
decided now (fail e) t = record t { status = failed; last_error = some e; updated_time = now }
decided now abort_without_terminal t = t

abbrev pub is_decision : PipelineTerminalDecision → Bool
is_decision abort_without_terminal = false
is_decision _ = true

-- The whole table: a settled task is left alone, and its offset committed.
abbrev pub delivered : ℕ → ℕ → PipelineTerminalDecision → Status → Task → Task
delivered now later p completed t = t
delivered now later p failed t = t
delivered now later p pending t = decided later p (attempted now pending t)
delivered now later p processing t = decided later p (attempted now processing t)

abbrev pub commits : PipelineTerminalDecision → Status → Bool
commits p completed = true
commits p failed = true
commits p _ = is_decision p

-- A run that leaves the archive `a` with the task `t`, and every other archive as it was.
pub record IsOutcome (d : Deployment) (a : String) (t : Task) (b : Bool) (w : World d.collection.Db)
    (r : ProcessArchiveCreatedResult) (w' : World d.collection.Db) : Type 0 where
  pub committed : r.should_commit_offset ≡ b
  pub returned : r.task ≡ some t
  pub shown :
      (c : String)
      → view d.collection w'.db c ≡ (if str_eq a c then some t else view d.collection w.db c)

-- The updates of the repository, as the table has them.
apply-to_processing : (now : ℕ) (t : Task) → apply (to_processing now) t ≡ attempted now pending t
apply-to_processing now t = ground arith

apply-bump : (now : ℕ) (t : Task) → apply (bump now) t ≡ attempted now processing t
apply-bump now t = ground arith

apply-to_completed : (now : ℕ) (t : Task) → apply (to_completed now) t ≡ decided now complete t
apply-to_completed now t = ground arith

module _ (d : Deployment) (quiet : Quiet d) where
  committed-IsOutcome :
      {a : String} (t t' : Task) (k : ℕ) (w w' : World d.collection.Db)
      → t' ≡ t
      → Shows d a t k w w'
      → IsOutcome d a t true w (commit t') w'
  committed-IsOutcome t t' k w w' e s = record {
    committed = refl;
    returned = ap some e;
    shown = s.shown;
  }

  -- An outcome after calls that left the archive with some task.
  later-IsOutcome :
      {a : String} {t t' : Task} {b : Bool} {k : ℕ} {w w1 w' : World d.collection.Db}
      {r : ProcessArchiveCreatedResult}
      → Shows d a t' k w w1
      → IsOutcome d a t b w1 r w'
      → IsOutcome d a t b w r w'
  later-IsOutcome {a} s o = record {
    committed = o.committed;
    returned = o.returned;
    shown = λ c. o.shown c ∙ merged _ _ _ _ (str_eq a c) (s.shown c);
  }

  module _ (t : Task) (w : World d.collection.Db)
      (held : view d.collection w.db t.archive_id ≡ some t) (k : t.status ≡ processing) where
    write_completed-Returns :
        Returns
          (IsOutcome d t.archive_id (decided (d.clock w.tick) complete t) true w)
          (write_completed d t)
          w
    unfolding write_completed or_persist_error
    write_completed-Returns =
        let now = d.clock w.tick in
        let e = apply-to_completed now t in
        Returns-gets _ _ _ w (
          Returns-bind _ _ _ _ w
            (Returns-catch _ _ _ w (mark_completed-Returns d quiet t.archive_id t w held now k))
            λ t' w' h. Returns-pure _ _ w' (
              committed-IsOutcome _ t' 1 w w' (h.0 ∙ e)
                (subst (λ x. Shows d t.archive_id x 1 w w') e h.1)))

    write_failed-Returns :
        (x : LastError)
        → Returns
            (IsOutcome d t.archive_id (decided (d.clock w.tick) (fail x) t) true w)
            (write_failed d t x)
            w
    unfolding write_failed or_persist_error
    write_failed-Returns x =
        let now = d.clock w.tick in
        let e = apply-to_failed x now t in
        Returns-gets _ _ _ w (
          Returns-bind _ _ _ _ w
            (Returns-catch _ _ _ w (mark_failed-Returns d quiet t.archive_id t w held x now k))
            λ t' w' h. Returns-pure _ _ w' (
              committed-IsOutcome _ t' 1 w w' (h.0 ∙ e)
                (subst (λ y. Shows d t.archive_id y 1 w w') e h.1)))

    completed_or_write-Returns :
        (s : Status)
        → s ≡ processing
        → Returns
            (IsOutcome d t.archive_id (decided (d.clock w.tick) complete t) true w)
            (completed_or_write d t t s)
            w
    unfolding completed_or_write
    completed_or_write-Returns completed e = absurd (cc)
    completed_or_write-Returns _ e = write_completed-Returns

    failed_or_write-Returns :
        (x : LastError) (s : Status)
        → s ≡ processing
        → Returns
            (IsOutcome d t.archive_id (decided (d.clock w.tick) (fail x) t) true w)
            (failed_or_write d t x t s)
            w
    unfolding failed_or_write
    failed_or_write-Returns x failed e = absurd (cc)
    failed_or_write-Returns x _ e = write_failed-Returns x

    unless_completed-Returns :
        (o : Option Task)
        → o ≡ some t
        → Returns
            (IsOutcome d t.archive_id (decided (d.clock w.tick) complete t) true w)
            (unless_completed d t o)
            w
    unfolding unless_completed
    unless_completed-Returns o e = rw e (completed_or_write-Returns t.status k)

    unless_failed-Returns :
        (x : LastError) (o : Option Task)
        → o ≡ some t
        → Returns
            (IsOutcome d t.archive_id (decided (d.clock w.tick) (fail x) t) true w)
            (unless_failed d t x o)
            w
    unfolding unless_failed
    unless_failed-Returns x o e = rw e (failed_or_write-Returns x t.status k)

  persist-Returns :
      (t : Task) (p : PipelineTerminalDecision) (w : World d.collection.Db)
      → view d.collection w.db t.archive_id ≡ some t
      → t.status ≡ processing
      → Returns
          (IsOutcome d t.archive_id (decided (d.clock (w.tick + 1)) p t) (is_decision p) w)
          (persist d t p)
          w
  unfolding persist or_persist_error
  persist-Returns t abort_without_terminal w held k =
      Returns-pure _ _ w
        (record { committed = refl; returned = refl; shown = (Shows-same d w held 0).shown })
  persist-Returns t complete w held k =
      Returns-bind _ _ _ _ w (Returns-catch _ _ _ w (find-Returns d quiet w t.archive_id t held))
        λ o w' h.
          Returns-mono _ _ _ w'
            (λ r w2 q. later-IsOutcome h.1 (
              subst (λ n. IsOutcome d t.archive_id (decided (d.clock n) complete t) true w' r w2)
                h.1.ticks q))
            (unless_completed-Returns t w' (Shows-held d h.1) k o h.0)
  persist-Returns t (fail x) w held k =
      Returns-bind _ _ _ _ w (Returns-catch _ _ _ w (find-Returns d quiet w t.archive_id t held))
        λ o w' h.
          Returns-mono _ _ _ w'
            (λ r w2 q. later-IsOutcome h.1 (
              subst (λ n. IsOutcome d t.archive_id (decided (d.clock n) (fail x) t) true w' r w2)
                h.1.ticks q))
            (unless_failed-Returns t w' (Shows-held d h.1) k x o h.0)

  module _ (pipeline : Task → ArchiveCreatedEvent → Action d PipelineTerminalDecision)
      (p : PipelineTerminalDecision)
      (decides : (t : Task) (event : ArchiveCreatedEvent) (w : World d.collection.Db)
        → pipeline t event w ≡ (ok p, w)) where
    run_claimed-Returns :
        (event : ArchiveCreatedEvent) (t : Task) (w : World d.collection.Db)
        → view d.collection w.db t.archive_id ≡ some t
        → t.status ≡ processing
        → Returns
            (IsOutcome d t.archive_id (decided (d.clock (w.tick + 1)) p t) (is_decision p) w)
            (run_claim d pipeline event (claimed t))
            w
    unfolding run_claim
    run_claimed-Returns event t w held k =
        Returns-bind (λ q w'. (q ≡ p) × (w' ≡ w)) _ _ _ w
          (record { at = rw (decides t event w) (refl, refl) })
          λ q w' h. rw (h.0, h.1) (persist-Returns t p w held k)

    -- The pipeline runs with a task that was claimed by one call.
    after_claim :
        (event : ArchiveCreatedEvent) (t : Task) (c : Claim) (w w1 : World d.collection.Db)
        → c ≡ claimed t
        → Shows d t.archive_id t 1 w w1
        → t.status ≡ processing
        → Returns
            (IsOutcome d t.archive_id (decided (d.clock (w.tick + 2)) p t) (is_decision p) w)
            (run_claim d pipeline event c)
            w1
    after_claim event t c w w1 e s k =
        let later : w1.tick + 1 ≡ w.tick + 2 = omega (arith, s.ticks) in
        rw e (
          Returns-mono _ _ _ w1
            (λ r w2 q. later-IsOutcome s (
              subst
                (λ n. IsOutcome d t.archive_id (decided (d.clock n) p t) (is_decision p) w1 r w2)
                later q))
            (run_claimed-Returns event t w1 (Shows-held d s) k))

    settled-Returns :
        (event : ArchiveCreatedEvent) (t : Task) (w : World d.collection.Db)
        → view d.collection w.db t.archive_id ≡ some t
        → Returns
            (IsOutcome d t.archive_id t true w)
            (pure (settled (commit t)) >>= run_claim d pipeline event)
            w
    unfolding run_claim ◌>>=◌
    settled-Returns event t w held = record {
      at = record { committed = refl; returned = refl; shown = (Shows-same d w held 0).shown };
    }

    pending-Returns :
        (t : Task) (w : World d.collection.Db)
        → view d.collection w.db t.archive_id ≡ some t
        → t.status ≡ pending
        → let t' = attempted (d.clock w.tick) pending t in
          Returns
            (λ c w'. (c ≡ claimed t') × Shows d t.archive_id t' 1 w w')
            (claim_task d t pending)
            w
    unfolding claim_task pending_transitioned
    pending-Returns t w held k =
        let now = d.clock w.tick in
        let e = apply-to_processing now t in
        Returns-gets _ _ _ w (
          Returns-bind _ _ _ _ w (mark_processing-Returns d quiet t.archive_id t w held now k)
            λ o w' h.
              rw (h.0, e)
                (Returns-pure _ _ w' (refl, subst (λ x. Shows d t.archive_id x 1 w w') e h.1)))

    processing-Returns :
        (t : Task) (w : World d.collection.Db)
        → view d.collection w.db t.archive_id ≡ some t
        → t.status ≡ processing
        → let t' = attempted (d.clock w.tick) processing t in
          Returns
            (λ c w'. (c ≡ claimed t') × Shows d t.archive_id t' 1 w w')
            (claim_task d t processing)
            w
    unfolding claim_task processing_bumped
    processing-Returns t w held k =
        let now = d.clock w.tick in
        let e = apply-bump now t in
        Returns-gets _ _ _ w (
          Returns-bind _ _ _ _ w (bump-Returns d quiet t.archive_id t w held now k) λ o w' h.
            rw (h.0, e)
              (Returns-pure _ _ w' (refl, subst (λ x. Shows d t.archive_id x 1 w w') e h.1)))

    claim_task-Returns :
        (event : ArchiveCreatedEvent) (t : Task) (s : Status) (w : World d.collection.Db)
        → view d.collection w.db t.archive_id ≡ some t
        → t.status ≡ s
        → Returns
            (IsOutcome d t.archive_id
              (delivered (d.clock w.tick) (d.clock (w.tick + 2)) p s t)
              (commits p s)
              w)
            (claim_task d t s >>= run_claim d pipeline event)
            w
    unfolding claim_task
    claim_task-Returns event t completed w held k = settled-Returns event t w held
    claim_task-Returns event t failed w held k = settled-Returns event t w held
    claim_task-Returns event t pending w held k =
        Returns-bind _ _ _ _ w (pending-Returns t w held k)
          λ c w1 h. after_claim event (attempted (d.clock w.tick) pending t) c w w1 h.0 h.1 refl
    claim_task-Returns event t processing w held k =
        Returns-bind _ _ _ _ w (processing-Returns t w held k)
          λ c w1 h. after_claim event (attempted (d.clock w.tick) processing t) c w w1 h.0 h.1 k

    process-Returns :
        (event : ArchiveCreatedEvent) (t : Task) (w w2 : World d.collection.Db)
        → Shows d event.archive_id t 2 w w2
        → Returns
            (IsOutcome d event.archive_id
              (delivered (d.clock (w.tick + 2)) (d.clock (w.tick + 4)) p t.status t)
              (commits p t.status)
              w)
            (claim_task d t t.status >>= run_claim d pipeline event)
            w2
    process-Returns event t w w2 s =
        let named : t.archive_id ≡ event.archive_id =
          d.collection.find_one-archive event.archive_id w2.db t (Shows-held d s) in
        let later : w2.tick + 2 ≡ w.tick + 4 = omega (arith, s.ticks) in
        Returns-mono _ _ _ w2
          (λ r w' q. later-IsOutcome s (
            subst
              (λ n.
                IsOutcome d event.archive_id
                  (delivered (d.clock n) (d.clock (w.tick + 4)) p t.status t) (commits p t.status)
                  w2 r w')
              s.ticks
              (subst
                (λ n.
                  IsOutcome d event.archive_id
                    (delivered (d.clock w2.tick) (d.clock n) p t.status t) (commits p t.status) w2 r
                    w')
                later
                (subst
                  (λ x.
                    IsOutcome d x (delivered (d.clock w2.tick) (d.clock (w2.tick + 2)) p t.status t)
                      (commits p t.status) w2 r w')
                  named q))))
          (claim_task-Returns event t t.status w2
            (subst (λ x. view d.collection w2.db x ≡ some t) (sym named) (Shows-held d s)) refl)

-- Undisturbed, and with a pipeline that decides `p` and leaves the collection alone, the consumer
-- always returns. It finds or makes the task of the archive; if that is completed or failed, it is
-- left alone and the offset committed; otherwise it is claimed with one more attempt, written as
-- `p` decides, and the offset is committed unless `p` aborts. No other archive changes.
pub process-IsOutcome :
    (d : Deployment) (pipeline : Task → ArchiveCreatedEvent → Action d PipelineTerminalDecision)
    (p : PipelineTerminalDecision) (event : ArchiveCreatedEvent) (w : World d.collection.Db)
    → Quiet d
    → ((t : Task) (e : ArchiveCreatedEvent) (v : World d.collection.Db)
        → pipeline t e v ≡ (ok p, v))
    → let t =
        started
          (new_task (d.uuid w.tick) event.archive_id event.user_id (d.clock w.tick))
          (view d.collection w.db event.archive_id) in
      Returns
        (IsOutcome d event.archive_id
          (delivered (d.clock (w.tick + 2)) (d.clock (w.tick + 4)) p t.status t)
          (commits p t.status)
          w)
        (process_archive_created_event d pipeline event)
        w
unfolding process_archive_created_event
process-IsOutcome d pipeline p event w quiet decides = Returns-gets _ _ _ w (
    Returns-bind _ _ _ _ w (upsert-Returns d quiet event.archive_id event.user_id _ w)
      λ t w2 h. rw h.0 (process-Returns d quiet pipeline p decides event _ w w2 (rw h.0 at h.1)))
