-- ===== src/Extraction/Repository/Quiet.antt =====
-- The functions of the repository while nothing disturbs them: no other worker changes the
-- collection between the calls, and no call raises.
use mathlib.Core.Path.{subst}
use memory_system.Shared.{
  ℕ, ◌+◌, ◌≡◌, refl, sym, ◌∙◌, ap, inl, inr, String, Bool, true, false, Option, none, some, arith,
  str_eq, eq_iff, eq_refl, Bool-cases, ◌||◌, if◌then◌else◌,
}
use memory_system.Shared.Returns.{Returns, Returns-pure, Returns-bind, Returns-catch}
use memory_system.Extraction.Task.{
  Task, Status, pending, processing, completed, failed, LastError, Filter, Update, matches, apply,
  status_eq,
}
use memory_system.Extraction.Collection.{update_selected, or_else}
use memory_system.Extraction.World.{Deployment, World, call, Error}
use memory_system.Extraction.Repository.{
  new_task, find_extraction_task_by_archive_id, upsert_pending_extraction_task, require,
  insert_if_missing, in_status, to_processing, bump, to_completed, to_failed,
  mark_processing_from_pending, bump_processing_attempt, mark_completed, mark_failed,
}
use memory_system.Extraction.Repository.Moves.{view}

pub record Quiet (d : Deployment) : Type 0 where
  pub alone : (n : ℕ) (db : d.collection.Db) → d.others n db ≡ db
  pub healthy : (n : ℕ) → d.fault n ≡ none

-- `w'` is `w` after `k` calls, and shows `t` for the archive `a`; other archives are as before.
pub record Shows (d : Deployment) (a : String) (t : Task) (k : ℕ) (w w' : World d.collection.Db)
    : Type 0 where
  pub shown :
      (b : String)
      → view d.collection w'.db b ≡ (if str_eq a b then some t else view d.collection w.db b)
  pub ticks : w'.tick ≡ w.tick + k

pub merged :
    (t t' o o' : Option Task) (c : Bool)
    → o' ≡ (if c then t else o)
    → (if c then t' else o') ≡ (if c then t' else o)
merged t t' o o' true e = refl
merged t t' o o' false e = e

module _ (d : Deployment) where
  pub Shows-held :
      {a : String} {t : Task} {k : ℕ} {w w' : World d.collection.Db}
      → Shows d a t k w w'
      → view d.collection w'.db a ≡ some t
  Shows-held {a} s = s.shown a ∙ rw (eq_refl a)

  pub Shows-trans :
      {a : String} {t t' : Task} {j k : ℕ} {w w' w'' : World d.collection.Db}
      → Shows d a t j w w'
      → Shows d a t' k w' w''
      → Shows d a t' (j + k) w w''
  Shows-trans {a} s s' = record {
    shown = λ b. s'.shown b ∙ merged _ _ _ _ (str_eq a b) (s.shown b);
    ticks = omega (arith, s.ticks, s'.ticks);
  }

  pub Shows-same :
      {a : String} {t : Task} (w : World d.collection.Db)
      → view d.collection w.db a ≡ some t
      → (k : ℕ) → Shows d a t k w (record { db = w.db; tick = w.tick + k })
  Shows-same {a} {t} w h k = record { shown = same; ticks = refl }
    where
      same :
          (b : String)
          → view d.collection w.db b ≡ (if str_eq a b then some t else view d.collection w.db b)
      same b = elim (Bool-cases (str_eq a b)) [
        | inl e ↦ rw (e, ← (eq_iff a b).0 e) h
        | inr e ↦ rw e
      ]

module _ (d : Deployment) (quiet : Quiet d) (w : World d.collection.Db) where
  pub call-Returns :
      {A : Type 0} (Q : A → World d.collection.Db → Type 0)
      (op : d.collection.Db → A × d.collection.Db)
      → Q (op w.db).0 (record { db = (op w.db).1; tick = w.tick + 1 })
      → Returns Q (call d op) w
  unfolding call
  call-Returns Q op h = record { at = rw (quiet.healthy w.tick, quiet.alone w.tick w.db) h }

  pub find-Returns :
      (a : String) (t : Task)
      → view d.collection w.db a ≡ some t
      → Returns
          (λ o w'. (o ≡ some t) × Shows d a t 1 w w')
          (find_extraction_task_by_archive_id d a)
          w
  unfolding find_extraction_task_by_archive_id
  find-Returns a t held = call-Returns _ _ (held, Shows-same d w held 1)

  -- The filter lets the stored document through: it is updated and returned.
  pub update-Returns :
      (f : Filter) (u : Update) (t : Task)
      → view d.collection w.db f.archive_id ≡ some t
      → matches f t ≡ true
      → Returns
          (λ o w'. (o ≡ some (apply u t)) × Shows d f.archive_id (apply u t) 1 w w')
          (call d (d.collection.find_one_and_update f u))
          w
  update-Returns f u t held hit =
      call-Returns _ _ (reply_is, record { shown = shows; ticks = refl })
    where
      found : update_selected u (d.collection.find_one f w.db) ≡ some (apply u t)
      found = rw (d.collection.find_one_lem f w.db, held, hit)

      reply_is : (d.collection.find_one_and_update f u w.db).0 ≡ some (apply u t)
      reply_is = d.collection.update-reply f u w.db ∙ found

      shows :
          (b : String)
          → view d.collection (d.collection.find_one_and_update f u w.db).1 b
            ≡ (if str_eq f.archive_id b then some (apply u t) else view d.collection w.db b)
      shows b = rw (d.collection.update-find_one, found)

  -- The filter does not: nothing is written.
  pub update_refused :
      (f : Filter) (u : Update) (t : Task)
      → view d.collection w.db f.archive_id ≡ some t
      → matches f t ≡ false
      → Returns
          (λ o w'. (o ≡ none) × Shows d f.archive_id t 1 w w')
          (call d (d.collection.find_one_and_update f u))
          w
  update_refused f u t held miss =
      call-Returns _ _
        (d.collection.update-reply f u w.db ∙ missed, record { shown = shows; ticks = refl })
    where
      missed : update_selected u (d.collection.find_one f w.db) ≡ none
      missed = rw (d.collection.find_one_lem f w.db, held, miss)

      shows :
          (b : String)
          → view d.collection (d.collection.find_one_and_update f u w.db).1 b
            ≡ (if str_eq f.archive_id b then some t else view d.collection w.db b)
      shows b = rw (d.collection.update-find_one, missed, held)

-- The task that the upsert finds or makes.
abbrev pub started : Task → Option Task → Task
started new none = new
started new (some t) = t

module _ (d : Deployment) (quiet : Quiet d) where
  or_else-started : (new : Task) (o : Option Task) → or_else o (some new) ≡ some (started new o)
  or_else-started new none = refl
  or_else-started new (some t) = refl

  insert-Returns :
      (a u : String) (time : ℕ) (w : World d.collection.Db)
      → Returns
          (λ _ w'.
            Shows d a
              (started (new_task (d.uuid w.tick) a u time) (view d.collection w.db a))
              1
              w
              w')
          (insert_if_missing d a u time)
          w
  unfolding insert_if_missing
  insert-Returns a u time w = record { at = (call-Returns d quiet w _ _ inserted).at }
    where
      new : Task
      new = new_task (d.uuid w.tick) a u time

      inserted :
          Shows d a
            (started new (view d.collection w.db a))
            1
            w
            (record { db = d.collection.upsert a new w.db; tick = w.tick + 1 })
      inserted = record {
        shown = λ b.
            d.collection.upsert-find_one a new w.db b refl
            ∙ ap (λ x. if str_eq a b then x else view d.collection w.db b)
                (or_else-started new (view d.collection w.db a));
        ticks = refl;
      }

  pub require-Returns :
      (Q : Task → World d.collection.Db → Type 0) (e : Error) (o : Option Task) (t : Task)
      (w : World d.collection.Db)
      → o ≡ some t
      → Q t w
      → Returns Q (require d e o) w
  unfolding require
  require-Returns Q e o t w h q =
      subst (λ x. Returns Q (require d e x) w) (sym h) (Returns-pure Q t w q)

  pub upsert-Returns :
      (a u : String) (time : ℕ) (w : World d.collection.Db)
      → Returns
          (λ t w'.
            (t ≡ started (new_task (d.uuid w.tick) a u time) (view d.collection w.db a))
            × Shows d a t 2 w w')
          (upsert_pending_extraction_task d a u time)
          w
  unfolding upsert_pending_extraction_task
  upsert-Returns a u time w =
      Returns-bind _ _ _ _ w (Returns-catch _ _ _ w (insert-Returns a u time w)) λ _ w1 s.
        Returns-bind _ _ _ _ w1 (find-Returns d quiet w1 a _ (Shows-held d s))
          λ o w2 h. require-Returns _ _ o _ w2 h.0 (refl, Shows-trans d s h.1)

in_status-matches :
    (a : String) (s : Status) (t : Task)
    → t.archive_id ≡ a
    → t.status ≡ s
    → matches (in_status a s) t ≡ true
in_status-matches a s t e k = rw (e, eq_refl a, k) (same s)
  where
    same : (x : Status) → (status_eq x x || false) ≡ true
    same pending = refl
    same processing = refl
    same completed = refl
    same failed = refl

module _ (d : Deployment) (quiet : Quiet d) (a : String) (t : Task) (w : World d.collection.Db)
    (held : view d.collection w.db a ≡ some t) where
  write-Returns :
      (s : Status) (u : Update)
      → t.status ≡ s
      → Returns
          (λ o w'. (o ≡ some (apply u t)) × Shows d a (apply u t) 1 w w')
          (call d (d.collection.find_one_and_update (in_status a s) u))
          w
  write-Returns s u k =
      update-Returns d quiet w (in_status a s) u t held
        (in_status-matches a s t (d.collection.find_one-archive a w.db t held) k)

  pub mark_processing-Returns :
      (time : ℕ)
      → t.status ≡ pending
      → Returns
          (λ o w'.
            (o ≡ some (apply (to_processing time) t))
            × Shows d a (apply (to_processing time) t) 1 w w')
          (mark_processing_from_pending d a time)
          w
  unfolding mark_processing_from_pending
  mark_processing-Returns time k = write-Returns pending (to_processing time) k

  pub bump-Returns :
      (time : ℕ)
      → t.status ≡ processing
      → Returns
          (λ o w'. (o ≡ some (apply (bump time) t)) × Shows d a (apply (bump time) t) 1 w w')
          (bump_processing_attempt d a time)
          w
  unfolding bump_processing_attempt
  bump-Returns time k = write-Returns processing (bump time) k

  pub mark_completed-Returns :
      (time : ℕ)
      → t.status ≡ processing
      → Returns
          (λ t' w'.
            (t' ≡ apply (to_completed time) t) × Shows d a (apply (to_completed time) t) 1 w w')
          (mark_completed d a time)
          w
  unfolding mark_completed
  mark_completed-Returns time k =
      Returns-bind _ _ _ _ w (write-Returns processing (to_completed time) k)
        λ o w' h. require-Returns d quiet _ _ o _ w' h.0 (refl, h.1)

  pub mark_failed-Returns :
      (e : LastError) (time : ℕ)
      → t.status ≡ processing
      → Returns
          (λ t' w'.
            (t' ≡ apply (to_failed e time) t) × Shows d a (apply (to_failed e time) t) 1 w w')
          (mark_failed d a e time)
          w
  unfolding mark_failed
  mark_failed-Returns e time k =
      Returns-bind _ _ _ _ w (write-Returns processing (to_failed e time) k)
        λ o w' h. require-Returns d quiet _ _ o _ w' h.0 (refl, h.1)

-- What a failure written by the worker or by an admin makes of a task.
pub apply-to_failed :
    (e : LastError) (now : ℕ) (t : Task)
    → apply (to_failed e now) t
      ≡ record t { status = failed; last_error = some e; updated_time = now }
apply-to_failed e now t = ground arith
