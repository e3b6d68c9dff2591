-- ===== src/Extraction/Repository/Replies.antt =====
-- What the functions of the repository return, against what the collection then holds.
use mathlib.Core.Option.{some-injective}
use memory_system.Shared.{
  ap, ℕ, ◌+◌, ◌≡◌, refl, sym, ◌∙◌, String, Bool, true, false, Option, none, some, arith, eq_refl,
  if◌then◌else◌,
}
use memory_system.Shared.Exec.{
  Result, ok, err, OnOk, Ensures, Ensures-pure, Ensures-raise, Ensures-bind,
}
use memory_system.Extraction.Task.{
  Task, Status, pending, processing, completed, failed, LastError, Filter, Update, matches, apply,
}
use memory_system.Extraction.Collection.{select, update_selected}
use memory_system.Extraction.World.{Deployment, World, Action, Fault, reply, call, Error}
use memory_system.Extraction.Repository.{
  in_status, to_processing, bump, to_completed, to_failed, find_extraction_task_by_archive_id,
  upsert_pending_extraction_task, mark_processing_from_pending, bump_processing_attempt,
  mark_completed, mark_failed, require,
}
use memory_system.Extraction.Repository.Moves.{view}

-- A task that was returned is the one that the collection holds for archive `a`.
pub record IsStored (d : Deployment) (a : String) (t : Task) (w : World d.collection.Db)
    : Type 0 where
  pub held : view d.collection w.db a ≡ some t
  pub archive : t.archive_id ≡ a

abbrev pub StoredIf : (d : Deployment) → String → Option Task → World d.collection.Db → Type 0
StoredIf d a none w = Unit
StoredIf d a (some t) w = IsStored d a t w

abbrev pub StoredAs :
    (d : Deployment) → String → Status → Option Task → World d.collection.Db → Type 0
StoredAs d a s none w = Unit
StoredAs d a s (some t) w = IsStored d a t w × (t.status ≡ s)

module _ (d : Deployment) (w : World d.collection.Db) where
  reply_ensures :
      {A : Type 0} (Q : A → World d.collection.Db → Type 0) (f : Option Fault) (n : ℕ)
      (old : d.collection.Db) (new : A × d.collection.Db)
      → Q new.0 (record { db = new.1; tick = n + 1 })
      → OnOk Q (reply d f n old new).0 (reply d f n old new).1
  reply_ensures Q none n old new q = q
  reply_ensures Q (some e) n old new q = tt

  call-Ensures :
      {A : Type 0} (Q : A → World d.collection.Db → Type 0)
      (op : d.collection.Db → A × d.collection.Db)
      → ((db : d.collection.Db) (n : ℕ) → Q (op db).0 (record { db = (op db).1; tick = n }))
      → Ensures Q (call d op) w
  unfolding call
  call-Ensures Q op q = record {
    at =
        reply_ensures Q (d.fault w.tick) w.tick (d.others w.tick w.db) (op (d.others w.tick w.db))
          (q _ _);
  }

  find_stored :
      (a : String) (n : ℕ) (db : d.collection.Db) (o : Option Task)
      → view d.collection db a ≡ o
      → StoredIf d a o (record { db = db; tick = n })
  find_stored a n db none e = tt
  find_stored a n db (some t) e = record {
    held = e;
    archive = d.collection.find_one-archive a db t e;
  }

  pub find-Ensures :
      (a : String) → Ensures (StoredIf d a) (find_extraction_task_by_archive_id d a) w
  unfolding find_extraction_task_by_archive_id
  find-Ensures a = call-Ensures (StoredIf d a) _ (λ db n. find_stored a n db _ refl)

  -- The document that an update returned, and what the update wrote.
  updated_held :
      (f : Filter) (u : Update) (db : d.collection.Db) (t' : Task)
      → (d.collection.find_one_and_update f u db).0 ≡ some t'
      → view d.collection (d.collection.find_one_and_update f u db).1 f.archive_id ≡ some t'
  updated_held f u db t' e =
      let c = d.collection in
      let r : update_selected u (c.find_one f db) ≡ some t' = sym (c.update-reply f u db) ∙ e in
      rw (c.update-find_one, eq_refl f.archive_id, r)

  picked :
      (u : Update) (t t' : Task) (b : Bool)
      → update_selected u (if b then some t else none) ≡ some t'
      → (b ≡ true) × (apply u t ≡ t')
  picked u t t' true e = (refl, some-injective _ _ e)
  picked u t t' false e = absurd (cc)

  -- A returned document is a matching one, updated.
  updated_from :
      (f : Filter) (u : Update) (o : Option Task) (t' : Task)
      → update_selected u (select f o) ≡ some t'
      → (t : Task) × (o ≡ some t) × (matches f t ≡ true) × (apply u t ≡ t')
  updated_from f u none t' e = absurd (cc)
  updated_from f u (some t) t' e = let p = picked u t t' (matches f t) e in (t, refl, p.0, p.1)

  update_from :
      (f : Filter) (u : Update) (db : d.collection.Db) (t' : Task)
      → (d.collection.find_one_and_update f u db).0 ≡ some t'
      → (t : Task) × (view d.collection db f.archive_id ≡ some t)
        × (matches f t ≡ true)
        × (apply u t ≡ t')
  update_from f u db t' e =
      let c = d.collection in
      updated_from f u (view c db f.archive_id) t'
        (ap (update_selected u) (sym (c.find_one_lem f db)) ∙ sym (c.update-reply f u db) ∙ e)

  update_stored :
      (f : Filter) (u : Update) (s : Status) (db : d.collection.Db) (n : ℕ) (o : Option Task)
      → ((t : Task) → matches f t ≡ true → (apply u t).status ≡ s)
      → (d.collection.find_one_and_update f u db).0 ≡ o
      → StoredAs d f.archive_id s o
          (record { db = (d.collection.find_one_and_update f u db).1; tick = n })
  update_stored f u s db n none h e = tt
  update_stored f u s db n (some t') h e =
      let (t, held, hit, same) = update_from f u db t' e in
      let was : t.archive_id ≡ f.archive_id =
        d.collection.find_one-archive f.archive_id db t held in
      (
        record {
          held = updated_held f u db t' e;
          archive = ap (λ x. x.archive_id) (sym same) ∙ was;
        },
        ap (λ x. x.status) (sym same) ∙ h t hit,
      )

  update-Ensures :
      (f : Filter) (u : Update) (s : Status)
      → ((t : Task) → matches f t ≡ true → (apply u t).status ≡ s)
      → Ensures (StoredAs d f.archive_id s) (call d (d.collection.find_one_and_update f u)) w
  update-Ensures f u s h =
      call-Ensures (StoredAs d f.archive_id s) _ (λ db n. update_stored f u s db n _ h refl)

module _ (d : Deployment) where
  require-Ensures :
      (a : String) (s : Status) (e : Error) (o : Option Task) (w : World d.collection.Db)
      → StoredAs d a s o w
      → Ensures (λ t. StoredAs d a s (some t)) (require d e o) w
  unfolding require
  require-Ensures a s e none w h = Ensures-raise _ e w
  require-Ensures a s e (some t) w h = Ensures-pure _ t w h

  require-IsStored :
      (a : String) (e : Error) (o : Option Task) (w : World d.collection.Db)
      → StoredIf d a o w
      → Ensures (IsStored d a) (require d e o) w
  unfolding require
  require-IsStored a e none w h = Ensures-raise _ e w
  require-IsStored a e (some t) w h = Ensures-pure _ t w h

  pub any-Ensures :
      {A : Type 0} (m : Action d A) (w : World d.collection.Db) → Ensures (λ _ _. Unit) m w
  any-Ensures {A} m w = record { at = anything (m w).0 (m w).1 }
    where
      anything :
          (r : Result Error A) (w' : World d.collection.Db)
          → OnOk {S = World d.collection.Db} (λ _ _. Unit) r w'
      anything (ok a) w' = tt
      anything (err e) w' = tt

  pub upsert-Ensures :
      (a u : String) (time : ℕ) (w : World d.collection.Db)
      → Ensures (IsStored d a) (upsert_pending_extraction_task d a u time) w
  unfolding upsert_pending_extraction_task
  upsert-Ensures a u time w =
      Ensures-bind _ _ _ _ w (any-Ensures _ w) λ _ w1 _.
        Ensures-bind _ _ _ _ w1 (find-Ensures d w1 a) λ o w2 h. require-IsStored a _ o w2 h

  pub mark_processing-Ensures :
      (a : String) (time : ℕ) (w : World d.collection.Db)
      → Ensures (StoredAs d a processing) (mark_processing_from_pending d a time) w
  unfolding mark_processing_from_pending
  mark_processing-Ensures a time w =
      update-Ensures d w (in_status a pending) (to_processing time) processing (λ t hit. refl)

  pub bump-Ensures :
      (a : String) (time : ℕ) (w : World d.collection.Db)
      → Ensures (StoredAs d a processing) (bump_processing_attempt d a time) w
  unfolding bump_processing_attempt
  bump-Ensures a time w =
      update-Ensures d w (in_status a processing) (bump time) processing (λ t hit. ground arith)

  pub mark_completed-Ensures :
      (a : String) (time : ℕ) (w : World d.collection.Db)
      → Ensures (λ t. StoredAs d a completed (some t)) (mark_completed d a time) w
  unfolding mark_completed
  mark_completed-Ensures a time w =
      Ensures-bind _ _ _ _ w
        (update-Ensures d w (in_status a processing) (to_completed time) completed (λ t hit. refl))
        (require-Ensures a completed _)

  pub mark_failed-Ensures :
      (a : String) (e : LastError) (time : ℕ) (w : World d.collection.Db)
      → Ensures (λ t. StoredAs d a failed (some t)) (mark_failed d a e time) w
  unfolding mark_failed
  mark_failed-Ensures a e time w =
      Ensures-bind _ _ _ _ w
        (update-Ensures d w (in_status a processing) (to_failed e time) failed (λ t hit. refl))
        (require-Ensures a failed _)
