-- ===== src/Extraction/Repository/Moves.antt =====
-- Each function of the repository moves the document of every archive along its life.
use mathlib.Core.Path.{subst}
use memory_system.Shared.{
  ℕ, ◌≡◌, refl, inl, inr, String, Bool, true, Option, none, some, arith, str_eq, eq_iff, Bool-cases,
  [], ◌∷◌,
}
use memory_system.Shared.Exec.{Keeps, Keeps-pure, Keeps-raise, Keeps-bind, keeps_rules}
use memory_system.Extraction.Task.{
  Task, pending, processing, failed, LastError, Filter, Update, matches, apply,
}
use memory_system.Extraction.Collection.{Collection, by_archive, select, update_selected, or_else}
use memory_system.Extraction.World.{
  Deployment, World, Fault, reply, call, Error, mongo_error, duplicate_key,
}
use memory_system.Extraction.Lifecycle.{
  Step, Reach, here, next, create, claim, redeliver, save_result, complete, fail, reset, give_up,
  Reach-trans,
}
use memory_system.Extraction.Repository.{
  in_status, new_task, to_processing, bump, to_completed, with_result, to_failed, to_pending,
  find_extraction_task_by_archive_id, find_extraction_task_by_user_and_archive_id,
  upsert_pending_extraction_task, mark_processing_from_pending, bump_processing_attempt,
  mark_completed, set_extraction_result, mark_failed, admin_reset_failed_to_pending,
  admin_mark_failed_from_admin_action, require, ignore_duplicate, insert_if_missing,
}

-- The document of an archive.
abbrev pub view : (c : Collection) → c.Db → String → Option Task
view c db a = c.find_one (by_archive a) db

-- What the others do to the collection is made of the same events.
abbrev pub OthersFollow : Deployment → Type 0
OthersFollow d =
    (n : ℕ) (db : d.collection.Db) (a : String)
    → Reach (view d.collection db a) (view d.collection (d.others n db) a)

-- The document of archive `a` is one that `o` may have become.
abbrev pub Since : (d : Deployment) → Option Task → String → World d.collection.Db → Type 0
Since d o a w = Reach o (view d.collection w.db a)

-- An update does one event to each document that its filter lets through.
abbrev Does : Filter → Update → Type 0
Does f u = (t : Task) → matches f t ≡ true → Step (some t) (some (apply u t))

select_step :
    (f : Filter) (u : Update) (o : Option Task)
    → Does f u
    → Reach o (or_else (update_selected u (select f o)) o)
select_step f u none does = here
select_step f u (some t) does = elim (Bool-cases (matches f t)) [
  | inl hit ↦ rw hit (next here (does t hit))
  | inr miss ↦ rw miss here
]

module _ (c : Collection) where
  update-Reach :
      (f : Filter) (u : Update) (db : c.Db) (a : String)
      → Does f u
      → Reach (view c db a) (view c (c.find_one_and_update f u db).1 a)
  update-Reach f u db a does = rw c.update-find_one (elim (Bool-cases (str_eq f.archive_id a)) [
    | inl same ↦
        let e : f.archive_id ≡ a = (eq_iff f.archive_id a).0 same in
        rw (same, c.find_one_lem f db)
          (subst
            (λ x. Reach (view c db x) (
              or_else (update_selected u (select f (view c db f.archive_id)))
                (view c db f.archive_id)))
            e (select_step f u (view c db f.archive_id) does))
    | inr other ↦ rw other here
  ])

  upsert-Reach :
      (id u : String) (time : ℕ) (db : c.Db) (a b : String)
      → Reach (view c db b) (view c (c.upsert a (new_task id a u time) db) b)
  upsert-Reach id u time db a b =
      rw (c.upsert-find_one, refl)
        (elim (Bool-cases (str_eq a b)) [
          | inl same ↦
              let e : a ≡ b = (eq_iff a b).0 same in
              rw same (
                subst
                  (λ x. Reach (view c db x) (or_else (view c db a) (some (new_task id a u time)))) e
                  (inserted (view c db a)))
          | inr other ↦ rw other here
        ])
    where
      inserted : (o : Option Task) → Reach o (or_else o (some (new_task id a u time)))
      inserted none = next here (create id a u time refl refl)
      inserted (some t) = here

-- The events of the eight updates.
claim-Does : (a : String) (time : ℕ) → Does (in_status a pending) (to_processing time)
claim-Does a time t m = claim t time refl (ground arith) (ground arith)

redeliver-Does : (a : String) (time : ℕ) → Does (in_status a processing) (bump time)
redeliver-Does a time t m = redeliver t time refl (ground arith) (ground arith)

complete-Does : (a : String) (time : ℕ) → Does (in_status a processing) (to_completed time)
complete-Does a time t m = complete t time refl (ground arith) (ground arith)

save-Does : (a result : String) (time : ℕ) → Does (in_status a processing) (with_result result time)
save-Does a result time t m = save_result t result time refl (ground arith) (ground arith)

fail-Does :
    (a : String) (e : LastError) (time : ℕ) → Does (in_status a processing) (to_failed e time)
fail-Does a e time t m = fail t e time refl (ground arith) (ground arith)

reset-Does :
    (a u : String) (clear : Bool) (time : ℕ)
    → Does
        (record { archive_id = a; user_id = some u; statuses = some (failed ∷ []) })
        (to_pending clear time)
reset-Does a u clear time t m = reset t clear time refl (ground arith) (ground arith)

give_up-Does :
    (a u : String) (e : LastError) (time : ℕ)
    → Does
        (record { archive_id = a; user_id = some u; statuses = some (pending ∷ failed ∷ []) })
        (to_failed e time)
give_up-Does a u e time t m = give_up t e time refl (ground arith) (ground arith)

module _ (d : Deployment) (follow : OthersFollow d) (o : Option Task) (b : String) where
  reply_keeps :
      {A : Type 0} (f : Option Fault) (n : ℕ) (old : d.collection.Db) (new : A × d.collection.Db)
      → Reach o (view d.collection old b)
      → Reach o (view d.collection new.1 b)
      → Since d o b (reply d f n old new).1
  reply_keeps none n old new r r' = r'
  reply_keeps (some e) n old new r r' = r

  call-Keeps :
      {A : Type 0} (op : d.collection.Db → A × d.collection.Db)
      → ((db : d.collection.Db) → Reach (view d.collection db b) (view d.collection (op db).1 b))
      → Keeps (Since d o b) (call d op)
  unfolding call
  call-Keeps op moves = record {
    at = λ w r.
        let r1 = Reach-trans r (follow w.tick w.db b) in
        reply_keeps (d.fault w.tick) w.tick (d.others w.tick w.db) (op (d.others w.tick w.db)) r1
          (Reach-trans r1 (moves (d.others w.tick w.db)));
  }

  pub find-Keeps : (a : String) → Keeps (Since d o b) (find_extraction_task_by_archive_id d a)
  unfolding find_extraction_task_by_archive_id
  find-Keeps a = call-Keeps _ (λ db. here)

  pub find_user-Keeps :
      (u a : String) → Keeps (Since d o b) (find_extraction_task_by_user_and_archive_id d u a)
  unfolding find_extraction_task_by_user_and_archive_id
  find_user-Keeps u a = call-Keeps _ (λ db. here)

  update-Keeps :
      (f : Filter) (u : Update)
      → Does f u
      → Keeps (Since d o b) (call d (d.collection.find_one_and_update f u))
  update-Keeps f u does = call-Keeps _ (λ db. update-Reach d.collection f u db b does)

  insert-Keeps : (a u : String) (time : ℕ) → Keeps (Since d o b) (insert_if_missing d a u time)
  unfolding insert_if_missing
  insert-Keeps a u time = record {
    at = λ w r.
        (call-Keeps _ (λ db. upsert-Reach d.collection (d.uuid w.tick) u time db a b)).at w r;
  }

  ignore-Keeps : (e : Error) → Keeps (Since d o b) (ignore_duplicate d e)
  unfolding ignore_duplicate
  ignore-Keeps (mongo_error duplicate_key) = Keeps-pure tt
  ignore-Keeps e = Keeps-raise e

  require-Keeps : (e : Error) (r : Option Task) → Keeps (Since d o b) (require d e r)
  unfolding require
  require-Keeps e none = Keeps-raise e
  require-Keeps e (some t) = Keeps-pure t

  pub upsert-Keeps :
      (a u : String) (time : ℕ) → Keeps (Since d o b) (upsert_pending_extraction_task d a u time)
  unfolding upsert_pending_extraction_task
  upsert-Keeps a u time =
      search (keeps_rules, insert-Keeps, ignore-Keeps, find-Keeps, require-Keeps)

  pub mark_processing-Keeps :
      (a : String) (time : ℕ) → Keeps (Since d o b) (mark_processing_from_pending d a time)
  unfolding mark_processing_from_pending
  mark_processing-Keeps a time = update-Keeps _ _ (claim-Does a time)

  pub bump-Keeps : (a : String) (time : ℕ) → Keeps (Since d o b) (bump_processing_attempt d a time)
  unfolding bump_processing_attempt
  bump-Keeps a time = update-Keeps _ _ (redeliver-Does a time)

  pub mark_completed-Keeps : (a : String) (time : ℕ) → Keeps (Since d o b) (mark_completed d a time)
  unfolding mark_completed
  mark_completed-Keeps a time =
      Keeps-bind _ _ (update-Keeps _ _ (complete-Does a time)) (require-Keeps _)

  pub set_result-Keeps :
      (a result : String) (time : ℕ) → Keeps (Since d o b) (set_extraction_result d a result time)
  unfolding set_extraction_result
  set_result-Keeps a result time = update-Keeps _ _ (save-Does a result time)

  pub mark_failed-Keeps :
      (a : String) (e : LastError) (time : ℕ) → Keeps (Since d o b) (mark_failed d a e time)
  unfolding mark_failed
  mark_failed-Keeps a e time =
      Keeps-bind _ _ (update-Keeps _ _ (fail-Does a e time)) (require-Keeps _)

  pub admin_reset-Keeps :
      (u a : String) (time : ℕ) (clear : Bool)
      → Keeps (Since d o b) (admin_reset_failed_to_pending d u a time clear)
  unfolding admin_reset_failed_to_pending
  admin_reset-Keeps u a time clear = update-Keeps _ _ (reset-Does a u clear time)

  pub admin_mark_failed-Keeps :
      (u a : String) (e : LastError) (time : ℕ)
      → Keeps (Since d o b) (admin_mark_failed_from_admin_action d u a e time)
  unfolding admin_mark_failed_from_admin_action
  admin_mark_failed-Keeps u a e time =
      Keeps-bind _ _ (update-Keeps _ _ (give_up-Does a u e time)) (require-Keeps _)
