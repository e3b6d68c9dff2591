-- ===== src/Extraction/Consumer/Claims.antt =====
-- What the first half of the consumer knows of the task that it claims or returns early.
use mathlib.Core.Path.{subst}
use memory_system.Shared.{◌≡◌, refl, ◌⊎◌, inl, inr, String, Option, none, some, true}
use memory_system.Shared.Exec.{Ensures, Ensures-gets, Ensures-pure, Ensures-raise, Ensures-bind}
use memory_system.Extraction.Task.{Task, Status, pending, processing, completed, failed}
use memory_system.Extraction.World.{Deployment, World, Action}
use memory_system.Extraction.Repository.{find_extraction_task_by_archive_id}
use memory_system.Extraction.Repository.Replies.{
  IsStored, StoredIf, StoredAs, find-Ensures, mark_processing-Ensures, bump-Ensures,
}
use memory_system.Extraction.Consumer.{
  Claim, settled, claimed, ProcessArchiveCreatedResult, commit, after_pending_race,
  after_pending_reload, pending_transitioned, after_processing_race, after_processing_reload,
  processing_bumped, claim_task, or_reloaded,
}

abbrev pub IsTerminal : Status → Type 0
IsTerminal s = (s ≡ completed) ⊎ (s ≡ failed)

-- If the offset may be committed, the result names the task that the collection holds for the
-- archive, and that task is completed or failed.
abbrev pub Settles :
    (d : Deployment) → String → ProcessArchiveCreatedResult → World d.collection.Db → Type 0
Settles d a r w =
    r.should_commit_offset ≡ true
    → (t : Task) × (r.task ≡ some t) × IsStored d a t w × IsTerminal t.status

abbrev pub Claims : (d : Deployment) → String → Claim → World d.collection.Db → Type 0
Claims d a (settled r) w = Settles d a r w
Claims d a (claimed t) w = t.archive_id ≡ a

module _ (d : Deployment) (a : String) where
  pub settled_by :
      (t : Task) (w : World d.collection.Db)
      → IsStored d a t w
      → IsTerminal t.status
      → Settles d a (commit t) w
  settled_by t w s k = λ _. (t, refl, s, k)

  at_archive :
      (t : Task) (e : t.archive_id ≡ a) (s : Status) (m : Action d (Option Task))
      (w : World d.collection.Db)
      → Ensures (StoredAs d t.archive_id s) m w
      → Ensures (StoredAs d a s) m w
  at_archive t e s m w = subst (λ x. Ensures (StoredAs d x s) m w) e

  pending_race-Claims :
      (t : Task) (s : Status) (w : World d.collection.Db)
      → IsStored d a t w
      → t.status ≡ s
      → Ensures (Claims d a) (after_pending_race d t s) w
  unfolding after_pending_race or_reloaded
  pending_race-Claims t completed w h k = Ensures-pure _ _ w (settled_by t w h (inl k))
  pending_race-Claims t failed w h k = Ensures-pure _ _ w (settled_by t w h (inr k))
  pending_race-Claims t pending w h k = Ensures-raise _ _ w
  pending_race-Claims t processing w h k = Ensures-gets _ _ _ w (
      Ensures-bind _ _ _ _ w (at_archive t h.archive _ _ w (bump-Ensures d t.archive_id _ w))
        λ o w' q. Ensures-pure _ _ w' (bumped_archive o w' q))
    where
      bumped_archive :
          (o : Option Task) (w' : World d.collection.Db)
          → StoredAs d a processing o w'
          → (or_reloaded d o t).archive_id ≡ a
      bumped_archive none w' q = h.archive
      bumped_archive (some u) w' q = q.0.archive

  pending_reload-Claims :
      (o : Option Task) (w : World d.collection.Db)
      → StoredIf d a o w
      → Ensures (Claims d a) (after_pending_reload d o) w
  unfolding after_pending_reload
  pending_reload-Claims none w h = Ensures-raise _ _ w
  pending_reload-Claims (some t) w h = pending_race-Claims t t.status w h refl

  processing_race-Claims :
      (t : Task) (s : Status) (w : World d.collection.Db)
      → IsStored d a t w
      → t.status ≡ s
      → Ensures (Claims d a) (after_processing_race d t s) w
  unfolding after_processing_race
  processing_race-Claims t completed w h k = Ensures-pure _ _ w (settled_by t w h (inl k))
  processing_race-Claims t failed w h k = Ensures-pure _ _ w (settled_by t w h (inr k))
  processing_race-Claims t _ w h k = Ensures-pure _ _ w h.archive

  processing_reload-Claims :
      (o : Option Task) (w : World d.collection.Db)
      → StoredIf d a o w
      → Ensures (Claims d a) (after_processing_reload d o) w
  unfolding after_processing_reload
  processing_reload-Claims none w h = Ensures-raise _ _ w
  processing_reload-Claims (some t) w h = processing_race-Claims t t.status w h refl

  pub find_at :
      (t : Task) (w : World d.collection.Db)
      → t.archive_id ≡ a
      → Ensures (StoredIf d a) (find_extraction_task_by_archive_id d t.archive_id) w
  find_at t w e =
      subst (λ x. Ensures (StoredIf d x) (find_extraction_task_by_archive_id d t.archive_id) w) e
        (find-Ensures d w t.archive_id)

  transitioned-Claims :
      (t : Task) (o : Option Task) (w : World d.collection.Db)
      → t.archive_id ≡ a
      → StoredAs d a processing o w
      → Ensures (Claims d a) (pending_transitioned d t o) w
  unfolding pending_transitioned
  transitioned-Claims t none w e h = Ensures-bind _ _ _ _ w (find_at t w e) pending_reload-Claims
  transitioned-Claims t (some u) w e h = Ensures-pure _ _ w h.0.archive

  bumped-Claims :
      (t : Task) (o : Option Task) (w : World d.collection.Db)
      → t.archive_id ≡ a
      → StoredAs d a processing o w
      → Ensures (Claims d a) (processing_bumped d t o) w
  unfolding processing_bumped
  bumped-Claims t none w e h = Ensures-bind _ _ _ _ w (find_at t w e) processing_reload-Claims
  bumped-Claims t (some u) w e h = Ensures-pure _ _ w h.0.archive

  pub claim_task-Claims :
      (t : Task) (s : Status) (w : World d.collection.Db)
      → IsStored d a t w
      → t.status ≡ s
      → Ensures (Claims d a) (claim_task d t s) w
  unfolding claim_task
  claim_task-Claims t completed w h k = Ensures-pure _ _ w (settled_by t w h (inl k))
  claim_task-Claims t failed w h k = Ensures-pure _ _ w (settled_by t w h (inr k))
  claim_task-Claims t pending w h k = Ensures-gets _ _ _ w (
      Ensures-bind _ _ _ _ w
        (at_archive t h.archive _ _ w (mark_processing-Ensures d t.archive_id _ w))
        (λ o w'. transitioned-Claims t o w' h.archive))
  claim_task-Claims t processing w h k = Ensures-gets _ _ _ w (
      Ensures-bind _ _ _ _ w (at_archive t h.archive _ _ w (bump-Ensures d t.archive_id _ w))
        (λ o w'. bumped-Claims t o w' h.archive))
