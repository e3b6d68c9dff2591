-- ===== src/Extraction/Admin/Outcome.antt =====
-- What the admin actions do while nothing disturbs them.
use mathlib.Core.Path.{subst}
use memory_system.Shared.{
  ℕ, ◌≡◌, ◌≢◌, refl, ◌⊎◌, inl, inr, String, Bool, true, false, none, some, List, [], ◌∷◌, arith,
  str_eq, eq_refl, if◌then◌else◌,
}
use memory_system.Shared.Exec.{ok, err, ◌>>=◌, catch}
use memory_system.Shared.Returns.{
  Returns, Returns-pure, Returns-bind, Returns-catch, Raises, Raises-raise, Raises-bind,
}
use memory_system.Extraction.Event.{ArchiveCreatedEvent}
use memory_system.Extraction.Task.{
  Task, Status, pending, failed, LastError, Filter, apply, matches, any_status,
}
use memory_system.Extraction.World.{
  Deployment, World, Action, Error, retry_not_allowed, infrastructure_error,
}
use memory_system.Extraction.Repository.{
  to_pending, to_failed, find_extraction_task_by_user_and_archive_id, admin_reset_failed_to_pending,
  admin_mark_failed_from_admin_action,
}
use memory_system.Extraction.Repository.Moves.{view}
use memory_system.Extraction.Repository.Quiet.{
  Quiet, Shows, Shows-held, Shows-same, Shows-trans, call-Returns, update-Returns, require-Returns,
  apply-to_failed,
}
use memory_system.Extraction.Strip.{strip}
use memory_system.Extraction.Admin.{
  ArchiveRead, found, ContextArchive, RepublishStatus, success, kafka_publish_failed,
  publish_archive, republish_read, republish_archive_created_event, mark_after_publish_failure,
  finish_mutation, after_reset, reset_and_republish, check_and_reset, mutate_found, is_allowed,
  mutate_failed_to_pending_and_republish, kafka_publish_failed_error,
  ExtractionAdminMutationSuccess,
}

-- A failed task made pending again: the error is cleared, and the result too for a rebuild.
abbrev pub restarted : Bool → ℕ → Task → Task
restarted clear now t = record t {
  status = pending;
  extraction_result = if clear then none else t.extraction_result;
  last_error = none;
  updated_time = now;
}

apply-to_pending :
    (clear : Bool) (now : ℕ) (t : Task) → apply (to_pending clear now) t ≡ restarted clear now t
apply-to_pending clear now t = ground arith

module _ (d : Deployment) (quiet : Quiet d) (u a : String) (t : Task) (w : World d.collection.Db)
    (held : view d.collection w.db a ≡ some t) (owner : t.user_id ≡ u) where
  named : t.archive_id ≡ a
  named = d.collection.find_one-archive a w.db t held

  find_user-Returns :
      Returns
        (λ o w'. (o ≡ some t) × Shows d a t 1 w w')
        (find_extraction_task_by_user_and_archive_id d u a)
        w
  unfolding find_extraction_task_by_user_and_archive_id
  find_user-Returns = call-Returns d quiet w _ _ (found_is, Shows-same d w held 1)
    where
      f : Filter
      f = record { archive_id = a; user_id = some u; statuses = none }

      found_is : d.collection.find_one f w.db ≡ some t
      found_is = rw (d.collection.find_one_lem f w.db, held, named, owner, eq_refl a, eq_refl u)

  owned-matches :
      (l : List Status)
      → any_status l t.status ≡ true
      → matches (record { archive_id = a; user_id = some u; statuses = some l }) t ≡ true
  owned-matches l k = rw (named, owner, eq_refl a, eq_refl u) k

  reset-Returns :
      (clear : Bool) (now : ℕ)
      → t.status ≡ failed
      → Returns
          (λ o w'. (o ≡ some (restarted clear now t)) × Shows d a (restarted clear now t) 1 w w')
          (admin_reset_failed_to_pending d u a now clear)
          w
  unfolding admin_reset_failed_to_pending
  reset-Returns clear now k =
      subst
        (λ x.
          Returns (λ o w'. (o ≡ some x) × Shows d a x 1 w w')
            (admin_reset_failed_to_pending d u a now clear) w)
        (apply-to_pending clear now t)
        (update-Returns d quiet w _ (to_pending clear now) t held
          (owned-matches (failed ∷ []) (rw k)))

  mark-Returns :
      (e : LastError) (now : ℕ)
      → t.status ≡ pending
      → let t' = record t { status = failed; last_error = some e; updated_time = now } in
        Returns (λ _. Shows d a t' 1 w) (admin_mark_failed_from_admin_action d u a e now) w
  unfolding admin_mark_failed_from_admin_action
  mark-Returns e now k =
      Returns-bind _ _ _ _ w
        (update-Returns d quiet w _ (to_failed e now) t held
          (owned-matches (pending ∷ failed ∷ []) (rw k)))
        λ o w' h.
          require-Returns d quiet _ _ o _ w' h.0
            (subst (λ x. Shows d a x 1 w w') (apply-to_failed e now t) h.1)

-- The parameters of a republication: what the read of the archive says, and whether the producer
-- takes the event.
module _ (d : Deployment) (quiet : Quiet d) (find_archive : String → Action d ArchiveRead)
    (publish : ArchiveCreatedEvent → Action d (Unit {0})) (event_id : String) where
  abbrev action : String → String → ℕ → Bool → List String → Action d ExtractionAdminMutationSuccess
  action = mutate_failed_to_pending_and_republish d find_archive publish event_id

  module _ (u a : String) (t : Task) (w : World d.collection.Db)
      (held : view d.collection w.db a ≡ some t) (owner : t.user_id ≡ u) (clear : Bool)
      (codes : List String) (time : ℕ) where
    check_refused :
        (Q : Error → World d.collection.Db → Type 0) (s : Status) (v : World d.collection.Db)
        → t.status ≡ s
        → (t.status ≢ failed) ⊎ (is_allowed codes t.last_error ≡ false)
        → Q retry_not_allowed v
        → Raises Q
            (check_and_reset d find_archive publish event_id u a time clear codes t.last_error s)
            v
    unfolding check_and_reset
    check_refused Q failed v k (inl n) q = absurd (n k)
    check_refused Q failed v k (inr e) q = rw e (Raises-raise Q _ v q)
    check_refused Q _ v k why q = Raises-raise Q _ v q

    action_refused :
        (t.status ≢ failed) ⊎ (is_allowed codes t.last_error ≡ false)
        → Raises
            (λ e w'. (e ≡ retry_not_allowed) × Shows d a t 1 w w')
            (action u a time clear codes)
            w
    unfolding mutate_failed_to_pending_and_republish mutate_found
    action_refused why =
        Raises-bind _ _ _ _ w (find_user-Returns d quiet u a t w held owner)
          λ o w' h. rw h.0 (check_refused _ t.status w' refl why (refl, h.1))

    module _ (k : t.status ≡ failed) (allowed : is_allowed codes t.last_error ≡ true) where
      -- The document after the reset.
      abbrev fresh : Task
      fresh = restarted clear time t

      reset_then-Returns :
          (Q : ExtractionAdminMutationSuccess → World d.collection.Db → Type 0)
          → ((v : World d.collection.Db)
              → Shows d a fresh 2 w v
              → Returns Q (after_reset d find_archive publish event_id u a time (some fresh)) v)
          → Returns Q (action u a time clear codes) w
      unfolding mutate_failed_to_pending_and_republish mutate_found check_and_reset
          reset_and_republish
      reset_then-Returns Q h =
          Returns-bind _ _ _ _ w (find_user-Returns d quiet u a t w held owner) λ o v s.
            rw (s.0, k, allowed)
              (Returns-bind _ _ _ _ v
                (Returns-catch _ _ _ v
                  (reset-Returns d quiet u a t v (Shows-held d s.1) owner clear time k))
                λ o' v' s'. rw s'.0 (h v' (Shows-trans d s.1 s'.1)))

      reset_then-Raises :
          (Q : Error → World d.collection.Db → Type 0)
          → ((v : World d.collection.Db)
              → Shows d a fresh 2 w v
              → Raises Q (after_reset d find_archive publish event_id u a time (some fresh)) v)
          → Raises Q (action u a time clear codes) w
      unfolding mutate_failed_to_pending_and_republish mutate_found check_and_reset
          reset_and_republish
      reset_then-Raises Q h =
          Raises-bind _ _ _ _ w (find_user-Returns d quiet u a t w held owner) λ o v s.
            rw (s.0, k, allowed)
              (Raises-bind _ _ _ _ v
                (Returns-catch _ _ _ v
                  (reset-Returns d quiet u a t v (Shows-held d s.1) owner clear time k))
                λ o' v' s'. rw s'.0 (h v' (Shows-trans d s.1 s'.1)))

  -- The archive is read, belongs to the user, and is handed to the producer.
  module _ (u a : String) (c : ContextArchive) (nonempty : str_eq (strip a) "" ≡ false)
      (reads : (v : World d.collection.Db) → find_archive (strip a) v ≡ (ok (found (some c)), v))
      (owned : c.user_id ≡ u) where
    republish_success :
        ((e : ArchiveCreatedEvent) (v : World d.collection.Db) → publish e v ≡ (ok tt, v))
        → (v : World d.collection.Db)
        → Returns
            (λ s v'. (s ≡ success) × (v' ≡ v))
            (republish_archive_created_event d find_archive publish event_id a u)
            v
    unfolding republish_archive_created_event republish_read publish_archive catch ◌>>=◌
    republish_success sends v = record {
      at = rw (nonempty, reads v, owned, eq_refl u, sends) (refl, refl);
    }

    republish_failure :
        (x : Error)
        → ((e : ArchiveCreatedEvent) (v : World d.collection.Db) → publish e v ≡ (err x, v))
        → (v : World d.collection.Db)
        → Returns
            (λ s v'. (s ≡ kafka_publish_failed) × (v' ≡ v))
            (republish_archive_created_event d find_archive publish event_id a u)
            v
    unfolding republish_archive_created_event republish_read publish_archive catch ◌>>=◌
    republish_failure x sends v = record {
      at = rw (nonempty, reads v, owned, eq_refl u, sends) (refl, refl);
    }

  republish-Raises :
      (u a : String) (x : Error)
      → str_eq (strip a) "" ≡ false
      → ((v : World d.collection.Db) → find_archive (strip a) v ≡ (err x, v))
      → (Q : Error → World d.collection.Db → Type 0) (v : World d.collection.Db) → Q x v
      → (k : RepublishStatus → Action d ExtractionAdminMutationSuccess)
      → Raises Q (republish_archive_created_event d find_archive publish event_id a u >>= k) v
  unfolding republish_archive_created_event ◌>>=◌
  republish-Raises u a x nonempty reads Q v q k = record { at = rw (nonempty, reads v) q }

-- The shared part of a retry and a rebuild, when all goes well.
pub action-restarts :
    (d : Deployment) (find_archive : String → Action d ArchiveRead)
    (publish : ArchiveCreatedEvent → Action d (Unit {0})) (event_id u a : String) (t : Task)
    (w : World d.collection.Db) (clear : Bool) (codes : List String) (time : ℕ) (c : ContextArchive)
    → Quiet d
    → view d.collection w.db a ≡ some t
    → t.user_id ≡ u
    → t.status ≡ failed
    → is_allowed codes t.last_error ≡ true
    → str_eq (strip a) "" ≡ false
    → ((v : World d.collection.Db) → find_archive (strip a) v ≡ (ok (found (some c)), v))
    → c.user_id ≡ u
    → ((e : ArchiveCreatedEvent) (v : World d.collection.Db) → publish e v ≡ (ok tt, v))
    → Returns
        (λ r w'.
          (r ≡ record { user_id = u; archive_id = a; status = pending })
          × Shows d a (restarted clear time t) 2 w w')
        (mutate_failed_to_pending_and_republish d find_archive publish event_id u a time clear
          codes)
        w
unfolding after_reset finish_mutation
action-restarts d find_archive publish event_id u a t w clear codes time c quiet held owner k
      allowed nonempty reads owned sends =
    reset_then-Returns d quiet find_archive publish event_id u a t w held owner clear codes time k
      allowed _
      λ v s.
        Returns-bind _ _ _ _ v
          (republish_success d quiet find_archive publish event_id u a c nonempty reads owned sends
            v)
          λ st v' h. rw (h.0, h.1) (Returns-pure _ _ v (refl, s))

-- A retry or a rebuild of a failed task whose error code is allowed, undisturbed, when the archive
-- belongs to the user but the producer raises: the action raises the infrastructure error, and the
-- task is failed again, now with the error of the publication (a result that a rebuild cleared stays
-- cleared).
pub action-publish_failure :
    (d : Deployment) (find_archive : String → Action d ArchiveRead)
    (publish : ArchiveCreatedEvent → Action d (Unit {0})) (event_id u a : String) (t : Task)
    (w : World d.collection.Db) (clear : Bool) (codes : List String) (time : ℕ) (c : ContextArchive)
    (x : Error)
    → Quiet d
    → view d.collection w.db a ≡ some t
    → t.user_id ≡ u
    → t.status ≡ failed
    → is_allowed codes t.last_error ≡ true
    → str_eq (strip a) "" ≡ false
    → ((v : World d.collection.Db) → find_archive (strip a) v ≡ (ok (found (some c)), v))
    → c.user_id ≡ u
    → ((e : ArchiveCreatedEvent) (v : World d.collection.Db) → publish e v ≡ (err x, v))
    → Raises
        (λ e w'.
          (e ≡ infrastructure_error)
          × Shows d a
              (record t {
                status = failed;
                extraction_result = if clear then none else t.extraction_result;
                last_error = some kafka_publish_failed_error;
                updated_time = time;
              })
              3
              w
              w')
        (mutate_failed_to_pending_and_republish d find_archive publish event_id u a time clear
          codes)
        w
unfolding after_reset finish_mutation mark_after_publish_failure
action-publish_failure d find_archive publish event_id u a t w clear codes time c x quiet held owner
      k allowed nonempty reads owned sends =
    reset_then-Raises d quiet find_archive publish event_id u a t w held owner clear codes time k
      allowed _
      λ v s.
        Raises-bind _ _ _ _ v
          (republish_failure d quiet find_archive publish event_id u a c nonempty reads owned x
            sends v)
          λ st v' h.
            rw (h.0, h.1)
              (Raises-bind _ _ _ _ v
                (Returns-catch _ _ _ v (
                  mark-Returns d quiet u a (restarted clear time t) v (Shows-held d s) owner
                    kafka_publish_failed_error time refl))
                λ _ v2 s'. Raises-raise _ _ v2 (refl, Shows-trans d s s'))

-- The same when the read of the archive raises something that is no `ValueError`, such as a lost
-- connection: the action raises that error and leaves the task pending, with no event published
-- and no error noted.
pub action-lost_event :
    (d : Deployment) (find_archive : String → Action d ArchiveRead)
    (publish : ArchiveCreatedEvent → Action d (Unit {0})) (event_id u a : String) (t : Task)
    (w : World d.collection.Db) (clear : Bool) (codes : List String) (time : ℕ) (x : Error)
    → Quiet d
    → view d.collection w.db a ≡ some t
    → t.user_id ≡ u
    → t.status ≡ failed
    → is_allowed codes t.last_error ≡ true
    → str_eq (strip a) "" ≡ false
    → ((v : World d.collection.Db) → find_archive (strip a) v ≡ (err x, v))
    → Raises
        (λ e w'. (e ≡ x) × Shows d a (restarted clear time t) 2 w w')
        (mutate_failed_to_pending_and_republish d find_archive publish event_id u a time clear
          codes)
        w
unfolding after_reset
action-lost_event d find_archive publish event_id u a t w clear codes time x quiet held owner k
      allowed nonempty reads =
    reset_then-Raises d quiet find_archive publish event_id u a t w held owner clear codes time k
      allowed _
      λ v s.
        republish-Raises d quiet find_archive publish event_id u a x nonempty reads _ v (refl, s) _

-- A task that has not failed, or failed with no error code that is allowed, is refused and left as
-- it was, with all other archives.
pub action-refused :
    (d : Deployment) (find_archive : String → Action d ArchiveRead)
    (publish : ArchiveCreatedEvent → Action d (Unit {0})) (event_id u a : String) (t : Task)
    (w : World d.collection.Db) (clear : Bool) (codes : List String) (time : ℕ)
    → Quiet d
    → view d.collection w.db a ≡ some t
    → t.user_id ≡ u
    → (t.status ≢ failed) ⊎ (is_allowed codes t.last_error ≡ false)
    → Raises
        (λ e w'. (e ≡ retry_not_allowed) × Shows d a t 1 w w')
        (mutate_failed_to_pending_and_republish d find_archive publish event_id u a time clear
          codes)
        w
action-refused d find_archive publish event_id u a t w clear codes time quiet held owner why =
    action_refused d quiet find_archive publish event_id u a t w held owner clear codes time why
