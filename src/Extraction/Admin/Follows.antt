-- ===== src/Extraction/Admin/Follows.antt =====
-- The two admin actions move every task along its life only.
use memory_system.Shared.{String, Option, none, some, Bool, true, false, List, ℕ, str_eq}
use memory_system.Shared.Exec.{Keeps, Keeps-pure, Keeps-raise, Keeps-bind, Keeps-catch, Keeps-if}
use memory_system.Extraction.Event.{ArchiveCreatedEvent}
use memory_system.Extraction.Task.{Task, Status, failed, LastError}
use memory_system.Extraction.World.{Deployment, World, Action}
use memory_system.Extraction.Lifecycle.{Reach, Reach-trans, here}
use memory_system.Extraction.Repository.Moves.{
  view, OthersFollow, Since, find_user-Keeps, admin_reset-Keeps, admin_mark_failed-Keeps,
}
use memory_system.Extraction.Strip.{strip}
use memory_system.Extraction.Admin.{
  ArchiveRead, found, value_error, ContextArchive, RepublishStatus, success, publish_archive,
  republish_read, republish_archive_created_event, mark_after_publish_failure, finish_mutation,
  after_reset, reset_and_republish, check_and_reset, mutate_found,
  mutate_failed_to_pending_and_republish, retry_task, rebuild_task, manual_retry_allowed,
  rebuild_allowed,
}

-- An action that changes the collection, if at all, by events in the life of a task.
abbrev pub Follows : (d : Deployment) → {A : Type 0} → Action d A → Type 0
Follows d m =
    (w : World d.collection.Db) (a : String)
    → Reach (view d.collection w.db a) (view d.collection (m w).1.db a)

module _ (d : Deployment) (others : OthersFollow d) (find_archive : String → Action d ArchiveRead)
    (publish : ArchiveCreatedEvent → Action d (Unit {0})) (event_id : String)
    (finds : (a : String) → Follows d (find_archive a))
    (publishes : (e : ArchiveCreatedEvent) → Follows d (publish e)) where
  module _ (o : Option Task) (b : String) where
    publish_archive-Keeps :
        (c : ContextArchive)
        → Keeps (Since d o b) (publish_archive d find_archive publish event_id c)
    unfolding publish_archive
    publish_archive-Keeps c =
        Keeps-catch _ _
          (Keeps-bind _ _ (record { at = λ w r. Reach-trans r (publishes _ w b) })
            (λ _. Keeps-pure _))
          (λ e. Keeps-pure _)

    republish_read-Keeps :
        (u : String) (r : ArchiveRead)
        → Keeps (Since d o b) (republish_read d find_archive publish event_id u r)
    unfolding republish_read
    republish_read-Keeps u value_error = Keeps-pure _
    republish_read-Keeps u (found none) = Keeps-pure _
    republish_read-Keeps u (found (some c)) =
        Keeps-if (str_eq c.user_id u) _ _ (publish_archive-Keeps c) (Keeps-pure _)

    republish-Keeps :
        (a u : String)
        → Keeps (Since d o b) (republish_archive_created_event d find_archive publish event_id a u)
    unfolding republish_archive_created_event
    republish-Keeps a u = Keeps-if (str_eq (strip a) "") _ _ (Keeps-pure _) (
        Keeps-bind _ _ (record { at = λ w r. Reach-trans r (finds _ w b) })
          (republish_read-Keeps u))

    mark-Keeps :
        (u a : String) (time : ℕ)
        → Keeps (Since d o b) (mark_after_publish_failure d find_archive publish event_id u a time)
    unfolding mark_after_publish_failure
    mark-Keeps u a time =
        Keeps-bind _ _
          (Keeps-catch _ _ (admin_mark_failed-Keeps d others o b u a _ time) (λ e. Keeps-raise _))
          (λ _. Keeps-raise _)

    finish-Keeps :
        (u a : String) (time : ℕ) (s : RepublishStatus)
        → Keeps (Since d o b) (finish_mutation d find_archive publish event_id u a time s)
    unfolding finish_mutation
    finish-Keeps u a time success = Keeps-pure _
    finish-Keeps u a time _ = mark-Keeps u a time

    after_reset-Keeps :
        (u a : String) (time : ℕ) (r : Option Task)
        → Keeps (Since d o b) (after_reset d find_archive publish event_id u a time r)
    unfolding after_reset
    after_reset-Keeps u a time none = Keeps-raise _
    after_reset-Keeps u a time (some t) =
        Keeps-bind _ _ (republish-Keeps a u) (finish-Keeps u a time)

    reset-Keeps :
        (u a : String) (time : ℕ) (clear : Bool)
        → Keeps (Since d o b) (reset_and_republish d find_archive publish event_id u a time clear)
    unfolding reset_and_republish
    reset-Keeps u a time clear =
        Keeps-bind _ _
          (Keeps-catch _ _ (admin_reset-Keeps d others o b u a time clear) (λ e. Keeps-raise _))
          (after_reset-Keeps u a time)

    check-Keeps :
        (u a : String) (time : ℕ) (clear : Bool) (codes : List String) (e : Option LastError)
        (s : Status)
        → Keeps
            (Since d o b)
            (check_and_reset d find_archive publish event_id u a time clear codes e s)
    unfolding check_and_reset
    check-Keeps u a time clear codes e failed =
        Keeps-if _ _ _ (reset-Keeps u a time clear) (Keeps-raise _)
    check-Keeps u a time clear codes e _ = Keeps-raise _

    mutate-Keeps :
        (u a : String) (time : ℕ) (clear : Bool) (codes : List String) (r : Option Task)
        → Keeps (Since d o b) (mutate_found d find_archive publish event_id u a time clear codes r)
    unfolding mutate_found
    mutate-Keeps u a time clear codes none = Keeps-raise _
    mutate-Keeps u a time clear codes (some t) =
        check-Keeps u a time clear codes t.last_error t.status

    action-Keeps :
        (u a : String) (time : ℕ) (clear : Bool) (codes : List String)
        → Keeps (Since d o b) (
            mutate_failed_to_pending_and_republish d find_archive publish event_id u a time clear
              codes)
    unfolding mutate_failed_to_pending_and_republish
    action-Keeps u a time clear codes =
        Keeps-bind _ _ (find_user-Keeps d others o b u a) (mutate-Keeps u a time clear codes)

  -- If other workers, the reading of archives and the publisher change the collection only by
  -- events in the life of a task, then so do retry and rebuild, for every archive, on every path.
  pub admin-Reach :
      (u a : String) (time : ℕ)
      → Follows d (retry_task d find_archive publish event_id u a time)
        × Follows d (rebuild_task d find_archive publish event_id u a time)
  unfolding retry_task rebuild_task
  admin-Reach u a time = (
    λ w b.
        (action-Keeps (view d.collection w.db b) b u a time false manual_retry_allowed).at w here,
    λ w b. (action-Keeps (view d.collection w.db b) b u a time true rebuild_allowed).at w here,
  )
