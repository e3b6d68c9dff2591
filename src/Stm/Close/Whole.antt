-- ===== src/Stm/Close/Whole.antt =====
-- `close_session` as a whole, from its start to its end, whatever its calls answer.
use mathlib.Core.Path.{subst}
use memory_system.Shared.{◌≡◌, inr, refl, sym, String, Bool, Option, none, some, List, [], ◌∷◌, All}
use memory_system.Shared.Exec.{Result, ok, err}
use memory_system.Shared.Triples.{Runs, OnEnd, Runs-pre, Runs-raise, Runs-bind, Runs-finally}
use memory_system.Stm.Settings.{ContextSettings}
use memory_system.Stm.Close.Calls.{
  Effect, acquire_lock, terminal_success, terminal_delete, lock_not_acquired, release_lock,
  CloseWorld, CloseFailure, Fault, Services,
}
use memory_system.Stm.Close.{SessionCloseResult, with_token, close_session, fresh}
use memory_system.Stm.Close.Histories.{
  Has, NotStored, Base, SafeReverts, SafeDeletes, IsBracketed, OnReply, push, perform-Runs,
}
use memory_system.Stm.Close.Order.{Gone, Held, Fresh, locked_body-Runs}

-- The history of a close: every deletion of the session came after a plan of what was read was
-- stored in full, no session was reverted to active after an archive was stored, and the lock was
-- given back last or never taken.
abbrev pub IsOrderly : ContextSettings → List Effect → Type 0
IsOrderly context h =
    SafeDeletes context h × SafeReverts h × IsBracketed context.compression_lock_ttl_seconds h

module _ (services : Services) (context : ContextSettings) (user_id session_id : String) where
  abbrev Ended : CloseWorld → Type 0
  Ended w = IsOrderly context w.history

  abbrev EndedGone : CloseWorld → Type 0
  EndedGone w = IsOrderly context w.history × Has (terminal_delete (ok terminal_success)) w.history

  -- The lock was asked for, and `token` is the answer.
  abbrev Asked : Option String → CloseWorld → Type 0
  Asked token w = w.history ≡ acquire_lock context.compression_lock_ttl_seconds (ok token) ∷ []

  Asked-Fresh :
      (token : String) (w : CloseWorld)
      → Asked (some token) w
      → Fresh services context user_id session_id context.compression_lock_ttl_seconds token w
  Asked-Fresh token w e =
      subst (λ h. Base context context.compression_lock_ttl_seconds token h × All NotStored h)
        (sym e) ((tt, tt, refl), (tt, tt))

  release-Gone :
      (token : String) (w : CloseWorld) (r : Result Fault Bool)
      → Gone services context user_id session_id context.compression_lock_ttl_seconds token w
      → OnReply (λ _. EndedGone) Ended r (push (release_lock token r) w)
  release-Gone token w (ok x) ((d, v, l), g) = ((d, v, l), inr g)
  release-Gone token w (err f) ((d, v, l), g) = (d, v, l)

  release-Held :
      (token : String) (w : CloseWorld) (r : Result Fault Bool)
      → Held services context user_id session_id context.compression_lock_ttl_seconds token w
      → OnReply (λ _. Ended) Ended r (push (release_lock token r) w)
  release-Held token w (ok x) b = b
  release-Held token w (err f) b = b

  with_token-Runs :
      (token : Option String)
      → Runs
          (Asked token)
          (λ _. EndedGone)
          Ended
          (with_token services context user_id session_id token)
  unfolding with_token
  with_token-Runs none =
      Runs-raise lock_not_acquired
        (λ w e. subst (IsOrderly context) (sym e) (tt, tt, (ok none, refl, tt)))
  with_token-Runs (some token) = Runs-pre (Asked-Fresh token) (
      Runs-finally (λ _. Gone services context user_id session_id _ token) (λ _. EndedGone) Ended _
        _ (locked_body-Runs services context user_id session_id _ token)
        (λ a. perform-Runs (λ _. EndedGone) Ended _ _ (release-Gone token))
        (perform-Runs (λ _. Ended) Ended _ _ (release-Held token)))

  acquire_reply :
      (w : CloseWorld) (r : Result Fault (Option String))
      → fresh ≡ w
      → OnReply Asked Ended r (push (acquire_lock context.compression_lock_ttl_seconds r) w)
  acquire_reply w (ok token) e =
      subst
        (λ x.
          acquire_lock context.compression_lock_ttl_seconds (ok token) ∷ x.history
          ≡ acquire_lock context.compression_lock_ttl_seconds (ok token) ∷ [])
        e refl
  acquire_reply w (err f) e =
      subst
        (λ x.
          IsOrderly context (acquire_lock context.compression_lock_ttl_seconds (err f) ∷ x.history))
        e (tt, tt, (err f, refl, tt))

  close_session-Runs :
      Runs
        (λ w. fresh ≡ w)
        (λ _. EndedGone)
        Ended
        (close_session services context user_id session_id)
  unfolding close_session
  close_session-Runs =
      Runs-bind Asked _ _ _ (perform-Runs Asked Ended _ _ acquire_reply)
        (λ token. with_token-Runs token)

ended :
    (context : ContextSettings) (r : Result CloseFailure SessionCloseResult) (w : CloseWorld)
    → OnEnd
        (λ _ s. IsOrderly context s.history × Has (terminal_delete (ok terminal_success)) s.history)
        (λ s. IsOrderly context s.history)
        r
        w
    → IsOrderly context w.history
ended context (ok a) w p = p.0
ended context (err e) w p = p

-- Whatever Redis, MongoDB and Kafka answer, also when they raise, the calls of a close are orderly.
-- Every deletion of the session's keys comes after the metadata and the snapshot were read, a close
-- plan was built from them, and each batch of that plan was found pending, created, or found with
-- the plan's version; no reverting to active comes after a stored archive; and either the lock was
-- not given and nothing else was called, or the first call took the lock, the last one gave that
-- lock back, and none between touched it.
pub close_session-IsOrderly :
    (services : Services) (context : ContextSettings) (user_id session_id : String)
    → IsOrderly context (close_session services context user_id session_id fresh).1.history
close_session-IsOrderly services context user_id session_id =
    ended context (close_session services context user_id session_id fresh).0
      (close_session services context user_id session_id fresh).1
      ((close_session-Runs services context user_id session_id).at fresh refl)

-- A close that returns has deleted the session: the deletion answered success.
pub close_session-deleted :
    (services : Services) (context : ContextSettings) (user_id session_id : String)
    (r : SessionCloseResult)
    → (close_session services context user_id session_id fresh).0 ≡ ok r
    → Has
        (terminal_delete (ok terminal_success))
        (close_session services context user_id session_id fresh).1.history
close_session-deleted services context user_id session_id r e =
    (subst
      (λ x.
        OnEnd
          (λ _ s.
            IsOrderly context s.history × Has (terminal_delete (ok terminal_success)) s.history)
          (λ s. IsOrderly context s.history) x
          (close_session services context user_id session_id fresh).1)
      e ((close_session-Runs services context user_id session_id).at fresh refl)).1
