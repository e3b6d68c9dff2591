-- ===== src/Stm/Rounds/Raises.antt =====
-- What the coordination of compression may raise: what a service of a round raises, or the error of
-- an index into an empty archive.
use memory_system.Shared.{◌≡◌, refl, String, List, Bool, true, false, if◌then◌else◌}
use memory_system.Shared.Exec.{Result, ok, err, Exec, pure, raise, continue, ◌>>=◌}
use memory_system.Stm.Message.{WorkingMemoryMessage}
use memory_system.Stm.Meta.{ℤ}
use memory_system.Stm.Round.{RoundServices, Pending, CompressionFinalizeInput}

-- Some call of a service raises it, in some state.
pub data IsRaised {S E : Type 0} (services : RoundServices S E) : E → Type 0 where
  by_get_meta : (e : E) (s : S) → (services.get_meta s).0 ≡ err e → IsRaised services e
  by_read_context : (e : E) (s : S) → (services.read_context s).0 ≡ err e → IsRaised services e
  by_find_archive :
      (key : String) (e : E) (s : S) → (services.find_archive key s).0 ≡ err e → IsRaised services e
  by_create_or_reuse :
      (key : String) (version : ℤ) (ms : List WorkingMemoryMessage) (e : E) (s : S)
      → (services.create_or_reuse key version ms s).0 ≡ err e
      → IsRaised services e
  by_prepare :
      (p : Pending) (e : E) (s : S) → (services.prepare p s).0 ≡ err e → IsRaised services e
  by_compress :
      (text : String) (p : Pending) (e : E) (s : S)
      → (services.compress text p s).0 ≡ err e
      → IsRaised services e
  by_finalize :
      (x : CompressionFinalizeInput) (e : E) (s : S)
      → (services.finalize x s).0 ≡ err e
      → IsRaised services e
  by_empty_archive : IsRaised services services.index_error

module _ {S E : Type 0} (services : RoundServices S E) where
  abbrev pub EndsIn : {A : Type 0} → (A → Type 0) → Result E A → Type 0
  EndsIn Q (ok a) = Q a
  EndsIn Q (err e) = IsRaised services e

  -- The action answers a value of `Q` or raises what a service raises.
  pub record Yields {A : Type 0} (Q : A → Type 0) (m : Exec S E A) : Type 0 where
    pub at : (s : S) → EndsIn Q (m s).0

module _ {S E A : Type 0} {services : RoundServices S E} {Q : A → Type 0} where
  pub Yields-pure : (a : A) → Q a → Yields services Q (pure a)
  Yields-pure a q = record { at = λ s. q }

  pub Yields-raise : (e : E) → IsRaised services e → Yields services Q (raise e)
  Yields-raise e h = record { at = λ s. h }

  pub Yields-if :
      (b : Bool) (m n : Exec S E A)
      → Yields services Q m
      → Yields services Q n
      → Yields services Q (if b then m else n)
  Yields-if true m n h k = h
  Yields-if false m n h k = k

module _ {S E A : Type 0} {services : RoundServices S E} where
  EndsIn-called :
      (r : Result E A) → ((e : E) → r ≡ err e → IsRaised services e) → EndsIn services (λ _. Unit) r
  EndsIn-called (ok a) h = tt
  EndsIn-called (err e) h = h e refl

module _ {S E A B : Type 0} {services : RoundServices S E} {R : B → Type 0} where
  EndsIn-bind :
      (Q : A → Type 0) (f : A → Exec S E B) (r : Result E A) (s : S)
      → EndsIn services Q r
      → ((a : A) → Q a → Yields services R (f a))
      → EndsIn services R (continue f r s).0
  EndsIn-bind Q f (ok a) s q h = (h a q).at s
  EndsIn-bind Q f (err e) s q h = q

  pub Yields-bind :
      (Q : A → Type 0) (m : Exec S E A) (f : A → Exec S E B)
      → Yields services Q m
      → ((a : A) → Q a → Yields services R (f a))
      → Yields services R (m >>= f)
  unfolding ◌>>=◌
  Yields-bind Q m f r h = record { at = λ s. EndsIn-bind Q f (m s).0 (m s).1 (r.at s) h }

  -- Any call of a service, and then what answers so.
  pub calls :
      (m : Exec S E A) (f : A → Exec S E B)
      → ((e : E) (s : S) → (m s).0 ≡ err e → IsRaised services e)
      → ((a : A) → Yields services R (f a))
      → Yields services R (m >>= f)
  calls m f raised h =
      Yields-bind (λ _. Unit) m f (record { at = λ s. EndsIn-called (m s).0 (λ e x. raised e s x) })
        (λ a _. h a)
