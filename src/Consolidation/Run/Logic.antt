-- ===== src/Consolidation/Run/Logic.antt =====
-- Rules for the actions of a run: what a call to the outside keeps, and what no action raises.
use memory_system.Shared.{ℕ, zero, suc, ◌+◌, ◌≡◌, ◌≢◌, Bool, true, false, if◌then◌else◌, refl}
use memory_system.Shared.Exec.{
  Result, ok, err, Exec, pure, raise, gets, catch, on_error, continue, ◌>>=◌,
}
use memory_system.Shared.Triples.{Runs, OnEnd, finally}
use memory_system.Consolidation.Write.{RunFault, stuck}
use memory_system.Consolidation.Run.{
  World, Counters, ConsolidationMutex, acquire_by, arrive, lift, lifted, release,
}

abbrev pub refused_once : ConsolidationMutex → ConsolidationMutex
refused_once m = record { held = true; skipped_trigger_count = m.skipped_trigger_count + 1 }

-- `M` holds of a held mutex and of the triggers that have arrived, and keeps holding when a trigger
-- is refused.
abbrev pub IsStable : (ConsolidationMutex → ℕ → Type 0) → Type 0
IsStable M = (m : ConsolidationMutex) (n : ℕ) → M m n → (m.held ≡ true) × M (refused_once m) (n + 1)

module _ {S A : Type 0} (Q : A → Type 0) (K : Counters → Type 0)
    (M : ConsolidationMutex → ℕ → Type 0) (stable : IsStable M) where
  abbrev Holds : World S → Type 0
  Holds w = K w.counters × M w.mutex w.arrived

  one-Holds :
      (b : Bool) (w : World S)
      → b ≡ true
      → K w.counters
      → M (refused_once w.mutex) (w.arrived + 1)
      → Holds (record (acquire_by b w).1 { arrived = w.arrived + 1 })
  one-Holds true w e k m = (k, m)
  one-Holds false w e k m = absurd (cc)

  arrive-Holds : (n : ℕ) (w : World S) → Holds w → Holds (arrive n w)
  arrive-Holds zero w h = h
  arrive-Holds (suc n) w (k, m) =
      let (e, next) = stable w.mutex w.arrived m in
      arrive-Holds n _ (one-Holds w.mutex.held w e k next)

  lifted-OnEnd :
      (t : S → ℕ) (w : World S) (r : Result RunFault A) (s : S)
      → Holds w
      → OnEnd (λ a _. Q a) (λ _. Unit) r s
      → OnEnd (λ a x. Q a × Holds x) Holds (lifted t w (r, s)).0 (lifted t w (r, s)).1
  lifted-OnEnd t w (ok a) s f h = (h, arrive-Holds (t s) (record w { outside = s }) f)
  lifted-OnEnd t w (err e) s f h = arrive-Holds (t s) (record w { outside = s }) f

  -- A call to the outside leaves the counters alone; the triggers during it are refused.
  pub lift-Runs :
      (t : S → ℕ) (m : Exec S RunFault A)
      → Runs (λ _. Unit) (λ a _. Q a) (λ _. Unit) m
      → Runs Holds (λ a w. Q a × Holds w) Holds (lift t m)
  unfolding lift
  lift-Runs t m h = record {
    at = λ w f. lifted-OnEnd t w (m w.outside).0 (m w.outside).1 f (h.at w.outside tt);
  }

abbrev pub OnResult : {A : Type 0} → (A → Type 0) → Result RunFault A → Type 0
OnResult Q (ok a) = Q a
OnResult Q (err e) = e ≢ stuck

-- `m` returns a value of `Q` or raises an exception: it does not get stuck.
pub record Settles {S A : Type 0} (Q : A → Type 0) (m : Exec S RunFault A) : Type 0 where
  pub at : (s : S) → OnResult Q (m s).0

module _ {S A : Type 0} (Q : A → Type 0) where
  pub Settles-pure : (a : A) → Q a → Settles {S = S} Q (pure a)
  Settles-pure a q = record { at = λ s. q }

  pub Settles-raise : (e : RunFault) → e ≢ stuck → Settles {S = S} Q (raise e)
  Settles-raise e h = record { at = λ s. h }

  pub Settles-if :
      (b : Bool) (m n : Exec S RunFault A)
      → (b ≡ true → Settles Q m)
      → (b ≡ false → Settles Q n)
      → Settles Q (if b then m else n)
  Settles-if true m n h k = h refl
  Settles-if false m n h k = k refl

  OnResult-lifted :
      (t : S → ℕ) (w : World S) (r : Result RunFault A) (s : S)
      → OnResult Q r
      → OnResult Q (lifted t w (r, s)).0
  OnResult-lifted t w (ok a) s h = h
  OnResult-lifted t w (err e) s h = h

  pub Settles-lift : (t : S → ℕ) (m : Exec S RunFault A) → Settles Q m → Settles Q (lift t m)
  unfolding lift
  Settles-lift t m h = record {
    at = λ w. OnResult-lifted t w (m w.outside).0 (m w.outside).1 (h.at w.outside);
  }

  OnResult-catch :
      (f : RunFault → Exec S RunFault A) (r : Result RunFault A) (s : S)
      → OnResult Q r
      → ((e : RunFault) → e ≢ stuck → Settles Q (f e))
      → OnResult Q (on_error f r s).0
  OnResult-catch f (ok a) s h k = h
  OnResult-catch f (err e) s h k = (k e h).at s

  pub Settles-catch :
      (m : Exec S RunFault A) (f : RunFault → Exec S RunFault A)
      → Settles Q m
      → ((e : RunFault) → e ≢ stuck → Settles Q (f e))
      → Settles Q (catch m f)
  unfolding catch
  Settles-catch m f h k = record { at = λ s. OnResult-catch f (m s).0 (m s).1 (h.at s) k }

module _ {S A B : Type 0} where
  OnResult-bind :
      (Q : A → Type 0) (R : B → Type 0) (f : A → Exec S RunFault B) (r : Result RunFault A) (s : S)
      → OnResult Q r
      → ((a : A) → Q a → Settles R (f a))
      → OnResult R (continue f r s).0
  OnResult-bind Q R f (ok a) s h k = (k a h).at s
  OnResult-bind Q R f (err e) s h k = h

  pub Settles-bind :
      (Q : A → Type 0) (R : B → Type 0) (m : Exec S RunFault A) (f : A → Exec S RunFault B)
      → Settles Q m
      → ((a : A) → Q a → Settles R (f a))
      → Settles R (m >>= f)
  unfolding ◌>>=◌
  Settles-bind Q R m f h k = record { at = λ s. OnResult-bind Q R f (m s).0 (m s).1 (h.at s) k }

module _ {S A : Type 0} where
  -- The release of the mutex at the end raises nothing.
  pub Settles-finally :
      (Q : A → Type 0) (m : Exec (World S) RunFault A) → Settles Q m → Settles Q (finally m release)
  unfolding finally release
  Settles-finally Q m h = record { at = λ s. h.at s }

  pub Settles-gets :
      (Q : A → Type 0) (f : World S → A) → ((w : World S) → Q (f w)) → Settles Q (gets f)
  Settles-gets Q f h = record { at = h }
