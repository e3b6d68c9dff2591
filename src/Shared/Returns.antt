-- ===== src/Shared/Returns.antt =====
-- Total correctness of actions: `Returns Q m s` says that `m`, started in `s`, returns, with its
-- value and its last state in `Q`; `Raises` says it of an error.
use memory_system.Shared.Exec.{
  Result, ok, err, Exec, pure, raise, gets, catch, on_error, continue, ◌>>=◌,
}

abbrev pub OnReturn {ℓ} : {S E A : Type ℓ} → (A → S → Type 0) → Result E A → S → Type 0
OnReturn Q (ok a) s = Q a s
OnReturn Q (err e) s = ⊥

abbrev pub OnRaise {ℓ} : {S E A : Type ℓ} → (E → S → Type 0) → Result E A → S → Type 0
OnRaise Q (ok a) s = ⊥
OnRaise Q (err e) s = Q e s

pub record Returns {ℓ} {S E A : Type ℓ} (Q : A → S → Type 0) (m : Exec S E A) (s : S) : Type 0 where
  pub at : OnReturn Q (m s).0 (m s).1

pub record Raises {ℓ} {S E A : Type ℓ} (Q : E → S → Type 0) (m : Exec S E A) (s : S) : Type 0 where
  pub at : OnRaise Q (m s).0 (m s).1

module _ {ℓ} {S E A : Type ℓ} where
  pub Returns-pure : (Q : A → S → Type 0) (a : A) (s : S) → Q a s → Returns Q (pure {E = E} a) s
  Returns-pure Q a s q = record { at = q }

  pub Raises-raise : (Q : E → S → Type 0) (e : E) (s : S) → Q e s → Raises {A = A} Q (raise e) s
  Raises-raise Q e s q = record { at = q }

  OnReturn-catch :
      (Q : A → S → Type 0) (handler : E → Exec S E A) (r : Result E A) (s : S)
      → OnReturn Q r s
      → OnReturn Q (on_error handler r s).0 (on_error handler r s).1
  OnReturn-catch Q handler (ok a) s q = q
  OnReturn-catch Q handler (err e) s q = absurd q

  pub Returns-catch :
      (Q : A → S → Type 0) (m : Exec S E A) (handler : E → Exec S E A) (s : S)
      → Returns Q m s
      → Returns Q (catch m handler) s
  unfolding catch
  Returns-catch Q m handler s q = record { at = OnReturn-catch Q handler (m s).0 (m s).1 q.at }

module _ {ℓ} {S E A : Type ℓ} where
  OnReturn-mono :
      (P Q : A → S → Type 0) (r : Result E A) (s : S)
      → ((a : A) (s' : S) → P a s' → Q a s')
      → OnReturn P r s
      → OnReturn Q r s
  OnReturn-mono P Q (ok a) s h p = h a s p
  OnReturn-mono P Q (err e) s h p = p

  pub Returns-mono :
      (P Q : A → S → Type 0) (m : Exec S E A) (s : S)
      → ((a : A) (s' : S) → P a s' → Q a s')
      → Returns P m s
      → Returns Q m s
  Returns-mono P Q m s h p = record { at = OnReturn-mono P Q (m s).0 (m s).1 h p.at }

module _ {ℓ} {S E A B : Type ℓ} where
  OnReturn-bind :
      (Q : A → S → Type 0) (R : B → S → Type 0) (f : A → Exec S E B) (r : Result E A) (s : S)
      → OnReturn Q r s
      → ((a : A) → Q a s → Returns R (f a) s)
      → OnReturn R (continue f r s).0 (continue f r s).1
  OnReturn-bind Q R f (ok a) s q h = (h a q).at
  OnReturn-bind Q R f (err e) s q h = absurd q

  pub Returns-bind :
      (Q : A → S → Type 0) (R : B → S → Type 0) (m : Exec S E A) (f : A → Exec S E B) (s : S)
      → Returns Q m s
      → ((a : A) (s' : S) → Q a s' → Returns R (f a) s')
      → Returns R (m >>= f) s
  unfolding ◌>>=◌
  Returns-bind Q R m f s q h = record {
    at = OnReturn-bind Q R f (m s).0 (m s).1 q.at (λ a. h a (m s).1);
  }

  OnRaise-bind :
      (Q : A → S → Type 0) (R : E → S → Type 0) (f : A → Exec S E B) (r : Result E A) (s : S)
      → OnReturn Q r s
      → ((a : A) → Q a s → Raises R (f a) s)
      → OnRaise R (continue f r s).0 (continue f r s).1
  OnRaise-bind Q R f (ok a) s q h = (h a q).at
  OnRaise-bind Q R f (err e) s q h = absurd q

  -- The first action returns, and what follows raises.
  pub Raises-bind :
      (Q : A → S → Type 0) (R : E → S → Type 0) (m : Exec S E A) (f : A → Exec S E B) (s : S)
      → Returns Q m s
      → ((a : A) (s' : S) → Q a s' → Raises R (f a) s')
      → Raises R (m >>= f) s
  unfolding ◌>>=◌
  Raises-bind Q R m f s q h = record {
    at = OnRaise-bind Q R f (m s).0 (m s).1 q.at (λ a. h a (m s).1);
  }

  pub Returns-gets :
      (R : B → S → Type 0) (g : S → A) (f : A → Exec S E B) (s : S)
      → Returns R (f (g s)) s
      → Returns R (gets g >>= f) s
  unfolding ◌>>=◌
  Returns-gets R g f s q = record { at = q.at }
