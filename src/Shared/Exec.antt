-- ===== src/Shared/Exec.antt =====
-- Effects of an `async` method: it reads and writes a state and may raise. What was written before
-- a raise stays written, so the state comes back beside the error too.
use mathlib.Core.Path.{◌≡◌, subst}
use mathlib.Core.Bool.{Bool, true, false}
use memory_system.Shared.Tests.{if◌then◌else◌}

pub data Result {ℓ} (E A : Type ℓ) : Type ℓ where
  ok : A → Result E A
  err : E → Result E A

abbrev pub Exec {ℓ} : Type ℓ → Type ℓ → Type ℓ → Type ℓ
Exec S E A = S → Result E A × S

module _ {ℓ} {S E A : Type ℓ} where
  abbrev pub pure : A → Exec S E A
  pure a s = (ok a, s)

  abbrev pub raise : E → Exec S E A
  raise e s = (err e, s)

  abbrev pub gets : (S → A) → Exec S E A
  gets f s = (ok (f s), s)

  abbrev pub on_error : (E → Exec S E A) → Result E A → Exec S E A
  on_error handler (ok a) s = (ok a, s)
  on_error handler (err e) s = handler e s

  -- try: m, except Exception as e: handler e
  unfoldable pub catch : Exec S E A → (E → Exec S E A) → Exec S E A
  catch m handler s = on_error handler (m s).0 (m s).1

module _ {ℓ} {S E A B : Type ℓ} where
  abbrev pub continue : (A → Exec S E B) → Result E A → Exec S E B
  continue f (ok a) s = f a s
  continue f (err e) s = (err e, s)

  infixl 5 ◌>>=◌ ◌>>◌
  unfoldable pub ◌>>=◌ : Exec S E A → (A → Exec S E B) → Exec S E B
  ◌>>=◌ m f s = continue f (m s).0 (m s).1

  abbrev pub ◌>>◌ : Exec S E A → Exec S E B → Exec S E B
  m >> k = m >>= λ _. k

abbrev pub OnOk {ℓ} : {S E A : Type ℓ} → (A → S → Type ℓ) → Result E A → S → Type ℓ
OnOk Q (ok a) s = Q a s
OnOk Q (err e) s = Unit

-- `m`, started in `s`, either raises or returns a value and a state in `Q`.
pub record Ensures {ℓ} {S E A : Type ℓ} (Q : A → S → Type ℓ) (m : Exec S E A) (s : S) : Type ℓ where
  pub at : OnOk Q (m s).0 (m s).1

-- `m` keeps `P`, whether it returns or raises.
pub record Keeps {ℓ} {S E A : Type ℓ} (P : S → Type ℓ) (m : Exec S E A) : Type ℓ where
  pub at : (s : S) → P s → P (m s).1

module _ {ℓ} {S E A : Type ℓ} where
  pub Ensures-pure : (Q : A → S → Type ℓ) (a : A) (s : S) → Q a s → Ensures Q (pure {E = E} a) s
  Ensures-pure Q a s q = record { at = q }

  pub Ensures-raise : (Q : A → S → Type ℓ) (e : E) (s : S) → Ensures Q (raise e) s
  Ensures-raise Q e s = record { at = tt }

  -- What holds of a run that returned.
  pub Ensures-at :
      (Q : A → S → Type ℓ) (m : Exec S E A) (s : S) (a : A)
      → Ensures Q m s
      → (m s).0 ≡ ok a
      → Q a (m s).1
  Ensures-at Q m s a e h = subst (λ r. OnOk Q r (m s).1) h e.at

  OnOk-catch :
      (Q : A → S → Type ℓ) (handler : E → Exec S E A) (r : Result E A) (s : S)
      → OnOk Q r s
      → ((e : E) → Ensures Q (handler e) s)
      → OnOk Q (on_error handler r s).0 (on_error handler r s).1
  OnOk-catch Q handler (ok a) s q h = q
  OnOk-catch Q handler (err e) s q h = (h e).at

  pub Ensures-catch :
      (Q : A → S → Type ℓ) (m : Exec S E A) (handler : E → Exec S E A) (s : S)
      → Ensures Q m s
      → ((e : E) (s' : S) → Ensures Q (handler e) s')
      → Ensures Q (catch m handler) s
  unfolding catch
  Ensures-catch Q m handler s q h = record {
    at = OnOk-catch Q handler (m s).0 (m s).1 q.at (λ e. h e (m s).1);
  }

module _ {ℓ} {S E A B : Type ℓ} where
  OnOk-bind :
      (Q : A → S → Type ℓ) (R : B → S → Type ℓ) (f : A → Exec S E B) (r : Result E A) (s : S)
      → OnOk Q r s
      → ((a : A) → Q a s → Ensures R (f a) s)
      → OnOk R (continue f r s).0 (continue f r s).1
  OnOk-bind Q R f (ok a) s q h = (h a q).at
  OnOk-bind Q R f (err e) s q h = tt

  pub Ensures-bind :
      (Q : A → S → Type ℓ) (R : B → S → Type ℓ) (m : Exec S E A) (f : A → Exec S E B) (s : S)
      → Ensures Q m s
      → ((a : A) (s' : S) → Q a s' → Ensures R (f a) s')
      → Ensures R (m >>= f) s
  unfolding ◌>>=◌
  Ensures-bind Q R m f s q h = record {
    at = OnOk-bind Q R f (m s).0 (m s).1 q.at (λ a. h a (m s).1);
  }

module _ {ℓ} {S E A B : Type ℓ} where
  pub Ensures-gets :
      (R : B → S → Type ℓ) (g : S → A) (f : A → Exec S E B) (s : S)
      → Ensures R (f (g s)) s
      → Ensures R (gets g >>= f) s
  unfolding ◌>>=◌
  Ensures-gets R g f s q = record { at = q.at }

-- Rules for `Keeps`, one for each way to build an action.
module _ {ℓ} {S E A : Type ℓ} {P : S → Type ℓ} where
  pub Keeps-pure : (a : A) → Keeps P (pure {E = E} a)
  Keeps-pure a = record { at = λ s p. p }

  pub Keeps-raise : (e : E) → Keeps P (raise {A = A} e)
  Keeps-raise e = record { at = λ s p. p }

  pub Keeps-gets : (f : S → A) → Keeps P (gets {E = E} f)
  Keeps-gets f = record { at = λ s p. p }

  pub Keeps-if :
      (b : Bool) (m n : Exec S E A) → Keeps P m → Keeps P n → Keeps P (if b then m else n)
  Keeps-if true m n km kn = km
  Keeps-if false m n km kn = kn

  on_error-keeps :
      (handler : E → Exec S E A) (r : Result E A) (s : S)
      → P s
      → ((e : E) → Keeps P (handler e))
      → P (on_error handler r s).1
  on_error-keeps handler (ok a) s p h = p
  on_error-keeps handler (err e) s p h = (h e).at s p

  pub Keeps-catch :
      (m : Exec S E A) (handler : E → Exec S E A)
      → Keeps P m
      → ((e : E) → Keeps P (handler e))
      → Keeps P (catch m handler)
  unfolding catch
  Keeps-catch m handler km h = record {
    at = λ s p. on_error-keeps handler (m s).0 (m s).1 (km.at s p) h;
  }

module _ {ℓ} {S E A B : Type ℓ} {P : S → Type ℓ} where
  continue-keeps :
      (f : A → Exec S E B) (r : Result E A) (s : S)
      → P s
      → ((a : A) → Keeps P (f a))
      → P (continue f r s).1
  continue-keeps f (ok a) s p h = (h a).at s p
  continue-keeps f (err e) s p h = p

  pub Keeps-bind :
      (m : Exec S E A) (f : A → Exec S E B)
      → Keeps P m
      → ((a : A) → Keeps P (f a))
      → Keeps P (m >>= f)
  unfolding ◌>>=◌
  Keeps-bind m f km h = record { at = λ s p. continue-keeps f (m s).0 (m s).1 (km.at s p) h }

pub ruleset keeps_rules = (Keeps-pure, Keeps-raise, Keeps-gets, Keeps-if, Keeps-catch, Keeps-bind)
