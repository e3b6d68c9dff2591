-- ===== src/Shared/Triples.antt =====
-- `Runs P Q X m`: started in a state of `P`, the action `m` returns with `Q` or raises with `X`.
use mathlib.Core.Bool.{Bool, true, false}
use memory_system.Shared.Tests.{if◌then◌else◌}
use memory_system.Shared.Exec.{
  Result, ok, err, Exec, pure, raise, gets, catch, on_error, continue, ◌>>=◌,
}

abbrev pub OnEnd : {S E A : Type 0} → (A → S → Type 0) → (S → Type 0) → Result E A → S → Type 0
OnEnd Q X (ok a) s = Q a s
OnEnd Q X (err e) s = X s

pub record Runs {S E A : Type 0} (P : S → Type 0) (Q : A → S → Type 0) (X : S → Type 0)
    (m : Exec S E A) : Type 0 where
  pub at : (s : S) → P s → OnEnd Q X (m s).0 (m s).1

module _ {S E A B : Type 0} where
  abbrev pub after : Result E A → Result E B × S → Result E A × S
  after r (ok b, s) = (r, s)
  after r (err e, s) = (err e, s)

  -- try: m finally: f
  unfoldable pub finally : Exec S E A → Exec S E B → Exec S E A
  finally m f s = after (m s).0 (f (m s).1)

OnEnd-weaken :
    {S E A : Type 0} (Q R : A → S → Type 0) (X : S → Type 0) (r : Result E A) (s : S)
    → ((a : A) (s : S) → Q a s → R a s)
    → OnEnd Q X r s
    → OnEnd R X r s
OnEnd-weaken Q R X (ok a) s h q = h a s q
OnEnd-weaken Q R X (err e) s h x = x

OnEnd-raised :
    {S E A : Type 0} (Q : A → S → Type 0) (X Y : S → Type 0) (r : Result E A) (s : S)
    → ((s : S) → Y s → X s)
    → OnEnd Q Y r s
    → OnEnd Q X r s
OnEnd-raised Q X Y (ok a) s h q = q
OnEnd-raised Q X Y (err e) s h y = h s y

module _ {S E A : Type 0} {Q : A → S → Type 0} {X : S → Type 0} where
  pub Runs-pure : {P : S → Type 0} (a : A) → ((s : S) → P s → Q a s) → Runs {E = E} P Q X (pure a)
  Runs-pure a h = record { at = h }

  pub Runs-raise : {P : S → Type 0} (e : E) → ((s : S) → P s → X s) → Runs {A = A} P Q X (raise e)
  Runs-raise e h = record { at = h }

  pub Runs-gets :
      {P : S → Type 0} (f : S → A) → ((s : S) → P s → Q (f s) s) → Runs {E = E} P Q X (gets f)
  Runs-gets f h = record { at = h }

  pub Runs-weaken :
      {P : S → Type 0} {R : A → S → Type 0} {m : Exec S E A}
      → ((a : A) (s : S) → Q a s → R a s)
      → Runs P Q X m
      → Runs P R X m
  Runs-weaken {R = R} {m = m} h r = record {
    at = λ s p. OnEnd-weaken Q R X (m s).0 (m s).1 h (r.at s p);
  }

  pub Runs-raised :
      {P Y : S → Type 0} {m : Exec S E A} → ((s : S) → Y s → X s) → Runs P Q Y m → Runs P Q X m
  Runs-raised {Y = Y} {m = m} h r = record {
    at = λ s p. OnEnd-raised Q X Y (m s).0 (m s).1 h (r.at s p);
  }

  pub Runs-pre :
      {P R : S → Type 0} {m : Exec S E A} → ((s : S) → P s → R s) → Runs R Q X m → Runs P Q X m
  Runs-pre h r = record { at = λ s p. r.at s (h s p) }

  -- What is known before a run of no state.
  pub Runs-given :
      {P : S → Type 0} (Z : Type 0) (m : Exec S E A)
      → (Z → Runs P Q X m)
      → Runs (λ s. Z × P s) Q X m
  Runs-given Z m h = record { at = λ s p. (h p.0).at s p.1 }

  pub Runs-if :
      {P : S → Type 0} (b : Bool) (m n : Exec S E A)
      → Runs P Q X m
      → Runs P Q X n
      → Runs P Q X (if b then m else n)
  Runs-if true m n h k = h
  Runs-if false m n h k = k

  OnEnd-catch :
      (Y : S → Type 0) (handler : E → Exec S E A) (r : Result E A) (s : S)
      → OnEnd Q Y r s
      → ((e : E) → Runs Y Q X (handler e))
      → OnEnd Q X (on_error handler r s).0 (on_error handler r s).1
  OnEnd-catch Y handler (ok a) s q h = q
  OnEnd-catch Y handler (err e) s y h = (h e).at s y

  pub Runs-catch :
      {P : S → Type 0} (Y : S → Type 0) (m : Exec S E A) (handler : E → Exec S E A)
      → Runs P Q Y m
      → ((e : E) → Runs Y Q X (handler e))
      → Runs P Q X (catch m handler)
  unfolding catch
  Runs-catch Y m handler r h = record {
    at = λ s p. OnEnd-catch Y handler (m s).0 (m s).1 (r.at s p) h;
  }

module _ {S E A B : Type 0} {X : S → Type 0} where
  OnEnd-bind :
      (Q : A → S → Type 0) (R : B → S → Type 0) (f : A → Exec S E B) (r : Result E A) (s : S)
      → OnEnd Q X r s
      → ((a : A) → Runs (Q a) R X (f a))
      → OnEnd R X (continue f r s).0 (continue f r s).1
  OnEnd-bind Q R f (ok a) s q h = (h a).at s q
  OnEnd-bind Q R f (err e) s x h = x

  pub Runs-bind :
      {P : S → Type 0} (Q : A → S → Type 0) (R : B → S → Type 0) (m : Exec S E A)
      (f : A → Exec S E B)
      → Runs P Q X m
      → ((a : A) → Runs (Q a) R X (f a))
      → Runs P R X (m >>= f)
  unfolding ◌>>=◌
  Runs-bind Q R m f r h = record { at = λ s p. OnEnd-bind Q R f (m s).0 (m s).1 (r.at s p) h }

module _ {S E A B : Type 0} {X : S → Type 0} where
  OnEnd-finally :
      (Q R : A → S → Type 0) (Y : S → Type 0) (f : Exec S E B) (r : Result E A) (s : S)
      → OnEnd Q X r s
      → ((a : A) → Runs (Q a) (λ _. R a) Y f)
      → Runs X (λ _. Y) Y f
      → OnEnd R Y (after r (f s)).0 (after r (f s)).1
  OnEnd-finally Q R Y f (ok a) s q g h = returned (f s).0 (f s).1 ((g a).at s q)
    where
      returned :
          (x : Result E B) (s' : S)
          → OnEnd (λ _. R a) Y x s'
          → OnEnd R Y (after {E = E} (ok a) (x, s')).0 (after {E = E} (ok a) (x, s')).1
      returned (ok b) s' z = z
      returned (err e) s' z = z
  OnEnd-finally Q R Y f (err e) s q g h = raised (f s).0 (f s).1 (h.at s q)
    where
      raised :
          (x : Result E B) (s' : S)
          → OnEnd (λ _. Y) Y x s'
          → OnEnd R Y (after {A = A} (err e) (x, s')).0 (after {A = A} (err e) (x, s')).1
      raised (ok b) s' z = z
      raised (err e') s' z = z

  pub Runs-finally :
      {P : S → Type 0} (Q R : A → S → Type 0) (Y : S → Type 0) (m : Exec S E A) (f : Exec S E B)
      → Runs P Q X m
      → ((a : A) → Runs (Q a) (λ _. R a) Y f)
      → Runs X (λ _. Y) Y f
      → Runs P R Y (finally m f)
  unfolding finally
  Runs-finally Q R Y m f r g h = record {
    at = λ s p. OnEnd-finally Q R Y f (m s).0 (m s).1 (r.at s p) g h;
  }

always : {S E A : Type 0} (r : Result E A) (s : S) → OnEnd (λ _ _. Unit) (λ _. Unit) r s
always (ok a) s = tt
always (err e) s = tt

pub any : {S E A : Type 0} {P : S → Type 0} (m : Exec S E A) → Runs P (λ _ _. Unit) (λ _. Unit) m
any m = record { at = λ s p. always (m s).0 (m s).1 }
