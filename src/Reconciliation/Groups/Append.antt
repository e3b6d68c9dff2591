-- ===== src/Reconciliation/Groups/Append.antt =====
-- What appending a candidate to a list of groups does.
use mathlib.Core.Path.{subst}
use memory_system.Shared.{
  ℕ, ◌+◌, ◌≡◌, ◌≢◌, refl, sym, ◌∙◌, String, Bool, true, false, ◌||◌, some, List, [], ◌∷◌, ◌++◌, All,
  All-append, arith, if◌then◌else◌, str_eq, eq_iff, contains,
}
use memory_system.Reconciliation.Candidate.{create_action, CandidatePlanInput}
use memory_system.Reconciliation.Groups.{
  Group, participates_in_aggregation, joined, append_to_group,
}

abbrev pub one_if : Bool → ℕ
one_if true = 1
one_if false = 0

flipped : (s t : String) → str_eq s t ≡ false → str_eq t s ≡ false
flipped s t e = at (str_eq t s) refl
  where
    at : (b : Bool) → str_eq t s ≡ b → b ≡ false
    at false h = refl
    at true h = sym ((eq_iff s t).1 (sym ((eq_iff t s).0 h))) ∙ e

module _ {W : Type 0} where
  -- How many candidates pass a test.
  abbrev pub count : (CandidatePlanInput W → Bool) → List (CandidatePlanInput W) → ℕ
  count p [] = 0
  count p (c ∷ cs) = one_if (p c) + count p cs

  abbrev pub count_in : (CandidatePlanInput W → Bool) → List (Group W) → ℕ
  count_in p [] = 0
  count_in p (g ∷ gs) = count p (g.first ∷ g.rest) + count_in p gs

  -- The candidates that take part.
  abbrev pub aggregating : List (CandidatePlanInput W) → List (CandidatePlanInput W)
  aggregating [] = []
  aggregating (c ∷ cs) =
      if participates_in_aggregation c then c ∷ aggregating cs else aggregating cs

  abbrev pub group_keys : List (Group W) → List String
  group_keys [] = []
  group_keys (g ∷ gs) = g.key ∷ group_keys gs

  abbrev pub IsDistinct : List (Group W) → Type 0
  IsDistinct [] = Unit
  IsDistinct (g ∷ gs) = (contains (group_keys gs) g.key ≡ false) × IsDistinct gs

  abbrev pub Targets : String → CandidatePlanInput W → Type 0
  Targets key c = (c.action ≢ create_action) × (c.target_memory_id ≡ some key)

  abbrev pub Creates : String → CandidatePlanInput W → Type 0
  Creates key c = (c.action ≡ create_action) × (c.aligned_memory_key ≡ some key)

  abbrev pub Fits : (String → CandidatePlanInput W → Type 0) → Group W → Type 0
  Fits P g = All (λ c. P g.key c × (participates_in_aggregation c ≡ true)) (g.first ∷ g.rest)

  count-append :
      (p : CandidatePlanInput W → Bool) (xs ys : List (CandidatePlanInput W))
      → count p (xs ++ ys) ≡ count p xs + count p ys
  count-append p [] ys = omega arith
  count-append p (x ∷ xs) ys = omega (arith, count-append p xs ys)

  module _ (key : String) (c : CandidatePlanInput W) where
    pub append-count :
        (p : CandidatePlanInput W → Bool) (gs : List (Group W))
        → count_in p (append_to_group key c gs) ≡ count_in p gs + one_if (p c)
    unfolding append_to_group
    append-count p [] = omega arith
    append-count p (g ∷ gs) = at (append-count p gs) (str_eq g.key key)
      where
        at :
            count_in p (append_to_group key c gs) ≡ count_in p gs + one_if (p c)
            → (b : Bool)
            → count_in p (if b then joined g c ∷ gs else g ∷ append_to_group key c gs)
              ≡ count_in p (g ∷ gs) + one_if (p c)
        at h true = omega (arith, count-append p g.rest (c ∷ []))
        at h false = omega (arith, h)

    pub append-Fits :
        (P : String → CandidatePlanInput W → Type 0) (gs : List (Group W))
        → P key c
        → participates_in_aggregation c ≡ true
        → All (Fits P) gs
        → All (Fits P) (append_to_group key c gs)
    unfolding append_to_group
    append-Fits P [] h q a = (((h, q), tt), tt)
    append-Fits P (g ∷ gs) h q ((x, xs), a) = at (append-Fits P gs h q a) (str_eq g.key key) refl
      where
        at :
            All (Fits P) (append_to_group key c gs)
            → (b : Bool) → str_eq g.key key ≡ b
            → All (Fits P) (if b then joined g c ∷ gs else g ∷ append_to_group key c gs)
        at r true e = (
          (
            x,
            All-append _ g.rest (c ∷ []) xs
                ((subst (λ k. P k c) (sym ((eq_iff g.key key).0 e)) h, q), tt),
          ),
          a,
        )
        at r false e = ((x, xs), r)

    append-keys :
        (gs : List (Group W)) (k : String)
        → str_eq key k ≡ false
        → contains (group_keys gs) k ≡ false
        → contains (group_keys (append_to_group key c gs)) k ≡ false
    unfolding append_to_group
    append-keys [] k n h = rw n
    append-keys (g ∷ gs) k n h = at (str_eq g.key k) refl (append-keys gs k n) (str_eq g.key key) h
      where
        at :
            (a : Bool)
            → str_eq g.key k ≡ a
            → (contains (group_keys gs) k ≡ false
                → contains (group_keys (append_to_group key c gs)) k ≡ false)
            → (b : Bool) → (a || contains (group_keys gs) k) ≡ false
            → contains (group_keys (if b then joined g c ∷ gs else g ∷ append_to_group key c gs)) k
              ≡ false
        at false e r true h = rw (e, h)
        at false e r false h = rw (e, r h)
        at true e r b h = absurd (cc)

    pub append-IsDistinct :
        (gs : List (Group W)) → IsDistinct gs → IsDistinct (append_to_group key c gs)
    unfolding append_to_group
    append-IsDistinct [] h = (refl, tt)
    append-IsDistinct (g ∷ gs) (n, h) = at (append-IsDistinct gs h) (str_eq g.key key) refl
      where
        at :
            IsDistinct (append_to_group key c gs)
            → (b : Bool) → str_eq g.key key ≡ b
            → IsDistinct (if b then joined g c ∷ gs else g ∷ append_to_group key c gs)
        at r true e = (n, h)
        at r false e = (append-keys gs g.key (flipped g.key key e) n, r)
