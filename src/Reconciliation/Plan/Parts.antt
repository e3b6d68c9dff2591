-- ===== src/Reconciliation/Plan/Parts.antt =====
-- Lists by their members, and the memories that the candidates of a group recalled.
use memory_system.Shared.{
  ◌≡◌, ◌⊎◌, inl, inr, refl, ap, String, Bool, true, false, str_eq, eq_iff, sym, ◌∙◌, Option, none,
  some, List, [], ◌∷◌, ◌++◌, if◌then◌else◌,
}
use memory_system.Reconciliation.Candidate.{MemoryNodeSnapshot, CandidatePlanInput}
use memory_system.Reconciliation.Choice.{memory_among, or_else, find_target}

abbrev pub In : {A : Type 0} → A → List A → Type 0
In a [] = ⊥
In a (x ∷ xs) = (x ≡ a) ⊎ In a xs

abbrev pub Paired : {A B : Type 0} → (A → B → Type 0) → List A → List B → Type 0
Paired R [] [] = Unit
Paired R (a ∷ xs) (b ∷ ys) = R a b × Paired R xs ys
Paired R xs ys = ⊥

pub In-append : {A : Type 0} (a : A) (xs ys : List A) → In a xs → In a (xs ++ ys)
In-append a [] ys h = absurd h
In-append a (x ∷ xs) ys (inl e) = inl e
In-append a (x ∷ xs) ys (inr h) = inr (In-append a xs ys h)

pub In-last : {A : Type 0} (a : A) (xs : List A) → In a (xs ++ (a ∷ []))
In-last a [] = inl refl
In-last a (x ∷ xs) = inr (In-last a xs)

pub append_assoc : {A : Type 0} (xs ys zs : List A) → (xs ++ ys) ++ zs ≡ xs ++ (ys ++ zs)
append_assoc [] ys zs = refl
append_assoc (x ∷ xs) ys zs = ap (λ l. x ∷ l) (append_assoc xs ys zs)

pub append-nil : {A : Type 0} (xs : List A) → xs ≡ xs ++ []
append-nil [] = refl
append-nil (x ∷ xs) = ap (λ l. x ∷ l) (append-nil xs)

-- A candidate of the list recalled the memory `m`, which has the id `id`.
abbrev pub IsRecalled :
    {W : Type 0} → String → MemoryNodeSnapshot W → List (CandidatePlanInput W) → Type 0
IsRecalled {W} id m cs =
    (c : CandidatePlanInput W) × In c cs × In m c.recalled_memories × (m.memory_id ≡ id)

module _ {W : Type 0} (id : String) where
  memory_among-In :
      (ms : List (MemoryNodeSnapshot W)) (m : MemoryNodeSnapshot W)
      → memory_among id ms ≡ some m
      → In m ms × (m.memory_id ≡ id)
  unfolding memory_among
  memory_among-In [] m e = absurd (cc)
  memory_among-In (x ∷ ms) m e = either (str_eq x.memory_id id) refl e (memory_among-In ms m)
    where
      the_same : some x ≡ some m → x ≡ m
      the_same e = cc

      either :
          (b : Bool)
          → str_eq x.memory_id id ≡ b
          → (if b then some x else memory_among id ms) ≡ some m
          → (memory_among id ms ≡ some m → In m ms × (m.memory_id ≡ id))
          → In m (x ∷ ms) × (m.memory_id ≡ id)
      either true t f rest =
          let e = the_same f in (inl e, ap (λ y. y.memory_id) (sym e) ∙ (eq_iff x.memory_id id).0 t)
      either false t f rest = let (i, h) = rest f in (inr i, h)

  among-IsRecalled :
      (c : CandidatePlanInput W) (cs : List (CandidatePlanInput W)) (m : MemoryNodeSnapshot W)
      (o p : Option (MemoryNodeSnapshot W))
      → memory_among id c.recalled_memories ≡ o
      → or_else o p ≡ some m
      → (p ≡ some m → IsRecalled id m cs)
      → IsRecalled id m (c ∷ cs)
  among-IsRecalled c cs m (some x) p a e rest =
      let (i, h) = memory_among-In c.recalled_memories m (cc) in (c, inl refl, i, h)
  among-IsRecalled c cs m none p a e rest = let (x, i, r, h) = rest e in (x, inr i, r, h)

  pub find_target-IsRecalled :
      (cs : List (CandidatePlanInput W)) (m : MemoryNodeSnapshot W)
      → find_target id cs ≡ some m
      → IsRecalled id m cs
  unfolding find_target
  find_target-IsRecalled [] m e = absurd (cc)
  find_target-IsRecalled (c ∷ cs) m e =
      among-IsRecalled c cs m _ _ refl e (find_target-IsRecalled cs m)
