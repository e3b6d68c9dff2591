-- ===== src/Stm/Split/Chunks.antt =====
-- The batches that the loop has still to give, as a plain recursion without accumulators, and what
-- holds of them.
use mathlib.Core.Path.{subst}
use mathlib.Core.List.{append_assoc}
use memory_system.Shared.{
  ℕ, ◌+◌, ◌≡◌, ◌≤◌, ◌<◌, refl, sym, inl, inr, true, false, List, [], ◌∷◌, ◌++◌, ltb, arith,
  Bool-cases, All,
}
use memory_system.Stm.Message.{WorkingMemoryMessage, total, total-append}

-- The current batch is `c ∷ cs`.
unfoldable pub chunks :
    ℕ
    → WorkingMemoryMessage
    → List WorkingMemoryMessage
    → List WorkingMemoryMessage
    → List (List WorkingMemoryMessage)
chunks top c cs [] = (c ∷ cs) ∷ []
chunks top c cs (m ∷ ms) = elim (ltb top (total (c ∷ cs) + m.estimated_tokens)) [
  | true ↦ (c ∷ cs) ∷ chunks top m [] ms
  | false ↦ chunks top c (cs ++ m ∷ []) ms
]

abbrev pub concat : List (List WorkingMemoryMessage) → List WorkingMemoryMessage
concat [] = []
concat (b ∷ bs) = b ++ concat bs

abbrev pub FitsCap : ℕ → List WorkingMemoryMessage → Type 0
FitsCap top [] = ⊥
FitsCap top (m ∷ ms) = total (m ∷ ms) ≤ top

-- The first message of a batch would not have fitted into the batch before it.
abbrev pub Overflows : ℕ → List WorkingMemoryMessage → List (List WorkingMemoryMessage) → Type 0
Overflows top b [] = Unit
Overflows top b ([] ∷ bs) = ⊥
Overflows top b ((m ∷ ms) ∷ bs) = top < total b + m.estimated_tokens

abbrev pub IsGreedy : ℕ → List (List WorkingMemoryMessage) → Type 0
IsGreedy top [] = Unit
IsGreedy top (b ∷ bs) = Overflows top b bs × IsGreedy top bs

abbrev pub UnderCap : ℕ → List WorkingMemoryMessage → Type 0
UnderCap top = All (λ m. m.estimated_tokens ≤ top)

chunks-over :
    (top : ℕ) (c : WorkingMemoryMessage) (cs : List WorkingMemoryMessage) (m : WorkingMemoryMessage)
    (ms : List WorkingMemoryMessage)
    → ltb top (total (c ∷ cs) + m.estimated_tokens) ≡ true
    → chunks top c cs (m ∷ ms) ≡ (c ∷ cs) ∷ chunks top m [] ms
unfolding chunks
chunks-over top c cs m ms e = ground (arith, e)

chunks-under :
    (top : ℕ) (c : WorkingMemoryMessage) (cs : List WorkingMemoryMessage) (m : WorkingMemoryMessage)
    (ms : List WorkingMemoryMessage)
    → ltb top (total (c ∷ cs) + m.estimated_tokens) ≡ false
    → chunks top c cs (m ∷ ms) ≡ chunks top c (cs ++ m ∷ []) ms
unfolding chunks
chunks-under top c cs m ms e = ground (arith, e)

pub concat-chunks :
    (top : ℕ) (c : WorkingMemoryMessage) (cs ms : List WorkingMemoryMessage)
    → concat (chunks top c cs ms) ≡ (c ∷ cs) ++ ms
unfolding chunks
concat-chunks top c cs [] = refl
concat-chunks top c cs (m ∷ ms) = ground (
  arith,
  concat-chunks top m [] ms,
  concat-chunks top c (cs ++ m ∷ []) ms,
  append_assoc (c ∷ cs) (m ∷ []) ms,
)

pub chunks-FitsCap :
    (top : ℕ) (c : WorkingMemoryMessage) (cs ms : List WorkingMemoryMessage)
    → total (c ∷ cs) ≤ top
    → UnderCap top ms
    → All (FitsCap top) (chunks top c cs ms)
unfolding chunks
chunks-FitsCap top c cs [] h u = (h, tt)
chunks-FitsCap top c cs (m ∷ ms) h u =
    elim (Bool-cases (ltb top (total (c ∷ cs) + m.estimated_tokens))) [
      | inl e ↦
          subst (All (FitsCap top)) (sym (chunks-over top c cs m ms e))
            (h, chunks-FitsCap top m [] ms (omega (arith, u.0)) u.1)
      | inr e ↦ subst (All (FitsCap top)) (sym (chunks-under top c cs m ms e)) (
          chunks-FitsCap top c (cs ++ m ∷ []) ms
            (ground (arith, e, h, total-append (c ∷ cs) (m ∷ []))) u.1)
    ]

chunks-Overflows :
    (top : ℕ) (b : List WorkingMemoryMessage) (c : WorkingMemoryMessage)
    (cs ms : List WorkingMemoryMessage)
    → top < total b + c.estimated_tokens
    → Overflows top b (chunks top c cs ms)
unfolding chunks
chunks-Overflows top b c cs [] h = h
chunks-Overflows top b c cs (m ∷ ms) h =
    elim (Bool-cases (ltb top (total (c ∷ cs) + m.estimated_tokens))) [
      | inl e ↦ subst (Overflows top b) (sym (chunks-over top c cs m ms e)) h
      | inr e ↦
          subst (Overflows top b) (sym (chunks-under top c cs m ms e))
            (chunks-Overflows top b c (cs ++ m ∷ []) ms h)
    ]

pub chunks-IsGreedy :
    (top : ℕ) (c : WorkingMemoryMessage) (cs ms : List WorkingMemoryMessage)
    → IsGreedy top (chunks top c cs ms)
unfolding chunks
chunks-IsGreedy top c cs [] = (tt, tt)
chunks-IsGreedy top c cs (m ∷ ms) =
    elim (Bool-cases (ltb top (total (c ∷ cs) + m.estimated_tokens))) [
      | inl e ↦
          subst (IsGreedy top) (sym (chunks-over top c cs m ms e))
            (chunks-Overflows top (c ∷ cs) m [] ms (ground (arith, e)), chunks-IsGreedy top m [] ms)
      | inr e ↦
          subst (IsGreedy top) (sym (chunks-under top c cs m ms e))
            (chunks-IsGreedy top c (cs ++ m ∷ []) ms)
    ]
