-- ===== src/Stm/Split/Laws.antt =====
-- What `split_close_suffix_batches` of src/memory_system/domain/services/session_close_service.py
-- gives, and when it refuses.
use mathlib.Core.List.{append_assoc}
use memory_system.Shared.{
  ◌⊎◌, ℕ, ◌+◌, ◌≡◌, ◌≤◌, ◌<◌, refl, true, false, List, [], ◌∷◌, ◌++◌, ltb, arith, Bool-cases, inl,
  inr, All,
}
use memory_system.Shared.Exec.{Result, ok, err}
use memory_system.Stm.Message.{WorkingMemoryMessage, total, total-append}
use memory_system.Stm.Split.{
  SplitState, CloseError, single_message_exceeds_archive_cap, place, split_loop,
  split_close_suffix_batches,
}
use memory_system.Stm.Split.Chunks.{
  chunks, concat, FitsCap, IsGreedy, UnderCap, concat-chunks, chunks-FitsCap, chunks-IsGreedy,
}

-- The batches of a list of messages.
unfoldable pub batches_of : ℕ → List WorkingMemoryMessage → List (List WorkingMemoryMessage)
batches_of top [] = []
batches_of top (m ∷ ms) = chunks top m [] ms

split_loop-chunks :
    (top : ℕ) (bs : List (List WorkingMemoryMessage)) (c : WorkingMemoryMessage)
    (cs ms : List WorkingMemoryMessage) (n : ℕ)
    → n ≡ total (c ∷ cs)
    → UnderCap top ms
    → split_loop top (record { batches = bs; current = c ∷ cs; current_tokens = n }) ms
      ≡ ok (bs ++ chunks top c cs ms)
unfolding split_loop place chunks
split_loop-chunks top bs c cs [] n e u = refl
split_loop-chunks top bs c cs (m ∷ ms) n e u = ground (
  arith,
  e,
  u.0,
  split_loop-chunks top (bs ++ (c ∷ cs) ∷ []) m [] ms m.estimated_tokens (omega arith) u.1,
  split_loop-chunks top bs c (cs ++ m ∷ []) ms (n + m.estimated_tokens)
      (omega (arith, e, total-append (c ∷ cs) (m ∷ []))) u.1,
  append_assoc bs ((c ∷ cs) ∷ []) (chunks top m [] ms),
)

pub split-batches_of :
    (top : ℕ) (ms : List WorkingMemoryMessage)
    → UnderCap top ms
    → split_close_suffix_batches ms top ≡ ok (batches_of top ms)
unfolding split_close_suffix_batches split_loop place batches_of
split-batches_of top [] u = refl
split-batches_of top (m ∷ ms) u =
    ground (arith, u.0, split_loop-chunks top [] m [] ms m.estimated_tokens (omega arith) u.1)

-- A list of batches that is a faithful cut of the messages: nothing lost, repeated or moved, no
-- batch empty or over the cap, and none that could have taken the first message of the next.
abbrev pub IsCut : ℕ → List WorkingMemoryMessage → List (List WorkingMemoryMessage) → Type 0
IsCut top ms bs = (concat bs ≡ ms) × All (FitsCap top) bs × IsGreedy top bs

batches_of-IsCut :
    (top : ℕ) (ms : List WorkingMemoryMessage) → UnderCap top ms → IsCut top ms (batches_of top ms)
unfolding batches_of
batches_of-IsCut top [] u = (refl, tt, tt)
batches_of-IsCut top (m ∷ ms) u = (
  concat-chunks top m [] ms,
  chunks-FitsCap top m [] ms (omega (arith, u.0)) u.1,
  chunks-IsGreedy top m [] ms,
)

-- The first message that is over the cap.
abbrev pub FirstOver : ℕ → List WorkingMemoryMessage → WorkingMemoryMessage → Type 0
FirstOver top [] x = ⊥
FirstOver top (m ∷ ms) x =
    (x ≡ m) × (top < m.estimated_tokens) ⊎ (m.estimated_tokens ≤ top) × FirstOver top ms x

-- What the split answers.
abbrev pub IsCutOrRefused :
    ℕ → List WorkingMemoryMessage → Result CloseError (List (List WorkingMemoryMessage)) → Type 0
IsCutOrRefused top ms r =
    ((bs : List (List WorkingMemoryMessage)) × (r ≡ ok bs) × UnderCap top ms × IsCut top ms bs)
    ⊎ ((x : WorkingMemoryMessage) × (r ≡ err (single_message_exceeds_archive_cap x.message_id))
        × FirstOver top ms x)

over_step :
    (top : ℕ) (m : WorkingMemoryMessage) (ms : List WorkingMemoryMessage)
    → (ltb top m.estimated_tokens ≡ true) ⊎ (ltb top m.estimated_tokens ≡ false)
    → UnderCap top ms ⊎ ((x : WorkingMemoryMessage) × FirstOver top ms x)
    → UnderCap top (m ∷ ms) ⊎ ((x : WorkingMemoryMessage) × FirstOver top (m ∷ ms) x)
over_step top m ms (inl e) r = inr (m, inl (refl, ground (arith, e)))
over_step top m ms (inr e) (inl u) = inl (ground (arith, e), u)
over_step top m ms (inr e) (inr (x, f)) = inr (x, inr (ground (arith, e), f))

over_cases :
    (top : ℕ) (ms : List WorkingMemoryMessage)
    → UnderCap top ms ⊎ ((x : WorkingMemoryMessage) × FirstOver top ms x)
over_cases top [] = inl tt
over_cases top (m ∷ ms) =
    over_step top m ms (Bool-cases (ltb top m.estimated_tokens)) (over_cases top ms)

split_loop-refuses :
    (top : ℕ) (s : SplitState) (ms : List WorkingMemoryMessage) (x : WorkingMemoryMessage)
    → FirstOver top ms x
    → split_loop top s ms ≡ err (single_message_exceeds_archive_cap x.message_id)
unfolding split_loop place
split_loop-refuses top s [] x f = absurd f
split_loop-refuses top s (m ∷ ms) x (inl (e, o)) = ground (arith, e, o)
split_loop-refuses top s (m ∷ ms) x (inr (u, f)) =
    ground (arith, u, split_loop-refuses top (place top s m) ms x f)

split-refuses :
    (top : ℕ) (ms : List WorkingMemoryMessage) (x : WorkingMemoryMessage)
    → FirstOver top ms x
    → split_close_suffix_batches ms top ≡ err (single_message_exceeds_archive_cap x.message_id)
unfolding split_close_suffix_batches
split-refuses top [] x f = absurd f
split-refuses top (m ∷ ms) x f =
    split_loop-refuses top (record { batches = []; current = []; current_tokens = 0 }) (m ∷ ms) x f

-- Splitting the remaining messages either answers batches that concatenate to the messages, each
-- non-empty and of at most the cap of tokens, with every batch's first message too large for the
-- batch before it, or it is refused with the first message that alone is over the cap; the second
-- happens only when there is such a message.
pub split_close_suffix_batches-IsCutOrRefused :
    (top : ℕ) (ms : List WorkingMemoryMessage)
    → IsCutOrRefused top ms (split_close_suffix_batches ms top)
split_close_suffix_batches-IsCutOrRefused top ms = elim (over_cases top ms) [
  | inl u ↦ inl (batches_of top ms, split-batches_of top ms u, u, batches_of-IsCut top ms u)
  | inr (x, f) ↦ inr (x, split-refuses top ms x f, f)
]
