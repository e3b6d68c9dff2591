-- ===== src/Stm/Select/Safe.antt =====
-- What a prefix that `select_archive_prefix` answers satisfies.
use mathlib.Core.Path.{subst}
use mathlib.Core.List.{append_assoc, append-nil}
use memory_system.Shared.{
  zero, suc, ℕ, ◌+◌, ◌-◌, ◌≡◌, ◌≤◌, ◌<◌, refl, sym, ◌∙◌, ap, ◌⊎◌, inl, inr, Bool, true, false, some,
  List, [], ◌∷◌, ◌++◌, ltb, leb, if◌then◌else◌, arith, Bool-cases, length, take, drop,
  length-append, take-append-drop,
}
use memory_system.Stm.Message.{WorkingMemoryMessage, total}
use memory_system.Stm.Settings.{ContextSettings}
use memory_system.Stm.Select.{
  ArchiveSelection, init, shrink_loop, shrink_prefix_to_cap, min, capped_prefix, admit,
  candidate_at,
}

-- The first list begins the second.
abbrev pub IsHead : List WorkingMemoryMessage → List WorkingMemoryMessage → Type 0
IsHead ps ms = (rest : List WorkingMemoryMessage) × (ps ++ rest ≡ ms)

IsHead-trans : (a b c : List WorkingMemoryMessage) → IsHead a b → IsHead b c → IsHead a c
IsHead-trans a b c (r, e) (s, f) = (r ++ s, sym (append_assoc a r s) ∙ ap (λ x. x ++ s) e ∙ f)

if_either :
    (P : List WorkingMemoryMessage → Type 0) (b : Bool) {x y : List WorkingMemoryMessage}
    → P x
    → P y
    → P (if b then x else y)
if_either P true p q = p
if_either P false p q = q

init-IsHead : (ms : List WorkingMemoryMessage) → IsHead (init ms) ms
unfolding init
init-IsHead [] = ([], refl)
init-IsHead (m ∷ []) = (m ∷ [], refl)
init-IsHead (m ∷ n ∷ ms) = let (r, e) = init-IsHead (n ∷ ms) in (r, ap (λ x. m ∷ x) e)

shrink_loop-IsHead :
    (n : ℕ) (ms : List WorkingMemoryMessage) (top : ℕ) → IsHead (shrink_loop n ms top) ms
unfolding shrink_loop
shrink_loop-IsHead zero ms top = (ms, refl)
shrink_loop-IsHead (suc n) [] top = ([], refl)
shrink_loop-IsHead (suc n) (m ∷ ms) top =
    if_either (λ x. IsHead x (m ∷ ms)) (leb (total (m ∷ ms)) top) ([], append-nil (m ∷ ms))
      (IsHead-trans _ (init (m ∷ ms)) (m ∷ ms) (shrink_loop-IsHead n (init (m ∷ ms)) top)
        (init-IsHead (m ∷ ms)))

shrink_loop-cap :
    (n : ℕ) (ms : List WorkingMemoryMessage) (top : ℕ) → total (shrink_loop n ms top) ≤ top
unfolding shrink_loop
shrink_loop-cap zero ms top = omega arith
shrink_loop-cap (suc n) [] top = omega arith
shrink_loop-cap (suc n) (m ∷ ms) top = ground (arith, shrink_loop-cap n (init (m ∷ ms)) top)

capped_prefix-IsHead :
    (ms : List WorkingMemoryMessage) (ctx : ContextSettings) (tail_keep : ℕ)
    → IsHead (capped_prefix ms ctx tail_keep) ms
unfolding capped_prefix shrink_prefix_to_cap
capped_prefix-IsHead ms ctx tail_keep =
    let n = length ms - min tail_keep (length ms - 1) in
    if_either (λ x. IsHead x ms) (ltb ctx.max_archive_estimated_tokens (total (take n ms)))
      (IsHead-trans _ (take n ms) ms (shrink_loop-IsHead (length (take n ms)) (take n ms) _)
        (drop n ms, take-append-drop n ms))
      (drop n ms, take-append-drop n ms)

capped_prefix-cap :
    (ms : List WorkingMemoryMessage) (ctx : ContextSettings) (tail_keep : ℕ)
    → total (capped_prefix ms ctx tail_keep) ≤ ctx.max_archive_estimated_tokens
unfolding capped_prefix shrink_prefix_to_cap
capped_prefix-cap ms ctx tail_keep = ground (
  arith,
  shrink_loop-cap (length (take (length ms - min tail_keep (length ms - 1)) ms))
      (take (length ms - min tail_keep (length ms - 1)) ms) ctx.max_archive_estimated_tokens,
)

-- A head of the messages that may be archived, with its counts.
abbrev pub IsSafe : List WorkingMemoryMessage → ℕ → ContextSettings → ArchiveSelection → Type 0
IsSafe ms tokens ctx s =
    ((rest : List WorkingMemoryMessage) × (s.prefix ++ rest ≡ ms)
      × (ctx.absolute_min_recent_messages ≤ length rest))
    × (0 < length s.prefix)
    × (s.prefix_tokens ≡ total s.prefix)
    × (s.prefix_tokens ≤ ctx.max_archive_estimated_tokens)
    × (s.projected_remaining + s.prefix_tokens ≡ tokens)

-- What `admit` answers for a prefix it takes.
abbrev built : ℕ → List WorkingMemoryMessage → ArchiveSelection
built tokens p = record {
  prefix = p;
  prefix_tokens = total p;
  projected_remaining = tokens - total p;
}

admit-IsSafe :
    (ms : List WorkingMemoryMessage) (tokens : ℕ) (ctx : ContextSettings)
    (p : List WorkingMemoryMessage) (s : ArchiveSelection)
    → IsHead p ms
    → total p ≤ ctx.max_archive_estimated_tokens
    → admit ms tokens ctx p ≡ some s
    → IsSafe ms tokens ctx s
unfolding admit
admit-IsSafe ms tokens ctx [] s h c e = absurd (cc)
admit-IsSafe ms tokens ctx (m ∷ ps) s (rest, h) c e =
    let a = ltb (length ms - length (m ∷ ps)) ctx.absolute_min_recent_messages in
    let b = ltb tokens (total (m ∷ ps)) in admitted (Bool-cases a) (Bool-cases b)
  where
    admitted :
        (ltb (length ms - length (m ∷ ps)) ctx.absolute_min_recent_messages ≡ true)
          ⊎ (ltb (length ms - length (m ∷ ps)) ctx.absolute_min_recent_messages ≡ false)
        → (ltb tokens (total (m ∷ ps)) ≡ true) ⊎ (ltb tokens (total (m ∷ ps)) ≡ false)
        → IsSafe ms tokens ctx s
    admitted (inl a) b = absurd (ground (arith, a, e))
    admitted (inr a) (inl b) = absurd (ground (arith, a, b, e))
    admitted (inr a) (inr b) =
        subst (IsSafe ms tokens ctx) {x = built tokens (m ∷ ps)} (ground (arith, a, b, e)) (
          (rest, h, ground (arith, a, ap length h, length-append (m ∷ ps) rest)),
          omega arith,
          refl,
          c,
          ground (arith, b),
        )

pub candidate_at-IsSafe :
    (ms : List WorkingMemoryMessage) (tokens : ℕ) (ctx : ContextSettings) (tail_keep : ℕ)
    (s : ArchiveSelection)
    → candidate_at ms tokens ctx tail_keep ≡ some s
    → IsSafe ms tokens ctx s
unfolding candidate_at
candidate_at-IsSafe ms tokens ctx tail_keep s e =
    admit-IsSafe ms tokens ctx (capped_prefix ms ctx tail_keep) s
      (capped_prefix-IsHead ms ctx tail_keep) (capped_prefix-cap ms ctx tail_keep) e
