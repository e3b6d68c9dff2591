-- ===== src/Stm/Select/Best.antt =====
-- `select_archive_prefix` answers the candidate with the best score.
use mathlib.Core.Path.{subst}
use memory_system.Shared.{
  ℕ, zero, suc, ◌+◌, ◌-◌, ◌≡◌, ◌≤◌, ◌<◌, refl, sym, ◌∙◌, ◌⊎◌, inl, inr, Bool, true, false, Option,
  none, some, List, [], ◌∷◌, ltb, leb, if◌then◌else◌, arith, Bool-cases, length, All,
}
use memory_system.Stm.Message.{WorkingMemoryMessage}
use memory_system.Stm.Settings.{ContextSettings}
use memory_system.Stm.Select.{
  ArchiveSelection, Score, pick_better, candidate_at, better_of, select_loop, select_archive_prefix,
  score_of, candidate_score, score_ltb, count_down, range_down,
}
use memory_system.Stm.Select.Safe.{IsSafe, candidate_at-IsSafe}

-- The first score is at least as good as the second.
abbrev AtLeast : Score → Score → Type 0
AtLeast a b = a.distance < b.distance ⊎ (a.distance ≡ b.distance) × (b.prefix_len ≤ a.prefix_len)

AtLeast-trans : (a b c : Score) → AtLeast a b → AtLeast b c → AtLeast a c
AtLeast-trans a b c (inl x) (inl y) = inl (omega arith)
AtLeast-trans a b c (inl x) (inr y) = inl (omega (arith, y.0))
AtLeast-trans a b c (inr x) (inl y) = inl (omega (arith, x.0))
AtLeast-trans a b c (inr x) (inr y) = inr (omega (arith, x.0, y.0), omega (arith, x.1, y.1))

trichotomy : (a b : ℕ) → a < b ⊎ ((a ≡ b) ⊎ b < a)
trichotomy a b = at (Bool-cases (ltb a b)) (Bool-cases (ltb b a))
  where
    at :
        (ltb a b ≡ true) ⊎ (ltb a b ≡ false)
        → (ltb b a ≡ true) ⊎ (ltb b a ≡ false)
        → a < b ⊎ ((a ≡ b) ⊎ b < a)
    at (inl e) f = inl (ground (arith, e))
    at (inr e) (inl f) = inr (inr (ground (arith, f)))
    at (inr e) (inr f) = inr (inl (ground (arith, e, f)))

score_ltb-true : (a b : Score) → score_ltb a b ≡ true → AtLeast a b
unfolding score_ltb
score_ltb-true a b e = at (trichotomy a.distance b.distance)
  where
    at :
        a.distance < b.distance ⊎ ((a.distance ≡ b.distance) ⊎ b.distance < a.distance)
        → AtLeast a b
    at (inl x) = inl x
    at (inr (inl x)) = inr (x, ground (arith, e, x))
    at (inr (inr x)) = absurd (ground (arith, e, x))

score_ltb-false : (a b : Score) → score_ltb a b ≡ false → AtLeast b a
unfolding score_ltb
score_ltb-false a b e = at (trichotomy a.distance b.distance)
  where
    at :
        a.distance < b.distance ⊎ ((a.distance ≡ b.distance) ⊎ b.distance < a.distance)
        → AtLeast b a
    at (inl x) = absurd (ground (arith, e, x))
    at (inr (inl x)) = inr (sym x, ground (arith, e, x))
    at (inr (inr x)) = inl x

AtLeast-refl : (a : Score) → AtLeast a a
AtLeast-refl a = inr (refl, omega arith)

-- The first choice scores at least as well as the second, where no choice is the worst.
abbrev Beats : ℕ → Option ArchiveSelection → Option ArchiveSelection → Type 0
Beats target r none = Unit
Beats target none (some c) = ⊥
Beats target (some s) (some c) = AtLeast (score_of target s) (score_of target c)

Beats-trans :
    (target : ℕ) (a b c : Option ArchiveSelection)
    → Beats target a b
    → Beats target b c
    → Beats target a c
Beats-trans target a b none x y = tt
Beats-trans target a none (some z) x y = absurd y
Beats-trans target none (some v) (some z) x y = absurd x
Beats-trans target (some u) (some v) (some z) x y = AtLeast-trans _ (score_of target v) _ x y

Beats-refl : (target : ℕ) (a : Option ArchiveSelection) → Beats target a a
Beats-refl target none = tt
Beats-refl target (some s) = AtLeast-refl _

abbrev IsBetterOf : ℕ → ArchiveSelection → ArchiveSelection → ArchiveSelection → Type 0
IsBetterOf target b c r =
    AtLeast (score_of target r) (score_of target b)
    × AtLeast (score_of target r) (score_of target c)
    × ((some r ≡ some b) ⊎ (some r ≡ some c))

-- What one step of the loop keeps: one of the two, and the better one.
better_of-Beats :
    (target : ℕ) (best c : Option ArchiveSelection)
    → Beats target (better_of target best c) best
      × Beats target (better_of target best c) c
      × ((better_of target best c ≡ best) ⊎ (better_of target best c ≡ c))
unfolding better_of pick_better
better_of-Beats target best none = (Beats-refl target best, tt, inl refl)
better_of-Beats target none (some c) = (tt, AtLeast-refl _, inr refl)
better_of-Beats target (some b) (some c) =
    at (score_ltb (score_of target c) (score_of target b)) refl
  where
    at :
        (x : Bool)
        → score_ltb (score_of target c) (score_of target b) ≡ x
        → IsBetterOf target b c (if x then c else b)
    at true e = (score_ltb-true _ _ e, AtLeast-refl _, inr refl)
    at false e = (AtLeast-refl _, score_ltb-false _ _ e, inl refl)

-- The choice after the loop: it beats what the loop began with and every candidate, and where it is
-- a selection it is the first or one that a candidate gave.
select_loop-Beats :
    (ms : List WorkingMemoryMessage) (tokens : ℕ) (ctx : ContextSettings) (keeps : List ℕ)
    (best : Option ArchiveSelection)
    → Beats ctx.compression_target_tokens (select_loop ms tokens ctx keeps best) best
      × All
          (λ t.
            Beats ctx.compression_target_tokens
              (select_loop ms tokens ctx keeps best)
              (candidate_at ms tokens ctx t))
          keeps
      × ((select_loop ms tokens ctx keeps best ≡ best)
          ⊎ ((t : ℕ) × (select_loop ms tokens ctx keeps best ≡ candidate_at ms tokens ctx t)))
unfolding select_loop
select_loop-Beats ms tokens ctx [] best = (Beats-refl _ best, tt, inl refl)
select_loop-Beats ms tokens ctx (t ∷ keeps) best =
    let c = candidate_at ms tokens ctx t in
    let target = ctx.compression_target_tokens in
    let next = better_of target best c in
    let (x, y, from) = better_of-Beats target best c in
    let (u, v, w) = select_loop-Beats ms tokens ctx keeps next in
    let r = select_loop ms tokens ctx keeps next in
    (
      Beats-trans target r next best u x,
      (Beats-trans target r next c u y, v),
      origin t c next best r from w,
    )
  where
    origin :
        (t : ℕ) (c next best r : Option ArchiveSelection)
        → (next ≡ best) ⊎ (next ≡ candidate_at ms tokens ctx t)
        → (r ≡ next) ⊎ ((k : ℕ) × (r ≡ candidate_at ms tokens ctx k))
        → (r ≡ best) ⊎ ((k : ℕ) × (r ≡ candidate_at ms tokens ctx k))
    origin t c next best r from (inr k) = inr k
    origin t c next best r (inl e) (inl k) = inl (k ∙ e)
    origin t c next best r (inr e) (inl k) = inr (t, k ∙ e)

count_down-All :
    (P : ℕ → Type 0) (high count t : ℕ)
    → All P (count_down high count)
    → t ≤ high
    → high < t + count
    → P t
unfolding count_down
count_down-All P high zero t a h k = absurd (omega (arith, h, k))
count_down-All P high (suc count) t a h k =
    at (trichotomy t high)
      (λ x. count_down-All P (high - 1) count t a.1 (omega (arith, x)) (omega (arith, x, k)))
  where
    at : t < high ⊎ ((t ≡ high) ⊎ high < t) → (t < high → P t) → P t
    at (inl x) rest = rest x
    at (inr (inl x)) rest = subst P (sym x) a.0
    at (inr (inr x)) rest = absurd (omega (arith, x, h))

select-Beats :
    (ms : List WorkingMemoryMessage) (tokens : ℕ) (ctx : ContextSettings) (t : ℕ)
    → ctx.absolute_min_recent_messages < length ms
    → ctx.absolute_min_recent_messages ≤ t
    → t ≤ ctx.preferred_recent_messages
    → Beats ctx.compression_target_tokens
        (select_archive_prefix ms tokens ctx)
        (candidate_at ms tokens ctx t)
unfolding select_archive_prefix range_down
select-Beats ms tokens ctx t l m n =
    subst (λ r. Beats ctx.compression_target_tokens r (candidate_at ms tokens ctx t))
      {x = select_loop ms tokens ctx
        (count_down ctx.preferred_recent_messages
          (ctx.preferred_recent_messages + 1 - ctx.absolute_min_recent_messages))
        none}
      (ground (arith, l))
      (count_down-All (λ k. Beats ctx.compression_target_tokens _ (candidate_at ms tokens ctx k))
        ctx.preferred_recent_messages
        (ctx.preferred_recent_messages + 1 - ctx.absolute_min_recent_messages) t
        (select_loop-Beats ms tokens ctx
          (count_down ctx.preferred_recent_messages
            (ctx.preferred_recent_messages + 1 - ctx.absolute_min_recent_messages))
          none).1
        n (omega (arith, m, n)))

-- The tokens that a choice leaves, and the messages that it takes.
abbrev pub Prefers : ℕ → ArchiveSelection → ArchiveSelection → Type 0
Prefers target s c =
    ((s.projected_remaining ≤ target) × (target < c.projected_remaining))
    ⊎ ((s.projected_remaining ≤ target)
        × (c.projected_remaining ≤ target)
        × (c.projected_remaining < s.projected_remaining
            ⊎ (c.projected_remaining ≡ s.projected_remaining)
              × (length c.prefix ≤ length s.prefix)))
    ⊎ ((target < s.projected_remaining)
        × (target < c.projected_remaining)
        × (s.projected_remaining < c.projected_remaining
            ⊎ (c.projected_remaining ≡ s.projected_remaining)
              × (length c.prefix ≤ length s.prefix)))

-- Something is preferred to nothing.
abbrev pub PrefersIf : ℕ → Option ArchiveSelection → Option ArchiveSelection → Type 0
PrefersIf target r none = Unit
PrefersIf target none (some c) = ⊥
PrefersIf target (some s) (some c) = Prefers target s c

AtLeast-Prefers :
    (target : ℕ) (s c : ArchiveSelection)
    → target ≤ 1000000000
    → AtLeast (score_of target s) (score_of target c)
    → Prefers target s c
unfolding score_of candidate_score
AtLeast-Prefers target s c h a =
    at (leb s.projected_remaining target) refl (leb c.projected_remaining target) refl a
  where
    at :
        (x : Bool)
        → leb s.projected_remaining target ≡ x
        → (y : Bool) → leb c.projected_remaining target ≡ y
        → (if x
              then target - s.projected_remaining
              else s.projected_remaining - target + 1000000000)
            < (if y
                then target - c.projected_remaining
                else c.projected_remaining - target + 1000000000)
          ⊎ ((if x
                then target - s.projected_remaining
                else s.projected_remaining - target + 1000000000)
              ≡ (if y
                  then target - c.projected_remaining
                  else c.projected_remaining - target + 1000000000))
            × (length c.prefix ≤ length s.prefix)
        → Prefers target s c
    at true e false f q = inl (ground (arith, e), ground (arith, f))
    at true e true f (inl q) =
        inr (inl (ground (arith, e), ground (arith, f), inl (omega (arith, q))))
    at true e true f (inr q) =
        inr (inl (ground (arith, e), ground (arith, f), inr (ground (arith, q.0, e, f), q.1)))
    at false e true f (inl q) = absurd (ground (arith, h, e, f, q))
    at false e true f (inr q) = absurd (ground (arith, h, e, f, q.0))
    at false e false f (inl q) =
        inr (inr (ground (arith, e), ground (arith, f), inl (ground (arith, e, f, q))))
    at false e false f (inr q) =
        inr (inr (ground (arith, e), ground (arith, f), inr (ground (arith, e, f, q.0), q.1)))

Beats-PrefersIf :
    (target : ℕ) (r o : Option ArchiveSelection)
    → target ≤ 1000000000
    → Beats target r o
    → PrefersIf target r o
Beats-PrefersIf target r none h b = tt
Beats-PrefersIf target none (some c) h b = b
Beats-PrefersIf target (some s) (some c) h b = AtLeast-Prefers target s c h b

-- When there are more messages than the absolute minimum and the target is at most 10^9 tokens, the
-- selected prefix is preferred to the candidate of every number of messages to keep from the absolute
-- minimum to the preferred number: what leaves at most the target is preferred to what leaves more;
-- of two that leave at most the target, the one that leaves more tokens; of two that leave more than
-- the target, the one that leaves fewer; and where both leave the same, one that is at least as long.
-- In particular something is selected when one of those numbers has a candidate.
pub select-PrefersIf :
    (ms : List WorkingMemoryMessage) (tokens : ℕ) (ctx : ContextSettings) (t : ℕ)
    → ctx.compression_target_tokens ≤ 1000000000
    → ctx.absolute_min_recent_messages < length ms
    → ctx.absolute_min_recent_messages ≤ t
    → t ≤ ctx.preferred_recent_messages
    → PrefersIf ctx.compression_target_tokens
        (select_archive_prefix ms tokens ctx)
        (candidate_at ms tokens ctx t)
select-PrefersIf ms tokens ctx t h l m n =
    Beats-PrefersIf ctx.compression_target_tokens (select_archive_prefix ms tokens ctx)
      (candidate_at ms tokens ctx t) h (select-Beats ms tokens ctx t l m n)

-- A selected prefix is a non-empty beginning of the messages; at least the absolute minimum of
-- messages stays behind it; its token count is the sum over its messages and is within the cap of an
-- archive; and the projected remainder and that count add up to the session's count.
pub select-IsSafe :
    (ms : List WorkingMemoryMessage) (tokens : ℕ) (ctx : ContextSettings) (s : ArchiveSelection)
    → select_archive_prefix ms tokens ctx ≡ some s
    → IsSafe ms tokens ctx s
unfolding select_archive_prefix
select-IsSafe ms tokens ctx s e =
    at (Bool-cases (leb (length ms) ctx.absolute_min_recent_messages))
      (select_loop-Beats ms tokens ctx
        (range_down ctx.preferred_recent_messages ctx.absolute_min_recent_messages) none).2
  where
    loop : Option ArchiveSelection
    loop =
        select_loop ms tokens ctx
          (range_down ctx.preferred_recent_messages ctx.absolute_min_recent_messages) none

    at :
        (leb (length ms) ctx.absolute_min_recent_messages ≡ true)
          ⊎ (leb (length ms) ctx.absolute_min_recent_messages ≡ false)
        → (loop ≡ none) ⊎ ((k : ℕ) × (loop ≡ candidate_at ms tokens ctx k))
        → IsSafe ms tokens ctx s
    at (inl a) o = absurd (ground (arith, a, e))
    at (inr a) (inl o) = absurd (ground (arith, a, o, e))
    at (inr a) (inr (k, o)) = candidate_at-IsSafe ms tokens ctx k s (ground (arith, a, o, e))
