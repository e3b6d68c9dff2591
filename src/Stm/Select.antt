-- ===== src/Stm/Select.antt =====
-- `select_archive_prefix` and its helpers, of
-- src/memory_system/domain/services/compression_coordinator_service.py: which of the oldest messages
-- of a session go to the archive.
pub mod Safe
pub mod Best
pub mod Longest
use memory_system.Shared.{
  ℕ, zero, suc, ◌+◌, ◌-◌, Bool, true, false, Option, none, some, List, [], ◌∷◌, ltb, leb, ◌==◌,
  if◌then◌else◌, length, take, ◌||◌, ◌&&◌,
}
use memory_system.Stm.Message.{WorkingMemoryMessage, total}
use memory_system.Stm.Settings.{ContextSettings}

pub record ArchiveSelection : Type 0 where
  pub prefix : List WorkingMemoryMessage
  pub prefix_tokens : ℕ
  pub projected_remaining : ℕ

-- The tuple `(distance, -prefix_len)`.
pub record Score : Type 0 where
  pub distance : ℕ
  pub prefix_len : ℕ

unfoldable pub candidate_score : ℕ → ℕ → ℕ → Score
candidate_score remaining target prefix_len = record {
  distance = if leb remaining target then target - remaining else remaining - target + 1000000000;
  prefix_len = prefix_len;
}

-- The order of the tuples.
unfoldable pub score_ltb : Score → Score → Bool
score_ltb a b =
    ltb a.distance b.distance || a.distance == b.distance && ltb b.prefix_len a.prefix_len

unfoldable pub score_of : ℕ → ArchiveSelection → Score
score_of target s = candidate_score s.projected_remaining target (length s.prefix)

unfoldable pub pick_better : ℕ → Option ArchiveSelection → ArchiveSelection → ArchiveSelection
pick_better target none candidate = candidate
pick_better target (some best) candidate =
    if score_ltb (score_of target candidate) (score_of target best) then candidate else best

-- shrunk[:-1]
unfoldable pub init : List WorkingMemoryMessage → List WorkingMemoryMessage
init [] = []
init (m ∷ []) = []
init (m ∷ n ∷ ms) = m ∷ init (n ∷ ms)

-- The loop, on fuel: the length of the list is enough, since each turn drops a message.
unfoldable pub shrink_loop : ℕ → List WorkingMemoryMessage → ℕ → List WorkingMemoryMessage
shrink_loop zero shrunk max_tokens = []
shrink_loop (suc n) [] max_tokens = []
shrink_loop (suc n) (m ∷ ms) max_tokens =
    let rest = shrink_loop n (init (m ∷ ms)) max_tokens in
    if leb (total (m ∷ ms)) max_tokens then m ∷ ms else rest

unfoldable pub shrink_prefix_to_cap : List WorkingMemoryMessage → ℕ → List WorkingMemoryMessage
shrink_prefix_to_cap prefix max_tokens = shrink_loop (length prefix) prefix max_tokens

unfoldable pub min : ℕ → ℕ → ℕ
min a b = if leb a b then a else b

-- The head of the messages that leaves `tail_keep` of them, cut to the cap.
unfoldable pub capped_prefix :
    List WorkingMemoryMessage → ContextSettings → ℕ → List WorkingMemoryMessage
capped_prefix messages context tail_keep =
    let prefix = take (length messages - min tail_keep (length messages - 1)) messages in
    if ltb context.max_archive_estimated_tokens (total prefix)
    then shrink_prefix_to_cap prefix context.max_archive_estimated_tokens
    else prefix

-- The tests after the cut: `none` is `continue`.
unfoldable pub admit :
    List WorkingMemoryMessage
    → ℕ
    → ContextSettings
    → List WorkingMemoryMessage
    → Option ArchiveSelection
admit messages meta_tokens context [] = none
admit messages meta_tokens context (m ∷ ms) =
    if ltb (length messages - length (m ∷ ms)) context.absolute_min_recent_messages
    then none
    else if ltb meta_tokens (total (m ∷ ms))
    then none
    else some (record {
      prefix = m ∷ ms;
      prefix_tokens = total (m ∷ ms);
      projected_remaining = meta_tokens - total (m ∷ ms);
    })

unfoldable pub candidate_at :
    List WorkingMemoryMessage → ℕ → ContextSettings → ℕ → Option ArchiveSelection
candidate_at messages meta_tokens context tail_keep =
    admit messages meta_tokens context (capped_prefix messages context tail_keep)

unfoldable pub better_of :
    ℕ → Option ArchiveSelection → Option ArchiveSelection → Option ArchiveSelection
better_of target best none = best
better_of target best (some candidate) = some (pick_better target best candidate)

unfoldable pub select_loop :
    List WorkingMemoryMessage
    → ℕ
    → ContextSettings
    → List ℕ
    → Option ArchiveSelection
    → Option ArchiveSelection
select_loop messages meta_tokens context [] best = best
select_loop messages meta_tokens context (tail_keep ∷ keeps) best =
    select_loop messages meta_tokens context keeps (
      better_of context.compression_target_tokens best
        (candidate_at messages meta_tokens context tail_keep))

-- `count` numbers from `high` downwards.
unfoldable pub count_down : ℕ → ℕ → List ℕ
count_down high zero = []
count_down high (suc count) = high ∷ count_down (high - 1) count

-- range(high, low - 1, -1)
unfoldable pub range_down : ℕ → ℕ → List ℕ
range_down high low = count_down high (high + 1 - low)

unfoldable pub select_archive_prefix :
    List WorkingMemoryMessage → ℕ → ContextSettings → Option ArchiveSelection
select_archive_prefix messages meta_tokens context =
    if leb (length messages) context.absolute_min_recent_messages
    then none
    else select_loop messages meta_tokens context
        (range_down context.preferred_recent_messages context.absolute_min_recent_messages) none
