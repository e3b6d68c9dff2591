-- ===== src/Stm/Plan/Laws.antt =====
-- What a close plan is, for every metadata and every list of messages.
use mathlib.Core.Path.{subst}
use memory_system.Shared.{
  ℕ, ◌≡◌, ◌<◌, refl, sym, ap, ◌⊎◌, inl, inr, true, false, none, some, String, List, [], ◌∷◌, ◌++◌,
  length, All,
}
use memory_system.Shared.Exec.{Result, ok, err}
use memory_system.Stm.Message.{WorkingMemoryMessage}
use memory_system.Stm.Meta.{ℤ, pos, negsuc, WorkingMemoryMeta, truthy}
use memory_system.Stm.Split.{
  CloseError, malformed_compression_version, message_boundary_mismatch, list_index_out_of_range,
  single_message_exceeds_archive_cap,
}
use memory_system.Stm.Split.Chunks.{FitsCap, concat}
use memory_system.Stm.Split.Laws.{IsCutOrRefused, FirstOver}
use memory_system.Stm.Plan.{
  CloseArchiveBatch, ClosePlan, build_archive_batch_key, last_of, new_batch, new_batches,
  suffix_batches, join,
}

abbrev pub messages_of : List CloseArchiveBatch → List WorkingMemoryMessage
messages_of [] = []
messages_of (b ∷ bs) = b.messages ++ messages_of bs

-- The key of a batch names its session, its first message and its last.
abbrev pub HasKey : String → String → List WorkingMemoryMessage → Type 0
HasKey session_id key [] = ⊥
HasKey session_id key (m ∷ ms) =
    key ≡ build_archive_batch_key session_id m.message_id (last_of m ms).message_id

-- A batch that the plan makes from messages that no archive holds yet.
abbrev pub IsNew : String → ℕ → CloseArchiveBatch → Type 0
IsNew session_id top b =
    (b.is_pending_reuse ≡ false)
    × FitsCap top b.messages
    × HasKey session_id b.archive_batch_key b.messages

-- The batch of the archive that a compression left pending.
abbrev pub IsPending : WorkingMemoryMeta → CloseArchiveBatch → Type 0
IsPending meta b =
    (b.is_pending_reuse ≡ true)
    × ((id : String) × (truthy meta.pending_archive_id ≡ some id) × (b.archive_id ≡ some id))
    × (some b.archive_batch_key ≡ truthy meta.pending_archive_batch_key)
    × (pos (length b.messages) ≡ meta.pending_archive_message_count)

-- The batches: one pending batch, at the head, exactly when the metadata names an archive.
abbrev pub HasBatches : WorkingMemoryMeta → ℕ → List CloseArchiveBatch → Type 0
HasBatches meta top bs =
    ((truthy meta.pending_archive_id ≡ none) × All (IsNew meta.session_id top) bs)
    ⊎ ((b : CloseArchiveBatch) × (rest : List CloseArchiveBatch) × (bs ≡ b ∷ rest)
        × IsPending meta b
        × All (IsNew meta.session_id top) rest)

abbrev pub IsPlan : WorkingMemoryMeta → List WorkingMemoryMessage → ℕ → ClosePlan → Type 0
IsPlan meta ms top plan =
    (plan.session_id ≡ meta.session_id)
    × (plan.user_id ≡ meta.user_id)
    × (pos plan.base_compression_version ≡ meta.compression_version)
    × (messages_of plan.batches ≡ ms)
    × HasBatches meta top plan.batches

-- A message over the cap with the given id stands among the messages.
abbrev pub HasOver : ℕ → String → List WorkingMemoryMessage → Type 0
HasOver top id ms =
    (xs : List WorkingMemoryMessage) × (m : WorkingMemoryMessage) × (ys : List WorkingMemoryMessage)
    × (xs ++ m ∷ ys ≡ ms)
    × (m.message_id ≡ id)
    × (top < m.estimated_tokens)

abbrev pub IsBadCount : ℤ → List WorkingMemoryMessage → Type 0
IsBadCount (negsuc n) ms = Unit
IsBadCount (pos n) ms = (n ≡ 0) ⊎ length ms < n

-- Why there is no plan.
abbrev pub IsReason : WorkingMemoryMeta → List WorkingMemoryMessage → ℕ → CloseError → Type 0
IsReason meta ms top malformed_compression_version = (n : ℕ) × (meta.compression_version ≡ negsuc n)
IsReason meta ms top message_boundary_mismatch =
    (id : String) × (truthy meta.pending_archive_id ≡ some id)
    × ((truthy meta.pending_archive_batch_key ≡ none)
        ⊎ IsBadCount meta.pending_archive_message_count ms)
IsReason meta ms top list_index_out_of_range = ⊥
IsReason meta ms top (single_message_exceeds_archive_cap id) = HasOver top id ms

abbrev pub IsAnswer :
    WorkingMemoryMeta → List WorkingMemoryMessage → ℕ → Result CloseError ClosePlan → Type 0
IsAnswer meta ms top (ok plan) = IsPlan meta ms top plan
IsAnswer meta ms top (err e) = IsReason meta ms top e

-- The batches that the parts of the suffix give.
abbrev pub IsSuffix :
    String → ℕ → List WorkingMemoryMessage → Result CloseError (List CloseArchiveBatch) → Type 0
IsSuffix session_id top ms (ok bs) = All (IsNew session_id top) bs × (messages_of bs ≡ ms)
IsSuffix session_id top ms (err (single_message_exceeds_archive_cap id)) = HasOver top id ms
IsSuffix session_id top ms (err e) = ⊥

abbrev IsMade :
    String → ℕ → List WorkingMemoryMessage → Result CloseError (List CloseArchiveBatch) → Type 0
IsMade session_id top ms (ok bs) = All (IsNew session_id top) bs × (messages_of bs ≡ ms)
IsMade session_id top ms (err e) = ⊥

join-IsMade :
    (session_id : String) (top : ℕ) (b : CloseArchiveBatch) (ms : List WorkingMemoryMessage)
    (r : Result CloseError (List CloseArchiveBatch))
    → IsNew session_id top b
    → IsMade session_id top ms r
    → IsMade session_id top (b.messages ++ ms) (join (ok b) r)
join-IsMade session_id top b ms (ok bs) n (a, e) = ((n, a), ap (λ x. b.messages ++ x) e)
join-IsMade session_id top b ms (err e) n x = x

new_batches-IsMade :
    (session_id : String) (top : ℕ) (parts : List (List WorkingMemoryMessage))
    → All (FitsCap top) parts
    → IsMade session_id top (concat parts) (new_batches session_id parts)
unfolding new_batches new_batch
new_batches-IsMade session_id top [] a = (tt, refl)
new_batches-IsMade session_id top ([] ∷ parts) a = absurd a.0
new_batches-IsMade session_id top ((m ∷ ms) ∷ parts) a =
    join-IsMade session_id top
      (record {
        archive_batch_key =
            build_archive_batch_key session_id m.message_id (last_of m ms).message_id;
        messages = m ∷ ms;
        is_pending_reuse = false;
        archive_id = none;
      })
      (concat parts) (new_batches session_id parts) (refl, a.0, refl)
      (new_batches-IsMade session_id top parts a.1)

IsMade-IsSuffix :
    (session_id : String) (top : ℕ) (ms : List WorkingMemoryMessage)
    (r : Result CloseError (List CloseArchiveBatch))
    → IsMade session_id top ms r
    → IsSuffix session_id top ms r
IsMade-IsSuffix session_id top ms (ok bs) h = h
IsMade-IsSuffix session_id top ms (err e) h = absurd h

FirstOver-HasOver :
    (top : ℕ) (ms : List WorkingMemoryMessage) (x : WorkingMemoryMessage)
    → FirstOver top ms x
    → HasOver top x.message_id ms
FirstOver-HasOver top [] x f = absurd f
FirstOver-HasOver top (m ∷ ms) x (inl (e, o)) = ([], m, ms, refl, ap (λ y. y.message_id) (sym e), o)
FirstOver-HasOver top (m ∷ ms) x (inr (u, f)) =
    let (xs, n, ys, e, i, o) = FirstOver-HasOver top ms x f in
    (m ∷ xs, n, ys, ap (λ y. m ∷ y) e, i, o)

pub suffix_batches-IsSuffix :
    (session_id : String) (top : ℕ) (ms : List WorkingMemoryMessage)
    (r : Result CloseError (List (List WorkingMemoryMessage)))
    → IsCutOrRefused top ms r
    → IsSuffix session_id top ms (suffix_batches session_id r)
unfolding suffix_batches
suffix_batches-IsSuffix session_id top ms r (inl (parts, e, u, (c, f, g))) =
    subst (λ x. IsSuffix session_id top ms (suffix_batches session_id x)) (sym e)
      (IsMade-IsSuffix session_id top ms (new_batches session_id parts) (
        subst (λ x. IsMade session_id top x (new_batches session_id parts)) c
          (new_batches-IsMade session_id top parts f)))
suffix_batches-IsSuffix session_id top ms r (inr (x, e, f)) =
    subst (λ y. IsSuffix session_id top ms (suffix_batches session_id y)) (sym e)
      (FirstOver-HasOver top ms x f)
