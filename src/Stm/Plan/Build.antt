-- ===== src/Stm/Plan/Build.antt =====
-- `build_close_plan`: the plan, or the reason why there is none.
use mathlib.Core.Path.{subst}
use mathlib.Core.List.{append_assoc}
use memory_system.Shared.{
  ℕ, suc, zero, ◌≡◌, ◌≤◌, refl, sym, ◌∙◌, ap, inl, inr, Bool, true, false, Option, none, some,
  String, List, [], ◌∷◌, ◌++◌, ltb, if◌then◌else◌, length, take, drop, arith, take-append-drop,
  length-append, length-drop,
}
use memory_system.Shared.Exec.{Result, ok, err}
use memory_system.Stm.Message.{WorkingMemoryMessage}
use memory_system.Stm.Meta.{ℤ, pos, negsuc, WorkingMemoryMeta, truthy}
use memory_system.Stm.Split.{
  CloseError, malformed_compression_version, message_boundary_mismatch, list_index_out_of_range,
  single_message_exceeds_archive_cap,
}
use memory_system.Stm.Split.Laws.{split_close_suffix_batches-IsCutOrRefused}
use memory_system.Stm.Plan.{
  CloseArchiveBatch, extract_base_compression_version, pending_part, plan_of, plan_from, plan_at,
  build_close_plan,
}
use memory_system.Stm.Plan.Laws.{
  IsPending, HasOver, IsBadCount, IsReason, IsAnswer, IsSuffix, suffix_batches-IsSuffix,
}

-- What the head of the plan is: nothing, or the pending archive with the first messages.
abbrev IsHeadOf :
    WorkingMemoryMeta
    → List WorkingMemoryMessage
    → Result CloseError (List CloseArchiveBatch × List WorkingMemoryMessage)
    → Type 0
IsHeadOf meta ms (ok ([], suffix)) = (truthy meta.pending_archive_id ≡ none) × (suffix ≡ ms)
IsHeadOf meta ms (ok (b ∷ [], suffix)) = IsPending meta b × (b.messages ++ suffix ≡ ms)
IsHeadOf meta ms (ok (b ∷ c ∷ bs, suffix)) = ⊥
IsHeadOf meta ms (err message_boundary_mismatch) = IsReason meta ms 0 message_boundary_mismatch
IsHeadOf meta ms (err e) = ⊥

HasOver-append :
    (top : ℕ) (id : String) (ps ms : List WorkingMemoryMessage)
    → HasOver top id ms
    → HasOver top id (ps ++ ms)
HasOver-append top id ps ms (xs, m, ys, e, i, o) =
    (ps ++ xs, m, ys, append_assoc ps xs (m ∷ ys) ∙ ap (λ x. ps ++ x) e, i, o)

plan_of-IsAnswer :
    (meta : WorkingMemoryMeta) (top version : ℕ) (ms : List WorkingMemoryMessage)
    (r : Result CloseError (List CloseArchiveBatch))
    → pos version ≡ meta.compression_version
    → truthy meta.pending_archive_id ≡ none
    → IsSuffix meta.session_id top ms r
    → IsAnswer meta ms top (plan_of meta version [] r)
plan_of-IsAnswer meta top version ms (ok bs) v t (a, e) = (refl, refl, v, e, inl (t, a))
plan_of-IsAnswer meta top version ms (err (single_message_exceeds_archive_cap id)) v t h = h
plan_of-IsAnswer meta top version ms (err malformed_compression_version) v t h = absurd h
plan_of-IsAnswer meta top version ms (err message_boundary_mismatch) v t h = absurd h
plan_of-IsAnswer meta top version ms (err list_index_out_of_range) v t h = absurd h

plan_of-Pending :
    (meta : WorkingMemoryMeta) (top version : ℕ) (b : CloseArchiveBatch)
    (ms : List WorkingMemoryMessage) (r : Result CloseError (List CloseArchiveBatch))
    → pos version ≡ meta.compression_version
    → IsPending meta b
    → IsSuffix meta.session_id top ms r
    → IsAnswer meta (b.messages ++ ms) top (plan_of meta version (b ∷ []) r)
plan_of-Pending meta top version b ms (ok bs) v p (a, e) =
    (refl, refl, v, ap (λ x. b.messages ++ x) e, inr (b, bs, refl, p, a))
plan_of-Pending meta top version b ms (err (single_message_exceeds_archive_cap id)) v p h =
    HasOver-append top id b.messages ms h
plan_of-Pending meta top version b ms (err malformed_compression_version) v p h = absurd h
plan_of-Pending meta top version b ms (err message_boundary_mismatch) v p h = absurd h
plan_of-Pending meta top version b ms (err list_index_out_of_range) v p h = absurd h

plan_from-IsAnswer :
    (meta : WorkingMemoryMeta) (top version : ℕ) (ms : List WorkingMemoryMessage)
    (r : Result CloseError (List CloseArchiveBatch × List WorkingMemoryMessage))
    → pos version ≡ meta.compression_version
    → IsHeadOf meta ms r
    → IsAnswer meta ms top (plan_from meta top version r)
unfolding plan_from
plan_from-IsAnswer meta top version ms (ok ([], suffix)) v (t, e) =
    subst (λ x. IsAnswer meta x top (plan_from meta top version (ok ([], suffix)))) e
      (plan_of-IsAnswer meta top version suffix _ v t (
        suffix_batches-IsSuffix meta.session_id top suffix _
          (split_close_suffix_batches-IsCutOrRefused top suffix)))
plan_from-IsAnswer meta top version ms (ok (b ∷ [], suffix)) v (p, e) =
    subst (λ x. IsAnswer meta x top (plan_from meta top version (ok (b ∷ [], suffix)))) e
      (plan_of-Pending meta top version b suffix _ v p (
        suffix_batches-IsSuffix meta.session_id top suffix _
          (split_close_suffix_batches-IsCutOrRefused top suffix)))
plan_from-IsAnswer meta top version ms (ok (b ∷ c ∷ bs, suffix)) v h = absurd h
plan_from-IsAnswer meta top version ms (err message_boundary_mismatch) v h = h
plan_from-IsAnswer meta top version ms (err malformed_compression_version) v h = absurd h
plan_from-IsAnswer meta top version ms (err list_index_out_of_range) v h = absurd h
plan_from-IsAnswer meta top version ms (err (single_message_exceeds_archive_cap id)) v h = absurd h

pending_part-IsHeadOf :
    (meta : WorkingMemoryMeta) (ms : List WorkingMemoryMessage) (id key : Option String) (count : ℤ)
    → truthy meta.pending_archive_id ≡ id
    → truthy meta.pending_archive_batch_key ≡ key
    → meta.pending_archive_message_count ≡ count
    → IsHeadOf meta ms (pending_part id key count ms)
unfolding pending_part
pending_part-IsHeadOf meta ms none key count i k c = (i, refl)
pending_part-IsHeadOf meta ms (some id) none count i k c = (id, i, inl k)
pending_part-IsHeadOf meta ms (some id) (some key) (negsuc n) i k c =
    (id, i, inr (subst (λ x. IsBadCount x ms) (sym c) tt))
pending_part-IsHeadOf meta ms (some id) (some key) (pos zero) i k c =
    (id, i, inr (subst (λ x. IsBadCount x ms) (sym c) (inl refl)))
pending_part-IsHeadOf meta ms (some id) (some key) (pos (suc n)) i k c =
    at (ltb (length ms) (suc n)) refl
  where
    taken : suc n ≤ length ms → length (take (suc n) ms) ≡ suc n
    taken h = omega (
      arith,
      h,
      length-append (take (suc n) ms) (drop (suc n) ms),
      ap length (take-append-drop (suc n) ms),
      length-drop (suc n) ms,
    )

    at :
        (b : Bool)
        → ltb (length ms) (suc n) ≡ b
        → IsHeadOf meta ms (
            if b
            then err message_boundary_mismatch
            else ok (
              record {
                archive_batch_key = key;
                messages = take (suc n) ms;
                is_pending_reuse = true;
                archive_id = some id;
              }
                  ∷ [],
              drop (suc n) ms,
            ))
    at true e = (id, i, inr (subst (λ x. IsBadCount x ms) (sym c) (inr (ground (arith, e)))))
    at false e = (
      (refl, (id, i, refl), sym k, ap pos (taken (ground (arith, e))) ∙ sym c),
      take-append-drop (suc n) ms,
    )

plan_at-IsAnswer :
    (meta : WorkingMemoryMeta) (ms : List WorkingMemoryMessage) (top : ℕ) (version : ℤ)
    → meta.compression_version ≡ version
    → IsAnswer meta ms top (plan_at meta ms top (extract_base_compression_version version))
unfolding plan_at extract_base_compression_version
plan_at-IsAnswer meta ms top (negsuc n) v = (n, v)
plan_at-IsAnswer meta ms top (pos n) v = plan_from-IsAnswer meta top n ms _ (sym v) (
    pending_part-IsHeadOf meta ms (truthy meta.pending_archive_id)
      (truthy meta.pending_archive_batch_key) meta.pending_archive_message_count refl refl refl)

-- Building a close plan answers a plan or an error. A plan carries the ids and the compression
-- version of the metadata; the messages of its batches, one after the other, are the messages of the
-- snapshot; the first batch is the pending archive exactly when the metadata names one, with the
-- pending number of messages; every other batch is non-empty, within the cap and has the key of its
-- first and last message. An error has its reason: a negative compression version, a pending archive
-- with no key or with a count that is not positive or exceeds the messages, or a message that alone
-- exceeds the cap.
pub build_close_plan-IsAnswer :
    (meta : WorkingMemoryMeta) (ms : List WorkingMemoryMessage) (top : ℕ)
    → IsAnswer meta ms top (build_close_plan meta ms top)
unfolding build_close_plan
build_close_plan-IsAnswer meta ms top = plan_at-IsAnswer meta ms top meta.compression_version refl
