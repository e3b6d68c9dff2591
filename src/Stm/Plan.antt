-- ===== src/Stm/Plan.antt =====
-- `build_close_plan` of src/memory_system/domain/services/session_close_service.py: the archives
-- that the closing of a session makes.
pub mod Laws
pub mod Build
use Prim.Native.String.{◌++◌ as str_append}
use memory_system.Shared.{
  ℕ, suc, zero, Bool, true, false, Option, none, some, String, List, [], ◌∷◌, ltb, if◌then◌else◌,
  length, take, drop, ◌++◌,
}
use memory_system.Shared.Exec.{Result, ok, err}
use memory_system.Stm.Message.{WorkingMemoryMessage}
use memory_system.Stm.Meta.{ℤ, pos, negsuc, WorkingMemoryMeta, truthy}
use memory_system.Stm.Split.{
  CloseError, malformed_compression_version, message_boundary_mismatch, list_index_out_of_range,
  split_close_suffix_batches,
}

pub record CloseArchiveBatch : Type 0 where
  pub archive_batch_key : String
  pub messages : List WorkingMemoryMessage
  pub is_pending_reuse : Bool
  pub archive_id : Option String

pub record ClosePlan : Type 0 where
  pub session_id : String
  pub user_id : String
  pub base_compression_version : ℕ
  pub batches : List CloseArchiveBatch

unfoldable pub build_archive_batch_key : String → String → String → String
build_archive_batch_key session_id first_message_id last_message_id =
    str_append session_id
      (str_append ":" (str_append first_message_id (str_append ":" last_message_id)))

-- The last of `m ∷ ms`.
unfoldable pub last_of : WorkingMemoryMessage → List WorkingMemoryMessage → WorkingMemoryMessage
last_of m [] = m
last_of m (n ∷ ms) = last_of n ms

unfoldable pub extract_base_compression_version : ℤ → Result CloseError ℕ
extract_base_compression_version (pos n) = ok n
extract_base_compression_version (negsuc n) = err malformed_compression_version

-- The pending archive, which takes the first messages, and the messages after them.
unfoldable pub pending_part :
    Option String
    → Option String
    → ℤ
    → List WorkingMemoryMessage
    → Result CloseError (List CloseArchiveBatch × List WorkingMemoryMessage)
pending_part none key count messages = ok ([], messages)
pending_part (some id) none count messages = err message_boundary_mismatch
pending_part (some id) (some key) (negsuc n) messages = err message_boundary_mismatch
pending_part (some id) (some key) (pos zero) messages = err message_boundary_mismatch
pending_part (some id) (some key) (pos (suc n)) messages =
    if ltb (length messages) (suc n)
    then err message_boundary_mismatch
    else ok (
      record {
        archive_batch_key = key;
        messages = take (suc n) messages;
        is_pending_reuse = true;
        archive_id = some id;
      }
          ∷ [],
      drop (suc n) messages,
    )

-- The batch for one part of the suffix. `suffix_batch[0]` would raise on an empty part.
unfoldable pub new_batch : String → List WorkingMemoryMessage → Result CloseError CloseArchiveBatch
new_batch session_id [] = err list_index_out_of_range
new_batch session_id (m ∷ ms) = ok (record {
  archive_batch_key = build_archive_batch_key session_id m.message_id (last_of m ms).message_id;
  messages = m ∷ ms;
  is_pending_reuse = false;
  archive_id = none;
})

abbrev pub join :
    Result CloseError CloseArchiveBatch
    → Result CloseError (List CloseArchiveBatch)
    → Result CloseError (List CloseArchiveBatch)
join (err e) rest = err e
join (ok b) (err e) = err e
join (ok b) (ok bs) = ok (b ∷ bs)

unfoldable pub new_batches :
    String → List (List WorkingMemoryMessage) → Result CloseError (List CloseArchiveBatch)
new_batches session_id [] = ok []
new_batches session_id (part ∷ parts) =
    join (new_batch session_id part) (new_batches session_id parts)

-- The loop over the parts of the suffix.
unfoldable pub suffix_batches :
    String
    → Result CloseError (List (List WorkingMemoryMessage))
    → Result CloseError (List CloseArchiveBatch)
suffix_batches session_id (err e) = err e
suffix_batches session_id (ok parts) = new_batches session_id parts

abbrev pub plan_of :
    WorkingMemoryMeta
    → ℕ
    → List CloseArchiveBatch
    → Result CloseError (List CloseArchiveBatch)
    → Result CloseError ClosePlan
plan_of meta version pending (err e) = err e
plan_of meta version pending (ok suffix) = ok (record {
  session_id = meta.session_id;
  user_id = meta.user_id;
  base_compression_version = version;
  batches = pending ++ suffix;
})

unfoldable pub plan_from :
    WorkingMemoryMeta
    → ℕ
    → ℕ
    → Result CloseError (List CloseArchiveBatch × List WorkingMemoryMessage)
    → Result CloseError ClosePlan
plan_from meta max_tokens version (err e) = err e
plan_from meta max_tokens version (ok (pending, suffix)) =
    plan_of meta version pending
      (suffix_batches meta.session_id (split_close_suffix_batches suffix max_tokens))

unfoldable pub plan_at :
    WorkingMemoryMeta
    → List WorkingMemoryMessage
    → ℕ
    → Result CloseError ℕ
    → Result CloseError ClosePlan
plan_at meta messages max_tokens (err e) = err e
plan_at meta messages max_tokens (ok version) = plan_from meta max_tokens version (
    pending_part (truthy meta.pending_archive_id) (truthy meta.pending_archive_batch_key)
      meta.pending_archive_message_count messages)

unfoldable pub build_close_plan :
    WorkingMemoryMeta → List WorkingMemoryMessage → ℕ → Result CloseError ClosePlan
build_close_plan meta messages max_tokens =
    plan_at meta messages max_tokens (extract_base_compression_version meta.compression_version)
