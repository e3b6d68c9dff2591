-- ===== src/Stm/Split.antt =====
-- `split_close_suffix_batches` of src/memory_system/domain/services/session_close_service.py: the
-- messages that remain when a session is closed, cut into archives under a cap of tokens.
pub mod Chunks
pub mod Laws
use memory_system.Shared.{
  ℕ, ◌+◌, Bool, true, false, ◌&&◌, String, List, [], ◌∷◌, ◌++◌, ltb, if◌then◌else◌,
}
use memory_system.Shared.Exec.{Result, ok, err}
use memory_system.Stm.Message.{WorkingMemoryMessage}

-- What the building of a close plan raises.
pub data CloseError : Type 0 where
  malformed_compression_version : CloseError
  message_boundary_mismatch : CloseError
  list_index_out_of_range : CloseError
  single_message_exceeds_archive_cap : String → CloseError

-- The variables of the loop.
pub record SplitState : Type 0 where
  pub batches : List (List WorkingMemoryMessage)
  pub current : List WorkingMemoryMessage
  pub current_tokens : ℕ

abbrev pub nonempty : List WorkingMemoryMessage → Bool
nonempty [] = false
nonempty (m ∷ ms) = true

-- One message that is under the cap: it starts a new batch or joins the current one.
unfoldable pub place : ℕ → SplitState → WorkingMemoryMessage → SplitState
place cap s m =
    if nonempty s.current && ltb cap (s.current_tokens + m.estimated_tokens)
    then record {
      batches = s.batches ++ s.current ∷ [];
      current = m ∷ [];
      current_tokens = m.estimated_tokens;
    }
    else record s {
      current = s.current ++ m ∷ [];
      current_tokens = s.current_tokens + m.estimated_tokens;
    }

unfoldable pub split_loop :
    ℕ
    → SplitState
    → List WorkingMemoryMessage
    → Result CloseError (List (List WorkingMemoryMessage))
split_loop cap s [] = ok (if nonempty s.current then s.batches ++ s.current ∷ [] else s.batches)
split_loop cap s (m ∷ ms) =
    let rest = split_loop cap (place cap s m) ms in
    if ltb cap m.estimated_tokens
    then err (single_message_exceeds_archive_cap m.message_id)
    else rest

unfoldable pub split_close_suffix_batches :
    List WorkingMemoryMessage → ℕ → Result CloseError (List (List WorkingMemoryMessage))
unfolding split_loop place
split_close_suffix_batches [] cap = ok []
split_close_suffix_batches ms cap =
    split_loop cap (record { batches = []; current = []; current_tokens = 0 }) ms
