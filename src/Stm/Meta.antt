-- ===== src/Stm/Meta.antt =====
-- src/memory_system/domain/models/working_memory.py: the metadata of a session.
pub use memory_system.Shared.Int.{ℤ, pos, negsuc}
use memory_system.Shared.{ℕ, String, Option, none, some, str_eq, if◌then◌else◌}

pub data SessionStatus : Type 0 where
  active closing : SessionStatus

pub record WorkingMemoryMeta : Type 0 where
  pub user_id : String
  pub session_id : String
  pub compressed_context : String
  pub estimated_tokens : ℕ
  pub compression_version : ℤ
  pub status : SessionStatus
  pub pending_archive_id : Option String
  pub pending_archive_batch_key : Option String
  pub pending_archive_message_count : ℤ
  pub pending_archive_estimated_tokens : ℕ
  pub created_time : ℕ
  pub updated_time : ℕ

-- The truth test of an optional string: an empty one counts as missing.
abbrev pub truthy : Option String → Option String
truthy none = none
truthy (some s) = if str_eq s "" then none else some s
