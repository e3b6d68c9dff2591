-- ===== src/Stm/Round.antt =====
-- `_run_single_compression_round` of
-- src/memory_system/domain/services/compression_coordinator_service.py. The services that a round
-- calls are parameters; logs and the optional stage log are left out.
use memory_system.Shared.{ℕ, zero, suc, String, Option, none, some, List, [], ◌∷◌, map}
use memory_system.Shared.Exec.{Exec, pure, raise, ◌>>=◌}
use memory_system.Stm.Message.{WorkingMemoryMessage, MessageRole}
use memory_system.Stm.Meta.{ℤ, pos, negsuc, WorkingMemoryMeta, truthy}
use memory_system.Stm.Settings.{ContextSettings}
use memory_system.Stm.Select.{ArchiveSelection, select_archive_prefix}
use memory_system.Stm.Plan.{build_archive_batch_key, last_of}
use memory_system.Stm.Close.Calls.{
  ContextReadStatus, read_success, ContextReadResult, WorkingMemorySnapshot,
}
use memory_system.Shared.{length}

pub data CompressionStatus : Type 0 where
  not_triggered completed partial_completed failed : CompressionStatus
  skipped_lock insufficient_messages version_conflict : CompressionStatus

pub data CompressionPreparationStatus : Type 0 where
  prepare_success publish_failed lock_not_acquired : CompressionPreparationStatus
  prepare_session_not_found prepare_session_closing prepare_pending_conflict :
      CompressionPreparationStatus
  prepare_invalid_session_state : CompressionPreparationStatus

pub data CompressionFinalizeStatus : Type 0 where
  finalize_success finalize_session_not_found finalize_session_closing : CompressionFinalizeStatus
  finalize_lock_not_acquired finalize_version_conflict finalize_pending_conflict :
      CompressionFinalizeStatus
  finalize_invalid_session_state finalize_message_boundary_mismatch : CompressionFinalizeStatus

pub record ContextArchiveMessage : Type 0 where
  pub message_id : String
  pub role : MessageRole
  pub content : String
  pub timestamp : ℕ

unfoldable pub wm_message_to_archive_message : WorkingMemoryMessage → ContextArchiveMessage
wm_message_to_archive_message m = record {
  message_id = m.message_id;
  role = m.role;
  content = m.content;
  timestamp = m.timestamp;
}

-- The archive of a round: the one left pending, or the one just made.
pub record Pending : Type 0 where
  pub archive_id : String
  pub batch_key : String
  pub message_count : ℕ
  pub estimated_tokens : ℕ
  pub first_message_id : String
  pub last_message_id : String
  pub messages : List ContextArchiveMessage

pub record Preparation : Type 0 where
  pub status : CompressionPreparationStatus
  pub lock_owner_token : Option String

pub record LlmSuccess : Type 0 where
  pub compressed_context : String
  pub new_compressed_context_tokens : ℕ

pub record CompressionFinalizeInput : Type 0 where
  pub expected_compression_version : ℤ
  pub pending : Pending
  pub old_compressed_context_tokens : ℕ
  pub lock_owner_token : String
  pub llm_payload : LlmSuccess

-- The calls of a round, each for the user and the session of the request. `create_or_reuse` builds
-- its input from a key, a version and the messages; `compress` answers `none` unless its outcome is a
-- success. `index_error` is what Python raises for the first element of an empty list.
pub record RoundServices (S E : Type 0) : Type 0 where
  pub get_meta : Exec S E (Option WorkingMemoryMeta)
  pub read_context : Exec S E ContextReadResult
  pub find_archive : String → Exec S E (Option (List ContextArchiveMessage))
  pub create_or_reuse : String → ℤ → List WorkingMemoryMessage → Exec S E String
  pub prepare : Pending → Exec S E Preparation
  pub compress : String → Pending → Exec S E (Option LlmSuccess)
  pub finalize : CompressionFinalizeInput → Exec S E CompressionFinalizeStatus
  pub estimate_tokens : String → ℕ
  pub index_error : E

-- The last of `m ∷ ms`.
unfoldable pub last_archived :
    ContextArchiveMessage → List ContextArchiveMessage → ContextArchiveMessage
last_archived m [] = m
last_archived m (n ∷ ms) = last_archived n ms

unfoldable pub round_status_of : CompressionFinalizeStatus → CompressionStatus
round_status_of finalize_success = completed
round_status_of finalize_version_conflict = version_conflict
round_status_of status = failed

module _ {S E : Type 0} (services : RoundServices S E) (context : ContextSettings)
    (session_id : String) where
  unfoldable pub finish :
      WorkingMemorySnapshot → Pending → String → Option LlmSuccess → Exec S E CompressionStatus
  finish snapshot p token none = pure failed
  finish snapshot p token (some payload) =
      services.finalize (record {
        expected_compression_version = snapshot.compression_version;
        pending = p;
        old_compressed_context_tokens = services.estimate_tokens snapshot.compressed_context;
        lock_owner_token = token;
        llm_payload = payload;
      })
      >>= λ status. pure (round_status_of status)

  -- With a lock the round goes on, also when the event was not published.
  unfoldable pub with_lock :
      WorkingMemorySnapshot → Pending → Option String → Exec S E CompressionStatus
  with_lock snapshot p none = pure failed
  with_lock snapshot p (some token) =
      services.compress snapshot.compressed_context p >>= λ r. finish snapshot p token r

  unfoldable pub prepared :
      WorkingMemorySnapshot
      → Pending
      → CompressionPreparationStatus
      → Option String
      → Exec S E CompressionStatus
  prepared snapshot p lock_not_acquired token = pure skipped_lock
  prepared snapshot p prepare_session_not_found token = pure failed
  prepared snapshot p prepare_session_closing token = pure failed
  prepared snapshot p prepare_pending_conflict token = pure failed
  prepared snapshot p prepare_invalid_session_state token = pure failed
  prepared snapshot p prepare_success token = with_lock snapshot p token
  prepared snapshot p publish_failed token = with_lock snapshot p token

  unfoldable pub compress_pending : WorkingMemorySnapshot → Pending → Exec S E CompressionStatus
  compress_pending snapshot p =
      services.prepare p >>= λ r. prepared snapshot p r.status r.lock_owner_token

  -- The archive that the metadata names was looked up by its key.
  unfoldable pub resume_found :
      WorkingMemoryMeta
      → WorkingMemorySnapshot
      → String
      → String
      → ℕ
      → Option (List ContextArchiveMessage)
      → Exec S E CompressionStatus
  resume_found meta snapshot id key count none = pure failed
  resume_found meta snapshot id key count (some []) = raise services.index_error
  resume_found meta snapshot id key count (some (m ∷ ms)) = compress_pending snapshot (record {
    archive_id = id;
    batch_key = key;
    message_count = count;
    estimated_tokens = meta.pending_archive_estimated_tokens;
    first_message_id = m.message_id;
    last_message_id = (last_archived m ms).message_id;
    messages = m ∷ ms;
  })

  unfoldable pub resume :
      WorkingMemoryMeta
      → WorkingMemorySnapshot
      → String
      → Option String
      → ℤ
      → Exec S E CompressionStatus
  resume meta snapshot id none count = pure failed
  resume meta snapshot id (some key) (negsuc n) = pure failed
  resume meta snapshot id (some key) (pos zero) = pure failed
  resume meta snapshot id (some key) (pos (suc n)) =
      services.find_archive key >>= λ r. resume_found meta snapshot id key (suc n) r

  unfoldable pub archive_prefix :
      WorkingMemorySnapshot → ℕ → List WorkingMemoryMessage → Exec S E CompressionStatus
  archive_prefix snapshot tokens [] = raise services.index_error
  archive_prefix snapshot tokens (m ∷ ms) =
      let key = build_archive_batch_key session_id m.message_id (last_of m ms).message_id in
      services.create_or_reuse key snapshot.compression_version (m ∷ ms) >>= λ id.
      compress_pending snapshot (record {
        archive_id = id;
        batch_key = key;
        message_count = length (m ∷ ms);
        estimated_tokens = tokens;
        first_message_id = m.message_id;
        last_message_id = (last_of m ms).message_id;
        messages = map wm_message_to_archive_message (m ∷ ms);
      })

  unfoldable pub select_and_archive :
      WorkingMemorySnapshot → Option ArchiveSelection → Exec S E CompressionStatus
  select_and_archive snapshot none = pure insufficient_messages
  select_and_archive snapshot (some selection) =
      archive_prefix snapshot selection.prefix_tokens selection.prefix

  unfoldable pub with_snapshot :
      WorkingMemoryMeta → WorkingMemorySnapshot → Option String → Exec S E CompressionStatus
  with_snapshot meta snapshot none =
      select_and_archive snapshot
        (select_archive_prefix snapshot.messages meta.estimated_tokens context)
  with_snapshot meta snapshot (some id) =
      resume meta snapshot id (truthy meta.pending_archive_batch_key)
        meta.pending_archive_message_count

  unfoldable pub with_read :
      WorkingMemoryMeta
      → ContextReadStatus
      → Option WorkingMemorySnapshot
      → Exec S E CompressionStatus
  with_read meta read_success (some snapshot) =
      with_snapshot meta snapshot (truthy meta.pending_archive_id)
  with_read meta status snapshot = pure failed

  unfoldable pub with_meta : Option WorkingMemoryMeta → Exec S E CompressionStatus
  with_meta none = pure failed
  with_meta (some meta) = services.read_context >>= λ r. with_read meta r.status r.snapshot

  unfoldable pub run_single_compression_round : Exec S E CompressionStatus
  run_single_compression_round = services.get_meta >>= λ m. with_meta m
