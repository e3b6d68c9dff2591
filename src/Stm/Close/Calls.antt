-- ===== src/Stm/Close/Calls.antt =====
-- The calls that the closing of a session makes, and what they answer.
-- src/memory_system/domain/enums/session_close.py, context_archive.py, context_read.py and
-- src/memory_system/domain/models/session_close.py.
use memory_system.Shared.{ℕ, String, Bool, Option, List, ◌∷◌}
use memory_system.Shared.Exec.{Result, ok, err, Exec}
use memory_system.Stm.Message.{WorkingMemoryMessage}
use memory_system.Stm.Meta.{ℤ, WorkingMemoryMeta}
use memory_system.Stm.Split.{CloseError}
use memory_system.Extraction.Event.{ArchiveCreatedEvent}

pub data SessionCloseEnterStatus : Type 0 where
  enter_success enter_session_not_found enter_invalid_session_state : SessionCloseEnterStatus

pub data SessionCloseRevertStatus : Type 0 where
  revert_success revert_session_not_found revert_invalid_session_state : SessionCloseRevertStatus

pub data SessionCloseTerminalStatus : Type 0 where
  terminal_success terminal_session_not_found terminal_invalid_session_state :
      SessionCloseTerminalStatus

pub data ContextReadStatus : Type 0 where
  read_success read_session_not_found read_invalid_session_state : ContextReadStatus

pub data ContextArchiveOutcome : Type 0 where
  created reused : ContextArchiveOutcome

pub record WorkingMemorySnapshot : Type 0 where
  pub compression_version : ℤ
  pub compressed_context : String
  pub messages : List WorkingMemoryMessage

pub record ContextReadResult : Type 0 where
  pub status : ContextReadStatus
  pub snapshot : Option WorkingMemorySnapshot

pub record ContextArchiveCreateInput : Type 0 where
  pub user_id : String
  pub session_id : String
  pub archive_batch_key : String
  pub base_compression_version : ℕ
  pub messages : List WorkingMemoryMessage

-- `archive.base_compression_version` of the stored archive stands beside its id.
pub record ContextArchiveResult : Type 0 where
  pub outcome : ContextArchiveOutcome
  pub archive_id : String
  pub stored_version : ℕ

-- An exception of a client, by its name.
pub data Fault : Type 0 where
  service_error : String → Fault

-- A call, with its arguments besides the user and the session of the close, and its answer.
pub data Effect : Type 0 where
  acquire_lock : ℕ → Result Fault (Option String) → Effect
  enter_closing : ℕ → Result Fault SessionCloseEnterStatus → Effect
  get_meta : Result Fault (Option WorkingMemoryMeta) → Effect
  read_context : Result Fault ContextReadResult → Effect
  create_archive : ContextArchiveCreateInput → Result Fault ContextArchiveResult → Effect
  revert_active : ℕ → Result Fault SessionCloseRevertStatus → Effect
  publish : ArchiveCreatedEvent → Result Fault Bool → Effect
  terminal_delete : Result Fault SessionCloseTerminalStatus → Effect
  release_lock : String → Result Fault Bool → Effect

-- What the calls answer after a history, newest call first. Since the answers are arbitrary, this
-- covers every behaviour of the services and of other requests.
pub record Services : Type 0 where
  pub acquire : List Effect → ℕ → Result Fault (Option String)
  pub enter : List Effect → ℕ → Result Fault SessionCloseEnterStatus
  pub meta : List Effect → Result Fault (Option WorkingMemoryMeta)
  pub read : List Effect → Result Fault ContextReadResult
  pub create : List Effect → ContextArchiveCreateInput → Result Fault ContextArchiveResult
  pub revert : List Effect → ℕ → Result Fault SessionCloseRevertStatus
  pub send : List Effect → ArchiveCreatedEvent → Result Fault Bool
  pub terminal : List Effect → Result Fault SessionCloseTerminalStatus
  pub release : List Effect → String → Result Fault Bool
  pub clock : List Effect → ℕ
  pub uuid : List Effect → String

pub record CloseProgress : Type 0 where
  pub close_new_archive_persisted : Bool
  pub all_archives_confirmed : Bool

pub record CloseWorld : Type 0 where
  pub history : List Effect
  pub progress : CloseProgress

-- What `close_session` raises.
pub data CloseFailure : Type 0 where
  session_not_found lock_not_acquired invalid_session_state read_failed : CloseFailure
  missing_archive_id base_compression_version_mismatch : CloseFailure
  plan_error : CloseError → CloseFailure
  close_incomplete : SessionCloseTerminalStatus → CloseFailure
  service_failure : Fault → CloseFailure

abbrev pub Close : Type 0 → Type 0
Close A = Exec CloseWorld CloseFailure A

abbrev pub answer :
    {A : Type 0} → CloseWorld → Effect → Result Fault A → Result CloseFailure A × CloseWorld
answer w e (ok a) = (ok a, record w { history = e ∷ w.history })
answer w e (err f) = (err (service_failure f), record w { history = e ∷ w.history })

-- One call: its answer, entered in the history.
unfoldable pub perform :
    {A : Type 0} → (List Effect → Result Fault A) → (Result Fault A → Effect) → Close A
perform reply entry w = answer w (entry (reply w.history)) (reply w.history)
