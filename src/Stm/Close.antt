-- ===== src/Stm/Close.antt =====
-- `close_session` of src/memory_system/domain/services/session_close_service.py. Each call of Redis,
-- MongoDB and Kafka is entered in a history with what it answered; the answers are a parameter, a
-- function of the history so far. Logs are left out.
pub mod Calls
pub mod Histories
pub mod Stages
pub mod Order
pub mod Whole
use memory_system.Shared.{
  ℕ, ◌==◌, String, Bool, true, false, not, ◌||◌, Option, none, some, List, [], ◌∷◌, ◌++◌,
  if◌then◌else◌,
}
use memory_system.Shared.Exec.{Result, ok, err, Exec, pure, raise, gets, catch, ◌>>=◌, ◌>>◌}
use memory_system.Shared.Triples.{finally}
use memory_system.Extraction.Event.{ArchiveCreatedEvent, archive_created_event_type}
use memory_system.Stm.Meta.{WorkingMemoryMeta, pos}
use memory_system.Stm.Settings.{ContextSettings}
use memory_system.Stm.Split.{CloseError, list_index_out_of_range}
use memory_system.Stm.Plan.{CloseArchiveBatch, ClosePlan, build_close_plan}
use memory_system.Stm.Close.Calls.{
  SessionCloseEnterStatus, enter_success, enter_session_not_found, enter_invalid_session_state,
  SessionCloseTerminalStatus, terminal_success, ContextReadResult, ContextReadStatus, read_success,
  created, reused, ContextArchiveOutcome, ContextArchiveResult, ContextArchiveCreateInput, Effect,
  acquire_lock, enter_closing, get_meta, read_context, create_archive, revert_active, publish,
  terminal_delete, release_lock, Services, CloseProgress, CloseWorld, CloseFailure,
  session_not_found, lock_not_acquired, invalid_session_state, read_failed, missing_archive_id,
  base_compression_version_mismatch, plan_error, close_incomplete, Close, perform,
  WorkingMemorySnapshot,
}

pub record SessionCloseResult : Type 0 where
  pub session_id : String
  pub archive_ids : List String

-- progress.close_new_archive_persisted = True
abbrev pub mark_persisted : Close Bool
mark_persisted w = (
  ok true,
  record {
    history = w.history;
    progress = record {
      close_new_archive_persisted = true;
      all_archives_confirmed = w.progress.all_archives_confirmed;
    };
  },
)

-- progress.all_archives_confirmed = True
abbrev pub mark_confirmed : Close Bool
mark_confirmed w = (
  ok true,
  record {
    history = w.history;
    progress = record {
      close_new_archive_persisted = w.progress.close_new_archive_persisted;
      all_archives_confirmed = true;
    };
  },
)

module _ (services : Services) (context : ContextSettings) (user_id session_id : String) where
  unfoldable pub maybe_revert_active : Close Bool
  maybe_revert_active = gets (λ w. w) >>= λ w.
      if w.progress.close_new_archive_persisted || w.progress.all_archives_confirmed
      then pure true
      else perform (λ h. services.revert h (services.clock w.history))
          (revert_active (services.clock w.history))
        >> pure true

  -- What follows the creation of a batch's archive.
  unfoldable pub confirm : ClosePlan → ContextArchiveResult → ContextArchiveOutcome → Close String
  confirm plan r created = mark_persisted >> pure r.archive_id
  confirm plan r reused =
      if r.stored_version == plan.base_compression_version
      then mark_persisted >> pure r.archive_id
      else mark_persisted >> raise base_compression_version_mismatch

  abbrev pub create_input : ClosePlan → CloseArchiveBatch → ContextArchiveCreateInput
  create_input plan b = record {
    user_id = plan.user_id;
    session_id = plan.session_id;
    archive_batch_key = b.archive_batch_key;
    base_compression_version = plan.base_compression_version;
    messages = b.messages;
  }

  unfoldable pub create_batch : ClosePlan → CloseArchiveBatch → Close ContextArchiveResult
  create_batch plan b =
      catch
        (perform (λ h. services.create h (create_input plan b))
          (create_archive (create_input plan b)))
        (λ e. maybe_revert_active >> raise e)

  unfoldable pub reuse_pending : Option String → Close String
  reuse_pending none = raise missing_archive_id
  reuse_pending (some id) = pure id

  unfoldable pub archive_batch : ClosePlan → CloseArchiveBatch → Close String
  archive_batch plan b =
      if b.is_pending_reuse
      then reuse_pending b.archive_id
      else create_batch plan b >>= λ r. confirm plan r r.outcome

  unfoldable pub archive_batches :
      ClosePlan → List CloseArchiveBatch → List String → Close (List String)
  archive_batches plan [] archive_ids = pure archive_ids
  archive_batches plan (b ∷ bs) archive_ids =
      archive_batch plan b >>= λ id. archive_batches plan bs (archive_ids ++ id ∷ [])

  abbrev pub new_event : String → List Effect → ArchiveCreatedEvent
  new_event archive_id h = record {
    event_id = services.uuid h;
    event_type = archive_created_event_type;
    archive_id = archive_id;
    user_id = user_id;
    session_id = session_id;
    created_time = pos (services.clock h);
  }

  -- One event; a failure of the producer is only logged.
  unfoldable pub publish_one : String → Close Bool
  publish_one archive_id = gets (λ w. new_event archive_id w.history) >>= λ e.
      catch (perform (λ h. services.send h e) (publish e)) (λ x. pure false)

  unfoldable pub publish_all : List String → Close Bool
  publish_all [] = pure true
  publish_all (id ∷ ids) = publish_one id >> publish_all ids

  unfoldable pub check_terminal :
      List String → SessionCloseTerminalStatus → Close SessionCloseResult
  check_terminal ids terminal_success = pure (record { session_id = session_id; archive_ids = ids })
  check_terminal ids status = raise (close_incomplete status)

  -- The archives, the events and the deletion of a plan.
  unfoldable pub run_plan : ClosePlan → Close SessionCloseResult
  run_plan plan = archive_batches plan plan.batches [] >>= λ ids.
      mark_confirmed >> publish_all ids >> perform services.terminal terminal_delete >>= λ status.
      check_terminal ids status

  -- Of the errors of the plan, the ones that the source names are caught.
  unfoldable pub run_built : Result CloseError ClosePlan → Close SessionCloseResult
  run_built (ok plan) = run_plan plan
  run_built (err list_index_out_of_range) = raise (plan_error list_index_out_of_range)
  run_built (err e) = maybe_revert_active >> raise (plan_error e)

  unfoldable pub with_snapshot :
      WorkingMemoryMeta
      → ContextReadStatus
      → Option WorkingMemorySnapshot
      → Close SessionCloseResult
  with_snapshot meta read_success (some s) =
      run_built (build_close_plan meta s.messages context.max_archive_estimated_tokens)
  with_snapshot meta status snapshot = raise read_failed

  unfoldable pub with_meta : Option WorkingMemoryMeta → Close SessionCloseResult
  with_meta none = raise session_not_found
  with_meta (some meta) =
      perform services.read read_context >>= λ r. with_snapshot meta r.status r.snapshot

  unfoldable pub entered : SessionCloseEnterStatus → Close SessionCloseResult
  entered enter_session_not_found = raise session_not_found
  entered enter_invalid_session_state = raise invalid_session_state
  entered enter_success = perform services.meta get_meta >>= λ m. with_meta m

  -- The body of the `try` once the lock is held.
  unfoldable pub locked_body : Close SessionCloseResult
  locked_body = gets (λ w. services.clock w.history) >>= λ now.
      perform (λ h. services.enter h now) (enter_closing now) >>= λ status. entered status

  unfoldable pub with_token : Option String → Close SessionCloseResult
  with_token none = raise lock_not_acquired
  with_token (some token) =
      finally locked_body (perform (λ h. services.release h token) (release_lock token))

  unfoldable pub close_session : Close SessionCloseResult
  close_session =
      perform (λ h. services.acquire h context.compression_lock_ttl_seconds)
        (acquire_lock context.compression_lock_ttl_seconds)
      >>= λ token. with_token token

-- The state before a close.
abbrev pub fresh : CloseWorld
fresh = record {
  history = [];
  progress = record { close_new_archive_persisted = false; all_archives_confirmed = false };
}
