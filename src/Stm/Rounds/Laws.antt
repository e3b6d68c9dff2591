-- ===== src/Stm/Rounds/Laws.antt =====
-- What the coordination of compression answers, whatever its rounds do.
use mathlib.Core.Path.{subst}
use memory_system.Shared.{
  String, List, [], ◌∷◌, ℕ, zero, suc, ◌≡◌, ◌≤◌, ◌<◌, ◌⊎◌, refl, Bool, true, false, ltb, Option,
  none, some, if◌then◌else◌, arith,
}
use memory_system.Shared.Exec.{Exec, pure}
use memory_system.Stm.Rounds.Raises.{
  Yields, Yields-pure, Yields-raise, calls, by_get_meta, by_read_context, by_find_archive,
  by_create_or_reuse, by_prepare, by_compress, by_finalize, by_empty_archive,
}
use memory_system.Stm.Message.{WorkingMemoryMessage}
use memory_system.Stm.Meta.{ℤ, pos, negsuc, WorkingMemoryMeta}
use memory_system.Stm.Select.{ArchiveSelection}
use memory_system.Stm.Close.Calls.{
  ContextReadStatus, read_success, read_session_not_found, read_invalid_session_state,
  WorkingMemorySnapshot,
}
use memory_system.Stm.Round.{
  CompressionStatus, not_triggered, completed, partial_completed, failed, skipped_lock,
  insufficient_messages, version_conflict, CompressionPreparationStatus, prepare_success,
  publish_failed, lock_not_acquired, prepare_session_not_found, prepare_session_closing,
  prepare_pending_conflict, prepare_invalid_session_state, CompressionFinalizeStatus,
  finalize_success, finalize_session_not_found, finalize_session_closing,
  finalize_lock_not_acquired, finalize_version_conflict, finalize_pending_conflict,
  finalize_invalid_session_state, finalize_message_boundary_mismatch, ContextArchiveMessage,
  Pending, LlmSuccess, RoundServices, round_status_of, finish, with_lock, prepared,
  compress_pending, resume_found, resume, archive_prefix, select_and_archive, with_snapshot,
  with_read, with_meta, run_single_compression_round,
}
use memory_system.Stm.Settings.{ContextSettings}
use memory_system.Stm.Rounds.{CompressionCoordinationResult, aggregate_round_failure}

-- The rounds that a status goes with, under a limit.
abbrev pub HasRounds : ℕ → CompressionStatus → ℕ → Type 0
HasRounds limit not_triggered n = n ≡ 0
HasRounds limit completed n = (n ≤ limit) × (0 < n ⊎ (limit ≡ 0))
HasRounds limit partial_completed n = n ≡ limit
HasRounds limit failed n = n < limit
HasRounds limit skipped_lock n = n ≡ 0
HasRounds limit insufficient_messages n = n ≡ 0
HasRounds limit version_conflict n = n ≡ 0

abbrev pub IsCoordinated : ℕ → CompressionCoordinationResult → Type 0
IsCoordinated limit r = HasRounds limit r.status r.rounds_completed

-- What one round may answer.
abbrev pub IsRoundStatus : CompressionStatus → Type 0
IsRoundStatus not_triggered = ⊥
IsRoundStatus partial_completed = ⊥
IsRoundStatus status = Unit

failed-HasRounds :
    (limit n : ℕ) (status : CompressionStatus) (b : Bool)
    → ltb 0 n ≡ b
    → n < limit
    → HasRounds limit status 0
    → HasRounds limit (if b then failed else status) n
failed-HasRounds limit n status true e l h = l
failed-HasRounds limit n status false e l h =
    subst (HasRounds limit status) {x = 0} (ground (arith, e)) h

pub aggregate-HasRounds :
    (limit n : ℕ) (status : CompressionStatus)
    → n < limit
    → HasRounds limit status 0
    → HasRounds limit (aggregate_round_failure n status) n
unfolding aggregate_round_failure
aggregate-HasRounds limit n status l h = failed-HasRounds limit n status (ltb 0 n) refl l h

status_of-IsRoundStatus : (x : CompressionFinalizeStatus) → IsRoundStatus (round_status_of x)
unfolding round_status_of
status_of-IsRoundStatus finalize_success = tt
status_of-IsRoundStatus finalize_version_conflict = tt
status_of-IsRoundStatus finalize_session_not_found = tt
status_of-IsRoundStatus finalize_session_closing = tt
status_of-IsRoundStatus finalize_lock_not_acquired = tt
status_of-IsRoundStatus finalize_pending_conflict = tt
status_of-IsRoundStatus finalize_invalid_session_state = tt
status_of-IsRoundStatus finalize_message_boundary_mismatch = tt

module _ {S E : Type 0} (services : RoundServices S E) (context : ContextSettings)
    (session_id : String) where
  -- A run that raises or answers a status of a round.
  abbrev Rounded : Exec S E CompressionStatus → Type 0
  Rounded m = Yields services IsRoundStatus m

  answers : (r : CompressionStatus) → IsRoundStatus r → Rounded (pure r)
  answers r h = Yields-pure r h

  finish-Rounded :
      (s : WorkingMemorySnapshot) (p : Pending) (t : String) (r : Option LlmSuccess)
      → Rounded (finish services context session_id s p t r)
  unfolding finish
  finish-Rounded s p t none = answers failed tt
  finish-Rounded s p t (some x) =
      calls _ _ (by_finalize _)
        (λ status. answers (round_status_of status) (status_of-IsRoundStatus status))

  with_lock-Rounded :
      (s : WorkingMemorySnapshot) (p : Pending) (t : Option String)
      → Rounded (with_lock services context session_id s p t)
  unfolding with_lock
  with_lock-Rounded s p none = answers failed tt
  with_lock-Rounded s p (some t) = calls _ _ (by_compress _ _) (λ r. finish-Rounded s p t r)

  prepared-Rounded :
      (s : WorkingMemorySnapshot) (p : Pending) (x : CompressionPreparationStatus)
      (t : Option String)
      → Rounded (prepared services context session_id s p x t)
  unfolding prepared
  prepared-Rounded s p lock_not_acquired t = answers skipped_lock tt
  prepared-Rounded s p prepare_session_not_found t = answers failed tt
  prepared-Rounded s p prepare_session_closing t = answers failed tt
  prepared-Rounded s p prepare_pending_conflict t = answers failed tt
  prepared-Rounded s p prepare_invalid_session_state t = answers failed tt
  prepared-Rounded s p prepare_success t = with_lock-Rounded s p t
  prepared-Rounded s p publish_failed t = with_lock-Rounded s p t

  compress_pending-Rounded :
      (s : WorkingMemorySnapshot) (p : Pending)
      → Rounded (compress_pending services context session_id s p)
  unfolding compress_pending
  compress_pending-Rounded s p =
      calls _ _ (by_prepare _) (λ r. prepared-Rounded s p r.status r.lock_owner_token)

  resume_found-Rounded :
      (m : WorkingMemoryMeta) (s : WorkingMemorySnapshot) (id key : String) (n : ℕ)
      (r : Option (List ContextArchiveMessage))
      → Rounded (resume_found services context session_id m s id key n r)
  unfolding resume_found
  resume_found-Rounded m s id key n none = answers failed tt
  resume_found-Rounded m s id key n (some []) = Yields-raise _ by_empty_archive
  resume_found-Rounded m s id key n (some (x ∷ xs)) = compress_pending-Rounded s _

  resume-Rounded :
      (m : WorkingMemoryMeta) (s : WorkingMemorySnapshot) (id : String) (key : Option String)
      (n : ℤ)
      → Rounded (resume services context session_id m s id key n)
  unfolding resume
  resume-Rounded m s id none n = answers failed tt
  resume-Rounded m s id (some key) (negsuc n) = answers failed tt
  resume-Rounded m s id (some key) (pos zero) = answers failed tt
  resume-Rounded m s id (some key) (pos (suc n)) =
      calls _ _ (by_find_archive _) (λ r. resume_found-Rounded m s id key (suc n) r)

  archive_prefix-Rounded :
      (s : WorkingMemorySnapshot) (n : ℕ) (ms : List WorkingMemoryMessage)
      → Rounded (archive_prefix services context session_id s n ms)
  unfolding archive_prefix
  archive_prefix-Rounded s n [] = Yields-raise _ by_empty_archive
  archive_prefix-Rounded s n (m ∷ ms) =
      calls _ _ (by_create_or_reuse _ _ _) (λ id. compress_pending-Rounded s _)

  select_and_archive-Rounded :
      (s : WorkingMemorySnapshot) (x : Option ArchiveSelection)
      → Rounded (select_and_archive services context session_id s x)
  unfolding select_and_archive
  select_and_archive-Rounded s none = answers insufficient_messages tt
  select_and_archive-Rounded s (some x) = archive_prefix-Rounded s _ x.prefix

  with_snapshot-Rounded :
      (m : WorkingMemoryMeta) (s : WorkingMemorySnapshot) (id : Option String)
      → Rounded (with_snapshot services context session_id m s id)
  unfolding with_snapshot
  with_snapshot-Rounded m s none = select_and_archive-Rounded s _
  with_snapshot-Rounded m s (some id) = resume-Rounded m s id _ _

  with_read-Rounded :
      (m : WorkingMemoryMeta) (x : ContextReadStatus) (s : Option WorkingMemorySnapshot)
      → Rounded (with_read services context session_id m x s)
  unfolding with_read
  with_read-Rounded m read_success (some s) = with_snapshot-Rounded m s _
  with_read-Rounded m read_success none = answers failed tt
  with_read-Rounded m read_session_not_found s = answers failed tt
  with_read-Rounded m read_invalid_session_state s = answers failed tt

  with_meta-Rounded :
      (m : Option WorkingMemoryMeta) → Rounded (with_meta services context session_id m)
  unfolding with_meta
  with_meta-Rounded none = answers failed tt
  with_meta-Rounded (some m) =
      calls _ _ by_read_context (λ r. with_read-Rounded m r.status r.snapshot)

  pub round-Rounded : Rounded (run_single_compression_round services context session_id)
  unfolding run_single_compression_round
  round-Rounded = calls _ _ by_get_meta (λ m. with_meta-Rounded m)
