-- ===== src/Consolidation/Run.antt =====
-- src/memory_system/domain/services/consolidation_run_service.py with its mutex,
-- src/memory_system/infrastructure/consolidation_mutex.py: one run over all users. The repositories,
-- the uuid generator and the monotonic clock are a parameter; logs and Prometheus counters are left
-- out. The triggers of further runs that arrive during an awaited call are a parameter too, and each
-- tries to acquire the mutex. A user's loop over the batches runs on fuel.
pub mod Logic
pub mod Metrics
pub mod Ends
pub mod Enough
use memory_system.Shared.{
  ℕ, zero, suc, ◌+◌, String, Bool, true, false, Option, none, some, List, [], ◌∷◌, if◌then◌else◌,
}
use memory_system.Shared.Int.{ℤ}
use memory_system.Shared.Exec.{Result, ok, err, Exec, pure, raise, gets, catch, ◌>>=◌, ◌>>◌}
use memory_system.Shared.Triples.{finally}
use memory_system.Consolidation.Double.{Double}
use memory_system.Consolidation.Importance.{MemoryConsolidationSettings}
use memory_system.Consolidation.Write.{
  RunFault, read_error, write_error, value_error, unexpected, stuck, ConsolidationScoredCandidate,
  ConsolidationWriteRow, ConsolidationWriteBatchResult, scored_candidates_to_write_rows,
  write_batch,
}
use memory_system.Consolidation.Batch.{
  BatchSkipReason, no_evidence, invalid_memory_state, ConsolidationSkippedCandidate,
  ConsolidationMemoryRow, ConsolidationBatchResult, process_batch,
}

pub data ConsolidationRunStatus : Type 0 where
  run_success read_failed write_failed skipped : ConsolidationRunStatus

pub record ConsolidationRunMetrics : Type 0 where
  pub scanned_count : ℕ
  pub updated_count : ℕ
  pub version_conflict_count : ℕ
  pub invalid_memory_count : ℕ
  pub missing_evidence_count : ℕ
  pub batch_count : ℕ
  pub run_duration_ms : ℕ

pub record ConsolidationRunResult : Type 0 where
  pub run_id : Option String
  pub evaluation_time : ℤ
  pub status : ConsolidationRunStatus
  pub metrics : ConsolidationRunMetrics
  pub error_code : Option String

-- The outside of a run, over a state of its own.
pub record Services (W S : Type 0) : Type 0 where
  pub list_user_ids : ℤ → Exec S RunFault (List String)
  pub fetch_candidate_batch :
      String → ℤ → Option String → ℕ → Exec S RunFault (List (ConsolidationMemoryRow W))
  pub write_importance_batch : String → ℤ → List (ConsolidationWriteRow W) → Exec S RunFault ℕ
  pub uuid : S → String
  -- The triggers of further runs that arrive during the call that ends so.
  pub triggers : S → ℕ
  -- int((end - start) * 1000)
  pub duration_ms : S → S → ℕ

pub record ConsolidationMutex : Type 0 where
  pub held : Bool
  pub skipped_trigger_count : ℕ

-- The local variables of a run; its duration is measured at the end.
pub record Counters : Type 0 where
  pub scanned : ℕ
  pub updated : ℕ
  pub version_conflict : ℕ
  pub invalid_memory : ℕ
  pub missing : ℕ
  pub batches : ℕ
  pub in_write_phase : Bool

pub record World (S : Type 0) : Type 0 where
  pub outside : S
  pub mutex : ConsolidationMutex
  pub counters : Counters
  -- The triggers that have arrived during the calls of a run; no field of the source.
  pub arrived : ℕ

abbrev pub no_counts : Counters
no_counts = record {
  scanned = 0;
  updated = 0;
  version_conflict = 0;
  invalid_memory = 0;
  missing = 0;
  batches = 0;
  in_write_phase = false;
}

abbrev pub metrics_of : Counters → ℕ → ConsolidationRunMetrics
metrics_of c ms = record {
  scanned_count = c.scanned;
  updated_count = c.updated;
  version_conflict_count = c.version_conflict;
  invalid_memory_count = c.invalid_memory;
  missing_evidence_count = c.missing;
  batch_count = c.batches;
  run_duration_ms = ms;
}

abbrev pub one_if_invalid : BatchSkipReason → ℕ
one_if_invalid invalid_memory_state = 1
one_if_invalid no_evidence = 0

abbrev pub one_if_missing : BatchSkipReason → ℕ
one_if_missing invalid_memory_state = 0
one_if_missing no_evidence = 1

abbrev pub count_invalid : List ConsolidationSkippedCandidate → ℕ
count_invalid [] = 0
count_invalid (c ∷ cs) = one_if_invalid c.reason + count_invalid cs

abbrev pub count_missing : List ConsolidationSkippedCandidate → ℕ
count_missing [] = 0
count_missing (c ∷ cs) = one_if_missing c.reason + count_missing cs

abbrev pub batch_counted : {W : Type 0} → ConsolidationBatchResult W → Counters → Counters
batch_counted b c = record {
  scanned = c.scanned + b.memories_returned;
  updated = c.updated;
  version_conflict = c.version_conflict;
  invalid_memory = c.invalid_memory + count_invalid b.skipped;
  missing = c.missing + count_missing b.skipped;
  batches = c.batches + 1;
  in_write_phase = c.in_write_phase;
}

abbrev pub write_counted : ConsolidationWriteBatchResult → Counters → Counters
write_counted r c = record {
  scanned = c.scanned;
  updated = c.updated + r.updated_count;
  version_conflict = c.version_conflict + r.version_conflict_count;
  invalid_memory = c.invalid_memory;
  missing = c.missing;
  batches = c.batches;
  in_write_phase = true;
}

module _ {S : Type 0} where
  unfoldable pub count : (Counters → Counters) → Exec (World S) RunFault Bool
  count f w = (ok true, record w { counters = f w.counters })

  abbrev pub set_mutex : Bool → ℕ → World S → World S
  set_mutex held n w = record w { mutex = record { held = held; skipped_trigger_count = n } }

  abbrev pub acquire_by : Bool → Exec (World S) RunFault Bool
  acquire_by true w = (ok false, set_mutex true (w.mutex.skipped_trigger_count + 1) w)
  acquire_by false w = (ok true, set_mutex true w.mutex.skipped_trigger_count w)

  unfoldable pub try_acquire : Exec (World S) RunFault Bool
  try_acquire w = acquire_by w.mutex.held w

  -- Further triggers, each of which tries to acquire the mutex.
  abbrev pub arrive : ℕ → World S → World S
  arrive zero w = w
  arrive (suc n) w = arrive n (record (acquire_by w.mutex.held w).1 { arrived = w.arrived + 1 })

  abbrev pub lifted :
      {A : Type 0} → (S → ℕ) → World S → Result RunFault A × S → Result RunFault A × World S
  lifted triggers w (r, s) = (r, arrive (triggers s) (record w { outside = s }))

  -- An awaited call to the outside, during which triggers arrive.
  unfoldable pub lift : {A : Type 0} → (S → ℕ) → Exec S RunFault A → Exec (World S) RunFault A
  lift triggers m w = lifted triggers w (m w.outside)

  unfoldable pub release : Exec (World S) RunFault Bool
  release w = (ok true, set_mutex false w.mutex.skipped_trigger_count w)

abbrev pub skipped_result : ℤ → ConsolidationRunResult
skipped_result time = record {
  run_id = none;
  evaluation_time = time;
  status = skipped;
  metrics = metrics_of no_counts 0;
  error_code = some "consolidation_already_running";
}

abbrev pub failed_result :
    String → ℤ → ConsolidationRunStatus → String → ConsolidationRunMetrics → ConsolidationRunResult
failed_result id time status code metrics = record {
  run_id = some id;
  evaluation_time = time;
  status = status;
  metrics = metrics;
  error_code = some code;
}

abbrev pub successful_result : String → ℤ → ConsolidationRunMetrics → ConsolidationRunResult
successful_result id time metrics = record {
  run_id = some id;
  evaluation_time = time;
  status = run_success;
  metrics = metrics;
  error_code = none;
}

module _ {W S : Type 0} (double : Double W) (settings : MemoryConsolidationSettings W)
    (services : Services W S) (fuel : ℕ) where
  unfoldable pub write_scored :
      String → ℤ → List (ConsolidationScoredCandidate W) → Exec (World S) RunFault Bool
  write_scored user time [] = pure true
  write_scored user time (c ∷ cs) =
      lift services.triggers (
        write_batch double services.write_importance_batch (record {
          user_id = user;
          evaluation_time = time;
          rows = scored_candidates_to_write_rows double (c ∷ cs);
        }))
      >>= λ r. count (write_counted r)

  -- The batches of one user, from a cursor.
  unfoldable pub user_loop : ℕ → String → ℤ → Option String → Exec (World S) RunFault Bool
  user_loop zero user time cursor = raise stuck
  user_loop (suc left) user time cursor =
      lift services.triggers (
        process_batch double settings services.fetch_candidate_batch
          (record { user_id = user; evaluation_time = time; cursor = cursor; batch_size = none }))
      >>= λ b. count (batch_counted b) >>= λ _. write_scored user time b.scored >>= λ _.
          if b.has_more then user_loop left user time b.next_cursor else pure true

  unfoldable pub users_loop : ℤ → List String → Exec (World S) RunFault Bool
  users_loop time [] = pure true
  users_loop time (user ∷ users) = user_loop fuel user time none >>= λ _. users_loop time users

  unfoldable pub run_body : String → S → ℤ → Exec (World S) RunFault ConsolidationRunResult
  run_body id start time = lift services.triggers (services.list_user_ids time) >>= λ users.
      users_loop time users >>= λ _.
      gets λ w.
        successful_result id time (metrics_of w.counters (services.duration_ms start w.outside))

  unfoldable pub fail_run :
      String
      → S
      → ℤ
      → ConsolidationRunStatus
      → String
      → Exec (World S) RunFault ConsolidationRunResult
  fail_run id start time status code = gets λ w.
      failed_result id time status code
        (metrics_of w.counters (services.duration_ms start w.outside))

  -- Any other exception is filed by the phase.
  unfoldable pub fail_unhandled :
      String → S → ℤ → Bool → Exec (World S) RunFault ConsolidationRunResult
  fail_unhandled id start time true =
      fail_run id start time write_failed "consolidation_write_failed"
  fail_unhandled id start time false =
      fail_run id start time read_failed "consolidation_read_failed"

  unfoldable pub handle : String → S → ℤ → RunFault → Exec (World S) RunFault ConsolidationRunResult
  handle id start time read_error = fail_run id start time read_failed "consolidation_read_failed"
  handle id start time write_error =
      fail_run id start time write_failed "consolidation_write_failed"
  handle id start time stuck = raise stuck
  handle id start time e =
      gets (λ w. w.counters.in_write_phase) >>= λ phase. fail_unhandled id start time phase

  unfoldable pub held_run : ℤ → String → S → Exec (World S) RunFault ConsolidationRunResult
  held_run time id start = count (λ c. no_counts) >>= λ _.
      finally (catch (run_body id start time) (handle id start time)) release

  unfoldable pub acquired_run : ℤ → Bool → Exec (World S) RunFault ConsolidationRunResult
  acquired_run time false = pure (skipped_result time)
  acquired_run time true =
      gets (λ w. w.outside) >>= λ start. held_run time (services.uuid start) start

  unfoldable pub execute_run : ℤ → Exec (World S) RunFault ConsolidationRunResult
  execute_run time = try_acquire >>= λ got. acquired_run time got
