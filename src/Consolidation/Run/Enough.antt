-- ===== src/Consolidation/Run/Enough.antt =====
-- The loop over the batches of a user ends, so a run always returns.
use mathlib.Core.Path.{subst}
use memory_system.Shared.{
  ℕ, zero, suc, ◌≡◌, ◌≢◌, ◌<◌, ◌==◌, ◌⊎◌, inl, inr, refl, String, Bool, true, false, Option, none,
  List, [], ◌∷◌, length, arith, str_eq, if◌then◌else◌,
}
use memory_system.Shared.Int.{ℤ, is_negative}
use memory_system.Shared.Exec.{Result, ok, err, pure, raise, catch, on_error, continue, ◌>>=◌}
use memory_system.Shared.Triples.{finally}
use memory_system.Consolidation.Double.{Double}
use memory_system.Consolidation.Importance.{MemoryConsolidationSettings}
use memory_system.Consolidation.Write.{
  RunFault, read_error, write_error, value_error, unexpected, stuck, ConsolidationWriteRow,
  ConsolidationWriteBatchRequest, ConsolidationScoredCandidate, Partition, nothing_written, written,
  validate_write_request, write_partition, write_batch,
}
use memory_system.Consolidation.Batch.{
  ConsolidationBatchRequest, ConsolidationBatchResult, last_id, batch_result, batch_size_of,
  is_empty_cursor, validate_batch_request, process_validated, process_batch,
}
use memory_system.Consolidation.Run.{
  ConsolidationRunResult, Services, World, count, acquire_by, release, try_acquire, write_scored,
  user_loop, users_loop, run_body, fail_run, fail_unhandled, handle, held_run, acquired_run,
  execute_run,
}
use memory_system.Consolidation.Run.Logic.{
  OnResult, Settles, Settles-pure, Settles-raise, Settles-if, Settles-lift, Settles-bind,
  Settles-gets,
}

-- What the repositories document: their calls return or raise an exception, and a full batch leaves
-- fewer memories behind its last id than there were behind the cursor, as the query asks for ids
-- beyond the cursor, in ascending order.
pub record Progresses {W S : Type 0} (double : Double W) (settings : MemoryConsolidationSettings W)
    (services : Services W S) : Type 0 where
  pub behind : String → Option String → ℕ
  pub lists : (t : ℤ) → Settles (λ _. Unit) (services.list_user_ids t)
  pub writes :
      (u : String) (t : ℤ) (rows : List (ConsolidationWriteRow W))
      → Settles (λ _. Unit) (services.write_importance_batch u t rows)
  pub fetches :
      (u : String) (t : ℤ) (c : Option String)
      → Settles
          (λ rows.
            ((length rows == settings.batch_size) ≡ false)
            ⊎ (behind u (last_id double settings rows) < behind u c))
          (services.fetch_candidate_batch u t c settings.batch_size)

module _ {W S : Type 0} (double : Double W) (settings : MemoryConsolidationSettings W)
    (services : Services W S) (fuel : ℕ) (p : Progresses double settings services) where
  -- The batch is the last one, or fewer memories are left.
  abbrev Advances : String → Option String → ConsolidationBatchResult W → Type 0
  Advances user cursor b =
      (b.has_more ≡ false) ⊎ (p.behind user b.next_cursor < p.behind user cursor)

  value-ne-stuck : value_error ≢ stuck
  value-ne-stuck e = cc

  batch-Settles :
      (request : ConsolidationBatchRequest) (r : Result RunFault ℕ)
      → OnResult (λ n. settings.batch_size ≡ n) r
      → Settles
          (Advances request.user_id request.cursor)
          (process_validated double settings services.fetch_candidate_batch request r)
  unfolding process_validated batch_result
  batch-Settles request (err e) h = Settles-raise _ e h
  batch-Settles request (ok size) h =
      subst
        (λ n. Settles (Advances request.user_id request.cursor) (
          services.fetch_candidate_batch request.user_id request.evaluation_time request.cursor n
          >>= λ rows. pure (batch_result double settings request n rows)))
        h
        (Settles-bind _ _ _ _ (p.fetches request.user_id request.evaluation_time request.cursor)
          (λ rows q.
            Settles-pure _ (batch_result double settings request settings.batch_size rows) q))

  validate-Settles :
      (request : ConsolidationWriteBatchRequest W)
      → Settles (λ _. Unit) (validate_write_request double services.write_importance_batch request)
  unfolding validate_write_request
  validate-Settles request =
      Settles-if _ (str_eq request.user_id "") (raise value_error)
        (if is_negative request.evaluation_time then raise value_error else pure true)
        (λ _. Settles-raise _ value_error value-ne-stuck)
        (λ _.
          Settles-if _ (is_negative request.evaluation_time) (raise value_error) (pure true)
            (λ _. Settles-raise _ value_error value-ne-stuck) (λ _. Settles-pure _ true tt))

  partition-Settles :
      (request : ConsolidationWriteBatchRequest W) (q : Partition W)
      → Settles (λ _. Unit) (write_partition double services.write_importance_batch request q)
  unfolding write_partition
  partition-Settles request q =
      Settles-if _ (length q.valid_rows == 0)
        (pure (nothing_written double request q.invalid_candidates))
        (services.write_importance_batch request.user_id request.evaluation_time q.valid_rows
          >>= λ n. pure (written double request q n))
        (λ _. Settles-pure _ (nothing_written double request q.invalid_candidates) tt)
        (λ _.
          Settles-bind (λ _. Unit) _ _ _
            (p.writes request.user_id request.evaluation_time q.valid_rows)
            (λ n _. Settles-pure _ (written double request q n) tt))

  write_batch-Settles :
      (request : ConsolidationWriteBatchRequest W)
      → Settles (λ _. Unit) (write_batch double services.write_importance_batch request)
  unfolding write_batch
  write_batch-Settles request =
      Settles-bind (λ _. Unit) _ _ _ (validate-Settles request) (λ _ _. partition-Settles request _)

  write_scored-Settles :
      (user : String) (time : ℤ) (cs : List (ConsolidationScoredCandidate W))
      → Settles (λ _. Unit) (write_scored double settings services fuel user time cs)
  unfolding write_scored count
  write_scored-Settles user time [] = Settles-pure _ true tt
  write_scored-Settles user time (c ∷ cs) =
      Settles-bind (λ _. Unit) _ _ _ (Settles-lift _ _ _ (write_batch-Settles _))
        (λ r _. record { at = λ s. tt })

  default_size : OnResult (λ n. settings.batch_size ≡ n) (batch_size_of settings.batch_size none)
  unfolding batch_size_of
  default_size = refl

  or_value_error :
      (b : Bool) (r : Result RunFault ℕ)
      → OnResult (λ n. settings.batch_size ≡ n) r
      → OnResult (λ n. settings.batch_size ≡ n) (if b then err value_error else r)
  or_value_error true r h = value-ne-stuck
  or_value_error false r h = h

  validated :
      (user : String) (time : ℤ) (cursor : Option String)
      → OnResult
          (λ n. settings.batch_size ≡ n)
          (validate_batch_request
            (record { user_id = user; evaluation_time = time; cursor = cursor; batch_size = none })
            settings.batch_size)
  unfolding validate_batch_request
  validated user time cursor = or_value_error (is_negative time) _ (
      or_value_error (is_empty_cursor cursor) (batch_size_of settings.batch_size none) default_size)

  user_loop-Settles :
      (left : ℕ) (user : String) (time : ℤ) (cursor : Option String)
      → p.behind user cursor < left
      → Settles (λ _. Unit) (user_loop double settings services fuel left user time cursor)
  unfolding user_loop count process_batch
  user_loop-Settles zero user time cursor h = absurd (omega (arith, h))
  user_loop-Settles (suc left) user time cursor h =
      Settles-bind (Advances user cursor) _ _ _
        (Settles-lift _ _ _ (batch-Settles _ _ (validated user time cursor)))
        (λ b q.
          Settles-bind (λ _. Unit) _ _ _ (record { at = λ s. tt })
            (λ _ _.
              Settles-bind (λ _. Unit) _ _ _ (write_scored-Settles user time b.scored)
                (λ _ _.
                  Settles-if _ b.has_more _ _
                    (λ more. user_loop-Settles left user time b.next_cursor (behind_next b q more))
                    (λ _. Settles-pure _ true tt))))
    where
      behind_next :
          (b : ConsolidationBatchResult W)
          → Advances user cursor b
          → b.has_more ≡ true
          → p.behind user b.next_cursor < left
      behind_next b (inl e) more = absurd (cc)
      behind_next b (inr l) more = omega (arith, l, h)

  module _ (enough : (user : String) → p.behind user none < fuel) where
    users_loop-Settles :
        (time : ℤ) (users : List String)
        → Settles (λ _. Unit) (users_loop double settings services fuel time users)
    unfolding users_loop
    users_loop-Settles time [] = Settles-pure _ true tt
    users_loop-Settles time (user ∷ users) =
        Settles-bind (λ _. Unit) _ _ _ (user_loop-Settles fuel user time none (enough user))
          (λ _ _. users_loop-Settles time users)

    body-Settles :
        (id : String) (start : S) (time : ℤ)
        → Settles (λ _. Unit) (run_body double settings services fuel id start time)
    unfolding run_body
    body-Settles id start time =
        Settles-bind (λ _. Unit) _ _ _ (Settles-lift _ _ _ (p.lists time))
          (λ users _.
            Settles-bind (λ _. Unit) _ _ _ (users_loop-Settles time users)
              (λ _ _. Settles-gets _ _ (λ w. tt)))

    abbrev Answers : Result RunFault ConsolidationRunResult → Type 0
    Answers r = (x : ConsolidationRunResult) × (r ≡ ok x)

    failing-Answers :
        (id : String) (start : S) (time : ℤ) (phase : Bool) (w : World S)
        → Answers (fail_unhandled double settings services fuel id start time phase w).0
    unfolding fail_unhandled fail_run
    failing-Answers id start time true w = (_, refl)
    failing-Answers id start time false w = (_, refl)

    -- Every exception is reported.
    handle-Answers :
        (id : String) (start : S) (time : ℤ) (e : RunFault) (w : World S)
        → e ≢ stuck
        → Answers (handle double settings services fuel id start time e w).0
    unfolding handle fail_run ◌>>=◌
    handle-Answers id start time read_error w h = (_, refl)
    handle-Answers id start time write_error w h = (_, refl)
    handle-Answers id start time stuck w h = absurd (h refl)
    handle-Answers id start time value_error w h = failing-Answers id start time _ w
    handle-Answers id start time unexpected w h = failing-Answers id start time _ w

    caught-Answers :
        (id : String) (start : S) (time : ℤ) (r : Result RunFault ConsolidationRunResult)
        (w : World S)
        → OnResult (λ _. Unit) r
        → Answers (on_error (handle double settings services fuel id start time) r w).0
    caught-Answers id start time (ok x) w h = (x, refl)
    caught-Answers id start time (err e) w h = handle-Answers id start time e w h

    held_run-Answers :
        (id : String) (start : S) (time : ℤ) (w : World S)
        → Answers (held_run double settings services fuel time id start w).0
    unfolding held_run finally catch release ◌>>=◌ count
    held_run-Answers id start time w =
        caught-Answers id start time _ _ ((body-Settles id start time).at _)

    acquired-Answers :
        (time : ℤ) (got : Bool) (w : World S)
        → Answers (acquired_run double settings services fuel time got w).0
    unfolding acquired_run ◌>>=◌
    acquired-Answers time false w = (_, refl)
    acquired-Answers time true w = held_run-Answers _ _ time w

    -- If the calls of the repositories end, every full batch leaves fewer memories behind its last id,
    -- and the fuel exceeds the memories of each user, then a run always returns a result, whatever
    -- the calls answer or raise.
    pub execute_run-returns :
        (time : ℤ) (w : World S)
        → (r : ConsolidationRunResult) × ((execute_run double settings services fuel time w).0
            ≡ ok r)
    unfolding execute_run try_acquire ◌>>=◌
    execute_run-returns time w = at w.mutex.held
      where
        at :
            (b : Bool)
            → Answers
                (continue
                  (acquired_run double settings services fuel time)
                  (acquire_by b w).0
                  (acquire_by b w).1).0
        at true = acquired-Answers time false _
        at false = acquired-Answers time true _
