-- ===== src/Consolidation/Run/Ends.antt =====
-- How `execute_run` ends: its result, its counts and its mutex.
use mathlib.Core.Path.{subst}
use memory_system.Shared.{
  ℕ, ◌+◌, ◌≡◌, ◌≤◌, ◌<◌, ◌⊎◌, inl, inr, refl, sym, String, Bool, true, false, Option, none, some,
  List, length, arith, Bool-cases,
}
use memory_system.Shared.Int.{ℤ}
use memory_system.Shared.Exec.{Result, ok, err, ◌>>=◌}
use memory_system.Shared.Triples.{
  Runs, OnEnd, Runs-raise, Runs-gets, Runs-bind, Runs-catch, Runs-finally, Runs-weaken, any,
}
use memory_system.Consolidation.Double.{Double}
use memory_system.Consolidation.Importance.{MemoryConsolidationSettings}
use memory_system.Consolidation.Write.{
  RunFault, read_error, write_error, value_error, unexpected, stuck, ConsolidationWriteRow,
}
use memory_system.Consolidation.Run.{
  ConsolidationRunStatus, run_success, read_failed, write_failed, skipped, ConsolidationRunMetrics,
  ConsolidationRunResult, Services, World, ConsolidationMutex, set_mutex, count, try_acquire,
  release, skipped_result, run_body, fail_run, fail_unhandled, handle, held_run, acquired_run,
  execute_run,
}
use memory_system.Consolidation.Run.Logic.{IsStable, lift-Runs}
use memory_system.Consolidation.Run.Enough.{Progresses, execute_run-returns}
use memory_system.Consolidation.Run.Metrics.{IsBalanced, users_loop-Balanced}

-- The mutex, held or not, since `n` triggers were skipped and `a` had arrived: each trigger that has
-- arrived since is a skipped one.
abbrev pub IsMutex : Bool → ℕ → ℕ → ConsolidationMutex → ℕ → Type 0
IsMutex held a n m arrived = (m.held ≡ held) × (m.skipped_trigger_count + a ≡ n + arrived)

refused-IsStable : (a n : ℕ) → IsStable (IsMutex true a n)
refused-IsStable a n m k (e, c) = (e, (refl, omega (arith, c)))

-- The memories that are written, in conflict, invalid or without evidence are scanned ones.
abbrev pub IsSound : ConsolidationRunMetrics → Type 0
IsSound m =
    m.updated_count + m.version_conflict_count + m.invalid_memory_count + m.missing_evidence_count
    ≤ m.scanned_count

abbrev pub HasCode : ConsolidationRunStatus → Option String → Type 0
HasCode run_success code = code ≡ none
HasCode read_failed code = code ≡ some "consolidation_read_failed"
HasCode write_failed code = code ≡ some "consolidation_write_failed"
HasCode skipped code = ⊥

-- The result of a run that took place.
abbrev pub IsReport : String → ℤ → ConsolidationRunResult → Type 0
IsReport id time r =
    (r.run_id ≡ some id)
    × (r.evaluation_time ≡ time)
    × HasCode r.status r.error_code
    × IsSound r.metrics

module _ {W S : Type 0} (double : Double W) (settings : MemoryConsolidationSettings W)
    (services : Services W S) (fuel : ℕ)
    (updates : (u : String) (t : ℤ) (rows : List (ConsolidationWriteRow W))
      → Runs
          (λ _. Unit)
          (λ n _. n ≤ length rows)
          (λ _. Unit)
          (services.write_importance_batch u t rows))
    (a n : ℕ) where
  abbrev Held : World S → Type 0
  Held w = IsBalanced 0 w.counters × IsMutex true a n w.mutex w.arrived

  abbrev Reports : String → ℤ → ConsolidationRunResult → World S → Type 0
  Reports id time r w = IsReport id time r × Held w

  body-Reports :
      (id : String) (start : S) (time : ℤ)
      → Runs Held (Reports id time) Held (run_body double settings services fuel id start time)
  unfolding run_body
  body-Reports id start time =
      Runs-bind (λ _. Held) _ _ _
        (Runs-weaken (λ a s h. h.1)
          (lift-Runs (λ _. Unit) (IsBalanced 0) (IsMutex true a n) (refused-IsStable a n)
            services.triggers _ (any _)))
        (λ users.
          Runs-bind (λ _. Held) _ _ _
            (users_loop-Balanced double settings services fuel updates (IsMutex true a n)
              (refused-IsStable a n) time users)
            (λ _. Runs-gets _ (λ w h. ((refl, refl, refl, omega (arith, h.0)), h))))

  fail-Reports :
      (id : String) (start : S) (time : ℤ) (status : ConsolidationRunStatus) (code : String)
      → HasCode status (some code)
      → Runs Held
          (Reports id time)
          Held
          (fail_run double settings services fuel id start time status code)
  unfolding fail_run
  fail-Reports id start time status code c =
      Runs-gets _ (λ w h. ((refl, refl, c, omega (arith, h.0)), h))

  unhandled-Reports :
      (id : String) (start : S) (time : ℤ) (phase : Bool)
      → Runs Held
          (Reports id time)
          Held
          (fail_unhandled double settings services fuel id start time phase)
  unfolding fail_unhandled
  unhandled-Reports id start time true = fail-Reports id start time write_failed _ refl
  unhandled-Reports id start time false = fail-Reports id start time read_failed _ refl

  handle-Reports :
      (id : String) (start : S) (time : ℤ) (e : RunFault)
      → Runs Held (Reports id time) Held (handle double settings services fuel id start time e)
  unfolding handle fail_unhandled
  handle-Reports id start time read_error = unhandled-Reports id start time false
  handle-Reports id start time write_error = unhandled-Reports id start time true
  handle-Reports id start time stuck = Runs-raise stuck (λ s h. h)
  handle-Reports id start time value_error =
      Runs-bind (λ _. Held) _ _ _ (Runs-gets _ (λ s h. h)) (unhandled-Reports id start time)
  handle-Reports id start time unexpected =
      Runs-bind (λ _. Held) _ _ _ (Runs-gets _ (λ s h. h)) (unhandled-Reports id start time)

  held_run-Reports :
      (id : String) (start : S) (time : ℤ)
      → Runs
          (λ w. IsMutex true a n w.mutex w.arrived)
          (λ r w. IsReport id time r × IsMutex false a n w.mutex w.arrived)
          (λ w. IsMutex false a n w.mutex w.arrived)
          (held_run double settings services fuel time id start)
  unfolding held_run count release
  held_run-Reports id start time =
      Runs-bind (λ _. Held) _ _ _ (record { at = λ w h. (omega arith, h) })
        (λ _.
          Runs-finally (Reports id time) _ (λ w. IsMutex false a n w.mutex w.arrived) _ _
            (Runs-catch Held _ _ (body-Reports id start time) (handle-Reports id start time))
            (λ a. record { at = λ w h. (h.0, (refl, h.1.1.1)) })
            (record { at = λ w h. (refl, h.1.1) }))

-- What a run leaves: a skipped run changes nothing but the count of skipped triggers; any other one
-- returns a report under its own id, gives the mutex back, and has refused each trigger that arrived
-- in the meantime.
abbrev pub IsEnd :
    {S : Type 0}
    → (S → String)
    → ℤ
    → World S
    → Result RunFault ConsolidationRunResult × World S
    → Type 0
IsEnd uuid time w (r, w') =
    ((w.mutex.held ≡ true)
      × (r ≡ ok (skipped_result time))
      × (w'.outside ≡ w.outside)
      × (w'.arrived ≡ w.arrived)
      × (w'.mutex.held ≡ true)
      × (w'.mutex.skipped_trigger_count ≡ w.mutex.skipped_trigger_count + 1))
    ⊎ ((w.mutex.held ≡ false)
        × ((x : ConsolidationRunResult) × (r ≡ ok x) × IsReport (uuid w.outside) time x)
        × (w'.mutex.held ≡ false)
        × (w'.mutex.skipped_trigger_count + w.arrived ≡ w.mutex.skipped_trigger_count + w'.arrived))

module _ {W S : Type 0} (double : Double W) (settings : MemoryConsolidationSettings W)
    (services : Services W S) (fuel : ℕ)
    (updates : (u : String) (t : ℤ) (rows : List (ConsolidationWriteRow W))
      → Runs
          (λ _. Unit)
          (λ n _. n ≤ length rows)
          (λ _. Unit)
          (services.write_importance_batch u t rows))
    (p : Progresses double settings services)
    (enough : (user : String) → p.behind user none < fuel) where
  skipped_run :
      (time : ℤ) (w : World S)
      → w.mutex.held ≡ true
      → execute_run double settings services fuel time w
        ≡ (ok (skipped_result time), set_mutex true (w.mutex.skipped_trigger_count + 1) w)
  unfolding execute_run acquired_run ◌>>=◌ try_acquire
  skipped_run time w e = rw e

  taken_run :
      (time : ℤ) (w : World S)
      → w.mutex.held ≡ false
      → execute_run double settings services fuel time w
        ≡ held_run double settings services fuel time
            (services.uuid w.outside)
            w.outside
            (set_mutex true w.mutex.skipped_trigger_count w)
  unfolding execute_run acquired_run ◌>>=◌ try_acquire
  taken_run time w e = rw e

  returned-IsEnd :
      (time : ℤ) (w w' : World S) (r : Result RunFault ConsolidationRunResult)
      → w.mutex.held ≡ false
      → (x : ConsolidationRunResult) × (r ≡ ok x)
      → OnEnd
          (λ x v.
            IsReport (services.uuid w.outside) time x
            × IsMutex false w.arrived w.mutex.skipped_trigger_count v.mutex v.arrived)
          (λ v. IsMutex false w.arrived w.mutex.skipped_trigger_count v.mutex v.arrived)
          r
          w'
      → IsEnd services.uuid time w (r, w')
  returned-IsEnd time w w' (ok x) e answer (h, m) = inr (e, (x, refl, h), m.0, m.1)
  returned-IsEnd time w w' (err f) e (x, g) m = absurd (cc)

  execute-cases :
      (time : ℤ) (w : World S)
      → (w.mutex.held ≡ true) ⊎ (w.mutex.held ≡ false)
      → IsEnd services.uuid time w (execute_run double settings services fuel time w)
  execute-cases time w (inl e) =
      subst (IsEnd services.uuid time w) (sym (skipped_run time w e))
        (inl (e, refl, refl, refl, refl, refl))
  execute-cases time w (inr e) =
      let n = w.mutex.skipped_trigger_count in
      let start = set_mutex true n w in
      let id = services.uuid w.outside in
      let taken = taken_run time w e in
      subst (IsEnd services.uuid time w) (sym taken) (
        returned-IsEnd time w _ _ e
          (subst (λ y. (x : ConsolidationRunResult) × (y.0 ≡ ok x)) taken
            (execute_run-returns double settings services fuel p enough time w))
          ((held_run-Reports double settings services fuel updates w.arrived n id w.outside time).at
            start (refl, refl)))

  -- If the repository answers at most as many updated rows as it is given, its calls end, every full
  -- batch leaves fewer memories behind its last id, and the fuel exceeds the memories of each user,
  -- then every call of the run returns a result. When another run holds the mutex, the result says
  -- that it was skipped, with no counts, the outside is not called, the mutex stays held, and the
  -- count of skipped triggers is one higher. Otherwise the result has the run's own id and time, an
  -- error code that fits its status, and counts whose updates, conflicts, invalid memories and
  -- memories without evidence are together at most the scanned memories; the mutex is free
  -- afterwards, and the count of skipped triggers has grown by the triggers that arrived during the
  -- calls of the run.
  pub execute_run-IsEnd :
      (time : ℤ) (w : World S)
      → IsEnd services.uuid time w (execute_run double settings services fuel time w)
  execute_run-IsEnd time w = execute-cases time w (Bool-cases w.mutex.held)
