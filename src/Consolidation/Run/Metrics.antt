-- ===== src/Consolidation/Run/Metrics.antt =====
-- The counters of a run, after every step of it.
use mathlib.Core.Path.{subst}
use memory_system.Shared.{
  ℕ, zero, suc, ◌+◌, ◌≡◌, ◌≤◌, refl, ap, String, true, Option, none, List, [], ◌∷◌, map, length,
  arith,
}
use memory_system.Shared.Int.{ℤ}
use memory_system.Shared.Exec.{Result, ok, err}
use memory_system.Shared.Triples.{
  Runs, Runs-pure, Runs-raise, Runs-bind, Runs-if, Runs-weaken, Runs-raised, any,
}
use memory_system.Consolidation.Double.{Double}
use memory_system.Consolidation.Importance.{MemoryConsolidationSettings}
use memory_system.Consolidation.Write.{
  RunFault, stuck, ConsolidationScoredCandidate, ConsolidationWriteRow,
  ConsolidationWriteBatchResult, ConsolidationWriteBatchRequest, write_row,
  scored_candidates_to_write_rows,
}
use memory_system.Consolidation.Write.Counts.{IsCounted, write_batch-IsCounted}
use memory_system.Consolidation.Batch.{
  BatchSkipReason, no_evidence, invalid_memory_state, ConsolidationSkippedCandidate,
  ConsolidationBatchRequest, ConsolidationBatchResult, process_batch, process_validated,
  batch_result,
}
use memory_system.Consolidation.Batch.Accounts.{process_rows-IsSorted, IsSorted-length}
use memory_system.Consolidation.Run.{
  Services, World, Counters, ConsolidationMutex, count_invalid, count_missing, one_if_invalid,
  one_if_missing, batch_counted, write_counted, count, write_scored, user_loop, users_loop,
}
use memory_system.Consolidation.Run.Logic.{IsStable, lift-Runs}

-- Every memory is counted at most once, as updated, as a version conflict, as invalid or as without
-- evidence; `n` memories are still to be counted.
abbrev pub IsBalanced : ℕ → Counters → Type 0
IsBalanced n c = c.updated + c.version_conflict + c.invalid_memory + c.missing + n ≤ c.scanned

reason_counts :
    (r : BatchSkipReason) (m n k : ℕ)
    → m + n ≡ k
    → (one_if_invalid r + m) + (one_if_missing r + n) ≡ suc k
reason_counts invalid_memory_state m n k e = omega (arith, e)
reason_counts no_evidence m n k e = omega (arith, e)

skipped_counts :
    (cs : List ConsolidationSkippedCandidate) → count_invalid cs + count_missing cs ≡ length cs
skipped_counts [] = omega arith
skipped_counts (c ∷ cs) = reason_counts c.reason _ _ _ (skipped_counts cs)

length-map : {A B : Type 0} (f : A → B) (xs : List A) → length (map f xs) ≡ length xs
length-map f [] = refl
length-map f (x ∷ xs) = ap suc (length-map f xs)

module _ {W S : Type 0} (double : Double W) (settings : MemoryConsolidationSettings W)
    (services : Services W S) (fuel : ℕ)
    (updates : (u : String) (t : ℤ) (rows : List (ConsolidationWriteRow W))
      → Runs
          (λ _. Unit)
          (λ n _. n ≤ length rows)
          (λ _. Unit)
          (services.write_importance_batch u t rows))
    (M : ConsolidationMutex → ℕ → Type 0) (stable : IsStable M) where
  -- What holds of the world between two steps.
  abbrev pub Balanced : ℕ → World S → Type 0
  Balanced n w = IsBalanced n w.counters × M w.mutex w.arrived

  batch-Accounts :
      (request : ConsolidationBatchRequest) (r : Result RunFault ℕ)
      → Runs
          (λ _. Unit)
          (λ b _. b.memories_returned ≡ length b.scored + length b.skipped)
          (λ _. Unit)
          (process_validated double settings services.fetch_candidate_batch request r)
  unfolding process_validated batch_result
  batch-Accounts request (err e) = Runs-raise e (λ s h. tt)
  batch-Accounts request (ok size) =
      Runs-bind (λ _ _. Unit) _ _ _ (any _)
        (λ rows. Runs-pure (batch_result double settings request size rows) (λ s h.
          IsSorted-length double settings request.evaluation_time
            (process_rows-IsSorted double settings request.evaluation_time rows)))

  -- A batch is counted: its scored memories are still to be counted.
  counted_batch :
      (b : ConsolidationBatchResult W) (c : Counters)
      → b.memories_returned ≡ length b.scored + length b.skipped
      → IsBalanced 0 c
      → IsBalanced (length b.scored) (batch_counted b c)
  counted_batch b c e h = omega (arith, e, h, skipped_counts b.skipped)

  counted_write :
      (n : ℕ) (r : ConsolidationWriteBatchResult) (c : Counters)
      → r.updated_count + r.version_conflict_count ≤ n
      → IsBalanced n c
      → IsBalanced 0 (write_counted r c)
  counted_write n r c e h = omega (arith, e, h)

  written-AtMost :
      (request : ConsolidationWriteBatchRequest W) (r : ConsolidationWriteBatchResult)
      → IsCounted request r
      → r.updated_count + r.version_conflict_count ≤ length request.rows
  written-AtMost request r (i, v, n, x) = omega (arith, i, v, n)

  abbrev request_of :
      String → ℤ → List (ConsolidationScoredCandidate W) → ConsolidationWriteBatchRequest W
  request_of user time cs = record {
    user_id = user;
    evaluation_time = time;
    rows = map (write_row double) cs;
  }

  write_scored-Balanced :
      (user : String) (time : ℤ) (cs : List (ConsolidationScoredCandidate W))
      → Runs
          (Balanced (length cs))
          (λ _. Balanced 0)
          (Balanced 0)
          (write_scored double settings services fuel user time cs)
  unfolding write_scored scored_candidates_to_write_rows count
  write_scored-Balanced user time [] = Runs-pure true (λ s h. h)
  write_scored-Balanced user time (c ∷ cs) =
      Runs-raised (λ s h. (omega (arith, h.0), h.1))
        (Runs-bind
          (λ r s. IsCounted (request_of user time (c ∷ cs)) r × Balanced (length (c ∷ cs)) s) _ _ _
          (Runs-weaken (λ r s h. (h.0.0, h.1))
            (lift-Runs (λ r. IsCounted (request_of user time (c ∷ cs)) r × Unit)
              (IsBalanced (length (c ∷ cs))) M stable services.triggers _
              (write_batch-IsCounted double services.write_importance_batch (λ _. Unit)
                (λ u t rows. Runs-weaken (λ n s h. (h, tt)) (updates u t rows))
                (request_of user time (c ∷ cs)))))
          (λ r. record {
            at = λ s h. (
              counted_write (length (c ∷ cs)) r s.counters
                  (subst (λ k. r.updated_count + r.version_conflict_count ≤ k)
                    (length-map (write_row double) (c ∷ cs))
                    (written-AtMost (request_of user time (c ∷ cs)) r h.0))
                  h.1.0,
              h.1.1,
            );
          }))

  user_loop-Balanced :
      (left : ℕ) (user : String) (time : ℤ) (cursor : Option String)
      → Runs
          (Balanced 0)
          (λ _. Balanced 0)
          (Balanced 0)
          (user_loop double settings services fuel left user time cursor)
  unfolding user_loop count process_batch
  user_loop-Balanced zero user time cursor = Runs-raise stuck (λ s h. h)
  user_loop-Balanced (suc left) user time cursor =
      Runs-bind (λ b s. (b.memories_returned ≡ length b.scored + length b.skipped) × Balanced 0 s) _
        _ _
        (lift-Runs (λ b. b.memories_returned ≡ length b.scored + length b.skipped) (IsBalanced 0) M
          stable services.triggers _ (batch-Accounts _ _))
        (λ b.
          Runs-bind (λ _. Balanced (length b.scored)) _ _ _
            (record { at = λ s h. (counted_batch b s.counters h.0 h.1.0, h.1.1) })
            (λ _.
              Runs-bind (λ _. Balanced 0) _ _ _ (write_scored-Balanced user time b.scored)
                (λ _.
                  Runs-if b.has_more _ _ (user_loop-Balanced left user time b.next_cursor)
                    (Runs-pure true (λ s h. h)))))

  pub users_loop-Balanced :
      (time : ℤ) (users : List String)
      → Runs
          (Balanced 0)
          (λ _. Balanced 0)
          (Balanced 0)
          (users_loop double settings services fuel time users)
  unfolding users_loop
  users_loop-Balanced time [] = Runs-pure true (λ s h. h)
  users_loop-Balanced time (user ∷ users) =
      Runs-bind (λ _. Balanced 0) _ _ _ (user_loop-Balanced fuel user time none)
        (λ _. users_loop-Balanced time users)
