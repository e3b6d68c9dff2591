-- ===== src/Consolidation/Write/Counts.antt =====
-- The counts that `write_batch` of src/memory_system/domain/services/consolidation_write_service.py
-- answers.
use memory_system.Shared.{
  ℕ, ◌+◌, ◌≡◌, ◌≤◌, ◌==◌, refl, sym, ap, String, Bool, true, false, not, List, length,
  if◌then◌else◌, arith,
}
use memory_system.Shared.Int.{ℤ}
use memory_system.Shared.Exec.{Exec, pure, ◌>>=◌}
use memory_system.Shared.Triples.{Runs, Runs-pure, Runs-raise, Runs-bind, Runs-if}
use memory_system.Consolidation.Double.{Double}
use memory_system.Consolidation.Write.{
  RunFault, value_error, ConsolidationWriteRow, ConsolidationWriteBatchRequest,
  ConsolidationWriteBatchResult, Partition, nothing_written, written, partition_rows,
  validate_write_request, write_partition, write_batch,
}
use memory_system.Consolidation.Write.Rows.{partition_rows-IsPartition, IsDivided-length}

-- Every row is counted once: as updated, as a version conflict or as invalid.
abbrev pub IsCounted :
    {W : Type 0} → ConsolidationWriteBatchRequest W → ConsolidationWriteBatchResult → Type 0
IsCounted request r =
    (r.input_count ≡ length request.rows)
    × (r.valid_count ≡ r.updated_count + r.version_conflict_count)
    × (r.input_count ≡ r.valid_count + length r.invalid_candidates)
    × (r.write_executed ≡ not (r.valid_count == 0))

module _ {W S : Type 0} (double : Double W)
    (write_importance_batch : String → ℤ → List (ConsolidationWriteRow W) → Exec S RunFault ℕ)
    (P : S → Type 0)
    (updates : (u : String) (t : ℤ) (rows : List (ConsolidationWriteRow W))
      → Runs P (λ n s. (n ≤ length rows) × P s) P (write_importance_batch u t rows)) where
  abbrev Counts :
      ConsolidationWriteBatchRequest W → Exec S RunFault ConsolidationWriteBatchResult → Type 0
  Counts request m = Runs P (λ r s. IsCounted request r × P s) P m

  partition-Counts :
      (request : ConsolidationWriteBatchRequest W) (p : Partition W)
      → length request.rows ≡ length p.valid_rows + length p.invalid_candidates
      → Counts request (write_partition double write_importance_batch request p)
  unfolding write_partition
  partition-Counts request p e = at (length p.valid_rows == 0) refl
    where
      at :
          (b : Bool)
          → (length p.valid_rows == 0) ≡ b
          → Counts request (
              if b
              then pure (nothing_written double request p.invalid_candidates)
              else write_importance_batch request.user_id request.evaluation_time p.valid_rows
                >>= λ n. pure (written double request p n))
      at true z = Runs-pure _ (λ s h. ((refl, omega arith, ground (arith, z, e), refl), h))
      at false z =
          Runs-bind (λ n s. (n ≤ length p.valid_rows) × P s) _ _ _ (updates _ _ p.valid_rows)
            (λ n. Runs-pure _ (λ s h. ((refl, omega (arith, h.0), e, sym (ap not z)), h.1)))

  -- What the repository answers being at most the rows it is given, and `P` being kept by it: a
  -- batch that is written answers counts in which every row of the request is counted once, as
  -- updated, as a version conflict or as invalid, and says whether anything was written; the batch
  -- keeps `P` too, whether it returns or raises.
  pub write_batch-IsCounted :
      (request : ConsolidationWriteBatchRequest W)
      → Runs P
          (λ r s. IsCounted request r × P s)
          P
          (write_batch double write_importance_batch request)
  unfolding write_batch validate_write_request
  write_batch-IsCounted request =
      Runs-bind (λ _. P) _ _ _
        (Runs-if _ _ _ (Runs-raise value_error (λ s h. h))
          (Runs-if _ _ _ (Runs-raise value_error (λ s h. h)) (Runs-pure true (λ s h. h))))
        (λ x.
          partition-Counts request (partition_rows double request.rows)
            (IsDivided-length double (partition_rows-IsPartition double request.rows).0))
