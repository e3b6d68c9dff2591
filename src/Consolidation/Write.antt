-- ===== src/Consolidation/Write.antt =====
-- src/memory_system/domain/services/consolidation_write_service.py: the writing of one batch of
-- importances under optimistic locks.
pub mod Rows
pub mod Counts
use memory_system.Shared.{
  ℕ, zero, suc, ◌-◌, ◌==◌, String, Bool, true, false, not, ◌||◌, ◌&&◌, List, [], ◌∷◌, map, length,
  if◌then◌else◌, str_eq, contains,
}
use memory_system.Shared.Int.{ℤ, pos, negsuc, is_negative}
use memory_system.Shared.Exec.{Exec, pure, raise, ◌>>=◌, ◌>>◌}
use memory_system.Consolidation.Double.{Double}

-- `ConsolidationReadError`, `ConsolidationWriteError`, `ValueError` and any other exception. `stuck`
-- is no exception: it stands for a loop that has not ended within its fuel.
pub data RunFault : Type 0 where
  read_error write_error value_error unexpected stuck : RunFault

pub record ConsolidationScoredCandidate (W : Type 0) : Type 0 where
  pub memory_id : String
  pub new_importance : W
  pub memory_version : ℤ

pub record ConsolidationWriteRow (W : Type 0) : Type 0 where
  pub memory_id : String
  pub new_importance : W
  pub expected_memory_version : ℤ

pub record ConsolidationWriteBatchRequest (W : Type 0) : Type 0 where
  pub user_id : String
  pub evaluation_time : ℤ
  pub rows : List (ConsolidationWriteRow W)

-- The reason is always "invalid_candidate".
pub record ConsolidationInvalidWriteCandidate : Type 0 where
  pub memory_id : String

pub record ConsolidationWriteBatchResult : Type 0 where
  pub user_id : String
  pub evaluation_time : ℤ
  pub input_count : ℕ
  pub valid_count : ℕ
  pub updated_count : ℕ
  pub version_conflict_count : ℕ
  pub invalid_candidates : List ConsolidationInvalidWriteCandidate
  pub write_executed : Bool

pub record Partition (W : Type 0) : Type 0 where
  pub valid_rows : List (ConsolidationWriteRow W)
  pub invalid_candidates : List ConsolidationInvalidWriteCandidate

unfoldable pub is_valid_version : ℤ → Bool
is_valid_version (pos zero) = false
is_valid_version (pos (suc n)) = true
is_valid_version (negsuc n) = false

module _ {W : Type 0} (double : Double W) where
  abbrev pub write_row : ConsolidationScoredCandidate W → ConsolidationWriteRow W
  write_row c = record {
    memory_id = c.memory_id;
    new_importance = c.new_importance;
    expected_memory_version = c.memory_version;
  }

  unfoldable pub scored_candidates_to_write_rows :
      List (ConsolidationScoredCandidate W) → List (ConsolidationWriteRow W)
  scored_candidates_to_write_rows scored = map write_row scored

  unfoldable pub is_valid_importance : W → Bool
  is_valid_importance w =
      double.is_finite w && (double.le double.nought w && double.le w double.one)

  -- The tests of a row that do not look at the rows before it.
  unfoldable pub is_writable : ConsolidationWriteRow W → Bool
  is_writable row =
      not (str_eq row.memory_id "")
      && (is_valid_version row.expected_memory_version && is_valid_importance row.new_importance)

  abbrev pub with_valid : ConsolidationWriteRow W → Partition W → Partition W
  with_valid row p = record {
    valid_rows = row ∷ p.valid_rows;
    invalid_candidates = p.invalid_candidates;
  }

  abbrev pub with_invalid : ConsolidationWriteRow W → Partition W → Partition W
  with_invalid row p = record {
    valid_rows = p.valid_rows;
    invalid_candidates = record { memory_id = row.memory_id } ∷ p.invalid_candidates;
  }

  -- The loop over the rows, with the ids seen so far.
  unfoldable pub partition_loop : List (ConsolidationWriteRow W) → List String → Partition W
  partition_loop [] seen = record { valid_rows = []; invalid_candidates = [] }
  partition_loop (row ∷ rows) seen =
      let kept = partition_loop rows (row.memory_id ∷ seen) in
      let dropped = partition_loop rows seen in
      if is_writable row && not (contains seen row.memory_id)
      then with_valid row kept
      else with_invalid row dropped

  unfoldable pub partition_rows : List (ConsolidationWriteRow W) → Partition W
  partition_rows rows = partition_loop rows []

  abbrev pub nothing_written :
      ConsolidationWriteBatchRequest W
      → List ConsolidationInvalidWriteCandidate
      → ConsolidationWriteBatchResult
  nothing_written request invalid = record {
    user_id = request.user_id;
    evaluation_time = request.evaluation_time;
    input_count = length request.rows;
    valid_count = 0;
    updated_count = 0;
    version_conflict_count = 0;
    invalid_candidates = invalid;
    write_executed = false;
  }

  -- The repository answers how many rows it updated.
  abbrev pub written :
      ConsolidationWriteBatchRequest W → Partition W → ℕ → ConsolidationWriteBatchResult
  written request p updated_count = record {
    user_id = request.user_id;
    evaluation_time = request.evaluation_time;
    input_count = length request.rows;
    valid_count = length p.valid_rows;
    updated_count = updated_count;
    version_conflict_count = length p.valid_rows - updated_count;
    invalid_candidates = p.invalid_candidates;
    write_executed = true;
  }

  -- `write_importance_batch` of the repository is a parameter.
  module _ {S : Type 0}
      (write_importance_batch : String
        → ℤ
        → List (ConsolidationWriteRow W)
        → Exec S RunFault ℕ) where
    unfoldable pub validate_write_request : ConsolidationWriteBatchRequest W → Exec S RunFault Bool
    validate_write_request request =
        if str_eq request.user_id ""
        then raise value_error
        else if is_negative request.evaluation_time
        then raise value_error
        else pure true

    unfoldable pub write_partition :
        ConsolidationWriteBatchRequest W
        → Partition W
        → Exec S RunFault ConsolidationWriteBatchResult
    write_partition request p =
        if length p.valid_rows == 0
        then pure (nothing_written request p.invalid_candidates)
        else write_importance_batch request.user_id request.evaluation_time p.valid_rows >>= λ n.
            pure (written request p n)

    unfoldable pub write_batch :
        ConsolidationWriteBatchRequest W → Exec S RunFault ConsolidationWriteBatchResult
    write_batch request =
        validate_write_request request >> write_partition request (partition_rows request.rows)
