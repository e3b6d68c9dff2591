-- ===== src/Consolidation/Batch.antt =====
-- src/memory_system/domain/services/consolidation_batch_service.py: one batch of memories, read from
-- the graph and scored. `fetch_candidate_batch` of the repository is a parameter.
pub mod Accounts
use memory_system.Shared.{
  ℕ, zero, suc, ◌==◌, String, Bool, true, false, Option, none, some, List, [], ◌∷◌, length,
  if◌then◌else◌, str_eq,
}
use memory_system.Shared.Int.{ℤ, pos, negsuc, is_negative}
use memory_system.Shared.Exec.{Result, ok, err, Exec, pure, raise, ◌>>=◌}
use memory_system.Consolidation.Double.{Double}
use memory_system.Consolidation.Write.{RunFault, value_error, ConsolidationScoredCandidate}
use memory_system.Consolidation.Importance.{
  ConsolidationImportanceInput, ConsolidationImportanceOutcome, success, missing_evidence,
  ImportanceError, MemoryConsolidationSettings, compute_consolidation_importance,
}

pub data BatchSkipReason : Type 0 where
  no_evidence invalid_memory_state : BatchSkipReason

pub record ConsolidationSkippedCandidate : Type 0 where
  pub memory_id : String
  pub reason : BatchSkipReason

pub record ConsolidationMemoryRow (W : Type 0) : Type 0 where
  pub memory_id : String
  pub memory_version : Option ℤ
  pub memory_type : Option String
  pub confidence : Option W
  pub status : Option String
  pub created_time : Option ℤ
  pub latest_source_time : Option ℤ
  pub independent_archive_count : ℤ
  pub mapping_valid : Bool

pub record ConsolidationBatchRequest : Type 0 where
  pub user_id : String
  pub evaluation_time : ℤ
  pub cursor : Option String
  pub batch_size : Option ℤ

pub record ConsolidationBatchResult (W : Type 0) : Type 0 where
  pub user_id : String
  pub evaluation_time : ℤ
  pub cursor_in : Option String
  pub batch_size : ℕ
  pub memories_returned : ℕ
  pub next_cursor : Option String
  pub scored : List (ConsolidationScoredCandidate W)
  pub skipped : List ConsolidationSkippedCandidate
  pub has_more : Bool

pub data RowOutcome (W : Type 0) : Type 0 where
  scored_row : ConsolidationScoredCandidate W → RowOutcome W
  skipped_row : ConsolidationSkippedCandidate → RowOutcome W

-- The size of the batch, or the `ValueError` of the request.
unfoldable pub batch_size_of : ℕ → Option ℤ → Result RunFault ℕ
batch_size_of default none = ok default
batch_size_of default (some (pos zero)) = err value_error
batch_size_of default (some (pos (suc n))) = ok (suc n)
batch_size_of default (some (negsuc n)) = err value_error

abbrev pub is_empty_cursor : Option String → Bool
is_empty_cursor none = false
is_empty_cursor (some c) = str_eq c ""

unfoldable pub validate_batch_request : ConsolidationBatchRequest → ℕ → Result RunFault ℕ
validate_batch_request request default =
    if is_negative request.evaluation_time
    then err value_error
    else if is_empty_cursor request.cursor
    then err value_error
    else batch_size_of default request.batch_size

module _ {W : Type 0} (double : Double W) (settings : MemoryConsolidationSettings W) where
  abbrev pub input_with :
      ConsolidationMemoryRow W → ℤ → String → W → String → ℤ → ConsolidationImportanceInput W
  input_with row time t c s created = record {
    memory_type = t;
    confidence = c;
    status = s;
    created_time = created;
    latest_source_time = row.latest_source_time;
    independent_archive_count = row.independent_archive_count;
    evaluation_time = time;
  }

  -- `none` is the `ValueError` of an incomplete row.
  unfoldable pub input_of_fields :
      ConsolidationMemoryRow W
      → ℤ
      → Option String
      → Option W
      → Option String
      → Option ℤ
      → Option (ConsolidationImportanceInput W)
  input_of_fields row time (some t) (some c) (some s) (some created) =
      some (input_with row time t c s created)
  input_of_fields row time t c s created = none

  unfoldable pub build_importance_input :
      ConsolidationMemoryRow W → ℤ → Option (ConsolidationImportanceInput W)
  build_importance_input row time =
      input_of_fields row time row.memory_type row.confidence row.status row.created_time

  abbrev pub skip : ConsolidationMemoryRow W → BatchSkipReason → RowOutcome W
  skip row reason = skipped_row (record { memory_id = row.memory_id; reason = reason })

  unfoldable pub scored_or_skipped : ConsolidationMemoryRow W → W → Option ℤ → RowOutcome W
  scored_or_skipped row importance none = skip row invalid_memory_state
  scored_or_skipped row importance (some version) =
      scored_row (record {
        memory_id = row.memory_id;
        new_importance = importance;
        memory_version = version;
      })

  unfoldable pub outcome_of :
      ConsolidationMemoryRow W
      → Result ImportanceError (ConsolidationImportanceOutcome W)
      → RowOutcome W
  outcome_of row (err e) = skip row invalid_memory_state
  outcome_of row (ok missing_evidence) = skip row no_evidence
  outcome_of row (ok (success w)) = scored_or_skipped row w row.memory_version

  unfoldable pub outcome_of_input :
      ConsolidationMemoryRow W → Option (ConsolidationImportanceInput W) → RowOutcome W
  outcome_of_input row none = skip row invalid_memory_state
  outcome_of_input row (some input) =
      outcome_of row (compute_consolidation_importance double settings input)

  unfoldable pub process_row : ConsolidationMemoryRow W → ℤ → RowOutcome W
  process_row row time =
      if row.mapping_valid
      then outcome_of_input row (build_importance_input row time)
      else skip row invalid_memory_state

  -- The two lists that the loop fills.
  abbrev pub Sorted : Type 0
  Sorted = List (ConsolidationScoredCandidate W) × List ConsolidationSkippedCandidate

  abbrev pub sort_outcome : RowOutcome W → Sorted → Sorted
  sort_outcome (scored_row c) (scored, skipped) = (c ∷ scored, skipped)
  sort_outcome (skipped_row c) (scored, skipped) = (scored, c ∷ skipped)

  unfoldable pub process_rows : List (ConsolidationMemoryRow W) → ℤ → Sorted
  process_rows [] time = ([], [])
  process_rows (row ∷ rows) time = sort_outcome (process_row row time) (process_rows rows time)

  -- rows[-1].memory_id, when there is one
  unfoldable pub last_id : List (ConsolidationMemoryRow W) → Option String
  last_id [] = none
  last_id (row ∷ []) = some row.memory_id
  last_id (row ∷ next ∷ rows) = last_id (next ∷ rows)

  unfoldable pub batch_result :
      ConsolidationBatchRequest → ℕ → List (ConsolidationMemoryRow W) → ConsolidationBatchResult W
  batch_result request size rows = record {
    user_id = request.user_id;
    evaluation_time = request.evaluation_time;
    cursor_in = request.cursor;
    batch_size = size;
    memories_returned = length rows;
    next_cursor = last_id rows;
    scored = (process_rows rows request.evaluation_time).0;
    skipped = (process_rows rows request.evaluation_time).1;
    has_more = length rows == size;
  }

  module _ {S : Type 0}
      (fetch_candidate_batch : String
        → ℤ
        → Option String
        → ℕ
        → Exec S RunFault (List (ConsolidationMemoryRow W))) where
    unfoldable pub process_validated :
        ConsolidationBatchRequest → Result RunFault ℕ → Exec S RunFault (ConsolidationBatchResult W)
    process_validated request (err e) = raise e
    process_validated request (ok size) =
        fetch_candidate_batch request.user_id request.evaluation_time request.cursor size
        >>= λ rows. pure (batch_result request size rows)

    unfoldable pub process_batch :
        ConsolidationBatchRequest → Exec S RunFault (ConsolidationBatchResult W)
    process_batch request =
        process_validated request (validate_batch_request request settings.batch_size)
