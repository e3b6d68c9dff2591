-- ===== src/Consolidation/Examples.antt =====
-- Runs of the consolidation on a few memories, with ten-thousandths for floats.
use memory_system.Shared.{
  ℕ, ◌+◌, ◌-◌, ◌≡◌, ◌≤◌, ◌<◌, ◌⊎◌, inl, inr, refl, String, Bool, true, false, Option, none, some,
  List, [], ◌∷◌, length, arith, ltb, leb, ◌==◌, if◌then◌else◌,
}
use memory_system.Shared.Int.{ℤ, pos, negsuc}
use memory_system.Shared.Exec.{ok, Exec, pure}
use memory_system.Shared.Triples.{Runs, Runs-pure}
use memory_system.Consolidation.Double.{Double, IsOrdered}
use memory_system.Consolidation.Importance.{
  ConsolidationImportanceInput, MemoryConsolidationSettings, profile, active, superseded,
  compute_consolidation_importance, half_life_days_for,
}
use memory_system.Consolidation.Importance.Bounds.{
  HasLimits, IsImportance, consolidation-IsImportance, superseded-half_life,
}
use memory_system.Consolidation.Write.{
  RunFault, ConsolidationWriteRow, ConsolidationWriteBatchRequest, partition_rows, write_batch,
}
use memory_system.Consolidation.Write.Rows.{IsPartition, partition_rows-IsPartition}
use memory_system.Consolidation.Write.Counts.{IsCounted, write_batch-IsCounted}
use memory_system.Consolidation.Batch.{ConsolidationMemoryRow, process_rows, last_id}
use memory_system.Consolidation.Batch.Accounts.{IsSorted, process_rows-IsSorted}
use memory_system.Consolidation.Run.{
  ConsolidationRunResult, Services, World, no_counts, execute_run,
}
use memory_system.Consolidation.Run.Logic.{Settles, Settles-pure}
use memory_system.Consolidation.Run.Ends.{IsEnd, execute_run-IsEnd}
use memory_system.Consolidation.Run.Enough.{Progresses, execute_run-returns}

abbrev larger : ℕ → ℕ → ℕ
larger x y = if ltb x y then y else x

abbrev smaller : ℕ → ℕ → ℕ
smaller x y = if ltb y x then y else x

abbrev of_whole : ℤ → ℕ
of_whole (pos n) = n
of_whole (negsuc n) = 0

abbrev pub parts : Double ℕ
parts = record {
  le = leb;
  is_finite = λ x. true;
  nought = 0;
  one = 10000;
  hundredths = λ n. n;
  max_of = larger;
  min_of = smaller;
  plus = λ x y. x + y;
  minus = λ x y. x - y;
  times = λ x y. smaller x y;
  over = λ x y. x;
  of_int = of_whole;
  of_count = λ n. n;
  log = λ x. x;
  neg_ln2 = 1;
  exp = λ x. x;
  round4 = λ x. x;
}

parts-IsOrdered : IsOrdered ℕ parts
parts-IsOrdered = record {
  refl_of_le = λ x y h. (ground (arith, h), ground (arith, h));
  le-max_of = λ x y h. ground (arith, h);
  max_of-le = λ x y z h k. ground (arith, h, k);
  min_of-le = λ x y h. ground (arith, h);
  round4-mono = λ x y h. h;
}

abbrev settings : MemoryConsolidationSettings ℕ
settings = record {
  batch_size = 1;
  evidence_saturation_count = 5;
  profile_half_life_days = 180;
  fact_half_life_days = 90;
  preference_half_life_days = 60;
  event_half_life_days = 14;
  superseded_half_life_days = 30;
  confidence_weight = 6000;
  evidence_weight = 4000;
  reinforcement_bonus_weight = 2000;
  min_importance = 500;
  conflicted_min_importance = 1000;
  max_importance = 10000;
}

settings-HasLimits : HasLimits parts settings
settings-HasLimits = record {
  least = refl;
  least_conflicted = refl;
  rounded_min = refl;
  rounded_conflicted = refl;
  rounded_max = refl;
}

abbrev write_row_of : String → ℕ → ConsolidationWriteRow ℕ
write_row_of id importance = record {
  memory_id = id;
  new_importance = importance;
  expected_memory_version = pos 3;
}

-- A duplicate and an importance above 1 among them.
abbrev write_rows : List (ConsolidationWriteRow ℕ)
write_rows =
    write_row_of "m-1" 7000
    ∷ write_row_of "m-1" 8000
    ∷ write_row_of "m-2" 20000
    ∷ write_row_of "m-3" 600
    ∷ []

partition_rows-IsPartition_example :
    IsPartition parts [] write_rows (partition_rows parts write_rows)
partition_rows-IsPartition_example = partition_rows-IsPartition parts write_rows

-- One row of two has lost its version.
abbrev write_all_but_one : String → ℤ → List (ConsolidationWriteRow ℕ) → Exec ℕ RunFault ℕ
write_all_but_one user time [] = pure 0
write_all_but_one user time (row ∷ rows) = pure (length rows)

all_but_one-AtMost :
    (user : String) (time : ℤ) (rows : List (ConsolidationWriteRow ℕ))
    → Runs
        (λ _. Unit)
        (λ n s. (n ≤ length rows) × Unit)
        (λ _. Unit)
        (write_all_but_one user time rows)
all_but_one-AtMost user time [] = Runs-pure 0 (λ s h. (omega arith, tt))
all_but_one-AtMost user time (row ∷ rows) = Runs-pure (length rows) (λ s h. (omega arith, tt))

abbrev request : ConsolidationWriteBatchRequest ℕ
request = record { user_id = "u-1"; evaluation_time = pos 1000; rows = write_rows }

write_batch-IsCounted_example :
    Runs
      (λ _. Unit)
      (λ r s. IsCounted request r × Unit)
      (λ _. Unit)
      (write_batch parts write_all_but_one request)
write_batch-IsCounted_example =
    write_batch-IsCounted parts write_all_but_one (λ _. Unit) all_but_one-AtMost request

abbrev input : ConsolidationImportanceInput ℕ
input = record {
  memory_type = "profile";
  confidence = 9000;
  status = "conflicted";
  created_time = pos 100;
  latest_source_time = some (pos 200);
  independent_archive_count = pos 2;
  evaluation_time = pos 1000;
}

consolidation-IsImportance_example :
    IsImportance parts settings input (compute_consolidation_importance parts settings input)
consolidation-IsImportance_example =
    consolidation-IsImportance parts settings parts-IsOrdered settings-HasLimits input

superseded-half_life_example :
    (half_life_days_for parts settings profile superseded
      ≤ half_life_days_for parts settings profile active)
    × (half_life_days_for parts settings profile superseded ≤ 30)
superseded-half_life_example = superseded-half_life parts settings profile active

abbrev memory_row : String → Bool → ConsolidationMemoryRow ℕ
memory_row id valid = record {
  memory_id = id;
  memory_version = some (pos 3);
  memory_type = some "fact";
  confidence = some 9000;
  status = some "active";
  created_time = some (pos 100);
  latest_source_time = none;
  independent_archive_count = pos 1;
  mapping_valid = valid;
}

abbrev memory_rows : List (ConsolidationMemoryRow ℕ)
memory_rows = memory_row "m-1" true ∷ memory_row "m-2" false ∷ []

process_rows-IsSorted_example :
    IsSorted parts settings
      (pos 1000)
      memory_rows
      (process_rows parts settings memory_rows (pos 1000)).0
      (process_rows parts settings memory_rows (pos 1000)).1
process_rows-IsSorted_example = process_rows-IsSorted parts settings (pos 1000) memory_rows

-- One user with one memory.
abbrev fetch : Option String → List (ConsolidationMemoryRow ℕ)
fetch none = memory_row "m-1" true ∷ []
fetch (some id) = []

abbrev services : Services ℕ ℕ
services = record {
  list_user_ids = λ time. pure ("u-1" ∷ []);
  fetch_candidate_batch = λ user time cursor size. pure (fetch cursor);
  write_importance_batch = λ user time rows. pure (length rows);
  uuid = λ s. "run-1";
  triggers = λ s. 1;
  duration_ms = λ start end. 12;
}

abbrev idle_world : World ℕ
idle_world = record {
  outside = 0;
  mutex = record { held = false; skipped_trigger_count = 4 };
  counters = no_counts;
  arrived = 0;
}

services-AtMost :
    (user : String) (time : ℤ) (rows : List (ConsolidationWriteRow ℕ))
    → Runs
        (λ _. Unit)
        (λ n _. n ≤ length rows)
        (λ _. Unit)
        (services.write_importance_batch user time rows)
services-AtMost user time rows = Runs-pure (length rows) (λ s h. omega arith)

abbrev left_behind : Option String → ℕ
left_behind none = 1
left_behind (some id) = 0

fetch-Settles :
    (user : String) (time : ℤ) (cursor : Option String)
    → Settles
        (λ rows.
          ((length rows == 1) ≡ false)
          ⊎ (left_behind (last_id parts settings rows) < left_behind cursor))
        (services.fetch_candidate_batch user time cursor 1)
unfolding last_id
fetch-Settles user time none = Settles-pure _ (memory_row "m-1" true ∷ []) (inr (omega arith))
fetch-Settles user time (some id) = Settles-pure _ [] (inl refl)

services-Progresses : Progresses parts settings services
services-Progresses = record {
  behind = λ user cursor. left_behind cursor;
  lists = λ time. Settles-pure _ ("u-1" ∷ []) tt;
  writes = λ user time rows. Settles-pure _ (length rows) tt;
  fetches = fetch-Settles;
}

execute_run-returns_example :
    (r : ConsolidationRunResult) × ((execute_run parts settings services 3 (pos 1000) idle_world).0
      ≡ ok r)
unfolding services-Progresses
execute_run-returns_example =
    execute_run-returns parts settings services 3 services-Progresses (λ user. omega arith)
      (pos 1000) idle_world

execute_run-IsEnd_example :
    IsEnd services.uuid
      (pos 1000)
      idle_world
      (execute_run parts settings services 3 (pos 1000) idle_world)
unfolding services-Progresses
execute_run-IsEnd_example =
    execute_run-IsEnd parts settings services 3 services-AtMost services-Progresses
      (λ user. omega arith) (pos 1000) idle_world
