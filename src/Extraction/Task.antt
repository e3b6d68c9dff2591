-- ===== src/Extraction/Task.antt =====
-- The documents of `memory_extraction_task` (src/memory_system/domain/models/extraction_task.py,
-- src/memory_system/domain/enums/extraction_task.py) and what the code asks MongoDB to do with
-- them. Times are counted in whole seconds from the epoch. `extraction_result` is a payload that
-- this code never looks into: it is kept as its JSON text.
use memory_system.Shared.{
  ℕ, ◌+◌, String, Bool, true, false, Option, none, some, List, [], ◌∷◌, ◌&&◌, ◌||◌, str_eq,
}

pub data Status : Type 0 where
  pending processing completed failed : Status

pub record LastError : Type 0 where
  pub error_code : String
  pub failed_stage : String
  pub message : String

pub record Task : Type 0 where
  pub task_id : String
  pub archive_id : String
  pub user_id : String
  pub status : Status
  pub attempt_count : ℕ
  pub extraction_result : Option String
  pub last_error : Option LastError
  pub created_time : ℕ
  pub updated_time : ℕ
  pub completed_time : Option ℕ

abbrev pub status_eq : Status → Status → Bool
status_eq pending pending = true
status_eq processing processing = true
status_eq completed completed = true
status_eq failed failed = true
status_eq _ _ = false

-- The filter documents of the repository: an archive, perhaps its owner, and perhaps a list of
-- statuses (`"status": s` is the list of one, `"$in"` the longer one).
pub record Filter : Type 0 where
  pub archive_id : String
  pub user_id : Option String
  pub statuses : Option (List Status)

-- The update documents: `"$set"` of some fields (`none` leaves the field), and `"$inc"` of
-- `attempt_count`.
pub record Update : Type 0 where
  pub set_status : Option Status
  pub set_last_error : Option (Option LastError)
  pub new_extraction_result : Option (Option String)
  pub set_updated_time : ℕ
  pub set_completed_time : Option ℕ
  pub inc_attempt_count : ℕ

abbrev pub any_status : List Status → Status → Bool
any_status [] s = false
any_status (x ∷ xs) s = status_eq x s || any_status xs s

abbrev pub has_status : Option (List Status) → Status → Bool
has_status none s = true
has_status (some l) s = any_status l s

abbrev pub has_user : Option String → String → Bool
has_user none u = true
has_user (some v) u = str_eq v u

-- When MongoDB takes a document to match a filter.
abbrev pub matches : Filter → Task → Bool
matches f t =
    str_eq f.archive_id t.archive_id
    && has_user f.user_id t.user_id
    && has_status f.statuses t.status

abbrev or_old {ℓ} : {A : Type ℓ} → Option A → A → A
or_old none a = a
or_old (some b) a = b

abbrev or_old_time : Option ℕ → Option ℕ → Option ℕ
or_old_time none a = a
or_old_time (some b) a = some b

-- What MongoDB makes of a document by an update.
abbrev pub apply : Update → Task → Task
apply u t = record t {
  status = or_old u.set_status t.status;
  attempt_count = t.attempt_count + u.inc_attempt_count;
  extraction_result = or_old u.new_extraction_result t.extraction_result;
  last_error = or_old u.set_last_error t.last_error;
  updated_time = u.set_updated_time;
  completed_time = or_old_time u.set_completed_time t.completed_time;
}
