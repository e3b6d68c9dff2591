-- ===== src/Extraction/Examples.antt =====
-- Runs of the consumer and of the admin actions on a collection in memory.
use memory_system.Shared.{
  ◌+◌, ◌≡◌, refl, inl, String, true, false, none, some, str_eq, if◌then◌else◌,
}
use memory_system.Shared.Int.{pos}
use memory_system.Shared.Exec.{Result, ok, err, ◌>>=◌, catch}
use memory_system.Shared.Returns.{Returns, Raises}
use memory_system.Extraction.Event.{ArchiveCreatedEvent, archive_created_event_type}
use memory_system.Extraction.Task.{Task, pending, completed, failed}
use memory_system.Extraction.World.{
  Deployment, World, Action, Error, unavailable, mongo_error, call, infrastructure_error,
  retry_not_allowed,
}
use memory_system.Extraction.Lifecycle.{Reach, here, Holds, IsWellFormed, SameTask}
use memory_system.Extraction.Repository.{
  find_extraction_task_by_archive_id, upsert_pending_extraction_task, mark_processing_from_pending,
  mark_completed,
}
use memory_system.Extraction.Repository.Moves.{view}
use memory_system.Extraction.Repository.Replies.{IsStored}
use memory_system.Extraction.Repository.Quiet.{Quiet, Shows}
use memory_system.Extraction.Consumer.{
  PipelineTerminalDecision, complete, ProcessArchiveCreatedResult, process_archive_created_event,
}
use memory_system.Extraction.Consumer.Claims.{IsTerminal}
use memory_system.Extraction.Consumer.Commit.{process-commit}
use memory_system.Extraction.Consumer.Follows.{
  process-Reach, process-IsWellFormed, process-completed, process-Continues,
}
use memory_system.Extraction.Consumer.Outcome.{IsOutcome, process-IsOutcome}
use memory_system.Extraction.Strip.{strip}
use memory_system.Extraction.Admin.{
  ArchiveRead, found, ContextArchive, kafka_publish_failed_error, manual_retry_allowed,
  mutate_failed_to_pending_and_republish,
}
use memory_system.Extraction.Admin.Follows.{admin-Reach, Follows}
use memory_system.Extraction.Admin.Restarts.{retry_task-restarts, rebuild_task-restarts}
use memory_system.Extraction.Admin.Outcome.{
  restarted, action-publish_failure, action-lost_event, action-refused,
}
use memory_system.Extraction.Admin
use memory_system.Extraction.Fake.{Documents, in_memory}

abbrev pub service : Deployment
service = record {
  collection = in_memory;
  others = λ n db. db;
  fault = λ n. none;
  clock = λ n. 100 + n;
  uuid = λ n. "id-1";
}

undisturbed : Quiet service
undisturbed = record { alone = λ n db. refl; healthy = λ n. refl }

abbrev pub completing : Task → ArchiveCreatedEvent → Action service PipelineTerminalDecision
completing t e w = (ok complete, w)

abbrev pub event : ArchiveCreatedEvent
event = record {
  event_id = "e-1";
  event_type = archive_created_event_type;
  archive_id = "a-1";
  user_id = "u-1";
  session_id = "s-1";
  created_time = pos 90;
}

abbrev pub start : World Documents
start = record { db = λ a. none; tick = 0 }

abbrev finished : Task
finished = record {
  task_id = "id-1";
  archive_id = "a-1";
  user_id = "u-1";
  status = completed;
  attempt_count = 1;
  extraction_result = none;
  last_error = none;
  created_time = 100;
  updated_time = 104;
  completed_time = some 104;
}

abbrev committed : ProcessArchiveCreatedResult
committed = record { should_commit_offset = true; task = some finished }

abbrev run : Result Error ProcessArchiveCreatedResult × World Documents
run = process_archive_created_event service completing event start

first_delivery : run.0 ≡ ok committed
unfolding process_archive_created_event upsert_pending_extraction_task
    find_extraction_task_by_archive_id mark_processing_from_pending mark_completed call catch ◌>>=◌
first_delivery = refl

process-commit_example :
    (t : Task) × (some finished ≡ some t) × IsStored service "a-1" t run.1 × IsTerminal t.status
process-commit_example = process-commit service completing event start committed first_delivery refl

process-IsOutcome_example :
    Returns
      (IsOutcome service "a-1" finished true start)
      (process_archive_created_event service completing event)
      start
process-IsOutcome_example =
    process-IsOutcome service completing complete event start undisturbed (λ t e v. refl)

process-Reach_example : Reach (view in_memory start.db "a-1") (view in_memory run.1.db "a-1")
process-Reach_example =
    process-Reach service completing event start (λ n db a. here) (λ t e w a. here) "a-1"

process-IsWellFormed_example : Holds IsWellFormed (view in_memory run.1.db "a-1")
process-IsWellFormed_example =
    process-IsWellFormed service completing event start (λ n db a. here) (λ t e w a. here) "a-1" tt

-- A second delivery of the same event.
abbrev done : World Documents
done = record { db = λ a. if str_eq a "a-1" then some finished else none; tick = 7 }

process-completed_example :
    view in_memory (process_archive_created_event service completing event done).1.db "a-1"
    ≡ some finished
process-completed_example =
    process-completed service completing event done (λ n db a. here) (λ t e w a. here) "a-1"
      finished refl refl

process-Continues_example :
    (t' : Task) × (view in_memory
        (process_archive_created_event service completing event done).1.db
        "a-1"
      ≡ some t')
    × SameTask finished t'
process-Continues_example =
    process-Continues service completing event done (λ n db a. here) (λ t e w a. here) "a-1"
      finished refl

abbrev broken : Task
broken = record finished {
  status = failed;
  extraction_result = some "{}";
  last_error = some (record { error_code = "llm_timeout"; failed_stage = "llm"; message = "" });
  completed_time = none;
}

abbrev stopped : World Documents
stopped = record { db = λ a. if str_eq a "a-1" then some broken else none; tick = 0 }

abbrev archive : ContextArchive
archive = record { archive_id = "a-1"; user_id = "u-1"; session_id = "s-1"; created_time = pos 90 }

abbrev reads : String → Action service ArchiveRead
reads a w = (ok (found (some archive)), w)

abbrev lost : String → Action service ArchiveRead
lost a w = (err (mongo_error unavailable), w)

abbrev sends : ArchiveCreatedEvent → Action service (Unit {0})
sends e w = (ok tt, w)

abbrev drops : ArchiveCreatedEvent → Action service (Unit {0})
drops e w = (err infrastructure_error, w)

nonempty : str_eq (strip "a-1") "" ≡ false
unfolding strip
nonempty = refl

allowed : Admin.is_allowed manual_retry_allowed broken.last_error ≡ true
allowed = refl

admin-Reach_example :
    Follows service (Admin.retry_task service reads sends "e-2" "u-1" "a-1" 50)
    × Follows service (Admin.rebuild_task service reads sends "e-2" "u-1" "a-1" 50)
admin-Reach_example =
    admin-Reach service (λ n db a. here) reads sends "e-2" (λ a w b. here) (λ e w b. here) "u-1"
      "a-1" 50

retry_task-restarts_example :
    Returns
      (λ r w'.
        (r ≡ record { user_id = "u-1"; archive_id = "a-1"; status = pending })
        × Shows service "a-1"
            (record broken { status = pending; last_error = none; updated_time = 50 })
            2
            stopped
            w')
      (Admin.retry_task service reads sends "e-2" "u-1" "a-1" 50)
      stopped
retry_task-restarts_example =
    retry_task-restarts service reads sends "e-2" "u-1" "a-1" broken stopped 50 archive undisturbed
      refl refl refl nonempty (λ v. refl) refl (λ e v. refl) allowed

-- A task that failed on a conflict of plans.
abbrev conflicting : Task
conflicting = record broken {
  last_error = some (record {
    error_code = "reconciliation_plan_conflict";
    failed_stage = "reconciliation";
    message = "";
  });
}

abbrev conflicted : World Documents
conflicted = record { db = λ a. if str_eq a "a-1" then some conflicting else none; tick = 0 }

rebuild_task-restarts_example :
    Returns
      (λ r w'.
        (r ≡ record { user_id = "u-1"; archive_id = "a-1"; status = pending })
        × Shows service "a-1"
            (record conflicting {
              status = pending;
              extraction_result = none;
              last_error = none;
              updated_time = 50;
            })
            2
            conflicted
            w')
      (Admin.rebuild_task service reads sends "e-2" "u-1" "a-1" 50)
      conflicted
rebuild_task-restarts_example =
    rebuild_task-restarts service reads sends "e-2" "u-1" "a-1" conflicting conflicted 50 archive
      undisturbed refl refl refl nonempty (λ v. refl) refl (λ e v. refl) refl

action-publish_failure_example :
    Raises
      (λ e w'.
        (e ≡ infrastructure_error)
        × Shows service "a-1"
            (record broken {
              extraction_result = none;
              last_error = some kafka_publish_failed_error;
              updated_time = 50;
            })
            3
            stopped
            w')
      (mutate_failed_to_pending_and_republish service reads drops "e-2" "u-1" "a-1" 50 true
        manual_retry_allowed)
      stopped
action-publish_failure_example =
    action-publish_failure service reads drops "e-2" "u-1" "a-1" broken stopped true
      manual_retry_allowed 50 archive infrastructure_error undisturbed refl refl refl allowed
      nonempty (λ v. refl) refl (λ e v. refl)

action-lost_event_example :
    Raises
      (λ e w'.
        (e ≡ mongo_error unavailable)
        × Shows service "a-1" (restarted false 50 broken) 2 stopped w')
      (mutate_failed_to_pending_and_republish service lost sends "e-2" "u-1" "a-1" 50 false
        manual_retry_allowed)
      stopped
action-lost_event_example =
    action-lost_event service lost sends "e-2" "u-1" "a-1" broken stopped false manual_retry_allowed
      50 (mongo_error unavailable) undisturbed refl refl refl allowed nonempty (λ v. refl)

action-refused_example :
    Raises
      (λ e w'. (e ≡ retry_not_allowed) × Shows service "a-1" finished 1 done w')
      (mutate_failed_to_pending_and_republish service reads sends "e-2" "u-1" "a-1" 50 false
        manual_retry_allowed)
      done
action-refused_example =
    action-refused service reads sends "e-2" "u-1" "a-1" finished done false manual_retry_allowed 50
      undisturbed refl refl (inl (λ e. cc))
