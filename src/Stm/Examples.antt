-- ===== src/Stm/Examples.antt =====
-- Runs of the selection, of the plan and of a close on a small session.
use memory_system.Stm.Round.{RoundServices, lock_not_acquired, finalize_success}
use memory_system.Stm.Rounds.{limit_of, run_compression_coordination}
use memory_system.Stm.Rounds.Raises.{EndsIn}
use memory_system.Stm.Rounds.Laws.{IsCoordinated}
use memory_system.Stm.Rounds.Answer.{coordination-IsCoordinated}
use memory_system.Shared.{none, length, ◌≤◌, ◌+◌, refl, ℕ, String, some, List, [], ◌∷◌, arith, true}
use memory_system.Shared.Exec.{ok, ◌>>=◌, catch}
use memory_system.Shared.Triples.{finally}
use memory_system.Stm.Message.{WorkingMemoryMessage, user}
use memory_system.Stm.Meta.{pos, active, WorkingMemoryMeta}
use memory_system.Stm.Settings.{ContextSettings}
use memory_system.Stm.Split.{split_close_suffix_batches, place, split_loop}
use memory_system.Stm.Split.Laws.{IsCutOrRefused, split_close_suffix_batches-IsCutOrRefused}
use memory_system.Stm.Select.{
  ArchiveSelection, select_archive_prefix, select_loop, range_down, count_down, better_of,
  candidate_at, admit, capped_prefix, min, shrink_prefix_to_cap, shrink_loop, init, pick_better,
  score_ltb, score_of, candidate_score,
}
use memory_system.Stm.Select.Longest.{shrink_prefix_to_cap-longest}
use memory_system.Stm.Select.Safe.{IsSafe}
use memory_system.Stm.Select.Best.{PrefersIf, select-PrefersIf, select-IsSafe}
use memory_system.Stm.Plan.{
  build_close_plan, plan_at, extract_base_compression_version, plan_from, pending_part,
  suffix_batches, new_batches, new_batch, last_of, build_archive_batch_key,
}
use memory_system.Stm.Plan.Laws.{IsAnswer}
use memory_system.Stm.Plan.Build.{build_close_plan-IsAnswer}
use memory_system.Stm.Close.{
  SessionCloseResult, close_session, fresh, with_token, locked_body, entered, with_meta,
  with_snapshot, run_built, archive_batch, archive_batches, check_terminal, confirm, create_batch,
  maybe_revert_active, publish_all, publish_one, reuse_pending, run_plan,
}
use memory_system.Stm.Close.Calls.{
  Services, created, read_success, enter_success, revert_success, terminal_success, terminal_delete,
  perform,
}
use memory_system.Stm.Close.Histories.{Has}
use memory_system.Stm.Close.Whole.{IsOrderly, close_session-IsOrderly, close_session-deleted}

abbrev message : String → ℕ → WorkingMemoryMessage
message id tokens = record {
  message_id = id;
  role = user;
  content = "text";
  estimated_tokens = tokens;
  timestamp = 100;
}

abbrev messages : List WorkingMemoryMessage
messages = message "m-1" 40 ∷ message "m-2" 30 ∷ message "m-3" 50 ∷ message "m-4" 20 ∷ []

abbrev settings : ContextSettings
settings = record {
  compression_trigger_tokens = 100;
  compression_target_tokens = 60;
  preferred_recent_messages = 3;
  absolute_min_recent_messages = 1;
  max_compressed_context_estimated_tokens = 50;
  max_compression_rounds_per_request = 3;
  max_message_estimated_tokens = 60;
  max_working_memory_estimated_tokens = 300;
  max_archive_estimated_tokens = 80;
  allowed_future_timestamp_skew_seconds = 300;
  compression_llm_timeout_seconds = 120;
  compression_lock_ttl_seconds = 420;
  safety_margin_seconds = 30;
}

abbrev meta : WorkingMemoryMeta
meta = record {
  user_id = "u-1";
  session_id = "s-1";
  compressed_context = "";
  estimated_tokens = 140;
  compression_version = pos 2;
  status = active;
  pending_archive_id = some "a-0";
  pending_archive_batch_key = some "s-1:m-1:m-1";
  pending_archive_message_count = pos 1;
  pending_archive_estimated_tokens = 40;
  created_time = 100;
  updated_time = 100;
}

abbrev services : Services
services = record {
  acquire = λ h ttl. ok (some "token");
  enter = λ h now. ok enter_success;
  meta = λ h. ok (some meta);
  read = λ h. ok (record {
    status = read_success;
    snapshot =
        some (record { compression_version = pos 2; compressed_context = ""; messages = messages });
  });
  create = λ h i. ok (record {
    outcome = created;
    archive_id = i.archive_batch_key;
    stored_version = i.base_compression_version;
  });
  revert = λ h now. ok revert_success;
  send = λ h e. ok true;
  terminal = λ h. ok terminal_success;
  release = λ h t. ok true;
  clock = λ h. 200;
  uuid = λ h. "e-1";
}

split_close_suffix_batches-IsCutOrRefused_example :
    IsCutOrRefused 80 messages (split_close_suffix_batches messages 80)
split_close_suffix_batches-IsCutOrRefused_example =
    split_close_suffix_batches-IsCutOrRefused 80 messages

abbrev selected : ArchiveSelection
selected = record {
  prefix = message "m-1" 40 ∷ message "m-2" 30 ∷ [];
  prefix_tokens = 70;
  projected_remaining = 70;
}

select-PrefersIf_example :
    PrefersIf 60
      (select_archive_prefix messages 140 settings)
      (candidate_at messages 140 settings 3)
select-PrefersIf_example =
    select-PrefersIf messages 140 settings 3 (omega arith) (omega arith) (omega arith) (omega arith)

select-IsSafe_example : IsSafe messages 140 settings selected
unfolding select_archive_prefix select_loop range_down count_down better_of candidate_at admit
    capped_prefix min shrink_prefix_to_cap shrink_loop init pick_better score_ltb score_of
    candidate_score
select-IsSafe_example = select-IsSafe messages 140 settings selected refl

build_close_plan-IsAnswer_example : IsAnswer meta messages 80 (build_close_plan meta messages 80)
build_close_plan-IsAnswer_example = build_close_plan-IsAnswer meta messages 80

close_session-IsOrderly_example :
    IsOrderly settings (close_session services settings "u-1" "s-1" fresh).1.history
close_session-IsOrderly_example = close_session-IsOrderly services settings "u-1" "s-1"

abbrev closed : SessionCloseResult
closed = record { session_id = "s-1"; archive_ids = "a-0" ∷ "s-1:m-2:m-3" ∷ "s-1:m-4:m-4" ∷ [] }

close_session-deleted_example :
    Has
      (terminal_delete (ok terminal_success))
      (close_session services settings "u-1" "s-1" fresh).1.history
unfolding close_session ◌>>=◌ catch perform with_token finally locked_body entered with_meta
    with_snapshot run_built build_close_plan plan_at extract_base_compression_version plan_from
    pending_part suffix_batches split_close_suffix_batches new_batches archive_batch archive_batches
    check_terminal confirm create_batch maybe_revert_active publish_all publish_one reuse_pending
    run_plan build_archive_batch_key last_of new_batch place split_loop
close_session-deleted_example = close_session-deleted services settings "u-1" "s-1" closed refl

abbrev round_services : RoundServices ℕ ℕ
round_services = record {
  get_meta = λ n. (ok (some meta), n + 1);
  read_context = λ n. (ok (record { status = read_success; snapshot = none }), n + 1);
  find_archive = λ key n. (ok none, n + 1);
  create_or_reuse = λ key version ms n. (ok key, n + 1);
  prepare = λ p n. (ok (record { status = lock_not_acquired; lock_owner_token = none }), n + 1);
  compress = λ old p n. (ok none, n + 1);
  finalize = λ i n. (ok finalize_success, n + 1);
  estimate_tokens = λ text. 0;
  index_error = 0;
}

coordination-IsCoordinated_example :
    EndsIn round_services
      (IsCoordinated (limit_of round_services settings "s-1" none))
      (run_compression_coordination round_services settings "s-1" none 0).0
coordination-IsCoordinated_example = coordination-IsCoordinated round_services settings "s-1" none 0

shrink_prefix_to_cap-longest_example : 1 ≤ length (shrink_prefix_to_cap messages 80)
shrink_prefix_to_cap-longest_example =
    shrink_prefix_to_cap-longest messages (message "m-1" 40 ∷ [])
      (message "m-2" 30 ∷ message "m-3" 50 ∷ message "m-4" 20 ∷ []) 80 refl (omega arith)
