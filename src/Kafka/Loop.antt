-- ===== src/Kafka/Loop.antt =====
-- src/memory_system/infrastructure/kafka/archive_created_consumer.py: the poll loop, around the handler
-- of one event. The client of Kafka, the clock and the signals of the process are a parameter, as is
-- what a cancelled handler leaves behind; times are natural numbers of one unit. Logs and their
-- context are left out, and an absent callback is one that answers at once.
pub mod Logic
pub mod Commits
pub mod Counts
pub mod Ends
pub mod Stops
use memory_system.Shared.{
  ℕ, zero, suc, ◌+◌, ◌-◌, String, Bool, true, false, not, Option, none, some, List, [], ◌∷◌,
  if◌then◌else◌, leb, ltb,
}
use memory_system.Shared.Exec.{Result, ok, err, Exec, pure, raise, gets, catch, ◌>>=◌, ◌>>◌}
use memory_system.Extraction.Event.{ArchiveCreatedEvent}
use memory_system.Extraction.Task.{Task}
use memory_system.Extraction.World.{Deployment, World, Action, Error}
use memory_system.Extraction.Consumer.{
  PipelineTerminalDecision, ProcessArchiveCreatedResult, process_archive_created_event,
}
use memory_system.Kafka.Wire.{
  Codec, Rejection, parse_archive_created_event_value, assert_message_key_matches_user_id,
}

pub record ConsumerRecord (Bytes : Type 0) : Type 0 where
  pub topic : String
  pub partition : ℕ
  pub offset : ℕ
  pub key : Option Bytes
  pub value : Bytes

-- What ends the loop by an exception: a rejected message, a `TimeoutError`, an error of the handler
-- or one of a client. `stuck` is no exception: it stands for a loop that has not ended within its
-- fuel.
pub data LoopFault (F : Type 0) : Type 0 where
  rejected : Rejection → LoopFault F
  timed_out : LoopFault F
  handler_error : Error → LoopFault F
  client_error : F → LoopFault F
  stuck : LoopFault F

-- The client of Kafka, with a state of its own, and what else the loop asks.
pub record Client (Bytes Db : Type 0) : Type 1 where
  pub State : Type 0
  pub Failure : Type 0
  pub should_stop : Exec State Failure Bool
  pub monotonic : Exec State Failure ℕ
  pub get_shutdown_started : Exec State Failure (Option ℕ)
  -- consumer.getmany(timeout_ms=1000, max_records=1): the records of each partition
  pub getmany : Exec State Failure (List (List (ConsumerRecord Bytes)))
  -- consumer.commit({TopicPartition(topic, partition): offset})
  pub commit : String → ℕ → ℕ → Exec State Failure Bool
  pub on_record : ConsumerRecord Bytes → Bool → Exec State Failure Bool
  -- Whether `asyncio.wait_for` cancels the handler, and what the cancelled handler leaves.
  pub cuts : ℕ → State → Bool
  pub cancelled : ConsumerRecord Bytes → World Db → World Db
  -- Whether an error of the handler is a `TimeoutError`.
  pub is_timeout : Error → Bool

pub record LoopSettings : Type 0 where
  pub max_records : Option ℕ
  pub idle_deadline_monotonic : Option ℕ
  pub shutdown_timeout_seconds : ℕ

-- A call of `consumer.commit`, with the record that it is for and the collection as it was then.
pub record Commit (Bytes Db : Type 0) : Type 0 where
  pub record_of : ConsumerRecord Bytes
  pub topic_of : String
  pub partition_of : ℕ
  pub next_offset : ℕ
  pub world_then : World Db

-- The loop goes on with a count of processed records, or returns it.
pub data Step : Type 0 where
  next finished : ℕ → Step

module _ (d : Deployment) (codec : Codec) (client : Client codec.Bytes d.collection.Db)
    (pipeline : Task → ArchiveCreatedEvent → Action d PipelineTerminalDecision)
    (settings : LoopSettings) where
  pub record Loop : Type 0 where
    pub world : World d.collection.Db
    pub state : client.State
    -- the calls of `commit` so far, the last one first
    pub commits : List (Commit codec.Bytes d.collection.Db)

  abbrev pub Looping : Type 0 → Type 0
  Looping A = Exec Loop (LoopFault client.Failure) A

  abbrev pub of_client :
      {A : Type 0}
      → Loop
      → Result client.Failure A × client.State
      → Result (LoopFault client.Failure) A × Loop
  of_client l (ok a, s) = (ok a, record l { state = s })
  of_client l (err e, s) = (err (client_error e), record l { state = s })

  unfoldable pub ask : {A : Type 0} → Exec client.State client.Failure A → Looping A
  ask m l = of_client l (m l.state)

  abbrev pub fault_of : Error → LoopFault client.Failure
  fault_of e = if client.is_timeout e then timed_out else handler_error e

  abbrev pub of_world :
      {A : Type 0}
      → Loop
      → Result Error A × World d.collection.Db
      → Result (LoopFault client.Failure) A × Loop
  of_world l (ok a, w) = (ok a, record l { world = w })
  of_world l (err e, w) = (err (fault_of e), record l { world = w })

  unfoldable pub act : {A : Type 0} → Action d A → Looping A
  act m l = of_world l (m l.world)

  abbrev pub checked : {A : Type 0} → Result Rejection A → Looping A
  checked (ok a) = pure a
  checked (err r) = raise (rejected r)

  unfoldable pub process_consumer_record : ConsumerRecord codec.Bytes → Looping Bool
  process_consumer_record r = checked (parse_archive_created_event_value codec r.value) >>= λ event.
      checked (assert_message_key_matches_user_id codec r.key event) >>= λ _.
      act (process_archive_created_event d pipeline event) >>= λ result.
      pure result.should_commit_offset

  -- max(0.0, timeout - (time.monotonic() - started))
  unfoldable pub remaining_shutdown_seconds : ℕ → ℕ → ℕ → ℕ
  remaining_shutdown_seconds started timeout now = timeout + started - now

  abbrev pub cut_or : Bool → ConsumerRecord codec.Bytes → Looping Bool → Looping Bool
  cut_or true r m l = (err timed_out, record l { world = client.cancelled r l.world })
  cut_or false r m l = m l

  -- asyncio.wait_for
  unfoldable pub wait_for : ℕ → ConsumerRecord codec.Bytes → Looping Bool → Looping Bool
  wait_for remaining r m l = cut_or (client.cuts remaining l.state) r m l

  unfoldable pub attempt_within : ConsumerRecord codec.Bytes → ℕ → Looping (Option Bool)
  attempt_within r zero = pure none
  attempt_within r (suc n) =
      wait_for (suc n) r (process_consumer_record r) >>= λ should_commit. pure (some should_commit)

  -- The body of the `try`. `none` is an early return of the loop.
  unfoldable pub attempt : ConsumerRecord codec.Bytes → Option ℕ → Looping (Option Bool)
  attempt r none = process_consumer_record r >>= λ should_commit. pure (some should_commit)
  attempt r (some started) =
      if ltb 0 settings.shutdown_timeout_seconds
      then (ask client.monotonic >>= λ now.
          attempt_within r
            (remaining_shutdown_seconds started settings.shutdown_timeout_seconds now))
      else process_consumer_record r >>= λ should_commit. pure (some should_commit)

  unfoldable pub on_timeout : LoopFault client.Failure → Looping (Option Bool)
  on_timeout timed_out = pure none
  on_timeout f = raise f

  -- `consumer.commit({TopicPartition(topic, partition): offset})`, entered in the history with its
  -- arguments and with the record that the loop holds. It is entered before it is made: it may raise
  -- although the broker received it.
  abbrev pub noted : ConsumerRecord codec.Bytes → String → ℕ → ℕ → Loop → Loop
  noted r topic partition offset l = record l {
    commits =
        record {
          record_of = r;
          topic_of = topic;
          partition_of = partition;
          next_offset = offset;
          world_then = l.world;
        }
        ∷ l.commits;
  }

  unfoldable pub call_commit : ConsumerRecord codec.Bytes → String → ℕ → ℕ → Looping Bool
  call_commit r topic partition offset l =
      ask (client.commit topic partition offset) (noted r topic partition offset l)

  unfoldable pub commit_record_offset : ConsumerRecord codec.Bytes → Looping Bool
  commit_record_offset r = call_commit r r.topic r.partition (r.offset + 1)

  unfoldable pub commit_if : Bool → ConsumerRecord codec.Bytes → Looping Bool
  commit_if true r = commit_record_offset r
  commit_if false r = pure false

  abbrev pub reached : Option ℕ → ℕ → Bool
  reached none processed = false
  reached (some limit) processed = leb limit processed

  abbrev pub after_record : ℕ → Step
  after_record processed =
      if reached settings.max_records processed then finished processed else next processed

  unfoldable pub conclude : ConsumerRecord codec.Bytes → ℕ → Option Bool → Looping Step
  conclude r processed none = pure (finished processed)
  conclude r processed (some should_commit) = commit_if should_commit r >>= λ _.
      ask (client.on_record r should_commit) >>= λ _. pure (after_record (suc processed))

  unfoldable pub handle_record : ConsumerRecord codec.Bytes → ℕ → Looping Step
  handle_record r processed = ask client.get_shutdown_started >>= λ started.
      catch (attempt r started) on_timeout >>= λ o. conclude r processed o

  unfoldable pub unless_finished : (ℕ → Looping Step) → Step → Looping Step
  unless_finished m (next processed) = m processed
  unless_finished m (finished processed) = pure (finished processed)

  unfoldable pub records_loop : List (ConsumerRecord codec.Bytes) → ℕ → Looping Step
  records_loop [] processed = pure (next processed)
  records_loop (r ∷ rs) processed =
      handle_record r processed >>= λ s. unless_finished (records_loop rs) s

  unfoldable pub batch_loop : List (List (ConsumerRecord codec.Bytes)) → ℕ → Looping Step
  batch_loop [] processed = pure (next processed)
  batch_loop (rs ∷ batch) processed =
      records_loop rs processed >>= λ s. unless_finished (batch_loop batch) s

  unfoldable pub is_idle : Option ℕ → Looping Bool
  is_idle none = pure false
  is_idle (some deadline) = ask client.monotonic >>= λ now. pure (leb deadline now)

  -- The tests before a poll.
  unfoldable pub may_return : ℕ → Looping Bool
  may_return processed = ask client.should_stop >>= λ stop.
      if stop
      then pure true
      else if reached settings.max_records processed
      then pure true
      else is_idle settings.idle_deadline_monotonic

  unfoldable pub poll : ℕ → Looping Step
  poll processed = may_return processed >>= λ returns.
      if returns
      then pure (finished processed)
      else ask client.getmany >>= λ batch. batch_loop batch processed

  unfoldable pub result_or : (ℕ → Looping ℕ) → Step → Looping ℕ
  result_or m (next processed) = m processed
  result_or m (finished processed) = pure processed

  unfoldable pub poll_loop : ℕ → ℕ → Looping ℕ
  poll_loop zero processed = raise stuck
  poll_loop (suc fuel) processed = poll processed >>= λ s. result_or (poll_loop fuel) s

  unfoldable pub run_archive_created_consumer_loop : ℕ → Looping ℕ
  run_archive_created_consumer_loop fuel = poll_loop fuel 0
