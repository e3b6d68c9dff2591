-- ===== src/Kafka/Loop/Commits.antt =====
-- Which offsets the loop commits.
use mathlib.Core.Path.{subst}
use memory_system.Shared.{
  ℕ, zero, suc, ◌+◌, ◌≡◌, refl, ap, Bool, true, false, Option, none, some, All, ltb,
}
use memory_system.Shared.Exec.{Result, ok, err, Exec, pure, ◌>>=◌}
use memory_system.Shared.Triples.{
  Runs, OnEnd, Runs-pure, Runs-raise, Runs-bind, Runs-catch, Runs-if, Runs-weaken, Runs-given,
}
use memory_system.Extraction.Event.{ArchiveCreatedEvent}
use memory_system.Extraction.Task.{Task}
use memory_system.Extraction.World.{Deployment, World, Action, Error}
use memory_system.Extraction.Repository.Replies.{IsStored}
use memory_system.Extraction.Consumer.{
  PipelineTerminalDecision, ProcessArchiveCreatedResult, process_archive_created_event,
}
use memory_system.Extraction.Consumer.Claims.{IsTerminal}
use memory_system.Extraction.Consumer.Commit.{process-commit}
use memory_system.Kafka.Wire.{
  Codec, Rejection, parse_archive_created_event_value, assert_message_key_matches_user_id,
}
use memory_system.Kafka.Loop.Logic.{ask-Runs, Stepped, loop-Runs}
use memory_system.Kafka.Loop.{
  ConsumerRecord, LoopFault, rejected, timed_out, handler_error, client_error, stuck, Client,
  LoopSettings, Commit, Step, next, finished, Loop, Looping, ask, of_world, act, checked,
  process_consumer_record, cut_or, wait_for, attempt_within, attempt, on_timeout, noted,
  commit_record_offset, call_commit, commit_if, conclude, handle_record,
  run_archive_created_consumer_loop,
}

-- The message is an event of the user in its key, and the collection holds a settled task for the
-- archive of the event.
pub record IsSettled (d : Deployment) (codec : Codec) (r : ConsumerRecord codec.Bytes)
    (w : World d.collection.Db) : Type 0 where
  pub event : ArchiveCreatedEvent
  pub task : Task
  pub parsed : parse_archive_created_event_value codec r.value ≡ ok event
  pub keyed : assert_message_key_matches_user_id codec r.key event ≡ ok tt
  pub stored : IsStored d event.archive_id task w
  pub terminal : IsTerminal task.status

-- The commit moves the partition of its record just past the record, whose task is settled.
abbrev pub IsEarned : (d : Deployment) (codec : Codec) → Commit codec.Bytes d.collection.Db → Type 0
IsEarned d codec c =
    (c.topic_of ≡ c.record_of.topic)
    × (c.partition_of ≡ c.record_of.partition)
    × (c.next_offset ≡ c.record_of.offset + 1)
    × IsSettled d codec c.record_of c.world_then

-- Every call of the client keeps `J`, a commit if it moves the partition of a settled record just past
-- the record.
pub record Respects (d : Deployment) (codec : Codec) (client : Client codec.Bytes d.collection.Db)
    (J : client.State → Type 0) : Type 0 where
  pub should_stop : (s : client.State) → J s → J (client.should_stop s).1
  pub monotonic : (s : client.State) → J s → J (client.monotonic s).1
  pub get_shutdown_started : (s : client.State) → J s → J (client.get_shutdown_started s).1
  pub getmany : (s : client.State) → J s → J (client.getmany s).1
  pub on_record :
      (r : ConsumerRecord codec.Bytes) (b : Bool) (s : client.State)
      → J s
      → J (client.on_record r b s).1
  pub commit :
      (r : ConsumerRecord codec.Bytes) (w : World d.collection.Db) (s : client.State)
      → IsSettled d codec r w
      → J s
      → J (client.commit r.topic r.partition (r.offset + 1) s).1

module _ (d : Deployment) (codec : Codec) (client : Client codec.Bytes d.collection.Db)
    (pipeline : Task → ArchiveCreatedEvent → Action d PipelineTerminalDecision)
    (settings : LoopSettings) where
  abbrev L : Type 0
  L = Loop d codec client pipeline settings

  module _ (J : client.State → Type 0) where
    -- The calls of `commit` so far were earned, and `J` holds of the client.
    abbrev pub Earned : L → Type 0
    Earned l = All (IsEarned d codec) l.commits × J l.state

    abbrev pub EarnedThroughout : {A : Type 0} → Looping d codec client pipeline settings A → Type 0
    EarnedThroughout m = Runs Earned (λ _. Earned) Earned m

    module _ (g : Respects d codec client J) where
      abbrev ask-Earned :
          {A : Type 0} (m : Exec client.State client.Failure A)
          → ((s : client.State) → J s → J (m s).1)
          → EarnedThroughout (ask d codec client pipeline settings m)
      ask-Earned m b =
          ask-Runs d codec client pipeline settings Earned m (λ l h. (h.0, b l.state h.1))

      -- A record that may be committed is settled.
      abbrev Settled : ConsumerRecord codec.Bytes → Bool → L → Type 0
      Settled r b l = (b ≡ true → IsSettled d codec r l.world) × Earned l

      handled-Settled :
          (r : ConsumerRecord codec.Bytes) (event : ArchiveCreatedEvent)
          → parse_archive_created_event_value codec r.value ≡ ok event
          → assert_message_key_matches_user_id codec r.key event ≡ ok tt
          → (l : L) (x : Result Error ProcessArchiveCreatedResult) (w : World d.collection.Db)
          → process_archive_created_event d pipeline event l.world ≡ (x, w)
          → Earned l
          → OnEnd
              (λ a l'. Settled r a.should_commit_offset l')
              Earned
              (of_world d codec client pipeline settings l (x, w)).0
              (of_world d codec client pipeline settings l (x, w)).1
      handled-Settled r event p k l (err e) w h q = q
      handled-Settled r event p k l (ok a) w h q = (
        λ c.
            let (t, n, s, f) = process-commit d pipeline event l.world a (ap (λ z. z.0) h) c in
            record {
              event = event;
              task = t;
              parsed = p;
              keyed = k;
              stored = subst (λ z. IsStored d event.archive_id t z) (ap (λ z. z.1) h) s;
              terminal = f;
            },
        q,
      )

      event-Settled :
          (r : ConsumerRecord codec.Bytes) (event : ArchiveCreatedEvent)
          → parse_archive_created_event_value codec r.value ≡ ok event
          → assert_message_key_matches_user_id codec r.key event ≡ ok tt
          → Runs Earned (Settled r) Earned (
              act d codec client pipeline settings (process_archive_created_event d pipeline event)
              >>= λ result. pure result.should_commit_offset)
      unfolding act
      event-Settled r event p k =
          Runs-bind (λ a. Settled r a.should_commit_offset) _ _ _
            (record {
              at = λ l q.
                  handled-Settled r event p k l
                    (process_archive_created_event d pipeline event l.world).0
                    (process_archive_created_event d pipeline event l.world).1 refl q;
            })
            (λ a. Runs-pure a.should_commit_offset (λ l h. h))

      checked-Runs :
          {A : Type 0} (P : L → Type 0) (x : Result Rejection A)
          → Runs P (λ a l. (x ≡ ok a) × P l) P (checked d codec client pipeline settings x)
      checked-Runs P (ok a) = Runs-pure a (λ l h. (refl, h))
      checked-Runs P (err e) = Runs-raise _ (λ l h. h)

      process-Settled :
          (r : ConsumerRecord codec.Bytes)
          → Runs Earned
              (Settled r)
              Earned
              (process_consumer_record d codec client pipeline settings r)
      unfolding process_consumer_record
      process-Settled r =
          Runs-bind (λ e l. (parse_archive_created_event_value codec r.value ≡ ok e) × Earned l) _ _
            _ (checked-Runs Earned (parse_archive_created_event_value codec r.value))
            (λ e. Runs-given (parse_archive_created_event_value codec r.value ≡ ok e) _ (λ p.
              Runs-bind
                (λ u l. (assert_message_key_matches_user_id codec r.key e ≡ ok u) × Earned l) _ _ _
                (checked-Runs Earned (assert_message_key_matches_user_id codec r.key e))
                (λ u.
                  Runs-given (assert_message_key_matches_user_id codec r.key e ≡ ok u) _
                    (λ k. event-Settled r e p k))))

      -- The same of an optional answer.
      abbrev SettledIf : ConsumerRecord codec.Bytes → Option Bool → L → Type 0
      SettledIf r none l = Earned l
      SettledIf r (some b) l = Settled r b l

      some-SettledIf :
          (r : ConsumerRecord codec.Bytes) (m : Looping d codec client pipeline settings Bool)
          → Runs Earned (Settled r) Earned m
          → Runs Earned (SettledIf r) Earned (m >>= λ b. pure (some b))
      some-SettledIf r m h = Runs-bind (Settled r) _ _ _ h (λ b. Runs-pure (some b) (λ l q. q))

      wait_for-Settled :
          (n : ℕ) (r : ConsumerRecord codec.Bytes)
          (m : Looping d codec client pipeline settings Bool)
          → Runs Earned (Settled r) Earned m
          → Runs Earned (Settled r) Earned (wait_for d codec client pipeline settings n r m)
      unfolding wait_for
      wait_for-Settled n r m h = record { at = λ l q. at (client.cuts n l.state) l q }
        where
          at :
              (b : Bool) (l : L)
              → Earned l
              → OnEnd
                  (Settled r)
                  Earned
                  (cut_or d codec client pipeline settings b r m l).0
                  (cut_or d codec client pipeline settings b r m l).1
          at true l q = q
          at false l q = h.at l q

      within-SettledIf :
          (r : ConsumerRecord codec.Bytes) (n : ℕ)
          → Runs Earned (SettledIf r) Earned (attempt_within d codec client pipeline settings r n)
      unfolding attempt_within
      within-SettledIf r zero = Runs-pure none (λ l q. q)
      within-SettledIf r (suc n) =
          some-SettledIf r _ (wait_for-Settled (suc n) r _ (process-Settled r))

      attempt-SettledIf :
          (r : ConsumerRecord codec.Bytes) (o : Option ℕ)
          → Runs Earned (SettledIf r) Earned (attempt d codec client pipeline settings r o)
      unfolding attempt
      attempt-SettledIf r none = some-SettledIf r _ (process-Settled r)
      attempt-SettledIf r (some t) =
          Runs-if (ltb 0 settings.shutdown_timeout_seconds) _ _
            (Runs-bind (λ _. Earned) _ _ _ (ask-Earned client.monotonic g.monotonic)
              (λ now. within-SettledIf r _))
            (some-SettledIf r _ (process-Settled r))

      on_timeout-SettledIf :
          (r : ConsumerRecord codec.Bytes) (f : LoopFault client.Failure)
          → Runs Earned (SettledIf r) Earned (on_timeout d codec client pipeline settings f)
      unfolding on_timeout
      on_timeout-SettledIf r timed_out = Runs-pure none (λ l q. q)
      on_timeout-SettledIf r (rejected e) = Runs-raise _ (λ l q. q)
      on_timeout-SettledIf r (handler_error e) = Runs-raise _ (λ l q. q)
      on_timeout-SettledIf r (client_error e) = Runs-raise _ (λ l q. q)
      on_timeout-SettledIf r stuck = Runs-raise _ (λ l q. q)

      commit_if-Earned :
          (b : Bool) (r : ConsumerRecord codec.Bytes)
          → Runs (Settled r b) (λ _. Earned) Earned (commit_if d codec client pipeline settings b r)
      unfolding commit_if commit_record_offset call_commit
      commit_if-Earned false r = Runs-pure false (λ l q. q.1)
      commit_if-Earned true r = record {
        at = λ l q.
            (ask-Earned (client.commit r.topic r.partition (r.offset + 1))
                (λ s. g.commit r l.world s (q.0 refl))).at
              (noted d codec client pipeline settings r r.topic r.partition (r.offset + 1) l)
              (((refl, refl, refl, q.0 refl), q.1.0), q.1.1);
      }

      conclude-Earned :
          (r : ConsumerRecord codec.Bytes) (n : ℕ) (o : Option Bool)
          → Runs
              (SettledIf r o)
              (λ _. Earned)
              Earned
              (conclude d codec client pipeline settings r n o)
      unfolding conclude
      conclude-Earned r n none = Runs-pure (finished n) (λ l q. q)
      conclude-Earned r n (some b) =
          Runs-bind (λ _. Earned) _ _ _ (commit_if-Earned b r)
            (λ _.
              Runs-bind (λ _. Earned) _ _ _ (ask-Earned (client.on_record r b) (g.on_record r b))
                (λ _. Runs-pure _ (λ l q. q)))

      handle_record-Earned :
          (r : ConsumerRecord codec.Bytes) (n : ℕ)
          → EarnedThroughout (handle_record d codec client pipeline settings r n)
      unfolding handle_record
      handle_record-Earned r n =
          Runs-bind (λ _. Earned) _ _ _
            (ask-Earned client.get_shutdown_started g.get_shutdown_started)
            (λ started.
              Runs-bind (SettledIf r) _ _ _
                (Runs-catch Earned _ _ (attempt-SettledIf r started) (on_timeout-SettledIf r))
                (conclude-Earned r n))

      every_step :
          (r : ConsumerRecord codec.Bytes) (n : ℕ) (s : Step) (l : L)
          → Earned l
          → Stepped d codec client pipeline settings (λ _. Earned) (λ _. Earned) s l
      every_step r n (next k) l q = q
      every_step r n (finished k) l q = q

      -- Whatever the client, the handler, the other workers and a cancellation do: if the calls of
      -- `commit` made before were earned, so are all that the loop makes, whether it returns, raises or
      -- is stuck. A call is earned when it sets the partition of a record to the offset after the
      -- record, the message of the record is an event of the user in its key, and the collection held
      -- at that time a task for the archive of the event that was completed or failed. Moreover
      -- whatever holds of the client's own state before, and is kept by its other calls and by earned
      -- calls of `commit`, holds of it afterwards.
      pub run_loop-Earned :
          (fuel : ℕ)
          → Runs Earned
              (λ _. Earned)
              Earned
              (run_archive_created_consumer_loop d codec client pipeline settings fuel)
      run_loop-Earned =
          loop-Runs d codec client pipeline settings (λ _. Earned) (λ _. Earned) Earned
            (λ n l q. (q.0, g.getmany l.state q.1)) (λ n l q. (q.0, g.should_stop l.state q.1))
            (λ n l q. (q.0, g.monotonic l.state q.1)) (λ n l q. q) (λ n l q. q) (λ n l e q. q)
            (λ r n. Runs-weaken (every_step r n) (handle_record-Earned r n))
