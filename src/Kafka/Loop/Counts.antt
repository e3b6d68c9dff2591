-- ===== src/Kafka/Loop/Counts.antt =====
-- How many records the loop processes, and how many of them it commits.
use memory_system.Shared.{
  ℕ, zero, suc, ◌+◌, ◌≡◌, ◌≤◌, ◌<◌, refl, Bool, true, false, Option, none, some, List, length,
  arith, if◌then◌else◌, ltb,
}
use memory_system.Shared.Exec.{Result, ok, err, Exec, pure, ◌>>=◌}
use memory_system.Shared.Triples.{
  Runs, OnEnd, Runs-pure, Runs-raise, Runs-bind, Runs-catch, Runs-if, Runs-raised, Runs-pre,
  Runs-given,
}
use memory_system.Extraction.Event.{ArchiveCreatedEvent}
use memory_system.Extraction.Task.{Task}
use memory_system.Extraction.World.{Deployment, World, Action, Error}
use memory_system.Extraction.Consumer.{PipelineTerminalDecision, process_archive_created_event}
use memory_system.Kafka.Wire.{Codec, Rejection}
use memory_system.Kafka.Loop.Logic.{ask-Runs, Stepped, loop-Runs}
use memory_system.Kafka.Loop.{
  ConsumerRecord, LoopFault, rejected, timed_out, handler_error, client_error, stuck, Client,
  LoopSettings, Commit, next, finished, Loop, Looping, ask, of_world, act, checked,
  process_consumer_record, cut_or, wait_for, attempt_within, attempt, on_timeout, noted,
  commit_record_offset, call_commit, commit_if, reached, conclude, handle_record,
  run_archive_created_consumer_loop,
}

abbrev pub AtMost : Option ℕ → ℕ → Type 0
AtMost none n = Unit
AtMost (some limit) n = n ≤ limit

abbrev Below : Option ℕ → ℕ → Type 0
Below none n = Unit
Below (some limit) n = n < limit

Below-AtMost : (o : Option ℕ) (n : ℕ) → Below o n → AtMost o (suc n)
Below-AtMost none n h = tt
Below-AtMost (some limit) n h = omega (arith, h)

Below-weak : (o : Option ℕ) (n : ℕ) → Below o n → AtMost o n
Below-weak none n h = tt
Below-weak (some limit) n h = omega (arith, h)

AtMost-nothing : (o : Option ℕ) → AtMost o 0
AtMost-nothing none = tt
AtMost-nothing (some limit) = omega arith

module _ (d : Deployment) (codec : Codec) (client : Client codec.Bytes d.collection.Db)
    (pipeline : Task → ArchiveCreatedEvent → Action d PipelineTerminalDecision)
    (settings : LoopSettings) where
  abbrev L : Type 0
  L = Loop d codec client pipeline settings

  unreached :
      (o : Option ℕ) (n : ℕ) → reached d codec client pipeline settings o n ≡ false → Below o n
  unreached none n e = tt
  unreached (some limit) n e = ground (arith, e)

  -- The handling of a record makes no commit.
  module _ (P : List (Commit codec.Bytes d.collection.Db) → Type 0) where
    abbrev Kept : L → Type 0
    Kept l = P l.commits

    abbrev KeepsCommits : {A : Type 0} → Looping d codec client pipeline settings A → Type 0
    KeepsCommits m = Runs Kept (λ _. Kept) Kept m

    ask-Kept :
        {A : Type 0} (m : Exec client.State client.Failure A)
        → KeepsCommits (ask d codec client pipeline settings m)
    ask-Kept m = ask-Runs d codec client pipeline settings Kept m (λ l q. q)

    checked-Kept :
        {A : Type 0} (x : Result Rejection A)
        → KeepsCommits (checked d codec client pipeline settings x)
    checked-Kept (ok a) = Runs-pure a (λ l q. q)
    checked-Kept (err e) = Runs-raise _ (λ l q. q)

    of_world-Kept :
        {A : Type 0} (l : L) (x : Result Error A) (w : World d.collection.Db)
        → Kept l
        → OnEnd
            (λ _. Kept)
            Kept
            (of_world d codec client pipeline settings l (x, w)).0
            (of_world d codec client pipeline settings l (x, w)).1
    of_world-Kept l (ok a) w q = q
    of_world-Kept l (err e) w q = q

    process-Kept :
        (r : ConsumerRecord codec.Bytes)
        → KeepsCommits (process_consumer_record d codec client pipeline settings r)
    unfolding process_consumer_record act
    process-Kept r =
        Runs-bind (λ _. Kept) _ _ _ (checked-Kept _)
          (λ e.
            Runs-bind (λ _. Kept) _ _ _ (checked-Kept _)
              (λ _.
                Runs-bind (λ _. Kept) _ _ _
                  (record {
                    at = λ l q.
                        of_world-Kept l (process_archive_created_event d pipeline e l.world).0
                          (process_archive_created_event d pipeline e l.world).1 q;
                  })
                  (λ a. Runs-pure _ (λ l q. q))))

    some-Kept :
        (m : Looping d codec client pipeline settings Bool)
        → KeepsCommits m
        → KeepsCommits (m >>= λ b. pure (some b))
    some-Kept m h = Runs-bind (λ _. Kept) _ _ _ h (λ b. Runs-pure _ (λ l q. q))

    cut_or-Kept :
        (b : Bool) (r : ConsumerRecord codec.Bytes)
        (m : Looping d codec client pipeline settings Bool)
        → KeepsCommits m
        → KeepsCommits (cut_or d codec client pipeline settings b r m)
    cut_or-Kept true r m h = record { at = λ l q. q }
    cut_or-Kept false r m h = record { at = λ l q. h.at l q }

    wait_for-Kept :
        (n : ℕ) (r : ConsumerRecord codec.Bytes) (m : Looping d codec client pipeline settings Bool)
        → KeepsCommits m
        → KeepsCommits (wait_for d codec client pipeline settings n r m)
    unfolding wait_for
    wait_for-Kept n r m h = record {
      at = λ l q. (cut_or-Kept (client.cuts n l.state) r m h).at l q;
    }

    within-Kept :
        (r : ConsumerRecord codec.Bytes) (n : ℕ)
        → KeepsCommits (attempt_within d codec client pipeline settings r n)
    unfolding attempt_within
    within-Kept r zero = Runs-pure none (λ l q. q)
    within-Kept r (suc n) = some-Kept _ (wait_for-Kept (suc n) r _ (process-Kept r))

    attempt-Kept :
        (r : ConsumerRecord codec.Bytes) (o : Option ℕ)
        → KeepsCommits (attempt d codec client pipeline settings r o)
    unfolding attempt
    attempt-Kept r none = some-Kept _ (process-Kept r)
    attempt-Kept r (some t) =
        Runs-if (ltb 0 settings.shutdown_timeout_seconds) _ _
          (Runs-bind (λ _. Kept) _ _ _ (ask-Kept client.monotonic) (λ now. within-Kept r _))
          (some-Kept _ (process-Kept r))

    on_timeout-Kept :
        (f : LoopFault client.Failure)
        → KeepsCommits (on_timeout d codec client pipeline settings f)
    unfolding on_timeout
    on_timeout-Kept timed_out = Runs-pure none (λ l q. q)
    on_timeout-Kept (rejected e) = Runs-raise _ (λ l q. q)
    on_timeout-Kept (handler_error e) = Runs-raise _ (λ l q. q)
    on_timeout-Kept (client_error e) = Runs-raise _ (λ l q. q)
    on_timeout-Kept stuck = Runs-raise _ (λ l q. q)

  module _ (k : ℕ) where
    -- At most `n` commits were made since there were `k`.
    abbrev Since : ℕ → L → Type 0
    Since n l = (k ≤ length l.commits) × (length l.commits ≤ k + n)

    abbrev In : ℕ → L → Type 0
    In n l = Below settings.max_records n × Since n l

    abbrev InCommits : ℕ → List (Commit codec.Bytes d.collection.Db) → Type 0
    InCommits n c = Below settings.max_records n × ((k ≤ length c) × (length c ≤ k + n))

    abbrev pub Counted : ℕ → L → Type 0
    Counted n l = AtMost settings.max_records n × Since n l

    commit_if-Since :
        (b : Bool) (r : ConsumerRecord codec.Bytes) (n : ℕ)
        → Runs
            (Since n)
            (λ _. Since (suc n))
            (λ _. Unit)
            (commit_if d codec client pipeline settings b r)
    unfolding commit_if commit_record_offset call_commit
    commit_if-Since false r n = Runs-pure false (λ l q. (q.0, omega (arith, q.1)))
    commit_if-Since true r n = record {
      at = λ l q.
          (Runs-raised (λ l q. tt)
              (ask-Runs d codec client pipeline settings (Since (suc n))
                (client.commit r.topic r.partition (r.offset + 1)) (λ l q. q))).at
            (noted d codec client pipeline settings r r.topic r.partition (r.offset + 1) l)
            (omega (arith, q.0), omega (arith, q.1));
    }

    step-Counted :
        (n : ℕ) (l : L)
        → Below settings.max_records n
        → Since (suc n) l
        → (b : Bool) → reached d codec client pipeline settings settings.max_records (suc n) ≡ b
        → Stepped d codec client pipeline settings In Counted
            (if b then finished (suc n) else next (suc n))
            l
    step-Counted n l q s true e = (Below-AtMost settings.max_records n q, s)
    step-Counted n l q s false e = (unreached settings.max_records (suc n) e, s)

    conclude-Counted :
        (r : ConsumerRecord codec.Bytes) (n : ℕ) (o : Option Bool)
        → Runs
            (In n)
            (Stepped d codec client pipeline settings In Counted)
            (λ _. Unit)
            (conclude d codec client pipeline settings r n o)
    unfolding conclude
    conclude-Counted r n none = Runs-pure _ (λ l q. (Below-weak settings.max_records n q.0, q.1))
    conclude-Counted r n (some b) = Runs-given (Below settings.max_records n) _ (λ below.
        Runs-bind (λ _. Since (suc n)) _ _ _ (commit_if-Since b r n)
          (λ _.
            Runs-bind (λ _. Since (suc n)) _ _ _
              (Runs-raised (λ l q. tt)
                (ask-Runs d codec client pipeline settings (Since (suc n)) (client.on_record r b)
                  (λ l q. q)))
              (λ _. Runs-pure _ (λ l q. step-Counted n l below q _ refl))))

    handle_record-Counted :
        (r : ConsumerRecord codec.Bytes) (n : ℕ)
        → Runs
            (In n)
            (Stepped d codec client pipeline settings In Counted)
            (λ _. Unit)
            (handle_record d codec client pipeline settings r n)
    unfolding handle_record
    handle_record-Counted r n =
        Runs-bind (λ _. In n) _ _ _
          (Runs-raised (λ l q. tt) (ask-Kept (InCommits n) client.get_shutdown_started))
          (λ started.
            Runs-bind (λ _. In n) _ _ _
              (Runs-catch (In n) _ _ (attempt-Kept (InCommits n) r started)
                (λ f. Runs-raised (λ l q. tt) (on_timeout-Kept (InCommits n) f)))
              (conclude-Counted r n))

    -- A loop that returns has processed at most `max_records` records, has made at most one call of
    -- `commit` for each of them, and has taken no call back.
    pub run_loop-Counted :
        (fuel : ℕ)
        → Runs
            (λ l. length l.commits ≡ k)
            Counted
            (λ _. Unit)
            (run_archive_created_consumer_loop d codec client pipeline settings fuel)
    run_loop-Counted fuel =
        Runs-pre
          (λ l q. (AtMost-nothing settings.max_records, (omega (arith, q), omega (arith, q))))
          (loop-Runs d codec client pipeline settings In Counted (λ _. Unit) (λ n l q. q)
            (λ n l q. q) (λ n l q. q) (λ n l q. (Below-weak settings.max_records n q.0, q.1))
            (λ n l q. tt) (λ n l e q. (unreached settings.max_records n e, q.1))
            handle_record-Counted fuel)
