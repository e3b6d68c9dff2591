-- ===== src/Kafka/Loop/Ends.antt =====
-- The poll loop ends once it is told to stop.
pub mod Rules
use memory_system.Kafka.Loop.Ends.Rules.{
  Good, EndsWith, EndsWith-pure, EndsWith-if, EndsWith-raised, EndsWith-catch, EndsWith-bind,
}
use memory_system.Shared.{
  ℕ, zero, suc, ◌+◌, ◌-◌, ◌≡◌, ◌≢◌, ◌≤◌, ◌<◌, ◌⊎◌, inl, inr, refl, Bool, true, false, Option, none,
  some, List, [], ◌∷◌, arith, if◌then◌else◌, ltb,
}
use memory_system.Shared.Exec.{Result, ok, err, Exec, pure, raise, catch, on_error, continue, ◌>>=◌}
use memory_system.Shared.Triples.{OnEnd}
use memory_system.Extraction.Event.{ArchiveCreatedEvent}
use memory_system.Extraction.Task.{Task}
use memory_system.Extraction.World.{Deployment, World, Action, Error}
use memory_system.Extraction.Consumer.{PipelineTerminalDecision, process_archive_created_event}
use memory_system.Kafka.Wire.{
  Codec, Rejection, parse_archive_created_event_value, assert_message_key_matches_user_id,
}
use memory_system.Kafka.Loop.{
  ConsumerRecord, LoopFault, rejected, timed_out, handler_error, client_error, stuck, Client,
  LoopSettings, Step, next, finished, Loop, Looping, of_client, ask, fault_of, of_world, act,
  checked, process_consumer_record, cut_or, wait_for, attempt_within, attempt, on_timeout, noted,
  commit_record_offset, call_commit, commit_if, reached, after_record, conclude, handle_record,
  unless_finished, records_loop, batch_loop, is_idle, may_return, poll, result_or, poll_loop,
  run_archive_created_consumer_loop,
}

-- The client stops within `polls` polls: a poll uses one of them up, nothing adds one, and the
-- client stops or fails when none is left.
pub record StopsWithin {Bytes Db : Type 0} (client : Client Bytes Db) (polls : client.State → ℕ)
    : Type 0 where
  pub stops :
      (s : client.State)
      → OnEnd
          (λ b s'. (b ≡ true) ⊎ ((0 < polls s') × (polls s' ≤ polls s)))
          (λ _. Unit)
          (client.should_stop s).0
          (client.should_stop s).1
  pub used : (s : client.State) → polls (client.getmany s).1 ≤ polls s - 1
  pub after_monotonic : (s : client.State) → polls (client.monotonic s).1 ≤ polls s
  pub after_started : (s : client.State) → polls (client.get_shutdown_started s).1 ≤ polls s
  pub after_commit :
      (r : ConsumerRecord Bytes) (s : client.State)
      → polls (client.commit r.topic r.partition (r.offset + 1) s).1 ≤ polls s
  pub after_on_record :
      (r : ConsumerRecord Bytes) (b : Bool) (s : client.State)
      → polls (client.on_record r b s).1 ≤ polls s

module _ (d : Deployment) (codec : Codec) (client : Client codec.Bytes d.collection.Db)
    (pipeline : Task → ArchiveCreatedEvent → Action d PipelineTerminalDecision)
    (settings : LoopSettings) (polls : client.State → ℕ) (laws : StopsWithin client polls) where
  abbrev pub L : Type 0
  L = Loop d codec client pipeline settings

  abbrev pub M : Type 0 → Type 0
  M A = Looping d codec client pipeline settings A

  -- Fewer than `n` polls are left.
  abbrev pub Low : ℕ → L → Type 0
  Low n l = polls l.state < n

  abbrev pub Ending : {A : Type 0} → (L → Type 0) → (A → L → Type 0) → (L → Type 0) → M A → Type 0
  Ending P Q X m = EndsWith d codec client pipeline settings P Q X m

  abbrev pub KeepsLow : {A : Type 0} → ℕ → M A → Type 0
  KeepsLow n m = Ending (Low n) (λ _. Low n) (Low n) m

  pub bind :
      {A B : Type 0} {P X : L → Type 0} (Q : A → L → Type 0) {R : B → L → Type 0} {m : M A}
      {f : A → M B}
      → Ending P Q X m
      → ((a : A) → Ending (Q a) R X (f a))
      → Ending P R X (m >>= f)
  bind Q {R} {m} {f} h k = EndsWith-bind d codec client pipeline settings Q R m f h k

  pub returned :
      {A : Type 0} {P X : L → Type 0} {Q : A → L → Type 0} (a : A)
      → ((l : L) → P l → Q a l)
      → Ending P Q X (pure a)
  returned a h = EndsWith-pure d codec client pipeline settings a h

  asked :
      {A : Type 0} (n : ℕ) (l : L) (r : Result client.Failure A) (s : client.State)
      → polls s < n
      → Good d codec client pipeline settings
          (λ _. Low n)
          (Low n)
          (of_client d codec client pipeline settings l (r, s)).0
          (of_client d codec client pipeline settings l (r, s)).1
  asked n l (ok a) s h = h
  asked n l (err e) s h = (h, λ x. absurd (cc))

  pub ask-Low :
      {A : Type 0} (n : ℕ) (m : Exec client.State client.Failure A)
      → ((s : client.State) → polls (m s).1 ≤ polls s)
      → KeepsLow n (ask d codec client pipeline settings m)
  unfolding ask
  ask-Low n m h = record {
    at = λ l p. asked n l (m l.state).0 (m l.state).1 (omega (arith, p, h l.state));
  }

  checked-Low :
      {A : Type 0} (n : ℕ) (x : Result Rejection A)
      → KeepsLow n (checked d codec client pipeline settings x)
  checked-Low n (ok a) = returned a (λ l q. q)
  checked-Low n (err e) = record { at = λ l q. (q, λ x. absurd (cc)) }

  fault-ne :
      (e : Error) (b : Bool) (f : LoopFault client.Failure)
      → (if b then timed_out else handler_error e) ≡ f
      → f ≢ stuck
  fault-ne e true f h x = absurd (cc)
  fault-ne e false f h x = absurd (cc)

  acted :
      {A : Type 0} (n : ℕ) (l : L) (x : Result Error A) (w : World d.collection.Db)
      → Low n l
      → Good d codec client pipeline settings
          (λ _. Low n)
          (Low n)
          (of_world d codec client pipeline settings l (x, w)).0
          (of_world d codec client pipeline settings l (x, w)).1
  acted n l (ok a) w q = q
  acted n l (err e) w q = (q, fault-ne e (client.is_timeout e) _ refl)

  process-Low :
      (n : ℕ) (r : ConsumerRecord codec.Bytes)
      → KeepsLow n (process_consumer_record d codec client pipeline settings r)
  unfolding process_consumer_record act
  process-Low n r =
      bind (λ _. Low n) (checked-Low n (parse_archive_created_event_value codec r.value))
        (λ e.
          bind (λ _. Low n) (checked-Low n (assert_message_key_matches_user_id codec r.key e))
            (λ _.
              bind (λ _. Low n)
                (record {
                  at = λ l q.
                      acted n l (process_archive_created_event d pipeline e l.world).0
                        (process_archive_created_event d pipeline e l.world).1 q;
                })
                (λ a. returned a.should_commit_offset (λ l q. q))))

  some-Low : (n : ℕ) (m : M Bool) → KeepsLow n m → KeepsLow n (m >>= λ b. pure (some b))
  some-Low n m h = bind (λ _. Low n) h (λ b. returned (some b) (λ l q. q))

  cut_or-Low :
      (n : ℕ) (b : Bool) (r : ConsumerRecord codec.Bytes) (m : M Bool)
      → KeepsLow n m
      → KeepsLow n (cut_or d codec client pipeline settings b r m)
  cut_or-Low n true r m h = record { at = λ l q. (q, λ x. absurd (cc)) }
  cut_or-Low n false r m h = record { at = λ l q. h.at l q }

  within-Low :
      (n : ℕ) (r : ConsumerRecord codec.Bytes) (k : ℕ)
      → KeepsLow n (attempt_within d codec client pipeline settings r k)
  unfolding attempt_within wait_for
  within-Low n r zero = returned none (λ l q. q)
  within-Low n r (suc k) = some-Low n _ (record {
    at = λ l q. (cut_or-Low n (client.cuts (suc k) l.state) r _ (process-Low n r)).at l q;
  })

  attempt-Low :
      (n : ℕ) (r : ConsumerRecord codec.Bytes) (o : Option ℕ)
      → KeepsLow n (attempt d codec client pipeline settings r o)
  unfolding attempt
  attempt-Low n r none = some-Low n _ (process-Low n r)
  attempt-Low n r (some t) =
      EndsWith-if d codec client pipeline settings (ltb 0 settings.shutdown_timeout_seconds) _ _
        (bind (λ _. Low n) (ask-Low n client.monotonic laws.after_monotonic)
          (λ now. within-Low n r _))
        (some-Low n _ (process-Low n r))

  timeout-Low :
      (n : ℕ) (f : LoopFault client.Failure)
      → Ending
          (λ l. Low n l × (f ≢ stuck))
          (λ _. Low n)
          (Low n)
          (on_timeout d codec client pipeline settings f)
  unfolding on_timeout
  timeout-Low n timed_out = returned none (λ l q. q.0)
  timeout-Low n (rejected e) = record { at = λ l q. q }
  timeout-Low n (handler_error e) = record { at = λ l q. q }
  timeout-Low n (client_error e) = record { at = λ l q. q }
  timeout-Low n stuck = record { at = λ l q. q }

  commit_if-Low :
      (n : ℕ) (b : Bool) (r : ConsumerRecord codec.Bytes)
      → KeepsLow n (commit_if d codec client pipeline settings b r)
  unfolding commit_if commit_record_offset call_commit
  commit_if-Low n false r = returned false (λ l q. q)
  commit_if-Low n true r = record {
    at = λ l q.
        (ask-Low n (client.commit r.topic r.partition (r.offset + 1)) (laws.after_commit r)).at
          (noted d codec client pipeline settings r r.topic r.partition (r.offset + 1) l) q;
  }

  conclude-Low :
      (n k : ℕ) (r : ConsumerRecord codec.Bytes) (o : Option Bool)
      → KeepsLow n (conclude d codec client pipeline settings r k o)
  unfolding conclude
  conclude-Low n k r none = returned (finished k) (λ l q. q)
  conclude-Low n k r (some b) =
      bind (λ _. Low n) (commit_if-Low n b r)
        (λ _.
          bind (λ _. Low n) (ask-Low n (client.on_record r b) (laws.after_on_record r b))
            (λ _. returned _ (λ l q. q)))

  handle_record-Low :
      (n k : ℕ) (r : ConsumerRecord codec.Bytes)
      → KeepsLow n (handle_record d codec client pipeline settings r k)
  unfolding handle_record
  handle_record-Low n k r =
      bind (λ _. Low n) (ask-Low n client.get_shutdown_started laws.after_started)
        (λ started.
          bind (λ _. Low n)
            (EndsWith-catch d codec client pipeline settings (λ _. Low n) (Low n) (Low n) _ _
              (attempt-Low n r started) (timeout-Low n))
            (conclude-Low n k r))

  unless-Low :
      (n : ℕ) (m : ℕ → M Step) (s : Step)
      → ((k : ℕ) → KeepsLow n (m k))
      → KeepsLow n (unless_finished d codec client pipeline settings m s)
  unfolding unless_finished
  unless-Low n m (next k) h = h k
  unless-Low n m (finished k) h = returned (finished k) (λ l q. q)

  records-Low :
      (n : ℕ) (rs : List (ConsumerRecord codec.Bytes)) (k : ℕ)
      → KeepsLow n (records_loop d codec client pipeline settings rs k)
  unfolding records_loop
  records-Low n [] k = returned (next k) (λ l q. q)
  records-Low n (r ∷ rs) k =
      bind (λ _. Low n) (handle_record-Low n k r) (λ s. unless-Low n _ s (records-Low n rs))

  pub batch-Low :
      (n : ℕ) (batch : List (List (ConsumerRecord codec.Bytes))) (k : ℕ)
      → KeepsLow n (batch_loop d codec client pipeline settings batch k)
  unfolding batch_loop
  batch-Low n [] k = returned (next k) (λ l q. q)
  batch-Low n (rs ∷ batch) k =
      bind (λ _. Low n) (records-Low n rs k) (λ s. unless-Low n _ s (batch-Low n batch))
