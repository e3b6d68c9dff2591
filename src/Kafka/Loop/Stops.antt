-- ===== src/Kafka/Loop/Stops.antt =====
-- The poll loop returns or raises once its client says stop.
use memory_system.Shared.{
  ℕ, zero, suc, ◌≡◌, ◌≢◌, ◌≤◌, ◌<◌, ◌⊎◌, inl, inr, refl, Bool, true, false, Option, none, some,
  arith, if◌then◌else◌,
}
use memory_system.Shared.Exec.{Result, ok, err, pure, ◌>>=◌}
use memory_system.Shared.Triples.{OnEnd}
use memory_system.Extraction.Event.{ArchiveCreatedEvent}
use memory_system.Extraction.Task.{Task}
use memory_system.Extraction.World.{Deployment, Action}
use memory_system.Extraction.Consumer.{PipelineTerminalDecision}
use memory_system.Kafka.Wire.{Codec}
use memory_system.Kafka.Loop.Ends.Rules.{Good, EndsWith-if, EndsWith-raised}
use memory_system.Kafka.Loop.Ends.{
  StopsWithin, L, M, Low, Ending, bind, returned, ask-Low, batch-Low,
}
use memory_system.Kafka.Loop.{
  LoopFault, stuck, Client, LoopSettings, Step, next, finished, of_client, ask, reached, batch_loop,
  is_idle, may_return, poll, result_or, poll_loop, run_archive_created_consumer_loop,
}

-- What is not stuck returns a value or raises.
abbrev pub NotStuck : {F A : Type 0} → Result (LoopFault F) A → Type 0
NotStuck r = r ≢ err stuck

module _ (d : Deployment) (codec : Codec) (client : Client codec.Bytes d.collection.Db)
    (pipeline : Task → ArchiveCreatedEvent → Action d PipelineTerminalDecision)
    (settings : LoopSettings) (polls : client.State → ℕ) (laws : StopsWithin client polls) where
  abbrev Has : ℕ → L d codec client pipeline settings polls laws → Type 0
  Has n l = Low d codec client pipeline settings polls laws n l

  abbrev Ends :
      {A : Type 0}
      → (L d codec client pipeline settings polls laws → Type 0)
      → (A → L d codec client pipeline settings polls laws → Type 0)
      → M d codec client pipeline settings polls laws A
      → Type 0
  Ends P Q m = Ending d codec client pipeline settings polls laws P Q (λ l. Unit) m

  -- An answer to return, or a poll is left.
  abbrev Left : ℕ → Bool → L d codec client pipeline settings polls laws → Type 0
  Left n b l = (b ≡ true) ⊎ ((0 < n) × Has (suc n) l)

  stopped :
      (n : ℕ) (l : L d codec client pipeline settings polls laws) (k : ℕ)
      (r : Result client.Failure Bool) (s : client.State)
      → k < suc n
      → OnEnd (λ b s'. (b ≡ true) ⊎ ((0 < polls s') × (polls s' ≤ k))) (λ _. Unit) r s
      → Good d codec client pipeline settings
          (Left n)
          (λ l. Unit)
          (of_client d codec client pipeline settings l (r, s)).0
          (of_client d codec client pipeline settings l (r, s)).1
  stopped n l k (ok b) s h (inl e) = inl e
  stopped n l k (ok b) s h (inr q) = inr (omega (arith, h, q.0, q.1), omega (arith, h, q.1))
  stopped n l k (err e) s h q = (tt, λ x. absurd (cc))

  stop-Left :
      (n : ℕ)
      → Ends (Has (suc n)) (Left n) (ask d codec client pipeline settings client.should_stop)
  unfolding ask
  stop-Left n = record {
    at = λ l q.
        stopped n l (polls l.state) (client.should_stop l.state).0 (client.should_stop l.state).1 q
          (laws.stops l.state);
  }

  idle-Has :
      (n : ℕ) (o : Option ℕ)
      → Ends (Has n) (λ _. Has n) (is_idle d codec client pipeline settings o)
  unfolding is_idle
  idle-Has n none = returned d codec client pipeline settings polls laws false (λ l q. q)
  idle-Has n (some t) =
      bind d codec client pipeline settings polls laws (λ _. Has n)
        (EndsWith-raised d codec client pipeline settings _ _ (Has n) (λ l q. tt)
          (ask-Low d codec client pipeline settings polls laws n client.monotonic
            laws.after_monotonic))
        (λ now. returned d codec client pipeline settings polls laws _ (λ l q. q))

  left_of :
      (n : ℕ) (l : L d codec client pipeline settings polls laws)
      → Left n false l
      → (0 < n) × Has (suc n) l
  left_of n l (inl e) = absurd (cc)
  left_of n l (inr q) = q

  -- What is shown with a poll left.
  with_poll :
      {A : Type 0} {Q : A → L d codec client pipeline settings polls laws → Type 0} (n : ℕ)
      (m : M d codec client pipeline settings polls laws A)
      → (0 < n → Ends (Has (suc n)) Q m)
      → Ends (Left n false) Q m
  with_poll n m h = record { at = λ l q. (h (left_of n l q).0).at l (left_of n l q).1 }

  idle-Left :
      (n k : ℕ)
      → 0 < n
      → Ends (Has (suc n)) (Left n) (
          if reached d codec client pipeline settings settings.max_records k
          then pure true
          else is_idle d codec client pipeline settings settings.idle_deadline_monotonic)
  idle-Left n k h =
      EndsWith-if d codec client pipeline settings _ _ _
        (returned d codec client pipeline settings polls laws true (λ l q. inl refl))
        (weaken (idle-Has (suc n) settings.idle_deadline_monotonic))
    where
      kept :
          (r : Result (LoopFault client.Failure) Bool)
          (l : L d codec client pipeline settings polls laws)
          → Good d codec client pipeline settings (λ _. Has (suc n)) (λ l. Unit) r l
          → Good d codec client pipeline settings (Left n) (λ l. Unit) r l
      kept (ok b) l q = inr (h, q)
      kept (err e) l q = q

      weaken :
          {m : M d codec client pipeline settings polls laws Bool}
          → Ends (Has (suc n)) (λ _. Has (suc n)) m
          → Ends (Has (suc n)) (Left n) m
      weaken {m} e = record { at = λ l q. kept (m l).0 (m l).1 (e.at l q) }

  may_return-Left :
      (n k : ℕ) → Ends (Has (suc n)) (Left n) (may_return d codec client pipeline settings k)
  unfolding may_return
  may_return-Left n k =
      bind d codec client pipeline settings polls laws (Left n) (stop-Left n) (at k)
    where
      at :
          (k : ℕ) (stop : Bool)
          → Ends (Left n stop) (Left n) (
              if stop
              then pure true
              else if reached d codec client pipeline settings settings.max_records k
              then pure true
              else is_idle d codec client pipeline settings settings.idle_deadline_monotonic)
      at k true = returned d codec client pipeline settings polls laws true (λ l q. inl refl)
      at k false = with_poll n _ (idle-Left n k)

  -- A step that goes on has used a poll up.
  abbrev Used : ℕ → Step → L d codec client pipeline settings polls laws → Type 0
  Used n (next k) l = Has n l
  Used n (finished k) l = Unit

  Has-Used :
      (n : ℕ) (m : M d codec client pipeline settings polls laws Step)
      → Ends (Has n) (λ _. Has n) m
      → Ends (Has n) (Used n) m
  Has-Used n m h = record { at = λ l q. kept (m l).0 (m l).1 (h.at l q) }
    where
      kept :
          (r : Result (LoopFault client.Failure) Step)
          (l : L d codec client pipeline settings polls laws)
          → Good d codec client pipeline settings (λ _. Has n) (λ l. Unit) r l
          → Good d codec client pipeline settings (Used n) (λ l. Unit) r l
      kept (ok (next k)) l q = q
      kept (ok (finished k)) l q = tt
      kept (err e) l q = q

  fetched :
      {A : Type 0} (n : ℕ) (l : L d codec client pipeline settings polls laws)
      (r : Result client.Failure A) (s : client.State)
      → polls s < n
      → Good d codec client pipeline settings
          (λ _. Has n)
          (λ l. Unit)
          (of_client d codec client pipeline settings l (r, s)).0
          (of_client d codec client pipeline settings l (r, s)).1
  fetched n l (ok a) s h = h
  fetched n l (err e) s h = (tt, λ x. absurd (cc))

  getmany-Has :
      (n : ℕ)
      → 0 < n
      → Ends (Has (suc n)) (λ _. Has n) (ask d codec client pipeline settings client.getmany)
  unfolding ask
  getmany-Has n h = record {
    at = λ l q.
        fetched n l (client.getmany l.state).0 (client.getmany l.state).1
          (omega (arith, h, q, laws.used l.state));
  }

  poll-Used : (n k : ℕ) → Ends (Has (suc n)) (Used n) (poll d codec client pipeline settings k)
  unfolding poll
  poll-Used n k = bind d codec client pipeline settings polls laws (Left n) (may_return-Left n k) at
    where
      at :
          (returns : Bool)
          → Ends (Left n returns) (Used n) (
              if returns
              then pure (finished k)
              else ask d codec client pipeline settings client.getmany >>= λ batch.
                  batch_loop d codec client pipeline settings batch k)
      at true = returned d codec client pipeline settings polls laws (finished k) (λ l q. tt)
      at false = with_poll n _ (λ h.
          bind d codec client pipeline settings polls laws (λ _. Has n) (getmany-Has n h)
            (λ batch. Has-Used n _ (
              EndsWith-raised d codec client pipeline settings _ _ (Has n) (λ l q. tt)
                (batch-Low d codec client pipeline settings polls laws n batch k))))

  result-Ends :
      (n : ℕ) (m : ℕ → M d codec client pipeline settings polls laws ℕ) (s : Step)
      → ((k : ℕ) → Ends (Has n) (λ _ l. Unit) (m k))
      → Ends (Used n s) (λ _ l. Unit) (result_or d codec client pipeline settings m s)
  unfolding result_or
  result-Ends n m (next k) h = h k
  result-Ends n m (finished k) h =
      returned d codec client pipeline settings polls laws k (λ l q. tt)

  poll_loop-Ends :
      (fuel k : ℕ)
      → Ends (Has fuel) (λ _ l. Unit) (poll_loop d codec client pipeline settings fuel k)
  unfolding poll_loop
  poll_loop-Ends zero k = record { at = λ l q. absurd (omega (arith, q)) }
  poll_loop-Ends (suc fuel) k =
      bind d codec client pipeline settings polls laws (Used fuel) (poll-Used fuel k)
        (λ s. result-Ends fuel _ s (poll_loop-Ends fuel))

  Good-NotStuck :
      (r : Result (LoopFault client.Failure) ℕ) (l : L d codec client pipeline settings polls laws)
      → Good d codec client pipeline settings (λ _ l. Unit) (λ l. Unit) r l
      → NotStuck r
  Good-NotStuck (ok a) l q x = absurd (cc)
  Good-NotStuck (err e) l q x = q.1 (cc)

  -- If the client stops within a number of polls, then with more fuel than that the loop ends: it
  -- returns its count or raises an exception, whatever the messages are and whatever the handler
  -- does.
  pub run_loop-NotStuck :
      (fuel : ℕ) (l : L d codec client pipeline settings polls laws)
      → polls l.state < fuel
      → NotStuck (run_archive_created_consumer_loop d codec client pipeline settings fuel l).0
  unfolding run_archive_created_consumer_loop
  run_loop-NotStuck fuel l h = Good-NotStuck _ _ ((poll_loop-Ends fuel 0).at l h)
