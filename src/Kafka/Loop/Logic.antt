-- ===== src/Kafka/Loop/Logic.antt =====
-- Rules for the loop: what a question to the client keeps, and what the loop keeps when every record
-- does.
use memory_system.Shared.{
  ℕ, zero, suc, ◌≡◌, refl, Bool, true, false, Option, none, some, List, [], ◌∷◌, if◌then◌else◌,
}
use memory_system.Shared.Exec.{Result, ok, err, Exec, pure, ◌>>=◌}
use memory_system.Shared.Triples.{
  Runs, OnEnd, Runs-pure, Runs-raise, Runs-bind, Runs-if, Runs-weaken, Runs-raised, Runs-pre,
}
use memory_system.Extraction.Event.{ArchiveCreatedEvent}
use memory_system.Extraction.Task.{Task}
use memory_system.Extraction.World.{Deployment, Action}
use memory_system.Extraction.Consumer.{PipelineTerminalDecision}
use memory_system.Kafka.Wire.{Codec}
use memory_system.Kafka.Loop.{
  ConsumerRecord, stuck, Client, LoopSettings, Step, next, finished, Loop, Looping, of_client, ask,
  reached, handle_record, unless_finished, records_loop, batch_loop, is_idle, may_return, poll,
  result_or, poll_loop, run_archive_created_consumer_loop,
}

module _ (d : Deployment) (codec : Codec) (client : Client codec.Bytes d.collection.Db)
    (pipeline : Task → ArchiveCreatedEvent → Action d PipelineTerminalDecision)
    (settings : LoopSettings) where
  abbrev pub L : Type 0
  L = Loop d codec client pipeline settings

  of_client-Runs :
      {A : Type 0} (P : L → Type 0) (l : L) (r : Result client.Failure A) (s : client.State)
      → P (record l { state = s })
      → OnEnd
          (λ _. P)
          P
          (of_client d codec client pipeline settings l (r, s)).0
          (of_client d codec client pipeline settings l (r, s)).1
  of_client-Runs P l (ok a) s h = h
  of_client-Runs P l (err e) s h = h

  -- What a call of the client leaves of its state keeps `P`.
  abbrev pub Bears : {A : Type 0} → (L → Type 0) → Exec client.State client.Failure A → Type 0
  Bears P m = (l : L) → P l → P (record l { state = (m l.state).1 })

  pub ask-Runs :
      {A : Type 0} (P : L → Type 0) (m : Exec client.State client.Failure A)
      → Bears P m
      → Runs P (λ _. P) P (ask d codec client pipeline settings m)
  unfolding ask
  ask-Runs P m i = record { at = λ l p. of_client-Runs P l (m l.state).0 (m l.state).1 (i l p) }

  -- `I` holds before every record and `F` between two polls, with the count of processed records; `X`
  -- holds whenever they do.
  module _ (I F : ℕ → L → Type 0) where
    abbrev pub Stepped : Step → L → Type 0
    Stepped (next n) l = I n l
    Stepped (finished n) l = F n l

  module _ (I F : ℕ → L → Type 0) (X : L → Type 0) (polls : (n : ℕ) → Bears (I n) client.getmany)
      (stops : (n : ℕ) → Bears (F n) client.should_stop)
      (reads : (n : ℕ) → Bears (F n) client.monotonic) (leave : (n : ℕ) (l : L) → I n l → F n l)
      (raised : (n : ℕ) (l : L) → F n l → X l)
      (enter : (n : ℕ) (l : L)
        → reached d codec client pipeline settings settings.max_records n ≡ false
        → F n l
        → I n l) where
    abbrev At : Step → L → Type 0
    At = Stepped I F

    module _
        (each : (r : ConsumerRecord codec.Bytes) (n : ℕ)
          → Runs (I n) At X (handle_record d codec client pipeline settings r n)) where
      unless-Runs :
          (m : ℕ → Looping d codec client pipeline settings Step) (s : Step)
          → ((n : ℕ) → Runs (I n) At X (m n))
          → Runs (At s) At X (unless_finished d codec client pipeline settings m s)
      unfolding unless_finished
      unless-Runs m (next n) h = h n
      unless-Runs m (finished n) h = Runs-pure _ (λ l q. q)

      records-Runs :
          (rs : List (ConsumerRecord codec.Bytes)) (n : ℕ)
          → Runs (I n) At X (records_loop d codec client pipeline settings rs n)
      unfolding records_loop
      records-Runs [] n = Runs-pure _ (λ l q. q)
      records-Runs (r ∷ rs) n =
          Runs-bind At _ _ _ (each r n) (λ s. unless-Runs _ s (records-Runs rs))

      batch-Runs :
          (batch : List (List (ConsumerRecord codec.Bytes))) (n : ℕ)
          → Runs (I n) At X (batch_loop d codec client pipeline settings batch n)
      unfolding batch_loop
      batch-Runs [] n = Runs-pure _ (λ l q. q)
      batch-Runs (rs ∷ batch) n =
          Runs-bind At _ _ _ (records-Runs rs n) (λ s. unless-Runs _ s (batch-Runs batch))

      between :
          {A : Type 0} (n : ℕ) (m : Exec client.State client.Failure A)
          → Bears (F n) m
          → Runs (F n) (λ _. F n) X (ask d codec client pipeline settings m)
      between n m b = Runs-raised (raised n) (ask-Runs (F n) m b)

      idle-Runs :
          (n : ℕ) (o : Option ℕ)
          → Runs (F n) (λ _. F n) X (is_idle d codec client pipeline settings o)
      unfolding is_idle
      idle-Runs n none = Runs-pure _ (λ l q. q)
      idle-Runs n (some t) =
          Runs-bind (λ _. F n) _ _ _ (between n client.monotonic (reads n))
            (λ now. Runs-pure _ (λ l q. q))

      -- A poll that may not return has not reached the limit.
      abbrev Unreached : ℕ → Bool → L → Type 0
      Unreached n b l =
          (b ≡ false → reached d codec client pipeline settings settings.max_records n ≡ false)
          × F n l

      idle-Unreached :
          (n : ℕ) (b : Bool)
          → reached d codec client pipeline settings settings.max_records n ≡ b
          → Runs (F n) (Unreached n) X (
              if b
              then pure true
              else is_idle d codec client pipeline settings settings.idle_deadline_monotonic)
      idle-Unreached n true e = Runs-pure true (λ l q. ((λ x. absurd (cc)), q))
      idle-Unreached n false e =
          Runs-weaken (λ b l q. ((λ x. e), q)) (idle-Runs n settings.idle_deadline_monotonic)

      may_return-Runs :
          (n : ℕ) → Runs (F n) (Unreached n) X (may_return d codec client pipeline settings n)
      unfolding may_return
      may_return-Runs n =
          Runs-bind (λ _. F n) _ _ _ (between n client.should_stop (stops n))
            (λ stop.
              Runs-if stop _ _ (Runs-pure true (λ l q. ((λ x. absurd (cc)), q)))
                (idle-Unreached n _ refl))

      polled :
          (n : ℕ) (b : Bool)
          → Runs (Unreached n b) At X (
              if b
              then pure (finished n)
              else ask d codec client pipeline settings client.getmany >>= λ batch.
                  batch_loop d codec client pipeline settings batch n)
      polled n true = Runs-pure _ (λ l q. q.1)
      polled n false =
          Runs-pre (λ l q. enter n l (q.0 refl) q.1)
            (Runs-bind (λ _. I n) _ _ _
              (Runs-raised (λ l q. raised n l (leave n l q)) (ask-Runs (I n) _ (polls n)))
              (λ batch. batch-Runs batch n))

      poll-Runs : (n : ℕ) → Runs (F n) At X (poll d codec client pipeline settings n)
      unfolding poll
      poll-Runs n = Runs-bind (Unreached n) _ _ _ (may_return-Runs n) (polled n)

      result-Runs :
          (m : ℕ → Looping d codec client pipeline settings ℕ) (s : Step)
          → ((n : ℕ) → Runs (F n) F X (m n))
          → Runs (At s) F X (result_or d codec client pipeline settings m s)
      unfolding result_or
      result-Runs m (next n) h = Runs-pre (leave n) (h n)
      result-Runs m (finished n) h = Runs-pure n (λ l q. q)

      poll_loop-Runs :
          (fuel n : ℕ) → Runs (F n) F X (poll_loop d codec client pipeline settings fuel n)
      unfolding poll_loop
      poll_loop-Runs zero n = Runs-raise stuck (raised n)
      poll_loop-Runs (suc fuel) n =
          Runs-bind At _ _ _ (poll-Runs n) (λ s. result-Runs _ s (poll_loop-Runs fuel))

      pub loop-Runs :
          (fuel : ℕ)
          → Runs (F 0) F X (run_archive_created_consumer_loop d codec client pipeline settings fuel)
      unfolding run_archive_created_consumer_loop
      loop-Runs fuel = poll_loop-Runs fuel 0
