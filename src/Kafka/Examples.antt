-- ===== src/Kafka/Examples.antt =====
-- Runs of the consumer loop with a client that keeps the number of polls left.
use memory_system.Shared.{
  ℕ, zero, suc, ◌-◌, ◌≡◌, ◌≤◌, ◌<◌, ◌↔◌, ◌⊎◌, inl, inr, refl, String, Bool, true, false, none, some,
  List, [], ◌∷◌, arith, str_eq, length,
}
use memory_system.Shared.Int.{ℤ}
use memory_system.Shared.Exec.{ok}
use memory_system.Shared.Triples.{Runs, OnEnd}
use memory_system.Extraction.Fake.{Documents}
use memory_system.Extraction.Examples.{service, completing, event, start}
use memory_system.Kafka.Wire.{
  Codec, object, to_payload, published_message, parse_archive_created_event_value,
  assert_message_key_matches_user_id,
}
use memory_system.Kafka.Wire.Parsed.{IsEvent, parse-IsEvent, IsReadable, parse-published_message}
use memory_system.Kafka.Loop.{
  ConsumerRecord, Client, LoopSettings, Loop, run_archive_created_consumer_loop,
}
use memory_system.Kafka.Loop.Commits.{Earned, Respects, run_loop-Earned}
use memory_system.Kafka.Loop.Counts.{Counted, run_loop-Counted}
use memory_system.Kafka.Loop.Ends.{StopsWithin}
use memory_system.Kafka.Loop.Stops.{NotStuck, run_loop-NotStuck}

-- The values of a payload: texts and numbers.
abbrev Item : Type 0
Item = String ⊎ ℤ

abbrev is_blank : Item → Bool
is_blank (inl s) = str_eq s ""
is_blank (inr n) = false

-- A codec for the payload of `event` alone.
abbrev payload : List (String × Item)
payload =
    ("event_id", inl event.event_id)
    ∷ ("event_type", inl event.event_type)
    ∷ ("archive_id", inl event.archive_id)
    ∷ ("user_id", inl event.user_id)
    ∷ ("session_id", inl event.session_id)
    ∷ ("created_time", inr event.created_time)
    ∷ []

abbrev codec : Codec
codec = record {
  Bytes = String;
  Value = Item;
  encode = λ s. s;
  decode = λ s. some s;
  of_text = inl;
  of_int = inr;
  is_empty_text = is_blank;
  loads = λ t. some (object payload);
  dumps = λ p. "event";
  model_validate = λ p. some event;
}

event-IsReadable : IsReadable codec event
unfolding to_payload
event-IsReadable = record {
  decode-encode = λ s. refl;
  loads-dumps = refl;
  empty_text = λ s. refl;
  validate-payload = refl;
}

parse-IsEvent_example :
    (parse_archive_created_event_value codec "event" ≡ ok event) ↔ IsEvent codec "event" event
parse-IsEvent_example = parse-IsEvent codec "event" event

parse-published_message_example :
    (parse_archive_created_event_value codec (published_message codec event).1 ≡ ok event)
    × (assert_message_key_matches_user_id codec (some (published_message codec event).0) event
        ≡ ok tt)
parse-published_message_example =
    parse-published_message codec event event-IsReadable refl refl refl refl refl

abbrev message : ℕ → ConsumerRecord String
message n = record {
  topic = "archives";
  partition = 0;
  offset = n;
  key = some event.user_id;
  value = "event";
}

abbrev stops_at : ℕ → Bool
stops_at zero = true
stops_at (suc n) = false

abbrev batch_of : ℕ → List (List (ConsumerRecord String))
batch_of zero = []
batch_of (suc n) = (message n ∷ []) ∷ []

abbrev client : Client String Documents
client = record {
  State = ℕ;
  Failure = Bool;
  should_stop = λ s. (ok (stops_at s), s);
  monotonic = λ s. (ok s, s);
  get_shutdown_started = λ s. (ok none, s);
  getmany = λ s. (ok (batch_of s), s - 1);
  commit = λ topic partition offset s. (ok true, s);
  on_record = λ r b s. (ok b, s);
  cuts = λ n s. false;
  cancelled = λ r w. w;
  is_timeout = λ e. false;
}

abbrev two_records : LoopSettings
two_records = record {
  max_records = some 2;
  idle_deadline_monotonic = none;
  shutdown_timeout_seconds = 30;
}

abbrev loop : Loop service codec client completing two_records
loop = record { world = start; state = 3; commits = [] }

client-Respects : Respects service codec client (λ s. s ≤ 3)
client-Respects = record {
  should_stop = λ s h. h;
  monotonic = λ s h. h;
  get_shutdown_started = λ s h. h;
  getmany = λ s h. omega (arith, h);
  on_record = λ r b s h. h;
  commit = λ r w s settled h. h;
}

run_loop-Earned_example :
    Runs
      (Earned service codec client completing two_records (λ s. s ≤ 3))
      (λ n. Earned service codec client completing two_records (λ s. s ≤ 3))
      (Earned service codec client completing two_records (λ s. s ≤ 3))
      (run_archive_created_consumer_loop service codec client completing two_records 4)
run_loop-Earned_example =
    run_loop-Earned service codec client completing two_records (λ s. s ≤ 3) client-Respects 4

run_loop-Counted_example :
    Runs
      (λ l. length l.commits ≡ 0)
      (Counted service codec client completing two_records 0)
      (λ l. Unit)
      (run_archive_created_consumer_loop service codec client completing two_records 4)
run_loop-Counted_example = run_loop-Counted service codec client completing two_records 0 4

stops :
    (s : ℕ)
    → OnEnd
        (λ b s'. (b ≡ true) ⊎ ((0 < s') × (s' ≤ s)))
        (λ _. Unit)
        (client.should_stop s).0
        (client.should_stop s).1
stops zero = inl refl
stops (suc n) = inr (omega arith, omega arith)

client-StopsWithin : StopsWithin client (λ s. s)
client-StopsWithin = record {
  stops = stops;
  used = λ s. omega arith;
  after_monotonic = λ s. omega arith;
  after_started = λ s. omega arith;
  after_commit = λ r s. omega arith;
  after_on_record = λ r b s. omega arith;
}

run_loop-NotStuck_example :
    NotStuck
      (run_archive_created_consumer_loop service codec client completing two_records 4 loop).0
run_loop-NotStuck_example =
    run_loop-NotStuck service codec client completing two_records (λ s. s) client-StopsWithin 4 loop
      (omega arith)
