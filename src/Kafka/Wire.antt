-- ===== src/Kafka/Wire.antt =====
-- src/memory_system/infrastructure/kafka/archive_created_publisher.py and the parsing of a message in
-- src/memory_system/infrastructure/kafka/archive_created_consumer.py. The codecs of Python and the
-- validation of pydantic are a parameter; the text of an error is left out.
pub mod Parsed
use memory_system.Shared.{
  ℕ, ◌≡◌, String, Bool, true, false, ◌||◌, ◌&&◌, Option, none, some, List, [], ◌∷◌, if◌then◌else◌,
  str_eq, contains,
}
use memory_system.Shared.Int.{ℤ}
use memory_system.Shared.Exec.{Result, ok, err}
use memory_system.Extraction.Event.{ArchiveCreatedEvent, archive_created_event_type}

-- What `json.loads` returns: a dict, as its items with distinct keys, or any other value.
pub data Loaded (V : Type 0) : Type 0 where
  object : List (String × V) → Loaded V
  other_value : Loaded V

-- `Value` is a value of a dict. `loads` and `model_validate` answer `none` where they raise
-- `JSONDecodeError` and `ValidationError`, and `decode` where it raises `UnicodeDecodeError`.
pub record Codec : Type 1 where
  pub Bytes : Type 0
  pub Value : Type 0
  pub encode : String → Bytes
  pub decode : Bytes → Option String
  pub of_text : String → Value
  pub of_int : ℤ → Value
  -- value == ""
  pub is_empty_text : Value → Bool
  pub loads : String → Option (Loaded Value)
  pub dumps : List (String × Value) → String
  pub model_validate : List (String × Value) → Option ArchiveCreatedEvent

-- `MalformedArchiveCreatedEventError` and `ArchiveCreatedKeyMismatchError`.
pub data Rejection : Type 0 where
  malformed key_mismatch : Rejection

abbrev pub archive_created_event_field_names : List String
archive_created_event_field_names =
    "event_id" ∷ "event_type" ∷ "archive_id" ∷ "user_id" ∷ "session_id" ∷ "created_time" ∷ []

abbrev pub empty_id_fields : List String
empty_id_fields = "archive_id" ∷ "user_id" ∷ "event_id" ∷ "session_id" ∷ []

module _ {V : Type 0} where
  abbrev pub keys : List (String × V) → List String
  keys [] = []
  keys ((k, v) ∷ p) = k ∷ keys p

  -- payload.get(field)
  abbrev pub get : List (String × V) → String → Option V
  get [] field = none
  get ((k, v) ∷ p) field = if str_eq k field then some v else get p field

abbrev pub all_in : List String → List String → Bool
all_in [] ys = true
all_in (x ∷ xs) ys = contains ys x && all_in xs ys

module _ (codec : Codec) where
  unfoldable pub to_payload : ArchiveCreatedEvent → List (String × codec.Value)
  to_payload e =
      ("event_id", codec.of_text e.event_id)
      ∷ ("event_type", codec.of_text e.event_type)
      ∷ ("archive_id", codec.of_text e.archive_id)
      ∷ ("user_id", codec.of_text e.user_id)
      ∷ ("session_id", codec.of_text e.session_id)
      ∷ ("created_time", codec.of_int e.created_time)
      ∷ []

  unfoldable pub to_json_bytes : ArchiveCreatedEvent → codec.Bytes
  to_json_bytes e = codec.encode (codec.dumps (to_payload e))

  -- The key and the value that `send_and_wait` is given.
  unfoldable pub published_message : ArchiveCreatedEvent → codec.Bytes × codec.Bytes
  published_message e = (codec.encode e.user_id, to_json_bytes e)

  unfoldable pub has_exact_keys : List (String × codec.Value) → Bool
  has_exact_keys p =
      all_in (keys p) archive_created_event_field_names
      && all_in archive_created_event_field_names (keys p)

  abbrev pub is_empty_field : Option codec.Value → Bool
  is_empty_field none = false
  is_empty_field (some v) = codec.is_empty_text v

  abbrev pub any_empty : List String → List (String × codec.Value) → Bool
  any_empty [] p = false
  any_empty (f ∷ fs) p = is_empty_field (get p f) || any_empty fs p

  unfoldable pub has_empty_id : List (String × codec.Value) → Bool
  has_empty_id p = any_empty empty_id_fields p

  unfoldable pub parse_validated : Option ArchiveCreatedEvent → Result Rejection ArchiveCreatedEvent
  parse_validated none = err malformed
  parse_validated (some e) =
      if str_eq e.event_type archive_created_event_type then ok e else err malformed

  unfoldable pub parse_object : List (String × codec.Value) → Result Rejection ArchiveCreatedEvent
  parse_object p =
      if has_exact_keys p
      then (if has_empty_id p then err malformed else parse_validated (codec.model_validate p))
      else err malformed

  unfoldable pub parse_loaded : Option (Loaded codec.Value) → Result Rejection ArchiveCreatedEvent
  parse_loaded none = err malformed
  parse_loaded (some other_value) = err malformed
  parse_loaded (some (object p)) = parse_object p

  unfoldable pub parse_text : Option String → Result Rejection ArchiveCreatedEvent
  parse_text none = err malformed
  parse_text (some t) = parse_loaded (codec.loads t)

  unfoldable pub parse_archive_created_event_value :
      codec.Bytes → Result Rejection ArchiveCreatedEvent
  parse_archive_created_event_value value = parse_text (codec.decode value)

  unfoldable pub assert_decoded_key : Option String → ArchiveCreatedEvent → Result Rejection Unit
  assert_decoded_key none e = err key_mismatch
  assert_decoded_key (some s) e = if str_eq s e.user_id then ok tt else err key_mismatch

  unfoldable pub assert_message_key_matches_user_id :
      Option codec.Bytes → ArchiveCreatedEvent → Result Rejection Unit
  assert_message_key_matches_user_id none e = err key_mismatch
  assert_message_key_matches_user_id (some k) e = assert_decoded_key (codec.decode k) e
