-- ===== src/Kafka/Wire/Parsed.antt =====
-- Which messages of the topic are events, and that every published event is one of them.
use memory_system.Shared.{
  ◌≡◌, ◌↔◌, ◌⊎◌, inl, inr, refl, sym, ap, ◌∙◌, String, Bool, true, false, ◌||◌, ◌&&◌, Option, none,
  some, List, [], ◌∷◌, All, if◌then◌else◌, str_eq, eq_iff, eq_refl, contains, either, arith,
}
use memory_system.Shared.Exec.{ok, err}
use memory_system.Extraction.Event.{ArchiveCreatedEvent, archive_created_event_type}
use memory_system.Kafka.Wire.{
  Codec, Loaded, object, other_value, malformed, archive_created_event_field_names, empty_id_fields,
  keys, get, all_in, to_payload, to_json_bytes, published_message, has_exact_keys, is_empty_field,
  any_empty, has_empty_id, parse_validated, parse_object, parse_loaded, parse_text,
  parse_archive_created_event_value, assert_decoded_key, assert_message_key_matches_user_id,
}

both : (a b : Bool) → (a && b) ≡ true → (a ≡ true) × (b ≡ true)
both true true e = (refl, refl)
both true false e = absurd (ground (arith, e))
both false b e = absurd (ground (arith, e))

neither : (a b : Bool) → (a || b) ≡ false → (a ≡ false) × (b ≡ false)
neither false false e = (refl, refl)
neither false true e = absurd (ground (arith, e))
neither true b e = absurd (ground (arith, e))

-- Every name of `xs` is in `ys`.
abbrev pub Included : List String → List String → Type 0
Included xs ys = (k : String) → contains xs k ≡ true → contains ys k ≡ true

all_in-Included : (xs ys : List String) → all_in xs ys ≡ true → Included xs ys
all_in-Included [] ys h k e = absurd (ground (arith, e))
all_in-Included (x ∷ xs) ys h k e =
    at (all_in-Included xs ys (both (contains ys x) (all_in xs ys) h).1 k)
      (either (str_eq x k) (contains xs k) e)
  where
    at :
        (contains xs k ≡ true → contains ys k ≡ true)
        → (str_eq x k ≡ true) ⊎ (contains xs k ≡ true)
        → contains ys k ≡ true
    at rest (inl q) =
        sym (ap (contains ys) ((eq_iff x k).0 q)) ∙ (both (contains ys x) (all_in xs ys) h).0
    at rest (inr q) = rest q

Included-all_in : (xs ys : List String) → Included xs ys → all_in xs ys ≡ true
Included-all_in [] ys h = refl
Included-all_in (x ∷ xs) ys h =
    rw (h x (rw (eq_refl x)), Included-all_in xs ys (λ k e. h k (at k (str_eq x k) e)))
  where
    at : (k : String) (b : Bool) → contains xs k ≡ true → (b || contains xs k) ≡ true
    at k true e = refl
    at k false e = e

module _ (codec : Codec) where
  -- The message is an event: JSON in UTF-8 of an object with exactly the six fields, no empty id and
  -- the type of the topic.
  pub record IsEvent (value : codec.Bytes) (e : ArchiveCreatedEvent) : Type 0 where
    pub text : String
    pub payload : List (String × codec.Value)
    pub decoded : codec.decode value ≡ some text
    pub loaded : codec.loads text ≡ some (object payload)
    pub only_fields : Included (keys payload) archive_created_event_field_names
    pub all_fields : Included archive_created_event_field_names (keys payload)
    pub no_empty_id : All (λ f. is_empty_field codec (get payload f) ≡ false) empty_id_fields
    pub validated : codec.model_validate payload ≡ some e
    pub typed : e.event_type ≡ archive_created_event_type

  any_empty-All :
      (fs : List String) (p : List (String × codec.Value))
      → any_empty codec fs p ≡ false
      → All (λ f. is_empty_field codec (get p f) ≡ false) fs
  any_empty-All [] p e = tt
  any_empty-All (f ∷ fs) p e =
      let (x, y) = neither (is_empty_field codec (get p f)) (any_empty codec fs p) e in
      (x, any_empty-All fs p y)

  All-any_empty :
      (fs : List String) (p : List (String × codec.Value))
      → All (λ f. is_empty_field codec (get p f) ≡ false) fs
      → any_empty codec fs p ≡ false
  All-any_empty [] p h = refl
  All-any_empty (f ∷ fs) p (x, y) = rw (x, All-any_empty fs p y)

  validated_event :
      (o : Option ArchiveCreatedEvent) (e : ArchiveCreatedEvent)
      → parse_validated codec o ≡ ok e
      → (o ≡ some e) × (e.event_type ≡ archive_created_event_type)
  unfolding parse_validated
  validated_event none e h = absurd (cc)
  validated_event (some x) e h = at (str_eq x.event_type archive_created_event_type) refl h
    where
      at :
          (b : Bool)
          → str_eq x.event_type archive_created_event_type ≡ b
          → (if b then ok x else err malformed) ≡ ok e
          → (some x ≡ some e) × (e.event_type ≡ archive_created_event_type)
      at true q h = (cc, cc ((eq_iff _ _).0 q))
      at false q h = absurd (cc)

  object-IsEvent :
      (value : codec.Bytes) (t : String) (p : List (String × codec.Value)) (e : ArchiveCreatedEvent)
      → codec.decode value ≡ some t
      → codec.loads t ≡ some (object p)
      → parse_object codec p ≡ ok e
      → IsEvent value e
  unfolding parse_object has_exact_keys has_empty_id
  object-IsEvent value t p e d l h = at (has_exact_keys codec p) refl (has_empty_id codec p) refl h
    where
      at :
          (b : Bool)
          → has_exact_keys codec p ≡ b
          → (c : Bool) → has_empty_id codec p ≡ c
          → (if b
              then (if c then err malformed else parse_validated codec (codec.model_validate p))
              else err malformed)
            ≡ ok e
          → IsEvent value e
      at true k false n h =
          let (x, y) = both (all_in (keys p) archive_created_event_field_names) _ k in
          let (v, q) = validated_event (codec.model_validate p) e h in
          record {
            text = t;
            payload = p;
            decoded = d;
            loaded = l;
            only_fields = all_in-Included (keys p) archive_created_event_field_names x;
            all_fields = all_in-Included archive_created_event_field_names (keys p) y;
            no_empty_id = any_empty-All empty_id_fields p n;
            validated = v;
            typed = q;
          }
      at true k true n h = absurd (cc)
      at false k c n h = absurd (cc)

  loaded-IsEvent :
      (value : codec.Bytes) (t : String) (o : Option (Loaded codec.Value)) (e : ArchiveCreatedEvent)
      → codec.decode value ≡ some t
      → codec.loads t ≡ o
      → parse_loaded codec o ≡ ok e
      → IsEvent value e
  unfolding parse_loaded
  loaded-IsEvent value t none e d l h = absurd (cc)
  loaded-IsEvent value t (some other_value) e d l h = absurd (cc)
  loaded-IsEvent value t (some (object p)) e d l h = object-IsEvent value t p e d l h

  text-IsEvent :
      (value : codec.Bytes) (o : Option String) (e : ArchiveCreatedEvent)
      → codec.decode value ≡ o
      → parse_text codec o ≡ ok e
      → IsEvent value e
  unfolding parse_text
  text-IsEvent value none e d h = absurd (cc)
  text-IsEvent value (some t) e d h = loaded-IsEvent value t _ e d refl h

  event_parsed :
      (value : codec.Bytes) (e : ArchiveCreatedEvent)
      → IsEvent value e
      → parse_archive_created_event_value codec value ≡ ok e
  unfolding parse_archive_created_event_value parse_text parse_loaded parse_object parse_validated
      has_exact_keys has_empty_id
  event_parsed value e h = rw (
    h.decoded,
    h.loaded,
    Included-all_in (keys h.payload) _ h.only_fields,
    Included-all_in _ (keys h.payload) h.all_fields,
    All-any_empty empty_id_fields h.payload h.no_empty_id,
    h.validated,
    (eq_iff e.event_type archive_created_event_type).1 h.typed,
  )

  -- The consumer reads an event from a message exactly when the message is JSON in UTF-8 of an object
  -- that has the six fields and no others, no empty id, passes the validation of the model, and has
  -- the event type of the topic.
  pub parse-IsEvent :
      (value : codec.Bytes) (e : ArchiveCreatedEvent)
      → (parse_archive_created_event_value codec value ≡ ok e) ↔ IsEvent value e
  unfolding parse_archive_created_event_value
  parse-IsEvent value e = (text-IsEvent value (codec.decode value) e refl, event_parsed value e)

  -- What Python's codecs and pydantic document, for one event: what is encoded and dumped is read
  -- back, `==` compares texts, and the payload of an event is valid and gives the event.
  pub record IsReadable (e : ArchiveCreatedEvent) : Type 0 where
    pub decode-encode : (s : String) → codec.decode (codec.encode s) ≡ some s
    pub loads-dumps :
        codec.loads (codec.dumps (to_payload codec e)) ≡ some (object (to_payload codec e))
    pub empty_text : (s : String) → codec.is_empty_text (codec.of_text s) ≡ str_eq s ""
    pub validate-payload : codec.model_validate (to_payload codec e) ≡ some e

  -- If the codecs read it back, an event with the type of the topic and no empty id is parsed from the message that the
  -- publisher sends for it, and the key of that message is accepted.
  pub parse-published_message :
      (e : ArchiveCreatedEvent)
      → IsReadable e
      → e.event_type ≡ archive_created_event_type
      → str_eq e.archive_id "" ≡ false
      → str_eq e.user_id "" ≡ false
      → str_eq e.event_id "" ≡ false
      → str_eq e.session_id "" ≡ false
      → (parse_archive_created_event_value codec (published_message codec e).1 ≡ ok e)
        × (assert_message_key_matches_user_id codec (some (published_message codec e).0) e ≡ ok tt)
  unfolding published_message to_json_bytes assert_message_key_matches_user_id assert_decoded_key
      to_payload
  parse-published_message e laws t a u v s = (
    event_parsed _ e (record {
      text = codec.dumps (to_payload codec e);
      payload = to_payload codec e;
      decoded = laws.decode-encode _;
      loaded = laws.loads-dumps;
      only_fields =
          all_in-Included (keys (to_payload codec e)) archive_created_event_field_names refl;
      all_fields =
          all_in-Included archive_created_event_field_names (keys (to_payload codec e)) refl;
      no_empty_id = (
        laws.empty_text _ ∙ a,
        (laws.empty_text _ ∙ u, (laws.empty_text _ ∙ v, (laws.empty_text _ ∙ s, tt))),
      );
      validated = laws.validate-payload;
      typed = t;
    }),
    rw (laws.decode-encode e.user_id, eq_refl e.user_id),
  )
