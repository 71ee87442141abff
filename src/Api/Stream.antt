-- ===== src/Api/Stream.antt =====
-- The ingest of src/api/stream.js: which events of a feed become intents. `parse` of the schema has
-- been done, `payload_text` is the JSON text of a payload, `iso` prints a time.
pub mod Bounded
pub mod Once
use nvidia_omoda.Prelude.{
  ℕ, suc, ◌+◌, ◌-◌, ◌*◌, String, Bool, true, false, not, ◌&&◌, Option, none, some, List, [], ◌∷◌,
  ◌==◌, if◌then◌else◌, get_or, is_some, includes, length, leb, ltb, drop,
}
use Prim.Native.String
use nvidia_omoda.Prelude.Dict.{get, put}
use nvidia_omoda.Prelude.Print.{print_number}
use nvidia_omoda.Prelude.Rx.{codes, starts_with, clip}
use nvidia_omoda.Json.{Value, Fields, undef, null, str, obj, object, end}
use nvidia_omoda.Ledger.{Ledger, Disk, append, set_field}
use nvidia_omoda.Api.Auth.{Token, Tokens, Nonces, purge, bearer, signature_window, distance}
use nvidia_omoda.Api.Intents.{Caller, Intents, Proposed, propose}

pub record Payload : Type 0 where
  pub detector : String
  pub class : Option String
  pub camera : Option String
  pub confidence : Value
  pub evidence : Fields
  pub requested_outcome : String

pub record Event : Type 0 where
  pub event_id : String
  pub ts : ℕ
  pub sig : String
  pub payload : Payload

pub record Last : Type 0 where
  pub at : ℕ
  pub intent_id : String
  pub occurrences : ℕ

pub record Ingest : Type 0 where
  pub seen_events : Nonces
  pub seen_content : Nonces
  pub last_by_key : List (String × Last)
  pub in_flight : ℕ

pub data Outcome : Type 0 where
  accepted : String → Outcome
  duplicate rejected : String → Outcome
  debounced : String → ℕ → Outcome
  shed : Outcome

pub data Entrance : Type 0 where
  entered : Token → Entrance
  unknown_token not_propose may_decide : Entrance

-- `accept`: the caller of a feed may propose, and may not decide.
unfoldable pub accept : Tokens → Option String → Entrance
unfolding get bearer
accept tokens authorization =
    let token = bearer authorization in
    if token == "" then unknown_token else elim (get token tokens) [
      | none ↦ unknown_token
      | some caller ↦
          if not (includes caller.scopes "intent:propose")
          then not_propose
          else if includes caller.scopes "intent:decide"
          then may_decide
          else entered caller
    ]

-- `release`.
abbrev pub release : Ingest → Ingest
release st = record st { in_flight = st.in_flight - 1 }

abbrev pub or_dash : Option String → String
or_dash o = get_or o "-"

-- The debounce key.
abbrev pub key_of : Payload → String
key_of p =
    String.◌++◌ p.detector
      (String.◌++◌ "|" (String.◌++◌ (or_dash p.camera) (String.◌++◌ "|" (or_dash p.class))))

abbrev pub text_or_undef : Option String → Value
text_or_undef none = undef
text_or_undef (some s) = str s

-- What `createEnvelope` of src/transport/envelope.js gives for a source, a direction and a modality that
-- it knows.
abbrev pub transport_envelope : String → String → String → String → String → Value
transport_envelope source direction modality key received = obj (
    object (
      ("source", str source)
      ∷ ("direction", str direction)
      ∷ ("modality", str modality)
      ∷ ("idempotency_key", str key)
      ∷ ("received_at", str received)
      ∷ []))

-- The check of that function on its three words.
unfoldable pub known_words : String → String → String → Bool
known_words source direction modality =
    includes ("stream" ∷ "api" ∷ "telegram" ∷ []) source
    && includes ("inbound" ∷ "outbound-dial" ∷ []) direction
    && includes ("json" ∷ "text" ∷ "voice" ∷ "video" ∷ []) modality

-- The oldest event is forgotten when there are too many.
abbrev pub bounded : ℕ → Nonces → Nonces
bounded max seen = if ltb max (length seen) then drop 1 seen else seen

module _ (hmac : String → String → String) (sha256 : List ℕ → String)
    (payload_text : Payload → String) (iso : ℕ → String) where
  -- `signEvent`.
  unfoldable pub sign_event : String → String → ℕ → Payload → String
  unfolding print_number
  sign_event secret event_id ts payload = String.◌++◌ "sha256=" (
      hmac secret (
        String.◌++◌ event_id (
          String.◌++◌ "."
            (String.◌++◌ (print_number (ts + 1) ts) (String.◌++◌ "." (payload_text payload))))))

  -- Why an event is turned down before it is looked up, if it is.
  unfoldable pub refusal : Event → Token → ℕ → Option Outcome
  unfolding sign_event
  refusal e caller now =
      if ltb signature_window (distance now (e.ts * 1000))
      then some (rejected "timestamp outside the accepted window")
      else if e.sig == sign_event caller.secret e.event_id e.ts e.payload
      then none
      else some (rejected "signature mismatch")

  unfoldable pub content_hash : Payload → String
  unfolding clip
  content_hash p = clip 24 (sha256 (codes (payload_text p)))

  -- Both sweeps.
  unfoldable pub swept : ℕ → Ingest → Ingest
  unfolding purge
  swept now st = record st {
    seen_events = purge now st.seen_events;
    seen_content = purge now st.seen_content;
  }

  unfoldable pub repeated : Event → Ingest → Option Outcome
  unfolding get content_hash
  repeated e st =
      if is_some (get e.event_id st.seen_events)
      then some (duplicate "event_id already seen")
      else if is_some (get (content_hash e.payload) st.seen_content)
      then some (duplicate "identical payload inside the window")
      else none

  -- The earlier intent of the same key, inside of the debounce time.
  unfoldable pub recent : ℕ → Payload → ℕ → Ingest → Option Last
  unfolding get
  recent debounce p now st = elim (get (key_of p) st.last_by_key) [
    | none ↦ none
    | some prior ↦ if ltb now (prior.at + debounce) then some prior else none
  ]

  unfoldable pub count_repeat : Event → Last → ℕ → Ingest → Ingest
  unfolding put
  count_repeat e prior now st = record st {
    seen_events = put e.event_id (now + signature_window) st.seen_events;
    last_by_key =
        put (key_of e.payload) (record prior { occurrences = prior.occurrences + 1 })
          st.last_by_key;
  }

  unfoldable pub remember_event : ℕ → ℕ → Event → ℕ → Ingest → Ingest
  unfolding put content_hash
  remember_event debounce max e now st = record st {
    seen_events = bounded max (put e.event_id (now + signature_window) st.seen_events);
    seen_content = put (content_hash e.payload) (now + debounce) st.seen_content;
  }

  unfoldable pub body_of : Event → Fields
  unfolding set_field
  body_of e = object (
      ("source", str "stream")
      ∷ ("kind", str "detection")
      ∷ ("detector", str e.payload.detector)
      ∷ ("confidence", e.payload.confidence)
      ∷ ("observed_at", str (iso (e.ts * 1000)))
      ∷ (
        "evidence",
        obj (
            set_field "class" (text_or_undef e.payload.class)
              (set_field "camera" (text_or_undef e.payload.camera) e.payload.evidence)),
      )
      ∷ ("requested_outcome", str e.payload.requested_outcome)
      ∷ [])

  unfoldable pub direction_of : Token → String
  unfolding starts_with
  direction_of caller =
      if starts_with (codes caller.id) (codes "stream:dial") then "outbound-dial" else "inbound"

  unfoldable pub admit :
      ℕ → String → Event → Token → ℕ → Ingest → Intents → Outcome × Ingest × Intents
  unfolding propose put body_of direction_of
  admit debounce id e caller now st intents =
      let proposal =
        propose id (iso now) (some e.event_id) (body_of e)
          (record { id = caller.id; scopes = some caller.scopes })
          (transport_envelope "stream" (direction_of caller) "json" e.event_id (iso now)) intents in
      (
        accepted proposal.intent,
        record st {
          in_flight = st.in_flight + 1;
          last_by_key =
              put (key_of e.payload)
                (record { at = now; intent_id = proposal.intent; occurrences = 1 }) st.last_by_key;
        },
        proposal.store,
      )

  module _ (debounce dedupe_max max_in_flight : ℕ) where
    -- An event that is neither turned down nor a repetition.
    unfoldable pub ingest_new :
        String → Event → Token → ℕ → Ingest → Intents → Outcome × Ingest × Intents
    unfolding admit remember_event recent count_repeat
    ingest_new id e caller now st intents = elim (recent debounce e.payload now st) [
      | some prior ↦
          (debounced prior.intent_id (prior.occurrences + 1), count_repeat e prior now st, intents)
      | none ↦
          if leb max_in_flight st.in_flight
          then (shed, st, intents)
          else admit debounce id e caller now (remember_event debounce dedupe_max e now st) intents
    ]

    -- `ingest` of an event that fits the schema.
    unfoldable pub ingest :
        String → Event → Token → ℕ → Ingest → Intents → Outcome × Ingest × Intents
    unfolding refusal swept repeated ingest_new
    ingest id e caller now st intents = elim (refusal e caller now) [
      | some no_way ↦ (no_way, st, intents)
      | none ↦ elim (repeated e (swept now st)) [
        | some again ↦ (again, swept now st, intents)
        | none ↦ ingest_new id e caller now (swept now st) intents
      ]
    ]

-- The record of an event that was shed, as far as it can be written.
unfoldable pub log_shed : (List ℕ → String) → Event → Token → String → Disk → Ledger → Ledger
unfolding append
log_shed sha256 e caller now disk ledger =
    (append sha256 ledger
      (object (
        ("kind", str "stream")
        ∷ ("agent", str caller.id)
        ∷ ("tool", str "stream.ingest")
        ∷ ("verb", str "read")
        ∷ ("outcome", str "shed")
        ∷ ("reason", str "queue full")
        ∷ ("eventId", str e.event_id)
        ∷ ("detector", str e.payload.detector)
        ∷ []))
      now disk).1
