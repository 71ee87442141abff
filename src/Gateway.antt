-- ===== src/Gateway.antt =====
-- src/gateway/openclaw.js: the text that a device signs, and the frames between a client and the gateway. Keys and
-- signatures, the socket and telemetry are left out; `JSON.parse` has given the frames.
pub mod Signed
pub mod Requests
use nvidia_omoda.Prelude.{
  ℕ, ◌+◌, String, Bool, true, false, not, ◌&&◌, Option, none, some, List, [], ◌∷◌, ◌++◌, ◌==◌,
  if◌then◌else◌, get_or, is_some, map, any, includes,
}
use nvidia_omoda.Prelude.Dict.{get, put, del}
use nvidia_omoda.Prelude.Print.{print_number}
use nvidia_omoda.Prelude.Split.{join_on}
use nvidia_omoda.Json.{Value, undef, str, obj, end}
use nvidia_omoda.Api.Intents.{nullish}

pub record Device : Type 0 where
  pub device_id : String
  pub client_id : String
  pub client_mode : String
  pub role : String
  pub scopes : List String
  pub signed_at : ℕ
  pub token : Option String
  pub nonce : String
  pub platform : String
  pub family : String

-- The fields of `buildDeviceAuthPayloadV3`, with the platform and the family trimmed by the caller.
abbrev pub payload_fields : Device → List String
unfolding join_on print_number
payload_fields d =
    d.device_id
    ∷ d.client_id
    ∷ d.client_mode
    ∷ d.role
    ∷ join_on "," d.scopes
    ∷ print_number (d.signed_at + 1) d.signed_at
    ∷ get_or d.token ""
    ∷ d.nonce
    ∷ d.platform
    ∷ d.family
    ∷ []

unfoldable pub auth_payload : Device → String
unfolding join_on print_number
auth_payload d = join_on "|" ("v3" ∷ payload_fields d)

-- A frame of the gateway: an event with its name and nonce, an answer with the id of a request, or another;
-- the JSON null, on which the handler throws, is left out.
pub data Frame : Type 0 where
  event : String → Option String → Frame
  answer : String → Bool → Value → Value → Option String → Frame
  unread : Frame

-- How a request ended, or the challenge.
pub data Settled : Type 0 where
  resolved : Value → Settled
  rejected : String → Settled

-- `pending` holds the ids of the requests that wait for an answer, the latest first, `settled` what the callers were told: a promise
-- takes its first outcome only. `challenge` is the nonce of the challenge, or the error that came before it.
pub record Client : Type 0 where
  pub pending : List String
  pub settled : List (String × Settled)
  pub challenge : Option Settled
  pub events : List Frame

abbrev pub new_client : Client
new_client = record { pending = []; settled = []; challenge = none; events = [] }

abbrev pub without : String → List String → List String
without id [] = []
without id (x ∷ l) = if x == id then without id l else x ∷ without id l

-- Settling a promise.
unfoldable pub settle : String → Settled → List (String × Settled) → List (String × Settled)
unfolding get put
settle id r m = elim (get id m) [ none ↦ put id r m | some old ↦ m ]

unfoldable pub settle_all :
    Settled → List String → List (String × Settled) → List (String × Settled)
unfolding settle
settle_all r [] m = m
settle_all r (id ∷ l) m = settle_all r l (settle id r m)

abbrev nonce_value : Option String → Value
nonce_value none = undef
nonce_value (some s) = str s

abbrev pub first : Option Settled → Settled → Option Settled
first none r = some r
first (some old) r = some old

abbrev pub outcome : Bool → Value → Value → Option String → Settled
outcome ok payload result message =
    if ok
    then resolved (nullish payload (nullish result (obj end)))
    else rejected (get_or message "gateway request failed")

-- `handle`, for a frame that parses.
unfoldable pub handle : Frame → Client → Client
unfolding settle
handle (event name nonce) c = record c {
  events = c.events ++ event name nonce ∷ [];
  challenge =
      if name == "connect.challenge"
      then first c.challenge (resolved (nonce_value nonce))
      else c.challenge;
}
handle (answer id ok payload result message) c =
    if includes c.pending id
    then record c {
      pending = without id c.pending;
      settled = settle id (outcome ok payload result message) c.settled;
    }
    else c
handle unread c = c

-- `failAll`.
unfoldable pub fail_all : String → Client → Client
unfolding settle_all
fail_all message c = record c {
  pending = [];
  settled = settle_all (rejected message) c.pending c.settled;
  challenge = first c.challenge (rejected message);
}

-- What happens to a client that is open: a request is sent, a frame comes, a request's time is up, or the socket closes.
pub data Step : Type 0 where
  request closed : String → Step
  timed_out : String → String → Step
  received : Frame → Step

-- A request whose time is up stays among those that are pending.
unfoldable pub step : Step → Client → Client
unfolding handle settle fail_all
step (request id) c = record c { pending = id ∷ c.pending }
step (timed_out id message) c = record c { settled = settle id (rejected message) c.settled }
step (received f) c = handle f c
step (closed message) c = fail_all message c
