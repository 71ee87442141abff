-- ===== src/Examples/Feed.antt =====
-- The event stream of src/api/stream.js at a concrete feed, the event bus and the admin portal.
use nvidia_omoda.Prelude.{ℕ, Bool, String, true, false, some, List, [], ◌∷◌, ◌≡◌, refl, arith}
use nvidia_omoda.Prelude.Dict.{get, put}
use nvidia_omoda.Prelude.Rx.{codes}
use nvidia_omoda.Bus.{Bus}
use nvidia_omoda.Api.Admin.{check_admin_auth}
use nvidia_omoda.Json.{undef, end}
use nvidia_omoda.Api.Auth.{Token, Tokens, bearer}
use nvidia_omoda.Api.Intents.{Intents, no_intents}
use nvidia_omoda.Api.Stream.{Payload, Event, Ingest, Outcome, entered, accept, ingest}
use nvidia_omoda.Api.Stream.Once.{is_accepted, event_once}

abbrev hmac : String → String → String
hmac secret text = secret

abbrev digest : List ℕ → String
digest l = "0123"

abbrev text_of : Payload → String
text_of p = p.detector

abbrev iso : ℕ → String
iso n = "t0"

abbrev feed : Token
feed = record {
  id = "feed";
  token = "omoda_feed";
  secret = "s3cret";
  scopes = "intent:propose" ∷ [];
}

abbrev tokens : Tokens
tokens = ("omoda_feed", feed) ∷ []

enters : accept tokens (some "Bearer omoda_feed") ≡ entered feed
unfolding accept get bearer
enters = refl

abbrev event : Event
event = record {
  event_id = "evt-1";
  ts = 100;
  sig = "sha256=s3cret";
  payload = record {
    detector = "yolo";
    class = some "fire";
    camera = some "cam-1";
    confidence = undef;
    evidence = end;
    requested_outcome = "look";
  };
}

abbrev quiet : Ingest
quiet = record { seen_events = []; seen_content = []; last_by_key = []; in_flight = 0 }

abbrev first : Outcome × Ingest × Intents
first = ingest hmac digest text_of iso 30 50 25 "int-1" event feed 100000 quiet no_intents

takes_first : is_accepted first.0 ≡ true
unfolding ingest get put
takes_first = refl

event_once_example :
    is_accepted
      (ingest hmac digest text_of iso 30 50 25 "int-2" event feed 100500 first.1 first.2).0
    ≡ false
event_once_example =
    event_once hmac digest text_of iso 30 50 25 event "int-1" "int-2" feed feed 100000 100500 event
      quiet no_intents first.2 (omega arith) takes_first refl (omega arith)

abbrev two : Bus
two = record { subs = ("agent", "screen" ∷ "trail" ∷ []) ∷ []; published = 4 }

abbrev throws : String → Bool
throws f = true

finds : get "agent" two.subs ≡ some ("screen" ∷ "trail" ∷ [])
unfolding get
finds = refl

abbrev plain : String → List ℕ
plain s = codes s

lets_in :
    check_admin_auth plain (codes "ann") (codes "pw") (some "Basic ann:pw") ≡ some (codes "ann")
unfolding check_admin_auth
lets_in = refl
