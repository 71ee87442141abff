-- ===== src/Examples/Api.antt =====
-- The intents and the authentication of src/api at concrete calls.
use nvidia_omoda.Prelude.{
  ℕ, String, Bool, true, false, Option, none, some, List, [], ◌∷◌, ◌≡◌, ◌≢◌, refl, Memᴰ,
}
use nvidia_omoda.Prelude.Dict.{get, put}
use nvidia_omoda.Json.{null, undef, end, object, str}
use nvidia_omoda.Domain.Taxonomy.{delete, financial}
use nvidia_omoda.Domain.Action.{Action}
use nvidia_omoda.Broker.Decision.{Decision, verify_decision, blank}
use nvidia_omoda.Api.Intents.{Caller, Intent, Intents, no_intents, propose, await_consent}
use nvidia_omoda.Api.Intents.Decide.{Ballot, Decided, turned_down, recorded, decide}
use nvidia_omoda.Api.Intents.Steps.{
  Call, proposing, awaiting, deciding, steps, HasQuorum, accepted-HasQuorum,
}
use nvidia_omoda.Api.Intents.Final.{is_turned_down, settled_last}
use nvidia_omoda.Api.Auth.{Token, Tokens, Headers, check_nonce, authenticate}

abbrev can_decide : Option (List String)
can_decide = some ("intent:decide" ∷ [])

abbrev worker : Caller
worker = record { id = "worker"; scopes = some ("intent:propose" ∷ []) }

abbrev alice : Caller
alice = record { id = "alice"; scopes = can_decide }

abbrev bob : Caller
bob = record { id = "bob"; scopes = can_decide }

abbrev wipe : Action
wipe = record {
  tool = some "bank.wipe";
  verb = delete;
  impact = some (financial ∷ []);
  declared = true;
  action_id = some "act-1";
  intent_id = some "int-1";
  resource = none;
  agent = some "worker";
  port = undef;
  path = undef;
  args = none;
  policy_delta = null;
  inverse = some "restore";
  request = none;
}

abbrev ballot : Caller → Ballot
ballot c = record {
  intent_id = "int-1";
  action_id = some "act-1";
  verdict = some "approve";
  reason = some "checked";
  caller = c;
}

abbrev calls : List Call
calls =
    proposing "int-1" "t0" none end worker null
    ∷ awaiting "int-1" wipe
    ∷ deciding "dec-1" 5 (ballot alice)
    ∷ deciding "dec-2" 7 (ballot bob)
    ∷ []

abbrev store : Intents
store = steps false calls no_intents

abbrev second : Decision
second = record {
  decision_id = "dec-2";
  action_id = some "act-1";
  verdict = some "approve";
  reason = some "checked";
  decided_by = some "bob";
  proposed_by = some "worker";
  scopes = can_decide;
  spent = false;
  settled = some true;
  quorum = some (record { needed = 2; have = 2 });
  expires_at = some 120007;
}

abbrev first : Decision
first = record {
  decision_id = "dec-1";
  action_id = some "act-1";
  verdict = some "approve";
  reason = some "checked";
  decided_by = some "alice";
  proposed_by = some "worker";
  scopes = can_decide;
  spent = false;
  settled = some false;
  quorum = some (record { needed = 2; have = 1 });
  expires_at = some 120005;
}

abbrev intent : Intent
intent = record {
  id = "int-1";
  envelope = null;
  state = nvidia_omoda.Api.Intents.proposed;
  proposed_by = "worker";
  source = str "worker";
  kind = str "task";
  detector = null;
  confidence = null;
  observed_at = null;
  evidence = nvidia_omoda.Json.obj end;
  requested_outcome = null;
  actions = wipe ∷ [];
  decisions = first ∷ second ∷ [];
  updates = [];
  created_at = "t0";
}

found : get "int-1" store.by_id ≡ some intent
unfolding propose await_consent decide get put
found = refl

unlocks : verify_decision (some second) (some "act-1") 9 ≡ none
unfolding verify_decision blank
unlocks = refl

-- The first approval alone unlocks nothing.
too_few : verify_decision (some first) (some "act-1") 9 ≢ none
unfolding verify_decision
too_few e = cc

accepted-HasQuorum_example : HasQuorum store "int-1" intent second
accepted-HasQuorum_example =
    accepted-HasQuorum false calls "int-1" intent second (some "act-1") 9 found
      (Memᴰ.tail (Memᴰ.head refl)) unlocks

abbrev half : Intents
half =
    steps false
      (proposing "int-1" "t0" none end worker null
        ∷ awaiting "int-1" wipe
        ∷ deciding "dec-1" 5 (ballot alice)
        ∷ [])
      no_intents

records_second : (decide false "dec-2" 7 (ballot bob) half).0 ≡ recorded second
unfolding propose await_consent decide get put
records_second = refl

-- A decision before the action is put up for consent needs one approver, also where the action itself
-- needs two.
abbrev early : Intents
early = steps false (proposing "int-1" "t0" none end worker null ∷ []) no_intents

abbrev settled_of : Decided → Option Bool
settled_of (turned_down n why) = none
settled_of (recorded d) = d.settled

early_settles : settled_of (decide false "dec-1" 5 (ballot alice) early).0 ≡ some true
unfolding propose decide get put
early_settles = refl

abbrev carol : Caller
carol = record { id = "carol"; scopes = can_decide }

settled_last_example :
    let mid =
      steps false (awaiting "int-1" wipe ∷ []) (decide false "dec-2" 7 (ballot bob) half).1 in
    (is_turned_down (decide false "dec-3" 8 (ballot carol) mid).0 ≡ true)
    × ((decide false "dec-3" 8 (ballot carol) mid).1 ≡ mid)
settled_last_example =
    settled_last false "dec-2" "dec-3" 7 8 (ballot bob) (ballot carol) half second
      (awaiting "int-1" wipe ∷ []) records_second refl refl

accepts_once : (check_nonce 300 10 "sig-1" 5 []).0 ≡ true
unfolding check_nonce
accepts_once = refl

abbrev hmac : String → String → String
hmac secret text = secret

abbrev camera : Token
camera = record {
  id = "camera";
  token = "omoda_abc";
  secret = "s3cret";
  scopes = "intent:propose" ∷ [];
}

abbrev tokens : Tokens
tokens = ("omoda_abc", camera) ∷ []

abbrev headers : Headers
headers = record {
  authorization = some "Bearer omoda_abc";
  timestamp = some 100;
  signature = some "sha256=s3cret";
}

abbrev calm : String → ℕ → Bool
calm id now = true

passes : (authenticate hmac calm true tokens "intent:propose" headers "{}" 100000).1 ≡ some camera
unfolding authenticate
passes = refl
