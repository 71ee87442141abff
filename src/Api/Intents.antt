-- ===== src/Api/Intents.antt =====
-- `createIntentStore` of src/api/intents.js, without its decisions: proposing, updating, and waiting
-- for consent. Ids and times come from the caller; `onPropose` runs apart and returns nothing.
pub mod Decide
pub mod Quorum
pub mod Steps
pub mod Final
use nvidia_omoda.Prelude.{
  ℕ, suc, ◌+◌, String, Bool, true, false, not, ◌&&◌, ◌||◌, Option, none, some, List, [], ◌∷◌, ◌++◌,
  ◌==◌, if◌then◌else◌, is_some, map,
}
use Prim.Native.String
use nvidia_omoda.Prelude.Dict.{get, put}
use nvidia_omoda.Prelude.Print.{print_number}
use nvidia_omoda.Json.{
  Value, Items, Fields, undef, null, str, arr, obj, nil, cons, end, field, prop,
}
use nvidia_omoda.Domain.Action.{Action}
use nvidia_omoda.Ledger.{set_field, is_absent}
use nvidia_omoda.Broker.Decision.{Decision, truthy_text}

pub data State : Type 0 where
  proposed awaiting_consent executed refused denied : State

pub record Caller : Type 0 where
  pub id : String
  pub scopes : Option (List String)

-- The fields that an update may change.
pub record Patch : Type 0 where
  pub requested_outcome : Option Value
  pub confidence : Option Value
  pub evidence : Option Value

pub record Change : Type 0 where
  pub at : String
  pub by : String
  pub patch : Patch

-- The actions of an intent all await consent: the source sets no other state on them.
pub record Intent : Type 0 where
  pub id : String
  pub envelope : Value
  pub state : State
  pub proposed_by : String
  pub source : Value
  pub kind : Value
  pub detector : Value
  pub confidence : Value
  pub observed_at : Value
  pub evidence : Value
  pub requested_outcome : Value
  pub actions : List Action
  pub decisions : List Decision
  pub updates : List Change
  pub created_at : String

-- `byIdemKey` holds the intents themselves; they are found by their ids here.
pub record Intents : Type 0 where
  pub by_id : List (String × Intent)
  pub by_idem_key : List (String × String)
  pub final_actions : List String
  pub approvers_by_action : List (String × List String)

abbrev pub no_intents : Intents
no_intents = record { by_id = []; by_idem_key = []; final_actions = []; approvers_by_action = [] }

-- `a ?? b`.
abbrev pub nullish : Value → Value → Value
nullish a b = if is_absent a then b else a

unfoldable pub indexed : ℕ → Items → Fields
indexed n nil = end
indexed n (cons v vs) = field (print_number (n + 1) n) v (indexed (n + 1) vs)

unfoldable pub letters : ℕ → String → Fields
letters n String.[] = end
letters n (String.◌∷◌ c s) =
    field (print_number (n + 1) n) (str (String.◌∷◌ c String.[])) (letters (n + 1) s)

-- The own keys that `...value` copies.
abbrev pub own_fields : Value → Fields
own_fields (obj fs) = fs
own_fields (arr vs) = indexed 0 vs
own_fields (str s) = letters 0 s
own_fields _ = end

-- `{ ...a, ...b }`.
unfoldable pub merge : Fields → Fields → Fields
unfolding set_field
merge a end = a
merge a (field k v b) = merge (set_field k v a) b

unfoldable pub new_intent : String → String → Fields → Caller → Value → Intent
unfolding prop
new_intent id now body caller envelope = record {
  id = id;
  envelope = envelope;
  state = proposed;
  proposed_by = caller.id;
  source = nullish (prop "source" body) (str caller.id);
  kind = nullish (prop "kind" body) (str "task");
  detector = nullish (prop "detector" body) null;
  confidence = nullish (prop "confidence" body) null;
  observed_at = nullish (prop "observed_at" body) null;
  evidence = nullish (prop "evidence" body) (obj end);
  requested_outcome = nullish (prop "requested_outcome" body) null;
  actions = [];
  decisions = [];
  updates = [];
  created_at = now;
}

abbrev pub note_key : Option String → String → List (String × String) → List (String × String)
note_key key id m = elim key [ none ↦ m | some k ↦ if k == "" then m else put k id m ]

-- The intent that an idempotency key that is there and not empty was used for.
abbrev pub known_key : Option String → Intents → Option String
known_key none store = none
known_key (some k) store = if k == "" then none else get k store.by_idem_key

pub record Proposed : Type 0 where
  pub intent : String
  pub duplicate : Bool
  pub store : Intents

unfoldable pub propose :
    String → String → Option String → Fields → Caller → Value → Intents → Proposed
unfolding new_intent get put
propose id now key body caller envelope store = elim (known_key key store) [
  | some old ↦ record { intent = old; duplicate = true; store = store }
  | none ↦ record {
    intent = id;
    duplicate = false;
    store = record store {
      by_id = put id (new_intent id now body caller envelope) store.by_id;
      by_idem_key = note_key key id store.by_idem_key;
    };
  }
]

-- `{ ok: false, status, reason }`, or `{ ok: true, intent }`.
pub data Updated : Type 0 where
  turned_down : ℕ → String → Updated
  updated : Intent → Updated

abbrev pub is_settled : State → Bool
is_settled executed = true
is_settled denied = true
is_settled refused = true
is_settled _ = false

abbrev pub state_name : State → String
state_name proposed = "proposed"
state_name awaiting_consent = "awaiting_consent"
state_name executed = "executed"
state_name refused = "refused"
state_name denied = "denied"

abbrev pub is_undef : Value → Bool
is_undef undef = true
is_undef _ = false

abbrev pub given : Value → Option Value
given v = if is_undef v then none else some v

unfoldable pub patch_of : Intent → Fields → Patch
unfolding prop merge indexed letters
patch_of intent body = record {
  requested_outcome = given (prop "requested_outcome" body);
  confidence = given (prop "confidence" body);
  evidence =
      if is_undef (prop "evidence" body)
      then none
      else some (obj (merge (own_fields intent.evidence) (own_fields (prop "evidence" body))));
}

abbrev pub is_empty_patch : Patch → Bool
is_empty_patch p = not (is_some p.requested_outcome || is_some p.confidence || is_some p.evidence)

abbrev pub or_keep {ℓ} : {A : Type ℓ} → Option A → A → A
or_keep none a = a
or_keep (some b) a = b

unfoldable pub patched : String → Caller → Patch → Intent → Intent
patched now caller p intent = record intent {
  updates = intent.updates ++ record { at = now; by = caller.id; patch = p } ∷ [];
  requested_outcome = or_keep p.requested_outcome intent.requested_outcome;
  confidence = or_keep p.confidence intent.confidence;
  evidence = or_keep p.evidence intent.evidence;
}

-- Why an update of an intent is turned down, if it is.
unfoldable pub update_refusal : Intent → Fields → Caller → Option (ℕ × String)
unfolding prop patch_of
update_refusal intent body caller =
    if not (caller.id == intent.proposed_by)
    then some (403, "only the proposer may update its own engagement")
    else if is_settled intent.state
    then some (
      409,
      String.◌++◌ "intent is "
          (String.◌++◌ (state_name intent.state) "; an update cannot reopen a settled engagement"),
    )
    else if not (
        is_undef (prop "decisions" body)
        && is_undef (prop "decision" body)
        && is_undef (prop "verdict" body))
    then some (422, "an update cannot carry decisions")
    else if is_empty_patch (patch_of intent body)
    then some (422, "an update must change something")
    else none

unfoldable pub update : String → String → Fields → Caller → Intents → Updated × Intents
unfolding get put patched patch_of update_refusal
update now intent_id body caller store = elim (get intent_id store.by_id) [
  | none ↦ (turned_down 404 "unknown intent", store)
  | some intent ↦ elim (update_refusal intent body caller) [
    | some (status, why) ↦ (turned_down status why, store)
    | none ↦
        let new = patched now caller (patch_of intent body) intent in
        (updated new, record store { by_id = put intent_id new store.by_id })
  ]
]

unfoldable pub await_consent : String → Action → Intents → Intents
unfolding get put
await_consent intent_id action store = elim (get intent_id store.by_id) [
  | none ↦ store
  | some intent ↦ record store {
    by_id =
        put intent_id
          (record intent { state = awaiting_consent; actions = intent.actions ++ action ∷ [] })
          store.by_id;
  }
]
