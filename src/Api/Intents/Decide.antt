-- ===== src/Api/Intents/Decide.antt =====
-- `decide` of src/api/intents.js: one decision of one caller on one action, and the quorum it counts
-- towards.
use nvidia_omoda.Prelude.{
  ℕ, ◌+◌, String, Bool, true, false, not, ◌&&◌, Option, none, some, List, [], ◌∷◌, ◌++◌, ◌==◌,
  if◌then◌else◌, get_or, find, includes, length, leb,
}
use Prim.Native.String
use nvidia_omoda.Prelude.Dict.{get, put}
use nvidia_omoda.Domain.Taxonomy.{Stage, approval, two_person, consent_kind}
use nvidia_omoda.Domain.Action.{Action}
use nvidia_omoda.Broker.Decision.{Decision, blank, same_text}
use nvidia_omoda.Api.Intents.{State, proposed, awaiting_consent, denied, Caller, Intent, Intents}

pub record Ballot : Type 0 where
  pub intent_id : String
  pub action_id : Option String
  pub verdict : Option String
  pub reason : Option String
  pub caller : Caller

pub data Decided : Type 0 where
  turned_down : ℕ → String → Decided
  recorded : Decision → Decided

-- `${intentId}:${actionId}`.
abbrev pub key_of : String → Option String → String
key_of intent_id action_id = String.◌++◌ intent_id (String.◌++◌ ":" (get_or action_id "undefined"))

abbrev pub quorum_for : Stage → ℕ
quorum_for two_person = 2
quorum_for _ = 1

abbrev pub is_two_person : Stage → Bool
is_two_person two_person = true
is_two_person _ = false

-- `consentKind(...) ?? "approval"`, for an action that is found.
unfoldable pub kind_of : List Action → Option String → Stage
unfolding consent_kind
kind_of actions action_id = elim (find (λ a. same_text a.action_id action_id) actions) [
  | none ↦ approval
  | some a ↦ get_or (consent_kind a.verb a.impact) approval
]

-- The delta window, in milliseconds.
abbrev pub window : ℕ
window = 120000

abbrev pub make_decision : String → ℕ → Ballot → Intent → Bool → ℕ → ℕ → Decision
make_decision id now b intent settled needed have = record {
  decision_id = id;
  action_id = b.action_id;
  verdict = b.verdict;
  reason = b.reason;
  decided_by = some b.caller.id;
  proposed_by = some intent.proposed_by;
  scopes = b.caller.scopes;
  spent = false;
  settled = some settled;
  quorum = some (record { needed = needed; have = have });
  expires_at = some (now + window);
}

-- The store with a decision recorded on the intent, and the intent in this state.
abbrev pub record_on : Ballot → Intent → Decision → State → Intents → Intents
record_on b intent decision state store = record store {
  by_id =
      put b.intent_id
        (record intent { decisions = intent.decisions ++ decision ∷ []; state = state })
        store.by_id;
}

abbrev pub approvers_of : String → Intents → List String
approvers_of key store = get_or (get key store.approvers_by_action) []

module _ (single_operator : Bool) (id : String) (now : ℕ) (b : Ballot) where
  abbrev pub key : String
  key = key_of b.intent_id b.action_id

  unfoldable pub deny : ℕ → Intent → Intents → Decided × Intents
  unfolding put
  deny needed intent store =
      let decision = make_decision id now b intent true needed 0 in
      (
        recorded decision,
        record_on b intent decision denied
            (record store { final_actions = store.final_actions ++ key ∷ [] }),
      )

  -- The caller joins the approvers; the action is final once there are enough.
  unfoldable pub approve : ℕ → Intent → Intents → Decided × Intents
  unfolding put get
  approve needed intent store =
      let approvers = approvers_of key store ++ b.caller.id ∷ [] in
      let have = length approvers in
      let settled = leb needed have in
      let decision = make_decision id now b intent settled needed have in
      let counted : Intents = record store {
        approvers_by_action = put key approvers store.approvers_by_action;
      } in
      (
        recorded decision,
        (if settled
            then record_on b intent decision proposed
                (record counted { final_actions = store.final_actions ++ key ∷ [] })
            else record_on b intent decision awaiting_consent counted),
      )

  -- Why an approval is turned down, if it is.
  unfoldable pub approve_refusal : Stage → Intents → Option (ℕ × String)
  unfolding get
  approve_refusal kind store =
      if is_two_person kind && single_operator
      then some (
        409,
        "two-person consent required, but this deployment runs a single operator; a second distinct approver cannot exist. Add a second operator or reclassify the action.",
      )
      else if includes (approvers_of key store) b.caller.id
      then some
          (409, "this approver has already approved this action; a quorum needs distinct people")
      else none

  -- The action is not final, and the caller may decide.
  unfoldable pub decide_open : Intent → Intents → Decided × Intents
  unfolding deny approve kind_of approve_refusal
  decide_open intent store =
      let kind = kind_of intent.actions b.action_id in
      if not (same_text b.verdict (some "approve"))
      then deny (quorum_for kind) intent store
      else elim (approve_refusal kind store) [
        | some (status, why) ↦ (turned_down status why, store)
        | none ↦ approve (quorum_for kind) intent store
      ]

  -- Why any decision of this caller on this intent is turned down, if it is.
  unfoldable pub decide_refusal : Intent → Intents → Option (ℕ × String)
  unfolding blank
  decide_refusal intent store =
      if blank b.reason
      then some (422, "a decision requires a reason")
      else if b.caller.id == intent.proposed_by
      then some (403, "separation of duties: the proposer cannot decide")
      else if includes store.final_actions key
      then some (409, "a decision for this action was already recorded")
      else none

  unfoldable pub decide : Intents → Decided × Intents
  unfolding decide_open get decide_refusal
  decide store = elim (get b.intent_id store.by_id) [
    | none ↦ (turned_down 404 "unknown intent", store)
    | some intent ↦ elim (decide_refusal intent store) [
      | some (status, why) ↦ (turned_down status why, store)
      | none ↦ decide_open intent store
    ]
  ]
