-- ===== src/Orchestrator.antt =====
-- src/orchestrator.js: an intent becomes an action that awaits consent, and an observation goes to the judge and is
-- routed by its verdict. Telemetry is left out; so are the handoffs that a new incident sends to the audit.
pub mod Governed
use nvidia_omoda.Prelude.{
  ℕ, suc, ◌+◌, String, Bool, true, false, not, ◌&&◌, ◌||◌, Option, none, some, List, [], ◌∷◌, ◌++◌,
  ◌==◌, if◌then◌else◌, get_or, is_some, any, includes,
}
use Prim.Native.String
use nvidia_omoda.Prelude.Dict.{get, put}
use nvidia_omoda.Prelude.Print.{print_number}
use nvidia_omoda.Prelude.Rx.{codes, clip, starts_with, occurs, lit}
use nvidia_omoda.Json.{Value, Fields, null, str, object, or_null}
use nvidia_omoda.Domain.Taxonomy.{
  Verb, read, create, update, delete, unknown, Stage, requires_inverse, consent_kind,
}
use nvidia_omoda.Domain.Action.{Action, Request}
use nvidia_omoda.Ledger.{Ledger, Disk, append}
use nvidia_omoda.Api.Intents.{Intent, Intents, await_consent}
use nvidia_omoda.Skills.Load.{Row, lookup}
use nvidia_omoda.Models.Plan.{Plan, Planned, planned, undeclared, failed, plan_action, stage_name}
use nvidia_omoda.Coco.Signals.{Observation}
use nvidia_omoda.Coco.World.{Judgement, Verdict, incident, attached}

-- `L1_BY_INCIDENT`.
unfoldable l1_by_incident : String → Option String
l1_by_incident t =
    if t == "traffic-accident"
    then some "accident-agent"
    else if t == "fire"
    then some "fire-agent"
    else if (t == "fallen-signage") || (t == "road-maintenance") || (t == "other")
    then some "roadside"
    else if t == "utility-hazard"
    then some "utility-agent"
    else if t == "public-warning"
    then some "comms-agent"
    else none

abbrev pub begins : String → String → Bool
begins prefix s = starts_with (codes s) (codes prefix)

-- `l1FromSignals`.
unfoldable l1_from_signals : List String → Option String
unfolding starts_with occurs
l1_from_signals signals =
    if any (λ x. begins "vehicle:smoke_or_fire" x || (x == "description:danger_lexicon")) signals
      && (any (λ x. occurs (lit (codes "smoke_or_fire")) (codes x)) signals
          || includes signals "followup:danger_true")
    then some "fire-agent"
    else if any
        (λ x.
          begins "interaction:contact" x
          || begins "changes:new_vehicle_contact" x
          || begins "vehicle:" x)
        signals
    then some "accident-agent"
    else if any (λ x. begins "sign:" x || begins "object:" x || begins "road:" x) signals
    then some "roadside"
    else none

-- What an event meets. `context` is the block of the knowledge that was retrieved, or empty; `escalate` asks the
-- operator, and is the message of the error where that fails.
pub record Env : Type 0 where
  pub models : nvidia_omoda.Models.Plan.Env
  pub context : Intent → String
  pub escalate : Option (Intent → Action → Stage → Option String)
  pub sha256 : List ℕ → String
  pub time : String
  pub now : ℕ
  pub disk : Disk

pub record World : Type 0 where
  pub intents : Intents
  pub ledger : Ledger

pub data Routed : Type 0 where
  not_routed : String → Routed
  chosen : String → String → Option Stage → Option String → Routed

-- `record`: whether the ledger takes it or not.
unfoldable pub note : Env → List (String × Value) → World → World
unfolding append
note env fields w = record w {
  ledger =
      (append env.sha256 w.ledger
        (object
          (("kind", str "orchestrator") ∷ ("agent", str "l0") ∷ ("verb", str "read") ∷ fields))
        env.time env.disk).1;
}

abbrev pub entry : String → String → String → Value → List (String × Value)
entry tool outcome reason intent_id =
    ("tool", str tool)
    ∷ ("outcome", str outcome)
    ∷ ("reason", str reason)
    ∷ ("intentId", intent_id)
    ∷ []

abbrev is_read : Verb → Bool
is_read read = true
is_read _ = false

-- The row's verb and impact go into the action. A host that is undefined is the empty text.
unfoldable pub action_of : Env → Intent → Row → String → Action
unfolding clip print_number
action_of env intent r reason = record {
  action_id = some (
      String.◌++◌ "l0-"
        (String.◌++◌ (clip 12 intent.id) (String.◌++◌ "-" (print_number (env.now + 1) env.now))));
  intent_id = some intent.id;
  agent = some r.agent;
  tool = some r.tool;
  verb = r.verb;
  impact = some r.impact;
  resource = none;
  declared = true;
  request =
      if r.grant == ""
      then none
      else some (record {
        host = elim r.egress [ none ↦ "" | some e ↦ e.host ];
        method = if is_read r.verb then "GET" else "POST";
        path = elim r.egress [ none ↦ "/" | some e ↦ e.path ];
      });
  inverse = if requires_inverse r.verb then some r.tool else none;
  port = nvidia_omoda.Json.undef;
  path = nvidia_omoda.Json.undef;
  args = none;
  policy_delta = nvidia_omoda.Json.undef;
}

-- A gated action is put to the operator.
unfoldable pub escalated : Env → Intent → Action → String → Option Stage → World → World
unfolding note clip
escalated env intent action tool none w = w
escalated env intent action tool (some stage) w = elim env.escalate [
  | none ↦ w
  | some ask ↦ elim (ask intent action stage) [
    | none ↦
        note env
          (entry "l0.escalate" "escalated"
            (String.◌++◌ tool
              (String.◌++◌ " -> " (String.◌++◌ (stage_name stage) " (operator asked)")))
            (str intent.id))
          w
    | some message ↦
        note env (entry "l0.escalate" "escalation-failed" (clip 160 message) (str intent.id)) w
  ]
]

abbrev stage_text : Option Stage → String
stage_text none = "none"
stage_text (some s) = stage_name s

unfoldable pub propose_action : Env → Intent → Row → Plan → String → World → Routed × World
unfolding action_of await_consent consent_kind note escalated
propose_action env intent r p tool w =
    let action = action_of env intent r p.reason in
    let stage = consent_kind r.verb (some r.impact) in
    (
      chosen tool r.agent stage action.action_id,
      escalated env intent action tool stage (
          note env
            (entry "l0.route" "routed" (String.◌++◌ tool (String.◌++◌ " -> " (stage_text stage)))
              (str intent.id))
            (record w { intents = await_consent intent.id action w.intents })),
    )

-- What follows from the plan; a planned tool is in the registry, so `lookup` finds its row.
unfoldable pub follow : Env → List (String × Row) → Intent → Planned → World → Routed × World
unfolding note clip lookup propose_action
follow env registry intent (undeclared message tool) w =
    (not_routed message, note env (entry "l0.route" "refused" (clip 160 message) (str intent.id)) w)
follow env registry intent (failed message) w =
    (not_routed message, note env (entry "l0.route" "error" (clip 160 message) (str intent.id)) w)
follow env registry intent (planned p) w = elim p.tool [
  | none ↦ (
    not_routed p.reason,
    note env (entry "l0.route" "no-tool" (clip 160 p.reason) (str intent.id)) w,
  )
  | some tool ↦ elim (lookup tool registry) [
    | none ↦ (not_routed "", w)
    | some r ↦ propose_action env intent r p tool w
  ]
]

abbrev pub is_demo : Value → Bool
is_demo (str s) = s == "demo"
is_demo _ = false

-- `onIntent`.
unfoldable pub on_intent : Env → List (String × Row) → Intent → World → Routed × World
unfolding plan_action follow
on_intent env registry intent w = elim intent.actions [
  | a ∷ l ↦ (not_routed "already routed", w)
  | [] ↦
      if is_demo intent.kind
      then (not_routed "demo intent, escalated directly by the admin dashboard", w)
      else follow env registry intent (plan_action env.models registry intent (env.context intent))
          w
]

-- What a reviewed observation comes to, with the message for the agents' stream.
pub record Review : Type 0 where
  pub routed_to_l1 : Option String
  pub inference_used : Bool
  pub published : Option Fields

-- `reviewObservation`, from the judge's verdict; `signals` are those of the observation.
unfoldable pub review : Env → List String → Verdict → World → Review × World
unfolding note l1_by_incident l1_from_signals
review env signals (incident id j fired phrase action) w =
    let l1 =
      get_or (l1_by_incident j.incident_type) (get_or (l1_from_signals signals) "roadside") in
    (
      record {
        routed_to_l1 = some l1;
        inference_used = true;
        published = some (
            object (
              ("agentRoutedTo", str l1)
              ∷ ("incident", str j.incident_type)
              ∷ ("action", or_null action)
              ∷ ("trigger", or_null phrase)
              ∷ ("intentId", str id)
              ∷ []));
      },
      note env
          (entry "l0.review" "routed-to-l1" (String.◌++◌ j.incident_type (String.◌++◌ " -> " l1))
              (str id)
            ++ ("triggerPhrase", or_null phrase) ∷ [])
          w,
    )
review env signals (attached id occurrences) w =
    let l1 = get_or (l1_from_signals signals) "roadside" in
    (
      record { routed_to_l1 = some l1; inference_used = true; published = none },
      note env
          (entry "l0.review" "routed-to-l1" (String.◌++◌ "? -> " l1) (str id)
            ++ ("triggerPhrase", null) ∷ [])
          w,
    )
review env signals verdict w = (
  record {
    routed_to_l1 = none;
    inference_used = elim signals [ [] ↦ false | s ∷ l ↦ true ];
    published = none;
  },
  w,
)
