-- ===== src/Telemetry/Narrate.antt =====
-- src/domain/response-plan.js, and the handoffs of src/telemetry/narrate.js.
use nvidia_omoda.Prelude.{
  ℕ, ◌+◌, eqb, leb, String, Bool, true, false, Option, none, some, List, [], ◌∷◌, ◌==◌,
  if◌then◌else◌, map, get_or,
}
use Prim.Native.String
use nvidia_omoda.Prelude.Print.{print_number}
use nvidia_omoda.Telemetry.Display.{Level, rank, operator, input, level_for, pretty, behind}

pub record Hop : Type 0 where
  pub source : String
  pub target : String
  pub doing : String
  pub dangerous : Bool

pub record Plan : Type 0 where
  pub l1 : String
  pub chain : List Hop

abbrev pub hop : String → String → String → Hop
hop source target doing = record {
  source = source;
  target = target;
  doing = doing;
  dangerous = false;
}

abbrev risk : String → String → String → Hop
risk source target doing = record {
  source = source;
  target = target;
  doing = doing;
  dangerous = true;
}

abbrev accident_plan : Plan
accident_plan = record {
  l1 = "accident";
  chain =
      hop "accident" "ambulatory" "assess whether anyone needs EMS"
      ∷ risk "ambulatory" "emergency-dispatch" "request an ambulance"
      ∷ hop "accident" "police" "decide whether police must be notified"
      ∷ risk "police" "emergency-dispatch" "place the call to police"
      ∷ hop "accident" "procurement" "line up a crane if heavy recovery is needed"
      ∷ risk "procurement" "procurement-gateway" "authorize the crane callout (public spend)"
      ∷ hop "accident" "evidence-desk" "keep a camera on the scene"
      ∷ risk "evidence-desk" "surveillance-ops" "export the collision footage as evidence"
      ∷ [];
}

abbrev fire_plan : Plan
fire_plan = record {
  l1 = "fire";
  chain =
      hop "fire" "fire-department" "request a fire response"
      ∷ risk "fire-department" "emergency-dispatch" "place the fire-dispatch call"
      ∷ hop "fire" "ambulatory" "assess whether anyone needs EMS"
      ∷ risk "ambulatory" "emergency-dispatch" "request an ambulance"
      ∷ hop "fire" "procurement" "line up a private hazmat contractor if the load is unknown"
      ∷ risk "procurement" "procurement-gateway"
          "authorize the hazmat vendor callout (public spend)"
      ∷ [];
}

abbrev utility_plan : Plan
utility_plan = record {
  l1 = "utility";
  chain =
      hop "utility" "utility-ops" "read the affected grid segment"
      ∷ risk "utility" "utility-control" "cut power to the block"
      ∷ risk "utility" "utility-control" "shut off gas to the block"
      ∷ hop "utility" "utility-ops" "restore power once the hazard is cleared"
      ∷ [];
}

abbrev warning_plan : Plan
warning_plan = record {
  l1 = "comms";
  chain =
      hop "comms" "public-info" "size the audience for the affected area"
      ∷ risk "comms" "notify-gateway" "post a neighborhood advisory"
      ∷ risk "comms" "notify-gateway" "send a reverse-911 to residents"
      ∷ [];
}

abbrev signage_plan : Plan
signage_plan = record {
  l1 = "roadside";
  chain = hop "roadside" "roadside" "open a work order to clear the obstruction" ∷ [];
}

abbrev road_plan : Plan
road_plan = record {
  l1 = "roadside";
  chain = hop "roadside" "roadside" "open a Seattle DOT work order" ∷ [];
}

-- `planFor`.
unfoldable pub plan_for : String → Plan
plan_for t =
    if t == "traffic-accident"
    then accident_plan
    else if t == "fire"
    then fire_plan
    else if t == "utility-hazard"
    then utility_plan
    else if t == "public-warning"
    then warning_plan
    else if t == "fallen-signage"
    then signage_plan
    else road_plan

abbrev role_name : ℕ → String
role_name n =
    if eqb n 0
    then "orchestrator"
    else if eqb n 1
    then "domain expert"
    else if eqb n 2
    then "worker"
    else if eqb n 3
    then "tool specialist"
    else "undefined"

pub record Described : Type 0 where
  pub name : String
  pub level : Option Level
  pub role : Option String
  pub phrase : String

abbrev role_of : Option Level → Option String
role_of none = none
role_of (some (rank n)) = if leb n 3 then some (role_name n) else none
role_of (some operator) = some "operator"
role_of (some input) = some "input"

unfoldable phrase_of : String → Option Level → String
unfolding pretty print_number
phrase_of name none = String.◌++◌ "the " (pretty name)
phrase_of name (some operator) = "the operator"
phrase_of name (some input) = String.◌++◌ "the " (String.◌++◌ (pretty name) " feed")
phrase_of name (some (rank n)) = String.◌++◌ "the " (
    String.◌++◌ (pretty name) (
      String.◌++◌ " "
        (String.◌++◌ (role_name n) (String.◌++◌ " (L" (String.◌++◌ (print_number (n + 1) n) ")")))))

-- `describeAgent`.
unfoldable pub describe_agent : String → List (String × ℕ) → Described
unfolding level_for phrase_of
describe_agent name levels =
    let level = level_for name levels in
    if name == "l0"
    then record { name = name; level = level; role = some "orchestrator"; phrase = "OMODA" }
    else record { name = name; level = level; role = role_of level; phrase = phrase_of name level }

pub record Handoff : Type 0 where
  pub headline : String
  pub agent : Described
  pub relies_on : Option Described
  pub doing : String
  pub dangerous : Bool
  pub intent_id : String

-- `cap`: a phrase begins with `the`, or is a name in capitals.
unfoldable cap : String → String
unfolding behind
cap s = elim (behind "t" s) [ none ↦ s | some r ↦ String.◌++◌ "T" r ]

-- `narrateHandoff`.
unfoldable pub narrate_handoff : List (String × ℕ) → String → Hop → Handoff
unfolding describe_agent cap
narrate_handoff levels intent_id h =
    let a = describe_agent h.source levels in
    let b = describe_agent h.target levels in
    record {
      headline =
          if h.source == h.target
          then String.◌++◌ (cap a.phrase) (String.◌++◌ " will " (String.◌++◌ h.doing "."))
          else String.◌++◌ (cap a.phrase) (
              String.◌++◌ " handed off to " (
                String.◌++◌ b.phrase (
                  String.◌++◌ " to " (
                    String.◌++◌ h.doing (
                      String.◌++◌ "." (
                        if h.dangerous
                        then " This is a dangerous action, so it is held for human approval."
                        else ""))))));
      agent = a;
      relies_on = if h.source == h.target then none else some b;
      doing = h.doing;
      dangerous = h.dangerous;
      intent_id = intent_id;
    }

-- `narrateResponse`.
unfoldable pub narrate_response : List (String × ℕ) → String → Option String → String → List Handoff
unfolding plan_for narrate_handoff pretty
narrate_response levels incident_type l1 intent_id =
    let plan = plan_for incident_type in
    narrate_handoff levels intent_id (
      hop "l0" (get_or l1 plan.l1) (
        String.◌++◌ "take the "
          (String.◌++◌ (pretty incident_type) " and coordinate the response")))
    ∷ map (narrate_handoff levels intent_id) plan.chain
