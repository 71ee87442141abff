-- ===== src/Telemetry/Audit.antt =====
-- src/telemetry/audit.js: which records of the ledger the audit shows, and the audit's view of a record and of a handoff.
use nvidia_omoda.Prelude.{
  ℕ, ◌+◌, String, Bool, true, false, not, ◌&&◌, ◌||◌, Option, none, some, List, [], ◌∷◌, ◌==◌,
  if◌then◌else◌, includes, get_or,
}
use Prim.Native.String
use nvidia_omoda.Prelude.Print.{print_number}
use nvidia_omoda.Prelude.Split.{split_on, join_on}
use nvidia_omoda.Telemetry.Display.{Level, rank, operator, input, behind, begins}
use nvidia_omoda.Telemetry.Narrate.{Described, Handoff, describe_agent}

-- The fields of a record that are read; the agent of a record is there.
pub record Row : Type 0 where
  pub kind : Option String
  pub agent : String
  pub tool : Option String
  pub verb : Option String
  pub tier : Option String
  pub authority : Option String
  pub decided_by : Option String
  pub resource : Option String
  pub trigger_phrase : Option String
  pub outcome : Option String
  pub reason : Option String
  pub intent_id : Option String

abbrev pub is : Option String → String → Bool
is none s = false
is (some t) s = t == s

abbrev non_audit_kinds : List String
non_audit_kinds =
    "coco" ∷ "coco-live" ∷ "frame" ∷ "observation" ∷ "knowledge" ∷ "triggers" ∷ "api" ∷ "control"
    ∷ "telegram" ∷ "judge" ∷ []

-- `isAuditWorthy`.
unfoldable is_audit_worthy : Row → Bool
is_audit_worthy r =
    if includes non_audit_kinds (get_or r.kind "")
    then false
    else not (is r.outcome "admitted" && (is r.tier "safe" || is r.tier "contained"))

abbrev or_none : String → Option String
or_none s = if s == "" then none else some s

-- The part before the last one, if there are two.
unfoldable next_to_last : List String → Option String
next_to_last [] = none
next_to_last (s ∷ []) = none
next_to_last (s ∷ t ∷ []) = some s
next_to_last (s ∷ t ∷ u ∷ l) = next_to_last (t ∷ u ∷ l)

-- `nounFor`.
unfoldable noun_for : Row → Option String
unfolding split_on next_to_last
noun_for r =
    if not (get_or r.resource "" == "")
    then r.resource
    else elim (next_to_last (split_on "." (get_or r.tool ""))) [
      | some s ↦ some s
      | none ↦ or_none (get_or r.tool "")
    ]

pub data Authority : Type 0 where
  nobody envelope pending : Authority
  person : Option String → Authority
  named : String → Authority

abbrev tail_of : List String → List String
tail_of [] = []
tail_of (s ∷ l) = l

-- Whom the part behind the first colon names.
abbrev who_of : List String → Option String
unfolding join_on
who_of (s ∷ t ∷ l) = some (join_on ":" (t ∷ l))
who_of l = none

-- `authorityFor`.
unfoldable authority_for : Row → Authority
unfolding behind split_on who_of
authority_for r =
    let a = get_or r.authority "" in
    if a == ""
    then nobody
    else if begins "decision:" a
    then person r.decided_by
    else if begins "operator" a
    then person (who_of (split_on ":" a))
    else if a == "envelope"
    then envelope
    else if a == "pending"
    then pending
    else named a

abbrev is_pending : Authority → Bool
is_pending pending = true
is_pending _ = false

pub record Tier : Type 0 where
  pub level : Option Level
  pub label : String
  pub role : Option String

unfoldable label_of : Option Level → String
unfolding print_number
label_of none = "unknown"
label_of (some (rank n)) = String.◌++◌ "L" (print_number (n + 1) n)
label_of (some operator) = "operator"
label_of (some input) = "input"

-- `tierFor`.
unfoldable tier_for : Described → Tier
unfolding label_of
tier_for d = record { level = d.level; label = label_of d.level; role = d.role }

-- The fields of an audit event that both views have.
pub record Event : Type 0 where
  pub agent_name : String
  pub display : String
  pub tool : Option String
  pub verb : Option String
  pub noun : Option String
  pub tier : Tier
  pub authority : Authority
  pub outcome : Option String
  pub intent_id : Option String
  pub why : Option String
  pub relies_on : Option (String × Tier)
  pub durable : Bool

-- `ledgerToAudit`, without the phrase, the time, the number and the hash.
unfoldable ledger_to_audit : List (String × ℕ) → Row → Event
unfolding describe_agent authority_for noun_for tier_for
ledger_to_audit levels r =
    let who = describe_agent r.agent levels in
    let authority = authority_for r in
    record {
      agent_name = who.name;
      display = who.phrase;
      tool = r.tool;
      verb = r.verb;
      noun = noun_for r;
      tier = tier_for who;
      authority = authority;
      outcome =
          if is r.outcome "admitted" && is_pending authority
          then some "awaiting-approval"
          else r.outcome;
      intent_id = r.intent_id;
      why = r.reason;
      relies_on = none;
      durable = true;
    }

abbrev name_of : Option Described → Option String
name_of none = none
name_of (some d) = some d.name

-- `handoffToAudit`, without the time.
unfoldable pub handoff_to_audit : Handoff → Event
unfolding tier_for
handoff_to_audit h = record {
  agent_name = h.agent.name;
  display = h.agent.phrase;
  tool = none;
  verb = some "delegate";
  noun = name_of h.relies_on;
  tier = tier_for h.agent;
  authority = if h.dangerous then pending else envelope;
  outcome = some (if h.dangerous then "awaiting-approval" else "handed-off");
  intent_id = some h.intent_id;
  why = some h.doing;
  relies_on = elim h.relies_on [ none ↦ none | some d ↦ some (d.name, tier_for d) ];
  durable = false;
}
