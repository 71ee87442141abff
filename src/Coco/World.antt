-- ===== src/Coco/World.antt =====
-- The state of the judge of src/coco/judge.js, its records in the ledger, and the verdict that it gives without a model.
use nvidia_omoda.Prelude.{
  ℕ, ◌+◌, String, Bool, true, false, ◌||◌, Option, List, [], ◌∷◌, ◌++◌, if◌then◌else◌, includes,
}
use Prim.Native.String
use nvidia_omoda.Prelude.Print.{print_number}
use nvidia_omoda.Prelude.Rx.{codes, starts_with}
use nvidia_omoda.Json.{Value, str, obj, object, prop, truthy}
use nvidia_omoda.Ledger.{Ledger, Disk, append}
use nvidia_omoda.Api.Intents.{Intents}
use nvidia_omoda.Transport.Triggers.{Trigger}
use nvidia_omoda.Coco.Signals.{Observation}

pub record Judgement : Type 0 where
  pub is_incident : Bool
  pub incident_type : String
  pub severity : String
  pub reason : String
  pub degraded : Bool

pub record Incident : Type 0 where
  pub intent_id : String
  pub occurrences : ℕ
  pub quiet_streak : ℕ

pub record Stats : Type 0 where
  pub observations : ℕ
  pub candidates : ℕ
  pub inferences : ℕ
  pub skipped_busy : ℕ
  pub incidents : ℕ

pub record Pending : Type 0 where
  pub observation : Observation
  pub signals : List String

-- `in_flight` of the source is that something is pending.
pub record Judge : Type 0 where
  pub open_incidents : List (String × Incident)
  pub pending : Option Pending
  pub stats : Stats

pub record World : Type 0 where
  pub judge : Judge
  pub intents : Intents
  pub ledger : Ledger

-- What an event meets: the clock, the disk, a random id and the triggers; `print` is the text of its codes.
pub record Env : Type 0 where
  pub sha256 : List ℕ → String
  pub print : List ℕ → String
  pub parse : List ℕ → Option Value
  pub time : String
  pub disk : Disk
  pub random_id : String
  pub local_available : Bool
  pub triggers : Option (List Trigger)

-- The model's answer to a candidate, or the message of the error that `complete` throws.
pub data Answer : Type 0 where
  replied : List ℕ → Answer
  broke : String → Answer

pub data Verdict : Type 0 where
  nominal awaiting : Verdict
  skipped_busy : List String → Verdict
  judged_nominal : String → Verdict
  attached : String → ℕ → Verdict
  incident : String → Judgement → List String → Option String → Option String → Verdict

-- `record`: whether the ledger takes it or not.
unfoldable pub note : Env → List (String × Value) → World → World
unfolding append
note env fields w = record w {
  ledger =
      (append env.sha256 w.ledger
        (object (("kind", str "judge") ∷ ("agent", str "omoda:judge") ∷ fields)) env.time
        env.disk).1;
}

abbrev pub entry : String → String → String → String → List (String × Value)
entry tool verb outcome reason =
    ("tool", str tool) ∷ ("verb", str verb) ∷ ("outcome", str outcome) ∷ ("reason", str reason) ∷ []

abbrev pub with_intent : String → List (String × Value) → List (String × Value)
with_intent id l = l ++ ("intentId", str id) ∷ []

abbrev pub count : (Stats → Stats) → World → World
count f w = record w { judge = record w.judge { stats = f w.judge.stats } }

abbrev pub set_open : List (String × Incident) → World → World
set_open m w = record w { judge = record w.judge { open_incidents = m } }

abbrev pub set_pending : Option Pending → World → World
set_pending p w = record w { judge = record w.judge { pending = p } }

-- `signals.join(", ")`.
unfoldable pub join_signals : List String → String
join_signals [] = ""
join_signals (s ∷ []) = s
join_signals (s ∷ l) = String.◌++◌ s (String.◌++◌ ", " (join_signals l))

-- `degradedVerdict`.
unfoldable pub degraded_verdict : List String → String → Judgement
unfolding join_signals
degraded_verdict signals why =
    if includes signals "interaction:contact_visible"
      || includes signals "changes:new_vehicle_contact"
    then record {
      is_incident = true;
      incident_type = "traffic-accident";
      severity = "medium";
      reason = String.◌++◌ why (String.◌++◌ "; deterministic signals: " (join_signals signals));
      degraded = true;
    }
    else record {
      is_incident = false;
      incident_type = "none";
      severity = "none";
      reason = String.◌++◌ why "; signals inconclusive";
      degraded = true;
    }

abbrev pub text_of : Value → String
text_of (str s) = s
text_of _ = ""

unfoldable pub judgement_of : Value → Judgement
unfolding prop
judgement_of (obj fs) = record {
  is_incident = truthy (prop "is_incident" fs);
  incident_type = text_of (prop "incident_type" fs);
  severity = text_of (prop "severity" fs);
  reason = text_of (prop "reason" fs);
  degraded = false;
}
judgement_of _ = record {
  is_incident = false;
  incident_type = "";
  severity = "";
  reason = "";
  degraded = false;
}

abbrev pub unparseable : Judgement
unparseable = record {
  is_incident = false;
  incident_type = "none";
  severity = "none";
  reason = "judgment unparseable; refusing to guess";
  degraded = false;
}

-- `${camera_id}|${incident_type}`.
abbrev pub key_of : Observation → String → String
key_of o incident_type = String.◌++◌ o.camera_id (String.◌++◌ "|" incident_type)

abbrev pub of_camera : String → String → Bool
of_camera camera key = starts_with (codes key) (codes (String.◌++◌ camera "|"))

abbrev pub number : ℕ → String
number n = print_number (n + 1) n
