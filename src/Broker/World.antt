-- ===== src/Broker/World.antt =====
-- What src/broker/authorize.js acts on: the ledger, the policy behind its port, the undo registry,
-- and the trace of everything that was done, in order.
pub mod Writes
pub mod Entry
use nvidia_omoda.Prelude.{
  ℕ, suc, ◌+◌, String, Bool, true, false, Option, none, some, List, [], ◌∷◌, ◌++◌, get_or, ◌==◌,
  if◌then◌else◌, ◌≡◌, refl,
}
use Prim.Native.String
use nvidia_omoda.Prelude.Rx.{codes, clip, trim_left, trim_right}
use nvidia_omoda.Json.{
  Value, Fields, undef, null, str, arr, obj, end, field, num, object, texts, or_null, canonical,
}
use nvidia_omoda.Domain.Taxonomy.{
  Verb, read, create, update, delete, unknown, Impact, financial, legal, reputational, foreign,
  Tier, safe, contained, consequential, undeclared, prohibited,
}
use nvidia_omoda.Domain.Action.{Action, Request}
use nvidia_omoda.Domain.Prohibited.{Rule}
use nvidia_omoda.Ledger.{Record, Ledger, Disk, Appended, done, write_error, append}
use nvidia_omoda.Policy.Port.{Port, Reply}
use nvidia_omoda.Broker.Decision.{Decision, Denial}
use nvidia_omoda.Broker.Undo.{Store}

pub data Event : Type 0 where
  logged : Fields → Event
  ran : Action → Event
  opened closed stuck : Event

pub record World (S : Type 0) : Type 0 where
  pub ledger : Ledger
  pub policy : S
  pub undo : Store
  pub writes : ℕ
  pub trace : List Event

-- What the source does not implement: the digest, the disk and the clock at each write, the policy,
-- the executor of an action, and the home of the model cache.
pub record Env (S : Type 0) : Type 0 where
  pub sha256 : List ℕ → String
  pub disk : ℕ → Disk
  pub stamp : ℕ → String
  pub port : Port S
  pub execute : Action → Reply
  pub hf_home : String

abbrev pub verb_value : Verb → Value
verb_value read = str "read"
verb_value create = str "create"
verb_value update = str "update"
verb_value delete = str "delete"
verb_value (unknown none) = undef
verb_value (unknown (some s)) = str s

abbrev pub impact_name : Impact → String
impact_name financial = "financial"
impact_name legal = "legal"
impact_name reputational = "reputational"
impact_name (foreign s) = s

abbrev pub impact_names : List Impact → List String
impact_names [] = []
impact_names (i ∷ l) = impact_name i ∷ impact_names l

abbrev pub tier_name : Tier → String
tier_name safe = "safe"
tier_name contained = "contained"
tier_name consequential = "consequential"
tier_name undeclared = "undeclared"
tier_name prohibited = "prohibited"

abbrev pub optional : String → Option String → List (String × Value)
optional key none = []
optional key (some s) = if s == "" then [] else (key, str s) ∷ []

-- `method host+path`, trimmed.
abbrev pub target_of : Option Request → List (String × Value)
target_of none = []
target_of (some q) =
    (
      "target",
      str (
          trim_right
            (trim_left (String.◌++◌ q.method (String.◌++◌ " " (String.◌++◌ q.host q.path))))),
    )
    ∷ []

-- `hashArgs(args)`.
unfoldable pub hash_args : (List ℕ → String) → Option Fields → String
unfolding canonical clip
hash_args sha256 args = clip 32 (sha256 (canonical (obj (get_or args end))))

unfoldable pub base_entry : (List ℕ → String) → Action → List (String × Value)
unfolding hash_args
base_entry sha256 a =
    (("agent", str (get_or a.agent "unknown"))
      ∷ ("tool", str (get_or a.tool "unknown"))
      ∷ ("verb", verb_value a.verb)
      ∷ ("impact", arr (texts (impact_names (get_or a.impact []))))
      ∷ ("argsHash", str (hash_args sha256 a.args))
      ∷ ("actionId", or_null a.action_id)
      ∷ [])
    ++ (optional "intentId" a.intent_id ++ (optional "resource" a.resource ++ target_of a.request))

-- `{ ...base, tier, authority, outcome, ...more }`.
unfoldable pub entry_of :
    (List ℕ → String) → Action → Tier → String → String → List (String × Value) → Fields
unfolding base_entry
entry_of sha256 a tier authority outcome more = object (
    base_entry sha256 a
    ++ (("tier", str (tier_name tier))
        ∷ ("authority", str authority)
        ∷ ("outcome", str outcome)
        ∷ more))

module _ {S : Type 0} (env : Env S) where
  abbrev pub log : Event → World S → World S
  log e w = record w { trace = w.trace ++ e ∷ [] }

  unfoldable pub after_append : Fields → Appended → Ledger → World S → World S
  after_append entry (done r) ledger w = record w {
    ledger = ledger;
    writes = w.writes + 1;
    trace = w.trace ++ logged entry ∷ [];
  }
  after_append entry (write_error m) ledger w = record w { ledger = ledger; writes = w.writes + 1 }

  -- `ledger.append(entry)`.
  unfoldable pub write : Fields → World S → Appended × World S
  unfolding after_append
  write entry w =
      let (answer, ledger) =
        append env.sha256 w.ledger entry (env.stamp w.writes) (env.disk w.writes) in
      (answer, after_append entry answer ledger w)

  -- `record(entry)`: a failure is swallowed.
  unfoldable pub note : Fields → World S → World S
  unfolding write
  note entry w = (write entry w).1
