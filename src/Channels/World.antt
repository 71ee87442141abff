-- ===== src/Channels/World.antt =====
-- What an update meets in src/channels/telegram-loop.js, the state of the loop, and its records.
use nvidia_omoda.Prelude.{ℕ, String, Bool, Option, none, some, List, [], ◌∷◌}
use nvidia_omoda.Json.{Value, Fields, str, object}
use nvidia_omoda.Domain.Action.{Action}
use nvidia_omoda.Ledger.{Ledger, Disk, append}
use nvidia_omoda.Broker.Decision.{Decision}
use nvidia_omoda.Broker.Undo.{Store}
use nvidia_omoda.Policy.Port.{Reply}
use nvidia_omoda.Api.Intents.{Intent, Intents, Caller}
use nvidia_omoda.Channels.Telegram.{Media, Modality}

-- What the modality transform makes of a voice note.
pub record Transcript : Type 0 where
  pub modality : String
  pub text : String
  pub flags : List String
  pub model : String
  pub egress : String
  pub bytes : ℕ

pub data Heard : Type 0 where
  heard : Transcript → Heard
  not_heard : String → Heard

pub data Reverted : Type 0 where
  reverted : ℕ → Reverted
  revert_failed : String → Reverted

-- What an update meets: the parameters of the loop, the clock, and how the calls of others go. `lost` is the message
-- of the error of a call of Telegram, by its place among the calls for this update; `revert` is the policy's, if there is one.
pub record Env : Type 0 where
  pub print : List ℕ → String
  pub allowed : List String
  pub operator : Caller
  pub single_operator : Bool
  pub random_id : String
  pub now : ℕ
  pub time : String
  pub sha256 : List ℕ → String
  pub disk : Disk
  pub lost : ℕ → Option String
  pub transform : Option (Modality → Media → Heard)
  pub revert : Option Reverted
  pub replay : Option (Action → String → Reply)
  pub has_bus : Bool
  pub runs_approved : Bool

-- `approved` lists the calls of `onApproved`, `published` the messages on the agents' stream.
pub record Approval : Type 0 where
  pub intent : Option Intent
  pub action : Action
  pub decision : Decision

pub record World : Type 0 where
  pub intents : Intents
  pub ledger : Ledger
  pub undo : Store
  pub halted : Bool
  pub offset : ℕ
  pub published : List Fields
  pub approved : List Approval

pub data Handled : Type 0 where
  handled : Bool → Handled
  threw : String → Handled

unfoldable pub append_to : Env → Fields → World → World
unfolding append
append_to env fields w = record w {
  ledger = (append env.sha256 w.ledger fields env.time env.disk).1;
}

-- `record`: whether the ledger takes it or not.
abbrev pub note : Env → List (String × Value) → World → World
note env fields w =
    append_to env
      (object (
        ("kind", str "telegram")
        ∷ ("agent", str env.operator.id)
        ∷ ("verb", str "update")
        ∷ fields))
      w

abbrev pub entry : String → String → String → List (String × Value)
entry tool outcome reason =
    ("tool", str tool) ∷ ("outcome", str outcome) ∷ ("reason", str reason) ∷ []

abbrev pub entry_of : String → String → List (String × Value)
entry_of tool outcome = ("tool", str tool) ∷ ("outcome", str outcome) ∷ []

-- After a call of Telegram that may fail.
abbrev pub tell : Option String → Handled × World → World → Handled × World
tell none next w = next
tell (some message) next w = (threw message, w)
