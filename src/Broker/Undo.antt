-- ===== src/Broker/Undo.antt =====
-- src/broker/undo.js: the registry of reversals, each run at most once.
pub mod Once
use nvidia_omoda.Prelude.{
  ℕ, String, Bool, true, false, Option, none, some, List, [], ◌∷◌, ◌==◌, get_or, if◌then◌else◌,
}
use Prim.Native.String
use nvidia_omoda.Prelude.Dict.{get, put}
use nvidia_omoda.Prelude.Rx.{clip}
use nvidia_omoda.Json.{Value, Fields, str, object}
use nvidia_omoda.Domain.Action.{Action}
use nvidia_omoda.Ledger.{Ledger, Disk, Appended, done, write_error, append}
use nvidia_omoda.Policy.Port.{Reply, returned, threw}

-- `replays` says that a replay was given; without one the reversal is only reported.
pub record Reversal : Type 0 where
  pub action : Action
  pub inverse : String
  pub replays : Bool
  pub spent : Bool

abbrev pub Store : Type 0
Store = List (String × Reversal)

unfoldable pub register : String → Action → String → Bool → Store → Store
register token action inverse replays store =
    if token == ""
    then store
    else put token (record { action = action; inverse = inverse; replays = replays; spent = false })
        store

pub data Undone : Type 0 where
  reversed : Undone
  no_reversal already_run : Undone
  reversal_failed unlogged : String → Undone

abbrev pub mark : String → Bool → Reversal → Store → Store
mark token spent r store = put token (record r { spent = spent }) store

abbrev pub undo_entry : String → String → String → String → Action → Fields
undo_entry token operator outcome reason action = object (
    ("kind", str "undo")
    ∷ ("agent", str operator)
    ∷ ("tool", str (get_or action.tool "unknown"))
    ∷ ("verb", str "delete")
    ∷ ("outcome", str outcome)
    ∷ ("reason", str reason)
    ∷ ("undoToken", str token)
    ∷ [])

module _ (sha256 : List ℕ → String) (replay : Action → String → Reply) where
  unfoldable pub log_undone : Appended × Ledger → Store → Undone × Store × Ledger
  log_undone (done r, ledger) store = (reversed, store, ledger)
  log_undone (write_error message, ledger) store = (unlogged message, store, ledger)

  unfoldable pub reverse_with :
      Reply → String → String → Reversal → String → Disk → Store → Ledger → Undone × Store × Ledger
  unfolding log_undone append clip
  reverse_with returned token operator r now disk store ledger =
      log_undone
        (append sha256 ledger
          (undo_entry token operator "undone"
            (String.◌++◌ "reversed " (get_or r.action.tool "action")) r.action)
          now disk)
        (mark token true r store)
  reverse_with (threw message) token operator r now disk store ledger = (
    reversal_failed message,
    mark token false r (mark token true r store),
    (append sha256 ledger (undo_entry token operator "undo-failed" (clip 160 message) r.action) now
        disk).1,
  )

  -- `run(token, { operator })`.
  unfoldable pub run : String → String → String → Disk → Store → Ledger → Undone × Store × Ledger
  unfolding reverse_with
  run token operator now disk store ledger = elim (get token store) [
    | none ↦ (no_reversal, store, ledger)
    | some r ↦
        if r.spent
        then (already_run, store, ledger)
        else reverse_with (if r.replays then replay r.action r.inverse else returned) token operator
            r now disk store ledger
  ]
