-- ===== src/Channels/Loop.antt =====
-- src/channels/telegram-loop.js: one update of the operator's channel, and one poll of updates. What the operator is
-- told is left out, except that telling him may fail, which ends the handling of the update.
pub mod Approved
pub mod Lost
use nvidia_omoda.Prelude.{
  ℕ, suc, ◌+◌, String, Bool, true, false, not, ◌&&◌, ◌||◌, Option, none, some, List, [], ◌∷◌, ◌++◌,
  ◌==◌, if◌then◌else◌, get_or, is_some, find, map, leb,
}
use Prim.Native.String
use nvidia_omoda.Prelude.Dict.{get, put}
use nvidia_omoda.Prelude.Print.{print_number}
use nvidia_omoda.Prelude.Rx.{clip}
use nvidia_omoda.Json.{Value, Fields, undef, null, str, arr, obj, object, end, prop, texts, or_null}
use nvidia_omoda.Domain.Taxonomy.{Verb}
use nvidia_omoda.Domain.Action.{Action}
use nvidia_omoda.Ledger.{Ledger, Disk, append}
use nvidia_omoda.Broker.Decision.{Decision, same_text, is_unsettled}
use nvidia_omoda.Broker.Undo.{
  Undone, reversed, no_reversal, already_run, reversal_failed, unlogged, Store, run,
}
use nvidia_omoda.Policy.Port.{Reply}
use nvidia_omoda.Api.Intents.{Intent, Intents, Caller, propose, nullish}
use nvidia_omoda.Api.Intents.Decide.{Ballot, Decided, turned_down, recorded}
use nvidia_omoda.Api.Intents.Decide
use nvidia_omoda.Api.Stream.{transport_envelope}
use nvidia_omoda.Models.Plan.{verb_name, impact_name}
use nvidia_omoda.Channels.Telegram.{
  Command, Update, Tap, Media, Message, Modality, voice, video, inert, ignored, decide, media, halt,
  resume, unknown, undo, audit, parse_update,
}
use nvidia_omoda.Channels.World.{
  Transcript, Env, World, Handled, append_to, note, entry, entry_of, tell, heard, not_heard,
  reverted, revert_failed, handled, threw,
}
use nvidia_omoda.Channels.Vote.{on_decide}

abbrev pub modality_name : Modality → String
modality_name voice = "voice"
modality_name video = "video"

abbrev idem_of : Media → String
idem_of x = String.◌++◌ "tg-media-" x.file_id

abbrev media_body : Transcript → Fields
media_body t = object (
    ("source", str "telegram")
    ∷ ("kind", str "task")
    ∷ (
      "evidence",
      obj (
          object (
            ("modality", str t.modality)
            ∷ ("transcript", str t.text)
            ∷ ("flags", arr (texts t.flags))
            ∷ ("model", str t.model)
            ∷ [])),
    )
    ∷ ("requested_outcome", str t.text)
    ∷ [])

abbrev transcribed_entry : Transcript → String → List (String × Value)
transcribed_entry t id =
    entry "telegram.media" "transcribed" (
      String.◌++◌ t.modality (
        String.◌++◌ " " (
          String.◌++◌ (print_number (t.bytes + 1) t.bytes) (
            String.◌++◌ "b via "
              (String.◌++◌ t.model (String.◌++◌ " (" (String.◌++◌ t.egress ")")))))))
    ++ ("intentId", str id) ∷ []

-- A refusal is answered and recorded; `n` is the place of the answer.
unfoldable pub refuse_media : Env → ℕ → String → World → Handled × World
unfolding append_to clip
refuse_media env n message w =
    tell (env.lost n)
      (handled false, note env (entry "telegram.media" "refused" (clip 160 message)) w) w

-- A voice note proposes an intent.
unfoldable pub on_media : Env → Modality → Media → Message → World → Handled × World
unfolding propose append_to refuse_media print_number
on_media env m x msg w = elim env.transform [
  | none ↦
      tell (env.lost 0)
        (handled false, note env (entry "telegram.media" "unconfigured" (modality_name m)) w) w
  | some transform ↦ elim (transform m x) [
    | not_heard message ↦ refuse_media env 0 message w
    | heard t ↦
        let p =
          propose env.random_id env.time (some (idem_of x)) (media_body t)
            (record {
              id = String.◌++◌ "telegram:" (String.◌++◌ t.modality (String.◌++◌ ":" msg.from));
              scopes = some ("intent:propose" ∷ []);
            })
            (transport_envelope "telegram" "inbound" t.modality (idem_of x) env.time) w.intents in
        let proposed : World = record w { intents = p.store } in
        elim (env.lost 0) [
          | none ↦ (handled true, note env (transcribed_entry t p.intent) proposed)
          | some message ↦ refuse_media env 1 message proposed
        ]
  ]
]

unfoldable pub on_halt : Env → World → Handled × World
unfolding append_to print_number
on_halt env w =
    let halted : World = record w { halted = true } in
    elim (get_or env.revert (reverted 0)) [
      | revert_failed message ↦
          tell (env.lost 0)
            (handled true, note env (entry "telegram.halt" "revert-failed" message) halted) halted
      | reverted n ↦
          tell (env.lost 0)
            (
              handled true,
              note env
                  (entry "telegram.halt" "halted"
                    (String.◌++◌ "reverted " (print_number (n + 1) n)))
                  halted,
            )
            halted
    ]

abbrev is_reversed : Undone → Bool
is_reversed reversed = true
is_reversed _ = false

-- What `run` says of a reversal that it did not make.
abbrev undo_reason : String → Undone → String
undo_reason token reversed = token
undo_reason token no_reversal = String.◌++◌ "no reversible action for token " token
undo_reason token already_run = String.◌++◌ "undo for " (String.◌++◌ token " was already run")
undo_reason token (reversal_failed message) = String.◌++◌ "reversal failed: " message
undo_reason token (unlogged message) = String.◌++◌ "reversal ran but could not be logged: " message

unfoldable pub on_undo : Env → String → World → Handled × World
unfolding run append_to
on_undo env token w = elim env.replay [
  | none ↦
      tell (env.lost 0) (handled false, note env (entry "telegram.undo" "unconfigured" token) w) w
  | some replay ↦
      let (out, store, ledger) =
        run env.sha256 replay token env.operator.id env.time env.disk w.undo w.ledger in
      let undone : World = record w { undo = store; ledger = ledger } in
      tell (env.lost 0)
        (
          handled (is_reversed out),
          note env
              (entry "telegram.undo" (if is_reversed out then "undone" else "refused")
                (undo_reason token out))
              undone,
        )
        undone
]

-- A command.
unfoldable pub act : Env → Command → World → Handled × World
unfolding on_decide on_media on_halt on_undo append_to
act env inert w = (handled true, w)
act env (ignored why from) w = (
  handled true,
  note env (entry "telegram.ignored" "ignored" why ++ ("from", str (get_or from "?")) ∷ []) w,
)
act env (decide verdict intent_id action_id cq) w = on_decide env verdict intent_id action_id cq w
act env (media m x msg) w = on_media env m x msg w
act env halt w = on_halt env w
act env resume w =
    let resumed : World = record w { halted = false } in
    tell (env.lost 0) (handled true, note env (entry_of "telegram.resume" "resumed") resumed)
      resumed
act env (undo token) w = on_undo env token w
act env (audit query) w =
    tell (env.lost 0) (handled true, note env (entry_of "telegram.audit" "served") w) w
act env unknown w = tell (env.lost 0) (handled true, w) w

-- `handle`.
unfoldable pub handle : Env → Update → World → Handled × World
unfolding parse_update act
handle env u w = act env (parse_update env.print env.allowed u) w

abbrev pub later : ℕ → ℕ → ℕ
later a b = if leb a b then b else a

-- `pollOnce`, on the updates that `getUpdates` gives back: the offset is past an update before it is handled, and an
-- update that throws ends the poll.
unfoldable poll_once : List (Env × ℕ × Update) → World → List Handled × World
unfolding handle
poll_once [] w = ([], w)
poll_once ((env, id, u) ∷ l) w =
    let (out, w') = handle env u (record w { offset = later w.offset (id + 1) }) in
    let (outs, last) = poll_once l w' in
    elim out [ threw message ↦ (threw message ∷ [], w') | handled ok ↦ (handled ok ∷ outs, last) ]
