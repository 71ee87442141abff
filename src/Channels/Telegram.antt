-- ===== src/Channels/Telegram.antt =====
-- src/channels/telegram.js: which methods may be called, what an escalation's buttons carry, and how an update is
-- read as a command. `print` is the text of a list of character codes.
pub mod Taps
use nvidia_omoda.Prelude.{
  ℕ, String, Bool, true, false, not, ◌&&◌, ◌||◌, Option, none, some, List, [], ◌∷◌, ◌==◌,
  if◌then◌else◌, includes, eqb, map, any, is_some,
}
use Prim.Native.String
use Prim.Native.Char.{Char, code}
use nvidia_omoda.Prelude.Split.{split_on}
use nvidia_omoda.Prelude.Rx.{codes, lower, space}
use nvidia_omoda.Models.Client.{trim, trim_start, trim_end}

abbrev allowed_methods : List String
allowed_methods =
    "getUpdates" ∷ "sendMessage" ∷ "answerCallbackQuery" ∷ "editMessageText"
    ∷ "editMessageReplyMarkup" ∷ "getMe" ∷ "getFile" ∷ []

-- `call`: whether the transport is called.
unfoldable may_call : String → Bool
may_call method = includes allowed_methods method

-- `isOperator`, on the text of an id.
abbrev pub is_operator : List String → String → Bool
is_operator allowed id = includes allowed id

pub record Media : Type 0 where
  pub file_id : String
  pub mime_type : Option String
  pub duration : Option ℕ

-- The parts of a message that are read.
pub record Message : Type 0 where
  pub from : String
  pub chat_id : Option String
  pub text : String
  pub voice : Option Media
  pub audio : Option Media
  pub video_note : Option Media
  pub video : Option Media

pub record Tap : Type 0 where
  pub id : String
  pub from : String
  pub payload : String
  pub chat_id : Option String
  pub message_id : Option String

-- A text that is missing is the empty text.
pub data Update : Type 0 where
  tapped : Tap → Update
  messaged : Message → Update
  nothing : Update

pub data Modality : Type 0 where
  voice video : Modality

pub data Command : Type 0 where
  inert : Command
  ignored : String → Option String → Command
  decide : String → Option String → Option String → Tap → Command
  media : Modality → Media → Message → Command
  halt resume unknown : Command
  undo : String → Command
  audit : String → Command

-- The data of the two buttons of an escalation.
abbrev pub callback_data : String → String → String → String
callback_data verdict intent_id action_id =
    String.◌++◌ verdict (String.◌++◌ ":" (String.◌++◌ intent_id (String.◌++◌ ":" action_id)))

abbrev pub part : List String → Option String × Option String
part [] = (none, none)
part (i ∷ []) = (some i, none)
part (i ∷ a ∷ l) = (some i, some a)

unfoldable pub parse_callback : List String → Tap → Command
unfolding split_on
parse_callback allowed cq =
    if not (is_operator allowed cq.from)
    then ignored "not the registered operator" (some cq.from)
    else elim (split_on ":" cq.payload) [
      | [] ↦ ignored "unknown callback" none
      | verdict ∷ ids ↦
          if not (verdict == "approve") && not (verdict == "deny")
          then ignored "unknown callback" none
          else decide verdict (part ids).0 (part ids).1 cq
    ]

-- `a ?? b`.
abbrev first_some {ℓ} : {A : Type ℓ} → Option A → Option A → Option A
first_some (some a) b = some a
first_some none b = b

-- What comes behind a word in any case.
unfoldable pub behind : List ℕ → List ℕ → Option (List ℕ)
unfolding lower
behind [] s = some s
behind (c ∷ word) [] = none
behind (c ∷ word) (d ∷ s) = if eqb (lower d) c then behind word s else none

-- What comes behind a word and at least one space, from its first character that is no space.
abbrev argument : List ℕ → Option (List ℕ)
argument [] = none
argument (c ∷ s) = if space c then some (trim_start s) else none

abbrev pub is_word : List ℕ → Bool
is_word [] = false
is_word s = not (any space s)

abbrev is_line_end : ℕ → Bool
is_line_end c = eqb c 10 || eqb c 13 || eqb c 8232 || eqb c 8233

-- Whether the text is the word, in any case.
abbrev is_the : String → List ℕ → Bool
is_the word s = elim (behind (codes word) s) [
  | none ↦ false
  | some [] ↦ true
  | some (c ∷ r) ↦ false
]

-- /^UNDO\s+(\S+)$/i and /^AUDIT(?:\s+(.*))?$/i.
unfoldable pub undo_token : List ℕ → Option (List ℕ)
unfolding behind trim_start
undo_token s = elim (behind (codes "undo") s) [
  | none ↦ none
  | some r ↦ elim (argument r) [ none ↦ none | some t ↦ if is_word t then some t else none ]
]

unfoldable audit_query : List ℕ → Option (List ℕ)
unfolding behind trim_start trim_end
audit_query s = elim (behind (codes "audit") s) [
  | none ↦ none
  | some [] ↦ some []
  | some (c ∷ r) ↦ elim (argument (c ∷ r)) [
    | none ↦ none
    | some q ↦ if any is_line_end q then none else some (trim q)
  ]
]

unfoldable parse_text : (List ℕ → String) → List ℕ → Command
unfolding behind undo_token audit_query
parse_text print s =
    if is_the "halt" s then halt else if is_the "resume" s then resume else elim (undo_token s) [
      | some t ↦ undo (print t)
      | none ↦ elim (audit_query s) [ some q ↦ audit (print q) | none ↦ unknown ]
    ]

abbrev pub media_of : Message → Option Media
media_of m = first_some m.voice (first_some m.audio (first_some m.video_note m.video))

abbrev pub modality_of : Message → Modality
modality_of m = if is_some m.voice || is_some m.audio then voice else video

unfoldable pub parse_message : (List ℕ → String) → List String → Message → Command
unfolding parse_text trim_start trim_end
parse_message print allowed m =
    if m.text == ""
    then elim (media_of m) [
      | none ↦ inert
      | some x ↦
          if not (is_operator allowed m.from)
          then ignored "not the registered operator" (some m.from)
          else media (modality_of m) x m
    ]
    else if not (is_operator allowed m.from)
    then ignored "not the registered operator" (some m.from)
    else parse_text print (trim (codes m.text))

-- `parseUpdate`.
unfoldable pub parse_update : (List ℕ → String) → List String → Update → Command
unfolding parse_callback parse_message
parse_update print allowed (tapped cq) = parse_callback allowed cq
parse_update print allowed (messaged m) = parse_message print allowed m
parse_update print allowed nothing = inert
