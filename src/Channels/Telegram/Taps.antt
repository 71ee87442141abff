-- ===== src/Channels/Telegram/Taps.antt =====
-- What src/channels/telegram.js takes from the operator only, and its buttons.
use nvidia_omoda.Prelude.{
  ℕ, String, Bool, true, ◌||◌, some, List, [], ◌∷◌, ◌≡◌, refl, sym, ap, ◌∙◌, Bool-cases,
  Option-cases, inl, inr, arith, ◌==◌, subst,
}
use Prim.Native.String
use text.Mathlib.TextEquality.{eq_iff}
use nvidia_omoda.Prelude.Split.{split_on, free_of, split_on-front, split_on-free_of}
use nvidia_omoda.Channels.Telegram.{
  Command, Tap, Update, tapped, messaged, nothing, inert, ignored, decide, parse_update,
  parse_message, parse_callback, is_operator, callback_data, media_of,
}

abbrev pub no_colon : String → Bool
no_colon s = free_of ":" s

-- The three parts of a button's data.
data_parts :
    (verdict intent_id action_id : String)
    → no_colon verdict ≡ true
    → no_colon intent_id ≡ true
    → no_colon action_id ≡ true
    → split_on ":" (callback_data verdict intent_id action_id)
      ≡ verdict ∷ intent_id ∷ action_id ∷ []
data_parts verdict intent_id action_id v i a =
    split_on-front ":" verdict (String.◌++◌ intent_id (String.◌++◌ ":" action_id)) v
    ∙ ap (λ l. verdict ∷ l)
        (split_on-front ":" intent_id action_id i
          ∙ ap (λ l. intent_id ∷ l) (split_on-free_of ":" action_id a))

abbrev is_verdict : String → Bool
is_verdict v = (v == "approve") || (v == "deny")

verdict-no_colon : (v : String) → is_verdict v ≡ true → no_colon v ≡ true
unfolding free_of
verdict-no_colon v h = elim (Bool-cases (v == "approve")) [
  | inl approves ↦ subst (λ x. no_colon x ≡ true) (sym ((eq_iff v "approve").0 approves)) refl
  | inr other ↦
      subst (λ x. no_colon x ≡ true) (sym ((eq_iff v "deny").0 (ground (arith, h, other)))) refl
]

-- A button that the registered operator taps, to approve or to deny, is read as its own verdict on the
-- intent and the action it was made for, where the ids have no colon.
pub parse-callback_data :
    (print : List ℕ → String) (allowed : List String) (cq : Tap)
    (verdict intent_id action_id : String)
    → is_operator allowed cq.from ≡ true
    → is_verdict verdict ≡ true
    → no_colon intent_id ≡ true
    → no_colon action_id ≡ true
    → cq.payload ≡ callback_data verdict intent_id action_id
    → parse_update print allowed (tapped cq) ≡ decide verdict (some intent_id) (some action_id) cq
unfolding parse_update parse_callback
parse-callback_data print allowed cq verdict intent_id action_id own known i a sent =
    rw (own, sent, data_parts verdict intent_id action_id (verdict-no_colon verdict known) i a)
      (ground (arith, known))

-- A command that changes anything.
abbrev pub Acts : Command → Type 0
Acts inert = ⊥
Acts (ignored why from) = ⊥
Acts _ = Unit

abbrev sender : Update → String
sender (tapped cq) = cq.from
sender (messaged m) = m.from
sender nothing = ""

-- Only an update of a registered operator is a command that is acted on.
Acts-for_operator :
    (print : List ℕ → String) (allowed : List String) (u : Update)
    → Acts (parse_update print allowed u)
    → is_operator allowed (sender u) ≡ true
unfolding parse_update parse_callback parse_message
Acts-for_operator print allowed (tapped cq) acts = elim (Bool-cases (is_operator allowed cq.from)) [
  | inl own ↦ own
  | inr other ↦ absurd (rw other at acts)
]
Acts-for_operator print allowed (messaged m) acts = elim (Bool-cases (is_operator allowed m.from)) [
  | inl own ↦ own
  | inr other ↦ elim (Bool-cases (m.text == "")) [
    | inr text ↦ absurd (rw (text, other) at acts)
    | inl blank ↦ elim (Option-cases (media_of m)) [
      | inl none_there ↦ absurd (rw (blank, none_there) at acts)
      | inr (x, there) ↦ absurd (rw (blank, there, other) at acts)
    ]
  ]
]
Acts-for_operator print allowed nothing acts = absurd acts
