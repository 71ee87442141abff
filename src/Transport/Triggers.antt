-- ===== src/Transport/Triggers.antt =====
-- src/transport/triggers.js: the phrases that route an observation, and the store of them. The file
-- behind the store and the ledger's record of a change are left to the caller.
pub mod Matched
use nvidia_omoda.Prelude.{
  ℕ, suc, ◌+◌, ◌-◌, String, Bool, true, false, not, ◌&&◌, ◌||◌, Option, none, some, List, [], ◌∷◌,
  ◌++◌, ◌==◌, if◌then◌else◌, get_or, any, all, keep, map, length, eqb, drop,
}
use Prim.Native.String
use Prim.Native.Char.{code}
use nvidia_omoda.Prelude.Rx.{
  Item, one, many, codes, accepts, lit, anything, space, lower, starts_with, trim_left, trim_right,
}
use nvidia_omoda.Models.Router.{bounded}

pub record Trigger : Type 0 where
  pub id : String
  pub phrases : List String
  pub incident_type : String
  pub l1 : String
  pub action : String

-- `normalize`.
unfoldable pub normalize : String → List ℕ
unfolding lower
normalize s = map lower (codes s)

-- /\b(no|not|without|zero|any)\s+(visible\s+|apparent\s+|other\s+)?$/, one pattern for each choice.
abbrev pub spaces : List Item
spaces = one space ∷ many space ∷ []

abbrev pub negations : List Item → List (List Item)
negations tail =
    map (λ w. lit (codes w) ++ (spaces ++ tail)) ("no" ∷ "not" ∷ "without" ∷ "zero" ∷ "any" ∷ [])

abbrev pub fillers : List (List Item)
fillers = [] ∷ map (λ w. lit (codes w) ++ spaces) ("visible" ∷ "apparent" ∷ "other" ∷ [])

unfoldable pub negated : List ℕ → Bool
unfolding accepts
negated pre = any (λ f. any (λ r. bounded r pre) (negations f)) fillers

-- `hay.slice(Math.max(0, idx - 16), idx)`.
abbrev pub before_of : List ℕ → List ℕ
before_of before = drop (length before - 16) before

-- The search for an occurrence that is not negated: `before` has been read, `wait` characters belong
-- to an occurrence that was negated.
unfoldable pub scan : List ℕ → List ℕ → List ℕ → ℕ → Bool
unfolding starts_with negated
scan p before [] wait = eqb wait 0 && (starts_with [] p && not (negated (before_of before)))
scan p before (c ∷ s) wait =
    let here = eqb wait 0 && starts_with (c ∷ s) p in
    let rest = scan p (before ++ c ∷ []) s (if here then length p - 1 else wait - 1) in
    if here && not (negated (before_of before)) then true else rest

unfoldable pub has_phrase : List ℕ → String → Bool
unfolding scan normalize
has_phrase hay phrase = scan (normalize phrase) [] hay 0

unfoldable pub first_phrase : List ℕ → List String → Option String
unfolding has_phrase
first_phrase hay [] = none
first_phrase hay (p ∷ ps) =
    let rest = first_phrase hay ps in if has_phrase hay p then some p else rest

unfoldable pub first_trigger : List ℕ → List Trigger → Option (Trigger × String)
unfolding first_phrase
first_trigger hay [] = none
first_trigger hay (r ∷ rs) =
    let rest = first_trigger hay rs in
    elim (first_phrase hay r.phrases) [ some p ↦ some (r, p) | none ↦ rest ]

-- `match`: an empty text matches nothing.
unfoldable pub match_text : List Trigger → String → Option (Trigger × String)
unfolding first_trigger normalize
match_text rules text = elim (normalize text) [ [] ↦ none | c ∷ s ↦ first_trigger (c ∷ s) rules ]

-- Phrases come as a list, or as one text with commas.
pub data Phrases : Type 0 where
  listed : List String → Phrases
  joined : String → Phrases

-- `s.split(",")`: the part up to the first comma, and the parts after it.
unfoldable pub split_commas : String → String × List String
split_commas String.[] = ("", [])
split_commas (String.◌∷◌ c s) =
    let (head, tail) = split_commas s in
    if eqb (code c) b',' then ("", head ∷ tail) else (String.◌∷◌ c head, tail)

unfoldable pub parts_of : Phrases → List String
unfolding split_commas
parts_of (listed l) = l
parts_of (joined s) = let (head, tail) = split_commas s in head ∷ tail

unfoldable pub clean_phrases : Phrases → List String
unfolding parts_of trim_left trim_right
clean_phrases ps = keep (λ p. not (p == "")) (map (λ p. trim_right (trim_left p)) (parts_of ps))

abbrev pub or_text : String → String → String
or_text s d = if s == "" then d else s

pub data Changed : Type 0 where
  no_phrase no_agent no_trigger : Changed
  added : Trigger → Changed
  removed : Changed

unfoldable pub add_trigger :
    String → Phrases → String → String → String → List Trigger → Changed × List Trigger
unfolding clean_phrases
add_trigger id phrases incident_type l1 action rules = elim (clean_phrases phrases) [
  | [] ↦ (no_phrase, rules)
  | p ∷ ps ↦
      if l1 == ""
      then (no_agent, rules)
      else let rule : Trigger = record {
        id = id;
        phrases = p ∷ ps;
        incident_type = or_text incident_type "other";
        l1 = l1;
        action = action;
      } in
        (added rule, rules ++ rule ∷ [])
]

unfoldable pub remove_trigger : String → List Trigger → Changed × List Trigger
remove_trigger id rules =
    let rest = keep (λ r. not (r.id == id)) rules in
    if eqb (length rest) (length rules) then (no_trigger, rules) else (removed, rest)
