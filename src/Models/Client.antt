-- ===== src/Models/Client.antt =====
-- `stripReasoning` and `extractJson` of src/models/client.js, on lists of character codes. The language's
-- `JSON.parse` is a parameter.
use nvidia_omoda.Prelude.{
  ℕ, zero, suc, ◌+◌, ◌-◌, String, Bool, true, false, not, ◌&&◌, Option, none, some, List, [], ◌∷◌,
  if◌then◌else◌, map, eqb,
}
use nvidia_omoda.Prelude.Rx.{codes, starts_with, lower, space}
use nvidia_omoda.Json.{Value}

-- `s.trim()`.
unfoldable pub trim_start : List ℕ → List ℕ
trim_start [] = []
trim_start (c ∷ s) = let rest = trim_start s in if space c then rest else c ∷ s

unfoldable pub trim_end : List ℕ → List ℕ
trim_end [] = []
trim_end (c ∷ s) =
    let rest = trim_end s in elim rest [ [] ↦ if space c then [] else c ∷ [] | d ∷ r ↦ c ∷ d ∷ r ]

abbrev pub trim : List ℕ → List ℕ
trim s = trim_end (trim_start s)

abbrev pub here : String → List ℕ → Bool
here word s = starts_with (map lower s) (codes word)

-- How many characters from here to the end of the first `</think>`.
unfoldable to_close : List ℕ → Option ℕ
unfolding starts_with lower
to_close [] = none
to_close (c ∷ s) =
    let rest = to_close s in
    if here "</think>" (c ∷ s) then some 8 else elim rest [ none ↦ none | some n ↦ some (n + 1) ]

-- The length of the thinking block that starts here.
abbrev think_length : List ℕ → Option ℕ
think_length s = if here "<think>" s then to_close s else none

-- Without its thinking blocks; `wait` characters belong to one.
unfoldable strip_blocks : ℕ → List ℕ → List ℕ
unfolding to_close starts_with lower
strip_blocks wait [] = []
strip_blocks (suc wait) (c ∷ s) = strip_blocks wait s
strip_blocks zero (c ∷ s) = elim (think_length (c ∷ s)) [
  | none ↦ c ∷ strip_blocks 0 s
  | some n ↦ strip_blocks (n - 1) s
]

unfoldable pub strip_reasoning : List ℕ → List ℕ
unfolding strip_blocks trim_start trim_end
strip_reasoning s = trim (strip_blocks 0 s)

-- The length of the code fence that starts here: three backquotes, with or without `json`.
abbrev fence_length : List ℕ → Option ℕ
fence_length s = if here "```json" s then some 7 else if here "```" s then some 3 else none

unfoldable strip_fences : ℕ → List ℕ → List ℕ
unfolding starts_with lower
strip_fences wait [] = []
strip_fences (suc wait) (c ∷ s) = strip_fences wait s
strip_fences zero (c ∷ s) = elim (fence_length (c ∷ s)) [
  | none ↦ c ∷ strip_fences 0 s
  | some n ↦ strip_fences (n - 1) s
]

-- The text from the first opening brace on.
unfoldable from_brace : List ℕ → Option (List ℕ)
from_brace [] = none
from_brace (c ∷ s) = let rest = from_brace s in if eqb c b'{' then some (c ∷ s) else rest

-- Where the walk over the characters is: how deep, in a text or not, and behind a backslash or not.
pub record Walk : Type 0 where
  pub depth : ℕ
  pub in_text : Bool
  pub escaped : Bool

abbrev pub closes : Walk → ℕ → Bool
closes w c = not w.escaped && (not w.in_text && (eqb c b'}' && eqb w.depth 1))

-- The walk after a character that does not close the first brace. The depth is never below one here, since
-- the walk starts with a brace and ends with its partner.
unfoldable advance : Walk → ℕ → Walk
advance w c =
    if w.escaped
    then record w { escaped = false }
    else if eqb c 92
    then record w { escaped = true }
    else if eqb c 34
    then record w { in_text = not w.in_text }
    else if w.in_text
    then w
    else if eqb c b'{'
    then record w { depth = w.depth + 1 }
    else if eqb c b'}'
    then record w { depth = w.depth - 1 }
    else w

-- The text up to the partner of the first brace, if it has one.
unfoldable object_text : Walk → List ℕ → Option (List ℕ)
unfolding advance
object_text w [] = none
object_text w (c ∷ s) =
    let rest = object_text (advance w c) s in
    if closes w c then some (c ∷ []) else elim rest [ none ↦ none | some t ↦ some (c ∷ t) ]

abbrev walk_start : Walk
walk_start = record { depth = 0; in_text = false; escaped = false }

abbrev json_text : List ℕ → Option (List ℕ)
json_text s = elim (from_brace (strip_fences 0 (strip_reasoning s))) [
  | none ↦ none
  | some t ↦ object_text walk_start t
]

unfoldable pub extract_json : (List ℕ → Option Value) → List ℕ → Option Value
unfolding strip_fences strip_reasoning from_brace object_text
extract_json parse s = elim (json_text s) [ none ↦ none | some t ↦ parse t ]
