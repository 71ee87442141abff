-- ===== src/Prelude/Search.antt =====
-- The search of a regular expression in a text, in the order in which the language tries its choices:
-- the leftmost place, and there the first way to match. A state is the text ahead, and whether the
-- character behind is one of a word.
use Prim.Native.Nat.{ℕ, zero, suc}
use mathlib.Core.Bool.{Bool, true, false, ◌&&◌, ◌||◌}
use mathlib.Core.Option.{Option, none, some}
use mathlib.Core.List.{List, [], ◌∷◌, ◌++◌}
use nvidia_omoda.Prelude.Tests.{leb, eqb, if◌then◌else◌}
use nvidia_omoda.Prelude.Rx.{lower}

-- `any p` is a run of any length, `upto n p` of at most n; `texts` is one of several texts, `perhaps` a
-- text that may be left out, `edge` is `\b`. Each takes as much as it can first.
pub data Part : Type 0 where
  one : (ℕ → Bool) → Part
  any : (ℕ → Bool) → Part
  upto : ℕ → (ℕ → Bool) → Part
  texts : List (List ℕ) → Part
  perhaps : List ℕ → Part
  edge : Part

abbrev pub is_word : ℕ → Bool
is_word c =
    (leb b'0' c && leb c b'9')
    || ((leb b'A' c && leb c b'Z') || ((leb b'a' c && leb c b'z') || eqb c b'_'))

pub record Place : Type 0 where
  pub behind : Bool
  pub ahead : List ℕ

abbrev word_ahead : List ℕ → Bool
word_ahead [] = false
word_ahead (c ∷ s) = is_word c

-- A text in lower case, read off the text ahead whatever its case.
unfoldable read_text : List ℕ → Place → List Place
unfolding lower
read_text [] at = at ∷ []
read_text (w ∷ ws) at = elim at.ahead [
  | [] ↦ []
  | c ∷ s ↦ elim (eqb (lower c) w) [
    | true ↦ read_text ws (record { behind = is_word c; ahead = s })
    | false ↦ []
  ]
]

unfoldable read_texts : List (List ℕ) → Place → List Place
unfolding read_text
read_texts [] at = []
read_texts (w ∷ ws) at = read_text w at ++ read_texts ws at

unfoldable read_any : (ℕ → Bool) → Bool → List ℕ → List Place
read_any p behind [] = record { behind = behind; ahead = [] } ∷ []
read_any p behind (c ∷ s) =
    let longer = read_any p (is_word c) s in
    if p c
    then longer ++ record { behind = behind; ahead = c ∷ s } ∷ []
    else record { behind = behind; ahead = c ∷ s } ∷ []

unfoldable read_upto : ℕ → (ℕ → Bool) → Bool → List ℕ → List Place
read_upto zero p behind s = record { behind = behind; ahead = s } ∷ []
read_upto (suc n) p behind [] = record { behind = behind; ahead = [] } ∷ []
read_upto (suc n) p behind (c ∷ s) =
    let longer = read_upto n p (is_word c) s in
    if p c
    then longer ++ record { behind = behind; ahead = c ∷ s } ∷ []
    else record { behind = behind; ahead = c ∷ s } ∷ []

unfoldable read_one : (ℕ → Bool) → List ℕ → List Place
read_one p [] = []
read_one p (c ∷ s) = if p c then record { behind = is_word c; ahead = s } ∷ [] else []

unfoldable read_edge : Place → List Place
read_edge at = elim at.behind [
  | true ↦ if word_ahead at.ahead then [] else at ∷ []
  | false ↦ if word_ahead at.ahead then at ∷ [] else []
]

-- Where one part may leave off, in the order of the tries.
unfoldable pub read : Part → Place → List Place
unfolding read_one read_any read_upto read_text read_texts read_edge
read (one p) at = read_one p at.ahead
read (any p) at = read_any p at.behind at.ahead
read (upto n p) at = read_upto n p at.behind at.ahead
read (texts ws) at = read_texts ws at
read (perhaps w) at = read_text w at ++ at ∷ []
read edge at = read_edge at

abbrev first_of : (Place → Option Place) → List Place → Option Place
first_of way [] = none
first_of way (at ∷ l) = elim (way at) [ some end ↦ some end | none ↦ first_of way l ]

-- The first way through all the parts.
unfoldable first_way : List Part → Place → Option Place
unfolding read
first_way [] at = some at
first_way (p ∷ ps) at = first_of (first_way ps) (read p at)

-- The leftmost match: what stands before it, and what follows it.
unfoldable pub find_first : List Part → Bool → List ℕ → Option (List ℕ × List ℕ)
unfolding first_way
find_first ps behind [] = elim (first_way ps (record { behind = behind; ahead = [] })) [
  | some end ↦ some ([], end.ahead)
  | none ↦ none
]
find_first ps behind (c ∷ s) = elim (first_way ps (record { behind = behind; ahead = c ∷ s })) [
  | some end ↦ some ([], end.ahead)
  | none ↦ elim (find_first ps (is_word c) s) [
    | none ↦ none
    | some (before, after) ↦ some (c ∷ before, after)
  ]
]

-- `re.test(s)`.
abbrev pub found : List Part → List ℕ → Bool
found ps s = elim (find_first ps false s) [ some m ↦ true | none ↦ false ]

-- `s.replace(re, text)`: the first match only.
unfoldable pub replace_first : List Part → List ℕ → List ℕ → List ℕ
unfolding find_first
replace_first ps text s = elim (find_first ps false s) [
  | none ↦ s
  | some (before, after) ↦ before ++ (text ++ after)
]
