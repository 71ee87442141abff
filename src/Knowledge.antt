-- ===== src/Knowledge.antt =====
-- src/knowledge/store.js: a document's chunks, the score of a chunk without an embedder, and the block of context
-- that a model is given, on lists of character codes. The embedder's vectors and the disk are left out.
pub mod Chunks
pub mod Words
use nvidia_omoda.Prelude.{
  ℕ, zero, suc, ◌+◌, ◌-◌, Bool, true, false, not, ◌&&◌, ◌||◌, Option, none, some, List, [], ◌∷◌,
  ◌++◌, if◌then◌else◌, eqb, leb, length, map, take, drop, keep,
}
use nvidia_omoda.Prelude.Rx.{space}
use nvidia_omoda.Models.Client.{trim, trim_start, trim_end}

abbrev pub nonempty {ℓ} : {A : Type ℓ} → List A → Bool
nonempty [] = false
nonempty (x ∷ l) = true

-- How many characters there are up to the last line end of the white space that starts here.
unfoldable pub last_line : List ℕ → ℕ
last_line [] = 0
last_line (c ∷ s) =
    let rest = last_line s in
    if not (space c) then 0 else if not (eqb rest 0) then rest + 1 else if eqb c 10 then 1 else 0

-- The length of the blank line that starts here: /\n\s*\n/.
unfoldable pub gap : List ℕ → Option ℕ
unfolding last_line
gap [] = none
gap (c ∷ s) = if eqb c 10 && not (eqb (last_line s) 0) then some (last_line s) else none

abbrev pub push : ℕ → List (List ℕ) → List (List ℕ)
push c [] = (c ∷ []) ∷ []
push c (p ∷ l) = (c ∷ p) ∷ l

-- The split on blank lines; `wait` characters belong to one.
unfoldable pub split_lines : ℕ → List ℕ → List (List ℕ)
unfolding gap
split_lines wait [] = [] ∷ []
split_lines (suc wait) (c ∷ s) = split_lines wait s
split_lines zero (c ∷ s) = elim (gap (c ∷ s)) [
  | none ↦ push c (split_lines 0 s)
  | some n ↦ [] ∷ split_lines n s
]

unfoldable pub paragraphs : List ℕ → List (List ℕ)
unfolding split_lines trim_start trim_end
paragraphs text = keep nonempty (map trim (split_lines 0 text))

-- The `while` loop: pieces of the full length while the text is longer. The text's length is enough fuel
-- where the full length is not 0, with which the loop would not end.
unfoldable pub cut : ℕ → ℕ → List ℕ → List (List ℕ) × List ℕ
cut max zero cur = ([], cur)
cut max (suc fuel) cur =
    let (more, rest) = cut max fuel (drop max cur) in
    if leb (length cur) max then ([], cur) else (take max cur ∷ more, rest)

-- Whether a paragraph no longer fits behind the current chunk.
abbrev pub is_full : ℕ → List ℕ → List ℕ → Bool
is_full max cur p = nonempty cur && not (leb (length cur + length p + 2) max)

abbrev pub joined : List ℕ → List ℕ → List ℕ
joined [] p = p
joined (c ∷ s) p = (c ∷ s) ++ 10 ∷ 10 ∷ p

unfoldable pub pack : ℕ → List (List ℕ) → List ℕ → List (List ℕ)
unfolding cut
pack max [] cur = if nonempty cur then cur ∷ [] else []
pack max (p ∷ ps) cur =
    let next = if is_full max cur p then p else joined cur p in
    let (pieces, rest) = cut max (length next) next in
    (if is_full max cur p then cur ∷ [] else []) ++ (pieces ++ pack max ps rest)

-- `chunkText`.
unfoldable pub chunk_text : ℕ → List ℕ → List (List ℕ)
unfolding paragraphs pack
chunk_text max text = pack max (paragraphs text) []
