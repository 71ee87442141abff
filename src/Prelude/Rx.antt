-- ===== src/Prelude/Rx.antt =====
-- The regular expressions that the source uses: sequences of single characters and of runs, with
-- alternatives written out. A text is the list of its code points.
use Prim.Native.Nat.{ℕ, zero, suc, ◌+◌}
use Prim.Native.Char.{code}
use Prim.Native.String.{String}
use mathlib.Core.Path.{◌≡◌, refl}
use mathlib.Core.Logic.{inl, inr}
use mathlib.Core.Bool.{Bool, true, false, ◌&&◌, ◌||◌, not}
use mathlib.Core.List.{List, [], ◌∷◌, ◌++◌, map}
use native.Mathlib.Omega.{arith}
use text.Mathlib.Text.{◌==◌}
use text.Mathlib.TextEquality.{Char-path}
use nvidia_omoda.Prelude.Tests.{leb, eqb, if◌then◌else◌, Bool-cases}

abbrev pub codes : String → List ℕ
codes String.[] = []
codes (String.◌∷◌ c s) = code c ∷ codes s

-- One character of a class, at most one, or a run of any length.
pub data Item : Type 0 where
  one maybe many : (ℕ → Bool) → Item

-- Does the whole text fit the pattern?
unfoldable pub accepts : List Item → List ℕ → Bool
accepts [] [] = true
accepts [] (c ∷ s) = false
accepts (one p ∷ r) [] = false
accepts (one p ∷ r) (c ∷ s) = elim (p c) [ true ↦ accepts r s | false ↦ false ]
accepts (maybe p ∷ r) [] = accepts r []
accepts (maybe p ∷ r) (c ∷ s) = elim (accepts r (c ∷ s)) [
  | true ↦ true
  | false ↦ elim (p c) [ true ↦ accepts r s | false ↦ false ]
]
accepts (many p ∷ r) [] = accepts r []
accepts (many p ∷ r) (c ∷ s) = elim (accepts r (c ∷ s)) [
  | true ↦ true
  | false ↦ elim (p c) [ true ↦ accepts (many p ∷ r) s | false ↦ false ]
]

-- What a pattern means, as a relation.
pub data Matches : List Item → List ℕ → Type 0 where
  end : Matches [] []
  take :
      {p : ℕ → Bool} {r : List Item} {s : List ℕ} (c : ℕ)
      → p c ≡ true
      → Matches r s
      → Matches (one p ∷ r) (c ∷ s)
  skip : {p : ℕ → Bool} {r : List Item} {s : List ℕ} → Matches r s → Matches (maybe p ∷ r) s
  fill :
      {p : ℕ → Bool} {r : List Item} {s : List ℕ} (c : ℕ)
      → p c ≡ true
      → Matches r s
      → Matches (maybe p ∷ r) (c ∷ s)
  leave : {p : ℕ → Bool} {r : List Item} {s : List ℕ} → Matches r s → Matches (many p ∷ r) s
  more :
      {p : ℕ → Bool} {r : List Item} {s : List ℕ} (c : ℕ)
      → p c ≡ true
      → Matches (many p ∷ r) s
      → Matches (many p ∷ r) (c ∷ s)

pub accepts_sound : (r : List Item) (s : List ℕ) → accepts r s ≡ true → Matches r s
unfolding accepts
accepts_sound [] [] h = end
accepts_sound [] (c ∷ s) h = cc
accepts_sound (one p ∷ r) [] h = cc
accepts_sound (one p ∷ r) (c ∷ s) h = elim (Bool-cases (p c)) [
  | inl e ↦ take c e (accepts_sound r s (ground arith))
  | inr e ↦ absurd (ground arith)
]
accepts_sound (maybe p ∷ r) [] h = skip (accepts_sound r [] h)
accepts_sound (maybe p ∷ r) (c ∷ s) h = elim (Bool-cases (accepts r (c ∷ s))) [
  | inl e ↦ skip (accepts_sound r (c ∷ s) e)
  | inr e ↦ elim (Bool-cases (p c)) [
    | inl pc ↦ fill c pc (accepts_sound r s (ground arith))
    | inr pc ↦ absurd (ground arith)
  ]
]
accepts_sound (many p ∷ r) [] h = leave (accepts_sound r [] h)
accepts_sound (many p ∷ r) (c ∷ s) h = elim (Bool-cases (accepts r (c ∷ s))) [
  | inl e ↦ leave (accepts_sound r (c ∷ s) e)
  | inr e ↦ elim (Bool-cases (p c)) [
    | inl pc ↦ more c pc (accepts_sound (many p ∷ r) s (ground arith))
    | inr pc ↦ absurd (ground arith)
  ]
]

pub accepts_complete : {r : List Item} {s : List ℕ} → Matches r s → accepts r s ≡ true
unfolding accepts
accepts_complete end = refl
accepts_complete (take c e m) = ground (arith, accepts_complete m)
accepts_complete {s = []} (skip m) = accepts_complete m
accepts_complete {s = c ∷ s} (skip m) = ground (arith, accepts_complete m)
accepts_complete (fill c e m) = ground (arith, accepts_complete m)
accepts_complete {s = []} (leave m) = accepts_complete m
accepts_complete {s = c ∷ s} (leave m) = ground (arith, accepts_complete m)
accepts_complete (more c e m) = ground (arith, accepts_complete m)

abbrev pub anything : ℕ → Bool
anything c = true

-- A dot: every character but the line terminators.
abbrev pub dot : ℕ → Bool
dot c = not (eqb c 10 || eqb c 13 || eqb c 0x2028 || eqb c 0x2029)

-- White space of `\s` and of `trim()`.
abbrev pub space : ℕ → Bool
space c =
    (leb 9 c && leb c 13)
    || (leb 0x2000 c && leb c 0x200a)
    || eqb c 32
    || eqb c 0xa0
    || eqb c 0x1680
    || eqb c 0x2028
    || eqb c 0x2029
    || eqb c 0x202f
    || eqb c 0x205f
    || eqb c 0x3000
    || eqb c 0xfeff

abbrev pub lit : List ℕ → List Item
lit = map (λ k. one (λ c. eqb c k))

-- `re.test(s)` with no anchors.
unfoldable pub occurs : List Item → List ℕ → Bool
unfolding accepts
occurs r s = accepts (many anything ∷ r ++ many anything ∷ []) s

-- `s.startsWith(p)`, `s.includes(p)`.
unfoldable pub starts_with : List ℕ → List ℕ → Bool
starts_with s [] = true
starts_with [] (c ∷ p) = false
starts_with (d ∷ s) (c ∷ p) = eqb d c && starts_with s p

unfoldable pub contains : List ℕ → List ℕ → Bool
unfolding starts_with
contains [] p = starts_with [] p
contains (d ∷ s) p = starts_with (d ∷ s) p || contains s p

-- `s.toLowerCase()`, on ASCII letters.
unfoldable pub lower : ℕ → ℕ
lower c = if leb b'A' c && leb c b'Z' then c + 32 else c

pub codes-injective : (s t : String) → codes s ≡ codes t → s ≡ t
codes-injective String.[] String.[] h = refl
codes-injective String.[] (String.◌∷◌ d t) h = cc
codes-injective (String.◌∷◌ c s) String.[] h = cc
codes-injective (String.◌∷◌ c s) (String.◌∷◌ d t) h =
    cc (Char-path c d (ground arith), codes-injective s t (ground arith))

-- `s.slice(0, n)`, counted in characters.
unfoldable pub clip : ℕ → String → String
clip zero s = String.[]
clip (suc n) String.[] = String.[]
clip (suc n) (String.◌∷◌ c s) = String.◌∷◌ c (clip n s)

-- `s.trim()`.
unfoldable pub trim_left : String → String
trim_left String.[] = String.[]
trim_left (String.◌∷◌ c s) =
    let rest = trim_left s in if space (code c) then rest else String.◌∷◌ c s

unfoldable pub trim_right : String → String
trim_right String.[] = String.[]
trim_right (String.◌∷◌ c s) =
    let rest = trim_right s in if space (code c) && rest == "" then String.[] else String.◌∷◌ c rest
