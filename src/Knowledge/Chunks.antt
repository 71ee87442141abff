-- ===== src/Knowledge/Chunks.antt =====
-- The chunks of src/knowledge/store.js: their lengths, and that no word of the text is lost.
use nvidia_omoda.Prelude.{
  ℕ, zero, suc, ◌-◌, ◌≤◌, ◌<◌, true, List, [], ◌∷◌, ◌≡◌, refl, if◌then◌else◌, leb, length, take,
  drop, All, All-append, Bool-cases, inl, inr, arith, if-cases,
}
use nvidia_omoda.Knowledge.{nonempty, paragraphs, cut, is_full, joined, pack, chunk_text}

abbrev pub Fits : ℕ → List ℕ → Type 0
Fits max c = (length c ≤ max) × (nonempty c ≡ true)

length-drop : (n : ℕ) (l : List ℕ) → length (drop n l) ≡ length l - n
length-drop zero l = omega arith
length-drop (suc n) [] = omega arith
length-drop (suc n) (x ∷ l) = omega (arith, length-drop n l)

take-Fits : (n : ℕ) (l : List ℕ) → 0 < n → n < length l → Fits n (take n l)
take-Fits zero l pos long = absurd (omega (arith, pos))
take-Fits (suc n) [] pos long = absurd (omega (arith, long))
take-Fits (suc n) (x ∷ l) pos long = (omega (arith, length-take n l), refl)
  where
    length-take : (n : ℕ) (l : List ℕ) → length (take n l) ≤ n
    length-take zero l = omega arith
    length-take (suc n) [] = omega arith
    length-take (suc n) (x ∷ l) = omega (arith, length-take n l)

-- With the text's length as fuel, the loop ends with no more than a chunk left.
cut-Fits :
    (max fuel : ℕ) (cur : List ℕ)
    → 0 < max
    → length cur ≤ fuel
    → All (Fits max) (cut max fuel cur).0 × (length (cut max fuel cur).1 ≤ max)
unfolding cut
cut-Fits max zero cur pos le = (tt, omega (arith, le, pos))
cut-Fits max (suc fuel) cur pos le = elim (Bool-cases (leb (length cur) max)) [
  | inl short ↦ rw short (tt, ground (arith, short))
  | inr long ↦
      let deeper =
        cut-Fits max fuel (drop max cur) pos (ground (arith, length-drop max cur, le, pos, long)) in
      rw long ((take-Fits max cur pos (ground (arith, long)), deeper.0), deeper.1)
]

full-Fits :
    (max : ℕ) (cur p : List ℕ)
    → length cur ≤ max
    → All (Fits max) (if is_full max cur p then cur ∷ [] else [])
full-Fits max [] p le = tt
full-Fits max (c ∷ cur) p le =
    if-cases (All (Fits max)) (is_full max (c ∷ cur) p) ((c ∷ cur) ∷ []) [] (λ h. ((le, refl), tt))
      (λ h. tt)

pack-Fits :
    (max : ℕ) (ps : List (List ℕ)) (cur : List ℕ)
    → 0 < max
    → length cur ≤ max
    → All (Fits max) (pack max ps cur)
unfolding pack
pack-Fits max [] [] pos le = tt
pack-Fits max [] (c ∷ cur) pos le = ((le, refl), tt)
pack-Fits max (p ∷ ps) cur pos le =
    let next = if is_full max cur p then p else joined cur p in
    let made = cut-Fits max (length next) next pos (omega arith) in
    All-append (Fits max) (if is_full max cur p then cur ∷ [] else []) _ (full-Fits max cur p le) (
      All-append (Fits max) (cut max (length next) next).0 _ made.0
        (pack-Fits max ps (cut max (length next) next).1 pos made.1))

-- With a positive length, each chunk of a text is at most that long and none is empty: the rounds of
-- the loop over a paragraph suffice, so that no longer piece is left over.
pub chunk_text-Fits : (max : ℕ) (text : List ℕ) → 0 < max → All (Fits max) (chunk_text max text)
unfolding chunk_text
chunk_text-Fits max text pos = pack-Fits max (paragraphs text) [] pos (omega arith)
