-- ===== src/Knowledge/Words.antt =====
-- That the chunks of src/knowledge/store.js lose no character but white space.
use nvidia_omoda.Prelude.{
  ℕ, zero, suc, ◌≤◌, Bool, true, false, not, some, List, [], ◌∷◌, ◌++◌, ◌≡◌, refl, sym, ap, ◌∙◌,
  if◌then◌else◌, leb, length, map, take, drop, keep, Bool-cases, Option-cases, inl, inr, arith,
}
use mathlib.Core.List.{append_assoc}
use nvidia_omoda.Prelude.Rx.{space}
use nvidia_omoda.Models.Client.{trim, trim_start, trim_end}
use nvidia_omoda.Knowledge.{
  nonempty, last_line, gap, push, split_lines, paragraphs, cut, is_full, joined, pack, chunk_text,
}

abbrev pub letters : List ℕ → List ℕ
letters s = keep (λ c. not (space c)) s

abbrev pub all_letters : List (List ℕ) → List ℕ
all_letters [] = []
all_letters (s ∷ l) = letters s ++ all_letters l

letters-append : (s t : List ℕ) → letters (s ++ t) ≡ letters s ++ letters t
letters-append [] t = refl
letters-append (c ∷ s) t = ground (arith, letters-append s t)

all_letters-append : (l m : List (List ℕ)) → all_letters (l ++ m) ≡ all_letters l ++ all_letters m
all_letters-append [] m = refl
all_letters-append (s ∷ l) m =
    ap (λ x. letters s ++ x) (all_letters-append l m)
    ∙ sym (append_assoc (letters s) (all_letters l) (all_letters m))

letters-trim_start : (s : List ℕ) → letters (trim_start s) ≡ letters s
unfolding trim_start
letters-trim_start [] = refl
letters-trim_start (c ∷ s) = ground (arith, letters-trim_start s)

letters-trim_end : (s : List ℕ) → letters (trim_end s) ≡ letters s
unfolding trim_end
letters-trim_end [] = refl
letters-trim_end (c ∷ s) = go (trim_end s) refl (letters-trim_end s)
  where
    go :
        (r : List ℕ)
        → trim_end s ≡ r
        → letters (trim_end s) ≡ letters s
        → letters (trim_end (c ∷ s)) ≡ letters (c ∷ s)
    go [] e h = rw (trim_end, e) (ground (arith, e, h))
    go (d ∷ r) e h = rw (trim_end, e) (ground (arith, e, h))

letters-trim : (s : List ℕ) → letters (trim s) ≡ letters s
letters-trim s = letters-trim_end (trim_start s) ∙ letters-trim_start s

keep_one :
    (s : List ℕ) (l : List (List ℕ))
    → all_letters (if nonempty s then s ∷ l else l) ≡ letters s ++ all_letters l
keep_one [] l = refl
keep_one (c ∷ s) l = refl

all_letters-trim : (l : List (List ℕ)) → all_letters (keep nonempty (map trim l)) ≡ all_letters l
all_letters-trim [] = refl
all_letters-trim (s ∷ l) =
    keep_one (trim s) (keep nonempty (map trim l))
    ∙ (ap (λ x. x ++ all_letters (keep nonempty (map trim l))) (letters-trim s)
        ∙ ap (λ x. letters s ++ x) (all_letters-trim l))

take-drop : (n : ℕ) (s : List ℕ) → letters (take n s) ++ letters (drop n s) ≡ letters s
take-drop zero s = refl
take-drop (suc n) [] = refl
take-drop (suc n) (c ∷ s) = ground (arith, take-drop n s)

cut-letters :
    (max fuel : ℕ) (cur : List ℕ)
    → all_letters (cut max fuel cur).0 ++ letters (cut max fuel cur).1 ≡ letters cur
unfolding cut
cut-letters max zero cur = refl
cut-letters max (suc fuel) cur = elim (Bool-cases (leb (length cur) max)) [
  | inl short ↦ rw short refl
  | inr long ↦ rw long (
      append_assoc (letters (take max cur)) (all_letters (cut max fuel (drop max cur)).0)
        (letters (cut max fuel (drop max cur)).1)
      ∙ ap (λ x. letters (take max cur) ++ x) (cut-letters max fuel (drop max cur))
      ∙ take-drop max cur)
]

-- The line ends that are skipped are white space.
skip-letters : (n : ℕ) (s : List ℕ) → n ≤ last_line s → letters (drop n s) ≡ letters s
unfolding last_line
skip-letters zero s h = refl
skip-letters (suc n) [] h = refl
skip-letters (suc n) (c ∷ s) h = skip-letters n s (ground (arith, h)) ∙ ground (arith, h)

push-letters :
    (c : ℕ) (l : List (List ℕ)) → all_letters (push c l) ≡ letters (c ∷ []) ++ all_letters l
push-letters c [] = ground arith
push-letters c (s ∷ l) = elim (Bool-cases (space c)) [
  | inl blank ↦ rw blank refl
  | inr letter ↦ rw letter refl
]

cons-letters : (c : ℕ) (s : List ℕ) → letters (c ∷ s) ≡ letters (c ∷ []) ++ letters s
cons-letters c s = elim (Bool-cases (space c)) [
  | inl blank ↦ rw blank refl
  | inr letter ↦ rw letter refl
]

gap-letters :
    (c : ℕ) (s : List ℕ) (n : ℕ) → gap (c ∷ s) ≡ some n → letters (drop n s) ≡ letters (c ∷ s)
unfolding gap
gap-letters c s n e = skip-letters n s (ground (arith, e)) ∙ ground (arith, e)

split-letters : (wait : ℕ) (s : List ℕ) → all_letters (split_lines wait s) ≡ letters (drop wait s)
unfolding split_lines
split-letters zero [] = refl
split-letters (suc wait) [] = refl
split-letters (suc wait) (c ∷ s) = split-letters wait s
split-letters zero (c ∷ s) = elim (Option-cases (gap (c ∷ s))) [
  | inl text ↦
      rw (split_lines, text)
        (push-letters c (split_lines 0 s)
          ∙ (ap (λ x. letters (c ∷ []) ++ x) (split-letters 0 s) ∙ sym (cons-letters c s)))
  | inr (n, blank) ↦ rw (split_lines, blank) (split-letters n s ∙ gap-letters c s n blank)
]

joined-letters : (cur p : List ℕ) → letters (joined cur p) ≡ letters cur ++ letters p
joined-letters [] p = refl
joined-letters (c ∷ s) p = letters-append (c ∷ s) (10 ∷ 10 ∷ p)

pack-letters :
    (max : ℕ) (ps : List (List ℕ)) (cur : List ℕ)
    → all_letters (pack max ps cur) ≡ letters cur ++ all_letters ps
unfolding pack
pack-letters max [] [] = refl
pack-letters max [] (c ∷ cur) = refl
pack-letters max (p ∷ ps) cur = go (λ rest. pack-letters max ps rest) (is_full max cur p) refl
  where
    behind :
        ((rest : List ℕ) → all_letters (pack max ps rest) ≡ letters rest ++ all_letters ps)
        → (next : List ℕ)
        → all_letters ((cut max (length next) next).0 ++ pack max ps (cut max (length next) next).1)
          ≡ letters next ++ all_letters ps
    behind later next =
        let (pieces, rest) = cut max (length next) next in
        all_letters-append pieces (pack max ps rest)
        ∙ (ap (λ x. all_letters pieces ++ x) (later rest)
            ∙ (sym (append_assoc (all_letters pieces) (letters rest) (all_letters ps))
                ∙ ap (λ x. x ++ all_letters ps) (cut-letters max (length next) next)))

    go :
        ((rest : List ℕ) → all_letters (pack max ps rest) ≡ letters rest ++ all_letters ps)
        → (b : Bool) → is_full max cur p ≡ b
        → all_letters (pack max (p ∷ ps) cur) ≡ letters cur ++ all_letters (p ∷ ps)
    go later true e = rw (pack, e) (ap (λ x. letters cur ++ x) (behind later p))
    go later false e =
        rw (pack, e)
          (behind later (joined cur p)
            ∙ (ap (λ x. x ++ all_letters ps) (joined-letters cur p)
                ∙ append_assoc (letters cur) (letters p) (all_letters ps)))

-- Whatever the length of the chunks, the chunks of a text hold its characters but the white space, all of them and in their order.
pub chunk_text-letters :
    (max : ℕ) (text : List ℕ) → all_letters (chunk_text max text) ≡ letters text
unfolding chunk_text paragraphs
chunk_text-letters max text =
    pack-letters max (paragraphs text) []
    ∙ (all_letters-trim (split_lines 0 text) ∙ split-letters 0 text)
