-- ===== src/Transport/Triggers/Matched.antt =====
-- What a match of src/transport/triggers.js stands on.
use nvidia_omoda.Prelude.{
  ℕ, ◌-◌, String, Bool, true, false, not, ◌&&◌, some, List, [], ◌∷◌, ◌++◌, ◌≡◌, inl, inr, refl, sym,
  ap, ◌∙◌, subst, if◌then◌else◌, Memᴰ, length, eqb, Bool-cases, Option-cases, &&-eq-true, arith,
}
use mathlib.Core.List.{append_assoc}
use nvidia_omoda.Prelude.Rx.{starts_with}
use nvidia_omoda.Transport.Triggers.{
  Trigger, normalize, negated, before_of, scan, has_phrase, first_phrase, first_trigger, match_text,
}

starts_with_lem : (s p : List ℕ) → starts_with s p ≡ true → (b : List ℕ) × (s ≡ p ++ b)
unfolding starts_with
starts_with_lem s [] h = (s, refl)
starts_with_lem [] (c ∷ p) h = cc
starts_with_lem (d ∷ s) (c ∷ p) h =
    let (b, e) = starts_with_lem s p (ground (arith, h)) in
    let same : d ≡ c = ground (arith, h) in (b, cc (same, e))

-- The phrase stands in the text, behind a part that does not negate it.
abbrev pub Stands : List ℕ → List ℕ → Type 0
Stands p hay = (a : List ℕ) × (b : List ℕ) × (hay ≡ a ++ (p ++ b)) × (negated (before_of a) ≡ false)

last_step : (a b c : Bool) → (a && (b && not c)) ≡ true → (b ≡ true) × (c ≡ false)
last_step a b c h = ground (arith, h)

-- One step of the search, by its test for an occurrence and its test for a negation.
step_negated :
    (here neg : Bool) (f : ℕ → Bool) (n m : ℕ)
    → (if here && not neg then true else f (if here then n else m)) ≡ true
    → here ≡ true
    → neg ≡ true
    → f n ≡ true
step_negated true true f n m h k l = h
step_negated true false f n m h k l = cc
step_negated false neg f n m h k l = cc

step_away :
    (here neg : Bool) (f : ℕ → Bool) (n m : ℕ)
    → (if here && not neg then true else f (if here then n else m)) ≡ true
    → here ≡ false
    → f m ≡ true
step_away false neg f n m h k = h
step_away true neg f n m h k = cc

onward :
    (p before s : List ℕ) (c : ℕ) → Stands p ((before ++ c ∷ []) ++ s) → Stands p (before ++ c ∷ s)
onward p before s c (a, b, e, n) = (a, b, sym (append_assoc before (c ∷ []) s) ∙ e, n)

scan_sound : (p before s : List ℕ) (wait : ℕ) → scan p before s wait ≡ true → Stands p (before ++ s)
unfolding scan
scan_sound p before [] wait h =
    let (starts, free) = last_step (eqb wait 0) (starts_with [] p) (negated (before_of before)) h in
    let (b, e) = starts_with_lem [] p starts in (before, b, ap (λ l. before ++ l) e, free)
scan_sound p before (c ∷ s) wait h = elim (Bool-cases (eqb wait 0 && starts_with (c ∷ s) p)) [
  | inl here ↦ elim (Bool-cases (negated (before_of before))) [
    | inr free ↦
        let (b, e) =
          starts_with_lem (c ∷ s) p (&&-eq-true (eqb wait 0) (starts_with (c ∷ s) p) here).1 in
        (before, b, ap (λ l. before ++ l) e, free)
    | inl not_free ↦ onward p before s c (
        scan_sound p (before ++ c ∷ []) s (length p - 1) (
          step_negated (eqb wait 0 && starts_with (c ∷ s) p) (negated (before_of before))
            (scan p (before ++ c ∷ []) s) (length p - 1) (wait - 1) h here not_free))
  ]
  | inr away ↦ onward p before s c (
      scan_sound p (before ++ c ∷ []) s (wait - 1) (
        step_away (eqb wait 0 && starts_with (c ∷ s) p) (negated (before_of before))
          (scan p (before ++ c ∷ []) s) (length p - 1) (wait - 1) h away))
]

first_phrase_lem :
    (hay : List ℕ) (ps : List String) (p : String)
    → first_phrase hay ps ≡ some p
    → Memᴰ p ps × Stands (normalize p) hay
unfolding first_phrase has_phrase
first_phrase_lem hay [] p h = cc
first_phrase_lem hay (q ∷ ps) p h = elim (Bool-cases (has_phrase hay q)) [
  | inl hit ↦
      let same : p ≡ q = ground (arith, h, hit) in
      (
        Memᴰ.head same,
        subst (λ x. Stands (normalize x) hay) (sym same) (scan_sound (normalize q) [] hay 0 hit),
      )
  | inr miss ↦
      let (m, st) = first_phrase_lem hay ps p (ground (arith, h, miss)) in (Memᴰ.tail m, st)
]

-- What a match gives: a trigger of the store and one of its phrases, which stands in the text.
abbrev pub Fits : List ℕ → List Trigger → Trigger × String → Type 0
Fits hay rules f = Memᴰ f.0 rules × Memᴰ f.1 f.0.phrases × Stands (normalize f.1) hay

first_trigger_lem :
    (hay : List ℕ) (rules : List Trigger) (f : Trigger × String)
    → first_trigger hay rules ≡ some f
    → Fits hay rules f
unfolding first_trigger
first_trigger_lem hay [] f h = cc
first_trigger_lem hay (r ∷ rs) f h = elim (Option-cases (first_phrase hay r.phrases)) [
  | inr (p, e) ↦
      let same : (r, p) ≡ f = ground (arith, h, e) in
      let (m, st) = first_phrase_lem hay r.phrases p e in
      subst (Fits hay (r ∷ rs)) same (Memᴰ.head refl, m, st)
  | inl e ↦
      let (m, k, st) = first_trigger_lem hay rs f (ground (arith, h, e)) in (Memᴰ.tail m, k, st)
]

-- A match names a trigger of the store and one of its phrases, and the phrase stands in the text, both
-- in lower case, behind sixteen characters that do not end in a negation.
pub match_text-Fits :
    (rules : List Trigger) (text : String) (f : Trigger × String)
    → match_text rules text ≡ some f
    → Fits (normalize text) rules f
unfolding match_text
match_text-Fits rules text f h = go (normalize text) refl
  where
    go : (hay : List ℕ) → normalize text ≡ hay → Fits (normalize text) rules f
    go [] e = absurd (ground (arith, h, e))
    go (c ∷ s) e =
        subst (λ x. Fits x rules f) (sym e)
          (first_trigger_lem (c ∷ s) rules f (ground (arith, h, e)))
