-- ===== src/Models/Screen/Clean.antt =====
-- What src/models/screen.js lets through.
use nvidia_omoda.Prelude.{
  ℕ, zero, suc, ◌≤◌, String, false, List, [], ◌∷◌, ◌++◌, ◌≡◌, ◌≢◌, refl, sym, ap, ◌∙◌, subst,
  if◌then◌else◌, length, ltb, take, All, Bool-cases, inl, inr, arith,
}
use nvidia_omoda.Prelude.Search.{Part, found}
use nvidia_omoda.Models.Screen.{Screened, injection_patterns, mark, redact, screen_text}

snoc-ne-nil : (l : List String) (x : String) → l ++ x ∷ [] ≢ []
snoc-ne-nil [] x e = ground (arith, e)
snoc-ne-nil (y ∷ l) x e = ground (arith, e)

-- A pattern that raises no flag was not found, and changes nothing.
mark_quiet :
    (re : List Part) (s : Screened)
    → (mark re s).flags ≡ []
    → (found re s.clean ≡ false) × (mark re s ≡ s)
unfolding mark
mark_quiet re s h = elim (Bool-cases (found re s.clean)) [
  | inl hit ↦ absurd (snoc-ne-nil s.flags "instruction-shaped" (rw hit at h))
  | inr miss ↦ (miss, rw miss refl)
]

redact_flags : (l : List (List Part)) (s : Screened) → (redact l s).flags ≡ [] → s.flags ≡ []
unfolding redact
redact_flags [] s h = h
redact_flags (re ∷ l) s h =
    let before = redact_flags l (mark re s) h in
    sym (ap (λ x. x.flags) (mark_quiet re s before).1) ∙ before

redact_quiet :
    (l : List (List Part)) (s : Screened)
    → (redact l s).flags ≡ []
    → (redact l s ≡ s) × All (λ re. found re s.clean ≡ false) l
unfolding redact
redact_quiet [] s h = (refl, tt)
redact_quiet (re ∷ l) s h =
    let (miss, same) = mark_quiet re s (redact_flags l (mark re s) h) in
    let (rest, none_else) = redact_quiet l (mark re s) h in
    (rest ∙ same, (miss, subst (λ x. All (λ r. found r x.clean ≡ false) l) same none_else))

take_all : (n : ℕ) (l : List ℕ) → length l ≤ n → take n l ≡ l
take_all zero [] h = refl
take_all zero (x ∷ l) h = absurd (omega arith)
take_all (suc n) [] h = refl
take_all (suc n) (x ∷ l) h = ap (λ r. x ∷ r) (take_all n l (omega arith))

-- A text on which no flag is raised is passed on as it is, is not too long, and holds none of the
-- instruction-shaped patterns.
unflagged_clean :
    (max : ℕ) (raw : List ℕ)
    → (screen_text max raw).flags ≡ []
    → ((screen_text max raw).clean ≡ raw)
      × (length raw ≤ max)
      × All (λ re. found re raw ≡ false) injection_patterns
unfolding screen_text
unflagged_clean max raw h =
    let start : Screened = record {
      clean = take max raw;
      flags = if ltb max (length raw) then "truncated" ∷ [] else [];
    } in
    let short : length raw ≤ max = ground (arith, redact_flags injection_patterns start h) in
    let (same, misses) = redact_quiet injection_patterns start h in
    let whole = take_all max raw short in
    (
      ap (λ x. x.clean) same ∙ whole,
      short,
      subst (λ x. All (λ re. found re x ≡ false) injection_patterns) whole misses,
    )
