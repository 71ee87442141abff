-- ===== src/Json/Numbers.antt =====
-- Numbers in the serialisation of src/ledger/ledger.js are read back as they were.
use nvidia_omoda.Prelude.{
  ℕ, zero, suc, ◌+◌, ◌/◌, ◌%◌, ◌<◌, Bool, true, ◌&&◌, List, [], ◌∷◌, ◌++◌, ◌≡◌, refl, sym, ap, ◌∙◌,
  if◌then◌else◌, if-cases, eqb, leb, ltb, arith,
}
use nvidia_omoda.Prelude.Digits.{value}
use nvidia_omoda.Json.{decimal}

abbrev is_digit : ℕ → Bool
is_digit c = leb 48 c && leb c 57

-- What a text begins with: 0 for a separator or nothing, 7 for a digit.
abbrev pub first : List ℕ → ℕ
first [] = 0
first (c ∷ l) =
    if eqb c 110
    then 1
    else if eqb c 116
    then 2
    else if eqb c 102
    then 3
    else if eqb c 34
    then 4
    else if eqb c 91
    then 5
    else if eqb c 123
    then 6
    else if is_digit c
    then 7
    else 0

abbrev digits : List ℕ → Bool
digits [] = true
digits (c ∷ l) = is_digit c && digits l

split_digits :
    (u v x y : List ℕ)
    → digits u ≡ true
    → digits v ≡ true
    → first x ≡ 0
    → first y ≡ 0
    → u ++ x ≡ v ++ y
    → (u ≡ v) × (x ≡ y)
split_digits [] [] x y h k p q e = (refl, e)
split_digits [] (d ∷ v) x y h k p q e = absurd (ground (arith, k, p, ap first e))
split_digits (c ∷ u) [] x y h k p q e = absurd (ground (arith, h, q, ap first e))
split_digits (c ∷ u) (d ∷ v) x y h k p q e =
    let (same, ends) =
      split_digits u v x y (ground (arith, h)) (ground (arith, k)) p q (ground (arith, e)) in
    (ground (arith, e, same), ends)

value-decimal : (f n : ℕ) (out : List ℕ) → n < f → value 0 (decimal f n out) ≡ value n out
unfolding decimal
value-decimal zero n out h = absurd (omega (arith, h))
value-decimal (suc f) n out h =
    if-cases (λ l. value 0 l ≡ value n out) (ltb n 10) ((48 + n) ∷ out) _
      (λ e. ap (λ m. value m out) (omega arith))
      (λ e.
        let big : 9 < n = ground (arith, e) in
        value-decimal f (n / 10) ((48 + n % 10) ∷ out) (omega (arith, big, h))
        ∙ ap (λ m. value m out) (omega arith))

digits-decimal : (f n : ℕ) (out : List ℕ) → digits out ≡ true → digits (decimal f n out) ≡ true
unfolding decimal
digits-decimal zero n out h = h
digits-decimal (suc f) n out h =
    if-cases (λ l. digits l ≡ true) (ltb n 10) ((48 + n) ∷ out) _ (λ e. ground (arith, h, e))
      (λ e. digits-decimal f (n / 10) ((48 + n % 10) ∷ out) (ground (arith, h, last)))
  where
    last : n % 10 < 10
    last = omega arith

pub first-decimal : (f n : ℕ) (out x : List ℕ) → n < f → first (decimal f n out ++ x) ≡ 7
unfolding decimal
first-decimal zero n out x h = absurd (omega (arith, h))
first-decimal (suc f) n out x h =
    if-cases (λ l. first (l ++ x) ≡ 7) (ltb n 10) ((48 + n) ∷ out) _ (λ e. ground (arith, e))
      (λ e.
        let big : 9 < n = ground (arith, e) in
        first-decimal f (n / 10) ((48 + n % 10) ∷ out) x (omega (arith, big, h)))

-- Two numbers that are printed at the front of one list, before no digit, are one number.
pub number-injective :
    (n m : ℕ) (x y : List ℕ)
    → first x ≡ 0
    → first y ≡ 0
    → decimal (n + 1) n [] ++ x ≡ decimal (m + 1) m [] ++ y
    → (n ≡ m) × (x ≡ y)
number-injective n m x y p q e =
    let (same, ends) =
      split_digits (decimal (n + 1) n []) (decimal (m + 1) m []) x y
        (digits-decimal (n + 1) n [] refl) (digits-decimal (m + 1) m [] refl) p q e in
    (
      sym (value-decimal (n + 1) n [] (omega arith))
          ∙ (ap (value 0) same ∙ value-decimal (m + 1) m [] (omega arith)),
      ends,
    )
