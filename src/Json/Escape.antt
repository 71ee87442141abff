-- ===== src/Json/Escape.antt =====
-- A quoted text of the serialisation of src/ledger/ledger.js is read back as it was.
use nvidia_omoda.Prelude.{
  ℕ, ◌+◌, ◌-◌, ◌*◌, ◌/◌, ◌%◌, ◌<◌, String, ◌||◌, Option, none, some, List, [], ◌∷◌, ◌++◌, ◌≡◌, refl,
  sym, ap, ◌∙◌, if◌then◌else◌, if-cases, eqb, ltb, arith,
}
use mathlib.Core.List.{append_assoc}
use nvidia_omoda.Prelude.Rx.{codes, codes-injective}
use nvidia_omoda.Json.{hex_digit, escape, escape_all, quote}

abbrev unhex : ℕ → ℕ
unhex n = if ltb n 58 then n - 48 else n - 87

abbrev read_hex : List ℕ → Option (ℕ × List ℕ)
read_hex (a ∷ b ∷ h ∷ l ∷ s) = some (unhex h * 16 + unhex l, s)
read_hex _ = none

-- What follows a backslash.
abbrev read_after : List ℕ → Option (ℕ × List ℕ)
read_after [] = none
read_after (e ∷ s) =
    if eqb e 34 || eqb e 92
    then some (e, s)
    else if eqb e 98
    then some (8, s)
    else if eqb e 116
    then some (9, s)
    else if eqb e 110
    then some (10, s)
    else if eqb e 102
    then some (12, s)
    else if eqb e 114
    then some (13, s)
    else read_hex s

-- One character of a quoted text; none at its end.
unfoldable unescape : List ℕ → Option (ℕ × List ℕ)
unescape [] = none
unescape (c ∷ s) = if eqb c 34 then none else if eqb c 92 then read_after s else some (c, s)

unhex_lem : (n : ℕ) → n < 16 → unhex (hex_digit n) ≡ n
unhex_lem n small = ground (arith, small)

hex_lem : (c : ℕ) → c < 32 → unhex (hex_digit (c / 16)) * 16 + unhex (hex_digit (c % 16)) ≡ c
hex_lem c small =
    omega (arith, unhex_lem (c / 16) (omega (arith, small)), unhex_lem (c % 16) (omega arith))

unescape-escape : (c : ℕ) (r : List ℕ) → unescape (escape c ++ r) ≡ some (c, r)
unfolding unescape
unescape-escape c r =
    if-cases Reads (eqb c 34 || eqb c 92) _ _ (λ e. ground (arith, e))
      (λ n.
        if-cases Reads (eqb c 8) _ _ (λ e. ground (arith, e))
          (λ n8.
            if-cases Reads (eqb c 9) _ _ (λ e. ground (arith, e))
              (λ n9.
                if-cases Reads (eqb c 10) _ _ (λ e. ground (arith, e))
                  (λ n10.
                    if-cases Reads (eqb c 12) _ _ (λ e. ground (arith, e))
                      (λ n12.
                        if-cases Reads (eqb c 13) _ _ (λ e. ground (arith, e))
                          (λ n13.
                            if-cases Reads (ltb c 32) _ _
                              (λ e. ap (λ n. some (n, r)) (hex_lem c (ground (arith, e))))
                              (λ big. ground (arith, n))))))))
  where
    Reads : List ℕ → Type 0
    Reads l = unescape (l ++ r) ≡ some (c, r)

escape_all-injective :
    (s t x y : List ℕ) → escape_all s ++ 34 ∷ x ≡ escape_all t ++ 34 ∷ y → (s ≡ t) × (x ≡ y)
unfolding escape_all unescape
escape_all-injective [] [] x y e = (refl, ground (arith, e))
escape_all-injective [] (d ∷ t) x y e =
    absurd (apart d (escape_all t ++ 34 ∷ y) (e ∙ append_assoc (escape d) (escape_all t) (34 ∷ y)))
  where
    apart : (d : ℕ) (r : List ℕ) → 34 ∷ x ≡ escape d ++ r → ⊥
    apart d r h = ground (arith, ap unescape h ∙ unescape-escape d r)
escape_all-injective (c ∷ s) [] x y e =
    absurd
      (apart c (escape_all s ++ 34 ∷ x) (sym e ∙ append_assoc (escape c) (escape_all s) (34 ∷ x)))
  where
    apart : (d : ℕ) (r : List ℕ) → 34 ∷ y ≡ escape d ++ r → ⊥
    apart d r h = ground (arith, ap unescape h ∙ unescape-escape d r)
escape_all-injective (c ∷ s) (d ∷ t) x y e =
    let u = escape_all s ++ 34 ∷ x in
    let v = escape_all t ++ 34 ∷ y in
    let both : ◌≡◌ {A = Option (ℕ × List ℕ)} (some (c, u)) (some (d, v)) =
      sym (unescape-escape c u)
      ∙ (ap unescape (
            sym (append_assoc (escape c) (escape_all s) (34 ∷ x))
            ∙ (e ∙ append_assoc (escape d) (escape_all t) (34 ∷ y)))
          ∙ unescape-escape d v) in
    let (rest, ends) = escape_all-injective s t x y (ground (arith, both)) in
    (ground (arith, both, rest), ends)

-- Two quoted texts that begin one list are one text, and what follows them is the same.
pub quote-injective :
    (s t : String) (x y : List ℕ) → quote s ++ x ≡ quote t ++ y → (s ≡ t) × (x ≡ y)
unfolding quote
quote-injective s t x y e =
    let (same, ends) = escape_all-injective (codes s) (codes t) x y (
      sym (append_assoc (escape_all (codes s)) (34 ∷ []) x)
      ∙ (ground (arith, e) ∙ append_assoc (escape_all (codes t)) (34 ∷ []) y)) in
    (codes-injective s t same, ends)
