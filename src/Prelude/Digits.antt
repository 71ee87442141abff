-- ===== src/Prelude/Digits.antt =====
-- A number is read back from the text that it is printed as.
use Prim.Native.Nat.{ℕ, zero, suc, ◌+◌, ◌-◌, ◌*◌, ◌/◌, ◌%◌, ◌<◌}
use Prim.Native.String
use Prim.Native.String.{String}
use Prim.Native.Char.{code}
use mathlib.Core.Path.{◌≡◌, refl, sym, ap, ◌∙◌}
use mathlib.Core.List.{List, [], ◌∷◌, ◌++◌}
use native.Mathlib.Omega.{arith}
use nvidia_omoda.Prelude.Tests.{eqb, ltb, if-cases}
use nvidia_omoda.Prelude.Rx.{codes}
use nvidia_omoda.Prelude.Print.{digit, print_number}

-- The number that decimal digits stand for, behind a.
abbrev pub value : ℕ → List ℕ → ℕ
value a [] = a
value a (c ∷ s) = value (a * 10 + (c - 48)) s

value-append : (a : ℕ) (s t : List ℕ) → value a (s ++ t) ≡ value (value a s) t
value-append a [] t = refl
value-append a (c ∷ s) t = value-append (a * 10 + (c - 48)) s t

pub codes-append : (s t : String) → codes (String.◌++◌ s t) ≡ codes s ++ codes t
codes-append String.[] t = ap codes (String.append.nil t)
codes-append (String.◌∷◌ c s) t =
    ap codes (String.append.cons c s t) ∙ ap (λ l. code c ∷ l) (codes-append s t)

value-digit : (a n : ℕ) → n < 10 → value a (codes (digit n)) ≡ a * 10 + n
value-digit a n small =
    (if-cases (λ s. value a (codes s) ≡ a * 10 + n) (eqb n 0) "0" _ (λ e. ground (arith, e))
      (λ n0.
        (if-cases (λ s. value a (codes s) ≡ a * 10 + n) (eqb n 1) "1" _ (λ e. ground (arith, e))
          (λ n1.
            (if-cases (λ s. value a (codes s) ≡ a * 10 + n) (eqb n 2) "2" _ (λ e. ground (arith, e))
              (λ n2.
                (if-cases (λ s. value a (codes s) ≡ a * 10 + n) (eqb n 3) "3" _
                  (λ e. ground (arith, e))
                  (λ n3.
                    (if-cases (λ s. value a (codes s) ≡ a * 10 + n) (eqb n 4) "4" _
                      (λ e. ground (arith, e))
                      (λ n4.
                        (if-cases (λ s. value a (codes s) ≡ a * 10 + n) (eqb n 5) "5" _
                          (λ e. ground (arith, e))
                          (λ n5.
                            (if-cases (λ s. value a (codes s) ≡ a * 10 + n) (eqb n 6) "6" _
                              (λ e. ground (arith, e))
                              (λ n6.
                                (if-cases (λ s. value a (codes s) ≡ a * 10 + n) (eqb n 7) "7" _
                                  (λ e. ground (arith, e))
                                  (λ n7.
                                    (if-cases (λ s. value a (codes s) ≡ a * 10 + n) (eqb n 8) "8" _
                                      (λ e. ground (arith, e))
                                      (λ n8. ground (
                                        arith, small, n0, n1, n2, n3, n4, n5, n6, n7, n8,
                                      )))))))))))))))))))

value-print_number : (f n : ℕ) → n < f → value 0 (codes (print_number f n)) ≡ n
unfolding print_number
value-print_number zero n h = absurd (omega (arith, h))
value-print_number (suc f) n h =
    if-cases (λ s. value 0 (codes s) ≡ n) (ltb n 10) (digit n) _
      (λ e. value-digit 0 n (ground (arith, e)) ∙ omega arith)
      (λ e.
        let big : 9 < n = ground (arith, e) in
        let before = print_number f (n / 10) in
        let last = digit (n % 10) in
        ap (value 0) (codes-append before last)
        ∙ (value-append 0 (codes before) (codes last)
            ∙ (ap (λ a. value a (codes last))
                  (value-print_number f (n / 10) (omega (arith, big, h)))
                ∙ (value-digit (n / 10) (n % 10) (omega arith) ∙ omega arith))))

pub print_number-injective : (n m : ℕ) → print_number (n + 1) n ≡ print_number (m + 1) m → n ≡ m
print_number-injective n m e =
    sym (value-print_number (n + 1) n (omega arith))
    ∙ (ap (λ s. value 0 (codes s)) e ∙ value-print_number (m + 1) m (omega arith))
