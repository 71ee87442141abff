-- ===== src/Policy/Compile/Keys.antt =====
-- The key under which src/policy/compile.js groups the capabilities of one host and port.
use nvidia_omoda.Prelude.{
  ℕ, zero, suc, ◌+◌, ◌/◌, ◌%◌, String, Bool, true, false, not, ◌&&◌, List, [], ◌∷◌, ◌++◌, ◌≡◌, refl,
  sym, ap, ◌∙◌, eqb, ltb, if-both, arith,
}
use Prim.Native.String
use nvidia_omoda.Prelude.Rx.{codes, codes-injective}
use nvidia_omoda.Prelude.Digits.{codes-append}
use nvidia_omoda.Prelude.Print.{print_number, digit}
use nvidia_omoda.Policy.Compile.{site_key}

-- A text without a colon, by its codes.
abbrev no_colon : List ℕ → Bool
no_colon [] = true
no_colon (c ∷ s) = not (eqb c 58) && no_colon s

no_colon-append : (s t : List ℕ) → no_colon s ≡ true → no_colon t ≡ true → no_colon (s ++ t) ≡ true
no_colon-append [] t h k = k
no_colon-append (c ∷ s) t h k = ground (arith, h, no_colon-append s t (ground (arith, h)) k)

abbrev Printed : String → Type 0
Printed s = no_colon (codes s) ≡ true

Printed-digit : (n : ℕ) → Printed (digit n)
Printed-digit n = if-both Printed (eqb n 0) "0" _ refl (
    if-both Printed (eqb n 1) "1" _ refl (
      if-both Printed (eqb n 2) "2" _ refl (
        if-both Printed (eqb n 3) "3" _ refl (
          if-both Printed (eqb n 4) "4" _ refl (
            if-both Printed (eqb n 5) "5" _ refl (
              if-both Printed (eqb n 6) "6" _ refl (
                if-both Printed (eqb n 7) "7" _ refl
                  (if-both Printed (eqb n 8) "8" _ refl (refl)))))))))

Printed-append : (s t : String) → Printed s → Printed t → Printed (String.◌++◌ s t)
Printed-append s t h k = ap no_colon (codes-append s t) ∙ no_colon-append (codes s) (codes t) h k

Printed-print_number : (f n : ℕ) → Printed (print_number f n)
unfolding print_number
Printed-print_number zero n = refl
Printed-print_number (suc f) n = if-both Printed (ltb n 10) (digit n) _ (Printed-digit n) (
    Printed-append (print_number f (n / 10)) (digit (n % 10)) (Printed-print_number f (n / 10))
      (Printed-digit (n % 10)))

colon_behind : (xs u : List ℕ) → no_colon (xs ++ 58 ∷ u) ≡ false
colon_behind [] u = refl
colon_behind (x ∷ xs) u = ground (arith, colon_behind xs u)

-- What stands before the last colon.
same_front :
    (xs ys u v : List ℕ)
    → no_colon u ≡ true
    → no_colon v ≡ true
    → xs ++ 58 ∷ u ≡ ys ++ 58 ∷ v
    → xs ≡ ys
same_front [] [] u v h k e = refl
same_front [] (y ∷ ys) u v h k e = absurd (ground (arith, e, h, colon_behind ys v))
same_front (x ∷ xs) [] u v h k e = absurd (ground (arith, e, k, colon_behind xs u))
same_front (x ∷ xs) (y ∷ ys) u v h k e =
    ground (arith, e, same_front xs ys u v h k (ground (arith, e)))

codes-site_key :
    (host : String) (port : ℕ)
    → codes (site_key host port) ≡ codes host ++ 58 ∷ codes (print_number (port + 1) port)
codes-site_key host port =
    codes-append host _
    ∙ ap (λ l. codes host ++ l) (codes-append ":" (print_number (port + 1) port))

-- One key, one host: a port has no colon, whatever the host has.
pub site_key-host : (h k : String) (p q : ℕ) → site_key h p ≡ site_key k q → h ≡ k
site_key-host h k p q e = codes-injective h k (
    same_front (codes h) (codes k) (codes (print_number (p + 1) p)) (codes (print_number (q + 1) q))
      (Printed-print_number (p + 1) p) (Printed-print_number (q + 1) q)
      (sym (codes-site_key h p) ∙ (ap codes e ∙ codes-site_key k q)))
