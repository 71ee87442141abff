-- ===== src/Json/Read.antt =====
-- What the serialisation of src/ledger/ledger.js tells apart: plain values with one text are one value, up to the
-- order of the keys in their objects.
use nvidia_omoda.Prelude.{
  ℕ, ◌+◌, String, true, false, List, [], ◌∷◌, ◌++◌, ◌≡◌, refl, sym, ap, ◌∙◌, if◌then◌else◌, arith,
  All, Bool-cases, inl, inr,
}
use mathlib.Core.List.{append_assoc}
use nvidia_omoda.Prelude.Rx.{codes}
use nvidia_omoda.Json.{
  Value, Items, Fields, undef, null, bool, num, frac, str, arr, obj, nil, cons, end, field, object,
  quote, scalar, le_codes, insert_key, sort_keys, canonical,
}
use nvidia_omoda.Json.Numbers.{first, first-decimal, number-injective}
use nvidia_omoda.Json.Escape.{quote-injective}
use nvidia_omoda.Json.Norm.{
  norm, norm_items, norm_fields, IsPlainValue, ArePlainItems, ArePlainFields, print, print_items,
  more_items, print_fields, more_fields, canonical-norm,
}

abbrev kind : Value → ℕ
kind null = 1
kind (bool b) = if b then 2 else 3
kind (str s) = 4
kind (arr xs) = 5
kind (obj fs) = 6
kind (num n) = 7
kind _ = 8

first-print : (v : Value) (x : List ℕ) → IsPlainValue v → first (print v ++ x) ≡ kind v
unfolding print scalar quote
first-print (num n) x h = first-decimal (n + 1) n [] x (omega arith)
first-print undef x h = absurd h
first-print (frac s) x h = absurd h
first-print (bool true) x h = refl
first-print (bool false) x h = refl
first-print v x h = refl

kind_some : (v : Value) → kind v ≡ 0 → ⊥
kind_some (bool b) h = ground (arith, h)
kind_some v h = omega (arith, h)

flat : (q p m z : List ℕ) → (q ++ (58 ∷ (p ++ m))) ++ z ≡ q ++ (58 ∷ (p ++ (m ++ z)))
flat q p m z = append_assoc q (58 ∷ (p ++ m)) z ∙ ap (λ l. q ++ (58 ∷ l)) (append_assoc p m z)

stop_items : (xs : Items) (x : List ℕ) → first (more_items xs ++ 93 ∷ x) ≡ 0
unfolding more_items print
stop_items nil x = refl
stop_items (cons v xs) x = refl

stop_fields : (fs : Fields) (x : List ℕ) → first (more_fields fs ++ 125 ∷ x) ≡ 0
unfolding more_fields print
stop_fields end x = refl
stop_fields (field k v fs) x = refl

-- A comma before both lists of items, or of fields, makes both further items.
more_items_lem :
    (xs ys : Items) (x y : List ℕ)
    → ArePlainItems xs
    → ArePlainItems ys
    → print_items xs ++ 93 ∷ x ≡ print_items ys ++ 93 ∷ y
    → more_items xs ++ 93 ∷ x ≡ more_items ys ++ 93 ∷ y
unfolding print print_items more_items
more_items_lem nil nil x y h k e = e
more_items_lem nil (cons w ys) x y h k e = absurd (
    kind_some w (
      sym (first-print w (more_items ys ++ 93 ∷ y) k.0)
      ∙ sym (ap first (e ∙ append_assoc (print w) (more_items ys) (93 ∷ y)))))
more_items_lem (cons v xs) nil x y h k e = absurd (
    kind_some v (
      sym (first-print v (more_items xs ++ 93 ∷ x) h.0)
      ∙ ap first (sym (append_assoc (print v) (more_items xs) (93 ∷ x)) ∙ e)))
more_items_lem (cons v xs) (cons w ys) x y h k e = ap (λ l. 44 ∷ l) e

more_fields_lem :
    (fs gs : Fields) (x y : List ℕ)
    → print_fields fs ++ 125 ∷ x ≡ print_fields gs ++ 125 ∷ y
    → more_fields fs ++ 125 ∷ x ≡ more_fields gs ++ 125 ∷ y
unfolding print print_fields more_fields quote
more_fields_lem end end x y e = e
more_fields_lem end (field j w gs) x y e = absurd (omega (arith, ap first e))
more_fields_lem (field i v fs) end x y e = absurd (omega (arith, ap first e))
more_fields_lem (field i v fs) (field j w gs) x y e = ap (λ l. 44 ∷ l) e

mutual
  unfolding print print_items more_items print_fields more_fields scalar quote

  same_value :
      (v w : Value) (x y : List ℕ)
      → IsPlainValue v
      → IsPlainValue w
      → first x ≡ 0
      → first y ≡ 0
      → print v ++ x ≡ print w ++ y
      → (v ≡ w) × (x ≡ y)
  same_value undef w x y h k p q e = absurd h
  same_value (frac s) w x y h k p q e = absurd h
  same_value null null x y h k p q e = (refl, ground (arith, e))
  same_value (bool true) (bool true) x y h k p q e = (refl, ground (arith, e))
  same_value (bool false) (bool false) x y h k p q e = (refl, ground (arith, e))
  same_value (num n) (num m) x y h k p q e =
      let (same, ends) = number-injective n m x y p q e in (ap num same, ends)
  same_value (str s) (str t) x y h k p q e =
      let (same, ends) = quote-injective s t x y e in (ap str same, ends)
  same_value (arr xs) (arr ys) x y h k p q e =
      let (same, ends) = same_more xs ys x y h k (
        more_items_lem xs ys x y h k (
          sym (append_assoc (print_items xs) (93 ∷ []) x)
          ∙ (ground (arith, e) ∙ append_assoc (print_items ys) (93 ∷ []) y))) in
      (ap arr same, ends)
  same_value (obj fs) (obj gs) x y h k p q e =
      let (same, ends) = same_rest fs gs x y h k (
        more_fields_lem fs gs x y (
          sym (append_assoc (print_fields fs) (125 ∷ []) x)
          ∙ (ground (arith, e) ∙ append_assoc (print_fields gs) (125 ∷ []) y))) in
      (ap obj same, ends)
  same_value v w x y h k p q e =
      absurd (ground (arith, sym (first-print v x h) ∙ (ap first e ∙ first-print w y k)))

  same_more :
      (xs ys : Items) (x y : List ℕ)
      → ArePlainItems xs
      → ArePlainItems ys
      → more_items xs ++ 93 ∷ x ≡ more_items ys ++ 93 ∷ y
      → (xs ≡ ys) × (x ≡ y)
  same_more nil nil x y h k e = (refl, ground (arith, e))
  same_more nil (cons w ys) x y h k e = absurd (ground (arith, e))
  same_more (cons v xs) nil x y h k e = absurd (ground (arith, e))
  same_more (cons v xs) (cons w ys) x y h k e =
      let (one, rest) =
        same_value v w (more_items xs ++ 93 ∷ x) (more_items ys ++ 93 ∷ y) h.0 k.0 (stop_items xs x)
          (stop_items ys y)
          (sym (append_assoc (print v) (more_items xs) (93 ∷ x))
            ∙ (ground (arith, e) ∙ append_assoc (print w) (more_items ys) (93 ∷ y))) in
      let (all, ends) = same_more xs ys x y h.1 k.1 rest in (cc (one, all), ends)

  same_rest :
      (fs gs : Fields) (x y : List ℕ)
      → ArePlainFields fs
      → ArePlainFields gs
      → more_fields fs ++ 125 ∷ x ≡ more_fields gs ++ 125 ∷ y
      → (fs ≡ gs) × (x ≡ y)
  same_rest end end x y h k e = (refl, ground (arith, e))
  same_rest end (field j w gs) x y h k e = absurd (ground (arith, e))
  same_rest (field i v fs) end x y h k e = absurd (ground (arith, e))
  same_rest (field i v fs) (field j w gs) x y h k e =
      let flattened : quote i ++ (58 ∷ (print v ++ (more_fields fs ++ 125 ∷ x)))
          ≡ quote j ++ (58 ∷ (print w ++ (more_fields gs ++ 125 ∷ y))) =
        sym (flat (quote i) (print v) (more_fields fs) (125 ∷ x))
        ∙ (ground (arith, e) ∙ flat (quote j) (print w) (more_fields gs) (125 ∷ y)) in
      let (key, behind) = quote-injective i j _ _ flattened in
      let (one, rest) =
        same_value v w (more_fields fs ++ 125 ∷ x) (more_fields gs ++ 125 ∷ y) h.0 k.0
          (stop_fields fs x) (stop_fields gs y) (ground (arith, behind)) in
      let (all, ends) = same_rest fs gs x y h.1 k.1 rest in (cc (key, one, all), ends)

module _ (P : Value → Type 0) where
  insert_key-All :
      (k : String) (v : Value) (l : List (String × Value))
      → P v
      → All (λ p. P p.1) l
      → All (λ p. P p.1) (insert_key (k, v) l)
  unfolding insert_key
  insert_key-All k v [] h a = (h, tt)
  insert_key-All k v ((j, w) ∷ l) h a = elim (Bool-cases (le_codes (codes k) (codes j))) [
    | inl e ↦ rw e (h, a)
    | inr n ↦ rw n (a.0, insert_key-All k v l h a.1)
  ]

  sort_keys-All : (l : List (String × Value)) → All (λ p. P p.1) l → All (λ p. P p.1) (sort_keys l)
  unfolding sort_keys
  sort_keys-All [] a = tt
  sort_keys-All ((k, v) ∷ l) a = insert_key-All k v (sort_keys l) a.0 (sort_keys-All l a.1)

object-Plain :
    (l : List (String × Value)) → All (λ p. IsPlainValue p.1) l → ArePlainFields (object l)
object-Plain [] a = tt
object-Plain ((k, v) ∷ l) a = (a.0, object-Plain l a.1)

mutual
  unfolding norm norm_items norm_fields

  norm-Plain : (v : Value) → IsPlainValue v → IsPlainValue (norm v)
  norm-Plain (arr xs) h = norm_items-Plain xs h
  norm-Plain (obj fs) h =
      object-Plain _ (sort_keys-All IsPlainValue (norm_fields fs) (norm_fields-Plain fs h))
  norm-Plain undef h = absurd h
  norm-Plain (frac s) h = absurd h
  norm-Plain null h = tt
  norm-Plain (bool b) h = tt
  norm-Plain (num n) h = tt
  norm-Plain (str s) h = tt

  norm_items-Plain : (xs : Items) → ArePlainItems xs → ArePlainItems (norm_items xs)
  norm_items-Plain nil h = tt
  norm_items-Plain (cons v xs) h = (norm-Plain v h.0, norm_items-Plain xs h.1)

  norm_fields-Plain :
      (fs : Fields) → ArePlainFields fs → All (λ p. IsPlainValue p.1) (norm_fields fs)
  norm_fields-Plain end h = tt
  norm_fields-Plain (field k v fs) h = (norm-Plain v h.0, norm_fields-Plain fs h.1)

-- Plain values with one serialisation are the same up to the order of keys.
pub canonical-injective :
    (v w : Value) → IsPlainValue v → IsPlainValue w → canonical v ≡ canonical w → norm v ≡ norm w
canonical-injective v w h k e =
    (same_value (norm v) (norm w) [] [] (norm-Plain v h) (norm-Plain w k) refl refl
      (ap (λ l. l ++ []) (sym (canonical-norm v h) ∙ (e ∙ canonical-norm w k)))).0
