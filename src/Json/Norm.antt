-- ===== src/Json/Norm.antt =====
-- The serialisation of src/ledger/ledger.js is the plain text of a value whose keys are sorted.
use nvidia_omoda.Prelude.{
  ℕ, String, List, [], ◌∷◌, ◌++◌, map, ◌≡◌, refl, sym, ap, ◌∙◌, Bool-cases, inl, inr,
}
use mathlib.Core.List.{append-nil, append_assoc}
use nvidia_omoda.Prelude.Rx.{codes}
use nvidia_omoda.Json.{
  Value, Items, Fields, undef, null, bool, num, frac, str, arr, obj, nil, cons, end, field, object,
  quote, scalar, join, member, le_codes, insert_key, sort_keys, canonical, canonical_items,
  canonical_fields,
}

-- The value with the keys of every object in it sorted; nothing else changes.
unfoldable mutual
  unfolding sort_keys

  pub norm : Value → Value
  norm (arr xs) = arr (norm_items xs)
  norm (obj fs) = obj (object (sort_keys (norm_fields fs)))
  norm undef = undef
  norm null = null
  norm (bool b) = bool b
  norm (num n) = num n
  norm (frac s) = frac s
  norm (str s) = str s

  pub norm_items : Items → Items
  norm_items nil = nil
  norm_items (cons v xs) = cons (norm v) (norm_items xs)

  pub norm_fields : Fields → List (String × Value)
  norm_fields end = []
  norm_fields (field k v fs) = (k, norm v) ∷ norm_fields fs

-- No `undefined` anywhere inside, and no number but natural ones.
abbrev mutual
  pub IsPlainValue : Value → Type 0
  IsPlainValue (arr xs) = ArePlainItems xs
  IsPlainValue (obj fs) = ArePlainFields fs
  IsPlainValue undef = ⊥
  IsPlainValue null = Unit
  IsPlainValue (bool b) = Unit
  IsPlainValue (num n) = Unit
  IsPlainValue (frac s) = ⊥
  IsPlainValue (str s) = Unit

  pub ArePlainItems : Items → Type 0
  ArePlainItems nil = Unit
  ArePlainItems (cons v xs) = IsPlainValue v × ArePlainItems xs

  pub ArePlainFields : Fields → Type 0
  ArePlainFields end = Unit
  ArePlainFields (field k v fs) = IsPlainValue v × ArePlainFields fs

-- The text of a value, its keys in the order in which they stand.
unfoldable mutual
  unfolding scalar quote

  pub print : Value → List ℕ
  print (arr xs) = 91 ∷ (print_items xs ++ 93 ∷ [])
  print (obj fs) = 123 ∷ (print_fields fs ++ 125 ∷ [])
  print undef = scalar undef
  print null = scalar null
  print (bool b) = scalar (bool b)
  print (num n) = scalar (num n)
  print (frac s) = scalar (frac s)
  print (str s) = scalar (str s)

  pub print_items : Items → List ℕ
  print_items nil = []
  print_items (cons v xs) = print v ++ more_items xs

  pub more_items : Items → List ℕ
  more_items nil = []
  more_items (cons v xs) = 44 ∷ (print v ++ more_items xs)

  pub print_fields : Fields → List ℕ
  print_fields end = []
  print_fields (field k v fs) = quote k ++ (58 ∷ (print v ++ more_fields fs))

  pub more_fields : Fields → List ℕ
  more_fields end = []
  more_fields (field k v fs) = 44 ∷ (quote k ++ (58 ∷ (print v ++ more_fields fs)))

module _ {A B : Type 0} (f : A → B) where
  abbrev keyed : String × A → String × B
  keyed (k, a) = (k, f a)

  insert_key-map :
      (k : String) (a : A) (l : List (String × A))
      → insert_key (k, f a) (map keyed l) ≡ map keyed (insert_key (k, a) l)
  unfolding insert_key
  insert_key-map k a [] = refl
  insert_key-map k a ((j, b) ∷ l) = elim (Bool-cases (le_codes (codes k) (codes j))) [
    | inl e ↦ rw e refl
    | inr n ↦ rw n (ap (λ m. (j, f b) ∷ m) (insert_key-map k a l))
  ]

  sort_keys-map : (l : List (String × A)) → sort_keys (map keyed l) ≡ map keyed (sort_keys l)
  unfolding sort_keys
  sort_keys-map [] = refl
  sort_keys-map ((k, a) ∷ l) =
      ap (insert_key (k, f a)) (sort_keys-map l) ∙ insert_key-map k a (sort_keys l)

-- The texts behind the first, each after a comma.
abbrev behind : List (List ℕ) → List ℕ
behind [] = []
behind (p ∷ ps) = 44 ∷ (p ++ behind ps)

join-cons : (p : List ℕ) (ps : List (List ℕ)) → join (p ∷ ps) ≡ p ++ behind ps
unfolding join
join-cons p [] = sym (append-nil p)
join-cons p (q ∷ ps) = ap (λ l. p ++ (44 ∷ l)) (join-cons q ps)

canonical_items-cons :
    (v : Value) (xs : Items)
    → IsPlainValue v
    → canonical_items (cons v xs) ≡ canonical v ∷ canonical_items xs
unfolding canonical canonical_items
canonical_items-cons undef xs h = absurd h
canonical_items-cons v xs h = refl

behind-fields :
    (l : List (String × Value)) → behind (map member (map (keyed print) l)) ≡ more_fields (object l)
unfolding more_fields print
behind-fields [] = refl
behind-fields ((k, v) ∷ l) =
    ap (λ m. 44 ∷ m)
      (append_assoc (quote k) (58 ∷ print v) (behind (map member (map (keyed print) l)))
        ∙ ap (λ m. quote k ++ (58 ∷ (print v ++ m))) (behind-fields l))

join-fields :
    (l : List (String × Value)) → join (map member (map (keyed print) l)) ≡ print_fields (object l)
unfolding print_fields print join
join-fields [] = refl
join-fields ((k, v) ∷ l) =
    join-cons (member (k, print v)) (map member (map (keyed print) l))
    ∙ (append_assoc (quote k) (58 ∷ print v) (behind (map member (map (keyed print) l)))
        ∙ ap (λ m. quote k ++ (58 ∷ (print v ++ m))) (behind-fields l))

mutual
  unfolding canonical canonical_items canonical_fields norm norm_items norm_fields print print_items
      more_items join

  canonical_in : (v : Value) → IsPlainValue v → canonical v ≡ print (norm v)
  canonical_in (arr xs) h = ap (λ l. 91 ∷ (l ++ 93 ∷ [])) (items_in xs h)
  canonical_in (obj fs) h =
      ap (λ l. 123 ∷ (l ++ 125 ∷ []))
        (ap (λ l. join (map member (sort_keys l))) (fields_in fs h)
          ∙ (ap (λ l. join (map member l)) (sort_keys-map print (norm_fields fs))
              ∙ join-fields (sort_keys (norm_fields fs))))
  canonical_in undef h = absurd h
  canonical_in null h = refl
  canonical_in (bool b) h = refl
  canonical_in (num n) h = refl
  canonical_in (frac s) h = absurd h
  canonical_in (str s) h = refl

  items_in :
      (xs : Items) → ArePlainItems xs → join (canonical_items xs) ≡ print_items (norm_items xs)
  items_in nil h = refl
  items_in (cons v xs) h =
      ap join (canonical_items-cons v xs h.0)
      ∙ (join-cons (canonical v) (canonical_items xs)
          ∙ (ap (λ l. l ++ behind (canonical_items xs)) (canonical_in v h.0)
              ∙ ap (λ l. print (norm v) ++ l) (more_in xs h.1)))

  more_in :
      (xs : Items) → ArePlainItems xs → behind (canonical_items xs) ≡ more_items (norm_items xs)
  more_in nil h = refl
  more_in (cons v xs) h =
      ap behind (canonical_items-cons v xs h.0)
      ∙ ap (λ l. 44 ∷ l)
          (ap (λ l. l ++ behind (canonical_items xs)) (canonical_in v h.0)
            ∙ ap (λ l. print (norm v) ++ l) (more_in xs h.1))

  fields_in :
      (fs : Fields) → ArePlainFields fs → canonical_fields fs ≡ map (keyed print) (norm_fields fs)
  fields_in end h = refl
  fields_in (field k v fs) h =
      ap (λ t. (k, t) ∷ canonical_fields fs) (canonical_in v h.0)
      ∙ ap (λ l. (k, print (norm v)) ∷ l) (fields_in fs h.1)

-- The serialisation of a plain value is the text of the value with its keys sorted.
pub canonical-norm : (v : Value) → IsPlainValue v → canonical v ≡ print (norm v)
canonical-norm v h = canonical_in v h
