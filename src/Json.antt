-- ===== src/Json.antt =====
-- JavaScript values as the ledger stores them, and the stable serialisation of src/ledger/ledger.js.
pub mod Escape
pub mod Numbers
pub mod Norm
pub mod Read
use nvidia_omoda.Prelude.{
  ℕ, zero, suc, ◌+◌, ◌/◌, ◌%◌, String, Option, none, some, Bool, true, false, not, ◌&&◌, ◌||◌, List,
  [], ◌∷◌, ◌++◌, ltb, eqb, if◌then◌else◌, ◌==◌, map,
}
use nvidia_omoda.Prelude.Rx.{codes}

-- `undef` is `undefined`; `num` is a natural number, `frac` any other number by its JSON text.
mutual
  pub data Value : Type 0 where
    undef null : Value
    bool : Bool → Value
    num : ℕ → Value
    frac : String → Value
    str : String → Value
    arr : Items → Value
    obj : Fields → Value

  pub data Items : Type 0 where
    cons : Value → Items → Items
    nil : Items

  pub data Fields : Type 0 where
    field : String → Value → Fields → Fields
    end : Fields

-- `String(n)`, with one round of fuel for each digit; n + 1 rounds are enough.
unfoldable pub decimal : ℕ → ℕ → List ℕ → List ℕ
decimal zero n out = out
decimal (suc f) n out =
    let rest = decimal f (n / 10) ((b'0' + n % 10) ∷ out) in
    if ltb n 10 then (b'0' + n) ∷ out else rest

abbrev pub hex_digit : ℕ → ℕ
hex_digit n = if ltb n 10 then b'0' + n else 87 + n

-- One character of a quoted string.
abbrev pub escape : ℕ → List ℕ
escape c =
    if eqb c 34 || eqb c 92
    then 92 ∷ c ∷ []
    else if eqb c 8
    then codes "\\b"
    else if eqb c 9
    then codes "\\t"
    else if eqb c 10
    then codes "\\n"
    else if eqb c 12
    then codes "\\f"
    else if eqb c 13
    then codes "\\r"
    else if ltb c 32
    then codes "\\u00" ++ hex_digit (c / 16) ∷ hex_digit (c % 16) ∷ []
    else c ∷ []

unfoldable pub escape_all : List ℕ → List ℕ
escape_all [] = []
escape_all (c ∷ s) = escape c ++ escape_all s

-- `JSON.stringify(s)` for a text.
unfoldable pub quote : String → List ℕ
unfolding escape_all
quote s = 34 ∷ (escape_all (codes s) ++ 34 ∷ [])

-- The order of `sort()` on keys.
unfoldable pub le_codes : List ℕ → List ℕ → Bool
le_codes [] t = true
le_codes (c ∷ s) [] = false
le_codes (c ∷ s) (d ∷ t) = ltb c d || (eqb c d && le_codes s t)

abbrev pub le_key : String → String → Bool
le_key j k = le_codes (codes j) (codes k)

module _ {ℓ} {A : Type ℓ} where
  unfoldable pub insert_key : String × A → List (String × A) → List (String × A)
  insert_key (k, v) [] = (k, v) ∷ []
  insert_key (k, v) ((j, w) ∷ l) =
      if le_codes (codes k) (codes j) then (k, v) ∷ (j, w) ∷ l else (j, w) ∷ insert_key (k, v) l

  unfoldable pub sort_keys : List (String × A) → List (String × A)
  unfolding insert_key le_codes
  sort_keys [] = []
  sort_keys (p ∷ l) = insert_key p (sort_keys l)

-- `parts.join(",")`.
unfoldable pub join : List (List ℕ) → List ℕ
join [] = []
join (p ∷ []) = p
join (p ∷ q ∷ r) = p ++ (44 ∷ join (q ∷ r))

abbrev pub member : String × List ℕ → List ℕ
member (k, text) = quote k ++ (58 ∷ text)

-- `JSON.stringify` of a scalar; `undefined` is printed by the template literal around it.
unfoldable pub scalar : Value → List ℕ
unfolding decimal quote
scalar undef = codes "undefined"
scalar null = codes "null"
scalar (bool true) = codes "true"
scalar (bool false) = codes "false"
scalar (num n) = decimal (n + 1) n []
scalar (frac s) = codes s
scalar (str s) = quote s
scalar v = []

unfoldable mutual
  unfolding scalar sort_keys join quote

  pub canonical : Value → List ℕ
  canonical (arr xs) = 91 ∷ (join (canonical_items xs) ++ 93 ∷ [])
  canonical (obj fs) = 123 ∷ (join (map member (sort_keys (canonical_fields fs))) ++ 125 ∷ [])
  canonical undef = scalar undef
  canonical null = scalar null
  canonical (bool b) = scalar (bool b)
  canonical (num n) = scalar (num n)
  canonical (frac s) = scalar (frac s)
  canonical (str s) = scalar (str s)

  pub canonical_items : Items → List (List ℕ)
  canonical_items nil = []
  canonical_items (cons undef xs) = [] ∷ canonical_items xs
  canonical_items (cons v xs) = canonical v ∷ canonical_items xs

  pub canonical_fields : Fields → List (String × List ℕ)
  canonical_fields end = []
  canonical_fields (field k v fs) = (k, canonical v) ∷ canonical_fields fs

-- `JSON.stringify(v)`: a field that is `undefined` is left out, and in an array it is null.
unfoldable mutual
  unfolding scalar join quote

  pub stringify : Value → List ℕ
  stringify (arr xs) = 91 ∷ (join (stringify_items xs) ++ 93 ∷ [])
  stringify (obj fs) = 123 ∷ (join (stringify_fields fs) ++ 125 ∷ [])
  stringify undef = scalar undef
  stringify null = scalar null
  stringify (bool b) = scalar (bool b)
  stringify (num n) = scalar (num n)
  stringify (frac s) = scalar (frac s)
  stringify (str s) = scalar (str s)

  pub stringify_items : Items → List (List ℕ)
  stringify_items nil = []
  stringify_items (cons undef xs) = codes "null" ∷ stringify_items xs
  stringify_items (cons v xs) = stringify v ∷ stringify_items xs

  pub stringify_fields : Fields → List (List ℕ)
  stringify_fields end = []
  stringify_fields (field k undef fs) = stringify_fields fs
  stringify_fields (field k v fs) = member (k, stringify v) ∷ stringify_fields fs

-- `String(v)`: an element of an array that is null or undefined prints as nothing.
unfoldable mutual
  unfolding decimal join

  pub to_text : Value → List ℕ
  to_text undef = codes "undefined"
  to_text null = codes "null"
  to_text (bool true) = codes "true"
  to_text (bool false) = codes "false"
  to_text (num n) = decimal (n + 1) n []
  to_text (frac s) = codes s
  to_text (str s) = codes s
  to_text (arr xs) = join (to_text_items xs)
  to_text (obj fs) = codes "[object Object]"

  pub to_text_items : Items → List (List ℕ)
  to_text_items nil = []
  to_text_items (cons undef xs) = [] ∷ to_text_items xs
  to_text_items (cons null xs) = [] ∷ to_text_items xs
  to_text_items (cons v xs) = to_text v ∷ to_text_items xs

-- The values that an `if` takes for true.
abbrev pub truthy : Value → Bool
truthy undef = false
truthy null = false
truthy (bool b) = b
truthy (num n) = not (eqb n 0)
truthy (frac s) = true
truthy (str s) = not (s == "")
truthy (arr xs) = true
truthy (obj fs) = true

-- `a || b` on values.
abbrev pub or_value : Value → Value → Value
or_value a b = if truthy a then a else b

-- `o.k` on an object.
unfoldable pub prop : String → Fields → Value
prop k end = undef
prop k (field j v fs) = if j == k then v else prop k fs

-- An object from its keys and values.
abbrev pub object : List (String × Value) → Fields
object [] = end
object ((k, v) ∷ l) = field k v (object l)

abbrev pub texts : List String → Items
texts [] = nil
texts (s ∷ l) = cons (str s) (texts l)

-- `x ?? null` for a text.
abbrev pub or_null : Option String → Value
or_null none = null
or_null (some s) = str s
