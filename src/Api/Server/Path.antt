-- ===== src/Api/Server/Path.antt =====
-- The paths that src/api/server.js tells apart.
use nvidia_omoda.Prelude.{
  ℕ, String, Bool, not, ◌&&◌, ◌||◌, Option, none, some, List, [], ◌∷◌, ◌==◌, if◌then◌else◌, is_some,
  eqb,
}
use Prim.Native.Char.{code}
use nvidia_omoda.Prelude.Rx.{codes}

-- What follows a prefix.
unfoldable pub rest_after : List ℕ → String → Option String
rest_after [] s = some s
rest_after (c ∷ p) String.[] = none
rest_after (c ∷ p) (String.◌∷◌ d s) = if eqb (code d) c then rest_after p s else none

-- The part before the first slash, and the part after it.
unfoldable pub split_slash : String → String × Option String
split_slash String.[] = ("", none)
split_slash (String.◌∷◌ c s) =
    let (head, tail) = split_slash s in
    if eqb (code c) b'/' then ("", some s) else (String.◌∷◌ c head, tail)

-- `s.endsWith(p)`.
unfoldable pub ends_with : String → String → Bool
ends_with String.[] p = p == ""
ends_with (String.◌∷◌ c s) p = let rest = ends_with s p in (String.◌∷◌ c s == p) || rest

abbrev pub below_intents : String → Option String
below_intents path = rest_after (codes "/v1/intents/") path

unfoldable pub under_intents : String → Bool
unfolding rest_after
under_intents path = is_some (below_intents path)

-- /^\/v1\/intents\/([^/]+)$/.
unfoldable pub intent_id : String → Option String
unfolding rest_after split_slash
intent_id path = elim (below_intents path) [
  | none ↦ none
  | some rest ↦ if is_some (split_slash rest).1 || (rest == "") then none else some rest
]

-- /^\/v1\/intents\/([^/]+)\/decisions$/.
unfoldable pub decided_id : String → Option String
unfolding rest_after split_slash
decided_id path = elim (below_intents path) [
  | none ↦ none
  | some rest ↦ elim (split_slash rest).1 [
    | none ↦ none
    | some after ↦
        if (after == "decisions") && not ((split_slash rest).0 == "")
        then some (split_slash rest).0
        else none
  ]
]
