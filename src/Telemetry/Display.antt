-- ===== src/Telemetry/Display.antt =====
-- `levelFor` of src/telemetry/display.js, and `pretty` of src/telemetry/narrate.js.
use nvidia_omoda.Prelude.{
  ℕ, String, Bool, true, false, ◌||◌, Option, none, some, List, [], ◌∷◌, ◌==◌, if◌then◌else◌, eqb,
}
use Prim.Native.Char.{code}
use nvidia_omoda.Prelude.Dict.{get}

-- The text behind a prefix.
unfoldable pub behind : String → String → Option String
behind String.[] s = some s
behind (String.◌∷◌ c p) String.[] = none
behind (String.◌∷◌ c p) (String.◌∷◌ d s) = if eqb (code c) (code d) then behind p s else none

abbrev pub begins : String → String → Bool
begins prefix s = elim (behind prefix s) [ none ↦ false | some r ↦ true ]

-- A level of the org chart, or a part that is no agent.
pub data Level : Type 0 where
  rank : ℕ → Level
  operator input : Level

abbrev special_level : String → Option ℕ
special_level name =
    if name == "l0"
    then some 0
    else if name == "omoda:judge"
    then some 0
    else if name == "omoda:integration"
    then some 3
    else none

abbrev ranked : Option ℕ → Option Level
ranked none = none
ranked (some n) = some (rank n)

unfoldable pub level_for : String → List (String × ℕ) → Option Level
unfolding behind get
level_for agent levels =
    if agent == ""
    then none
    else if begins "operator" agent
    then some operator
    else if begins "coco" agent
        || begins "telegram" agent
        || begins "stream:" agent
        || begins "see:" agent
    then some input
    else elim (special_level agent) [ some n ↦ some (rank n) | none ↦ ranked (get agent levels) ]

-- A hyphen or an underscore becomes a space.
unfoldable spaced : String → String
spaced String.[] = ""
spaced (String.◌∷◌ c s) =
    let rest = spaced s in
    if eqb (code c) b'-' || eqb (code c) b'_' then String.◌∷◌ " " rest else String.◌∷◌ c rest

-- The first of these prefixes is left out.
unfoldable without_prefix : List String → String → String
unfolding behind
without_prefix [] s = s
without_prefix (p ∷ l) s = elim (behind p s) [ some r ↦ r | none ↦ without_prefix l s ]

unfoldable pub pretty : String → String
unfolding without_prefix spaced
pretty name = spaced (without_prefix ("coco:" ∷ "telegram:" ∷ "stream:" ∷ "see:" ∷ []) name)
