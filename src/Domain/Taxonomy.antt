-- ===== src/Domain/Taxonomy.antt =====
-- src/domain/taxonomy.js: verbs, impacts and tiers, and the Broker's classification.
pub mod Laws
pub mod Consent
use nvidia_omoda.Prelude.{
  String, Bool, true, false, not, ◌&&◌, ◌||◌, Option, none, some, List, [], ◌∷◌, ◌++◌, ◌==◌,
  if◌then◌else◌,
}

-- The four verbs, and every other value that the field may hold.
pub data Verb : Type 0 where
  read create update delete : Verb
  unknown : Option String → Verb

pub data Impact : Type 0 where
  financial legal reputational : Impact
  foreign : String → Impact

pub data Tier : Type 0 where
  safe contained consequential undeclared prohibited : Tier

pub data Stage : Type 0 where
  review approval two_person : Stage

-- How the strings of a call are read.
unfoldable pub verb_of : Option String → Verb
verb_of none = unknown none
verb_of (some s) =
    if s == "read"
    then read
    else if s == "create"
    then create
    else if s == "update"
    then update
    else if s == "delete"
    then delete
    else unknown (some s)

-- `ALL_VERBS.has(verb)`.
abbrev pub is_verb : Verb → Bool
is_verb (unknown s) = false
is_verb _ = true

-- `ALL_IMPACTS.has(i)`.
abbrev pub is_impact : Impact → Bool
is_impact (foreign s) = false
is_impact _ = true

abbrev pub same_impact : Impact → Impact → Bool
same_impact financial financial = true
same_impact legal legal = true
same_impact reputational reputational = true
same_impact (foreign s) (foreign t) = s == t
same_impact _ _ = false

abbrev pub has_impact : List Impact → Impact → Bool
has_impact [] i = false
has_impact (j ∷ l) i = same_impact j i || has_impact l i

abbrev pub is_write : Verb → Bool
is_write read = false
is_write _ = true

abbrev pub requires_inverse : Verb → Bool
requires_inverse update = true
requires_inverse delete = true
requires_inverse _ = false

-- The loop of `normalizeImpact`: `seen` grows at its end.
unfoldable pub collect_impacts : List Impact → List Impact → List Impact
collect_impacts seen [] = seen
collect_impacts seen (i ∷ l) =
    collect_impacts (if is_impact i && not (has_impact seen i) then seen ++ i ∷ [] else seen) l

-- `none` stands for any value that is not an array.
unfoldable pub normalize_impact : Option (List Impact) → List Impact
unfolding collect_impacts
normalize_impact none = []
normalize_impact (some l) = collect_impacts [] l

abbrev pub nonempty {ℓ} : {A : Type ℓ} → List A → Bool
nonempty [] = false
nonempty (x ∷ l) = true

unfoldable pub requires_consent : Verb → Option (List Impact) → Bool
unfolding normalize_impact
requires_consent verb impact = is_write verb && nonempty (normalize_impact impact)

-- The stage of a write with financial or legal impact.
abbrev pub severe_stage : Verb → Stage
severe_stage delete = two_person
severe_stage _ = approval

unfoldable pub consent_kind : Verb → Option (List Impact) → Option Stage
unfolding requires_consent
consent_kind verb impact =
    let imp = normalize_impact impact in
    if not (requires_consent verb (some imp))
    then none
    else if not (has_impact imp financial || has_impact imp legal)
    then some review
    else some (severe_stage verb)

unfoldable pub classify : Verb → Option (List Impact) → Bool → Bool → Tier
unfolding requires_consent
classify verb impact declared forbidden =
    if forbidden
    then prohibited
    else if not declared
    then undeclared
    else if not (is_verb verb)
    then undeclared
    else if not (is_write verb)
    then safe
    else if requires_consent verb impact
    then consequential
    else contained

abbrev pub write_methods : Verb → List String
write_methods create = "POST" ∷ []
write_methods update = "POST" ∷ "PUT" ∷ "PATCH" ∷ []
write_methods _ = "DELETE" ∷ []

-- The methods that a compiled policy may grant for a capability.
unfoldable pub methods_for : Verb → Option (List Impact) → List String
unfolding requires_consent
methods_for verb impact =
    if not (is_write verb)
    then "GET" ∷ []
    else if requires_consent verb impact
    then "GET" ∷ []
    else write_methods verb
