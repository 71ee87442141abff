-- ===== src/Domain/Taxonomy/Consent.antt =====
-- How tiers, consent stages and granted methods of src/domain/taxonomy.js agree.
use nvidia_omoda.Prelude.{
  Bool, true, false, not, ◌&&◌, ◌||◌, Option, none, some, List, [], ◌∷◌, ◌≡◌, refl, ◌≢◌, ◌↔◌, arith,
  All, if◌then◌else◌, eq_iff,
}
use nvidia_omoda.Domain.Taxonomy.{
  Verb, read, create, update, delete, unknown, Impact, financial, legal, reputational, safe,
  contained, consequential, review, two_person, is_verb, has_impact, is_write, normalize_impact,
  consent_kind, classify, methods_for, severe_stage,
}
use nvidia_omoda.Domain.Taxonomy.Laws.{carries, normalize_impact-has, requires_consent-carries}

carries_normal : (o : Option (List Impact)) → carries (some (normalize_impact o)) ≡ carries o
unfolding normalize_impact
carries_normal none = refl
carries_normal (some l) = ground (
  arith,
  normalize_impact-has l financial refl,
  normalize_impact-has l legal refl,
  normalize_impact-has l reputational refl,
)

-- The severe impacts, as the declaration names them.
abbrev pub severe : Option (List Impact) → Bool
severe none = false
severe (some l) = has_impact l financial || has_impact l legal

severe_normal : (o : Option (List Impact)) → severe (some (normalize_impact o)) ≡ severe o
unfolding normalize_impact
severe_normal none = refl
severe_normal (some l) =
    ground (arith, normalize_impact-has l financial refl, normalize_impact-has l legal refl)

-- A call is consequential exactly when it is declared, not forbidden, one of the three write verbs,
-- and its declaration names a real impact; it is contained exactly when the same holds but no real
-- impact is named; it is safe exactly when it is declared, not forbidden and a read.
pub classify_iff :
    (verb : Verb) (impact : Option (List Impact)) (declared forbidden : Bool)
    → ((classify verb impact declared forbidden ≡ consequential) ↔ (
        (forbidden ≡ false)
        × (declared ≡ true)
        × (is_verb verb ≡ true)
        × (verb ≢ read)
        × (carries impact ≡ true)))
      × ((classify verb impact declared forbidden ≡ contained) ↔ (
          (forbidden ≡ false)
          × (declared ≡ true)
          × (is_verb verb ≡ true)
          × (verb ≢ read)
          × (carries impact ≡ false)))
      × ((classify verb impact declared forbidden ≡ safe)
          ↔ ((forbidden ≡ false) × (declared ≡ true) × (verb ≡ read)))
unfolding classify
classify_iff read impact declared forbidden = ground (arith, requires_consent-carries read impact)
classify_iff create impact declared forbidden =
    ground (arith, requires_consent-carries create impact)
classify_iff update impact declared forbidden =
    ground (arith, requires_consent-carries update impact)
classify_iff delete impact declared forbidden =
    ground (arith, requires_consent-carries delete impact)
classify_iff (unknown s) impact declared forbidden = ground arith

-- The stage by what the declaration names, with no normalised list in between.
consent_kind-eq :
    (verb : Verb) (impact : Option (List Impact))
    → consent_kind verb impact ≡ (
        if not (is_write verb && carries impact)
        then none
        else if not (severe impact)
        then some review
        else some (severe_stage verb))
unfolding consent_kind
consent_kind-eq verb impact = rw (
  requires_consent-carries verb (some (normalize_impact impact)),
  carries_normal impact,
  severe_normal impact,
)

severe-carries : (o : Option (List Impact)) → severe o ≡ true → carries o ≡ true
severe-carries none h = cc
severe-carries (some l) h = ground arith

-- The consent stage: none unless the call writes with a real impact; two people for a deletion with
-- financial or legal impact and for nothing else; review exactly when the impact is only reputational.
pub consent_kind_cases :
    (verb : Verb) (impact : Option (List Impact))
    → ((consent_kind verb impact ≡ none) ↔ ((is_write verb && carries impact) ≡ false))
      × ((consent_kind verb impact ≡ some two_person) ↔ ((verb ≡ delete) × (severe impact ≡ true)))
      × ((consent_kind verb impact ≡ some review)
          ↔ ((is_write verb ≡ true) × (carries impact ≡ true) × (severe impact ≡ false)))
consent_kind_cases read impact = ground (arith, consent_kind-eq read impact, severe-carries impact)
consent_kind_cases create impact =
    ground (arith, consent_kind-eq create impact, severe-carries impact)
consent_kind_cases update impact =
    ground (arith, consent_kind-eq update impact, severe-carries impact)
consent_kind_cases delete impact =
    ground (arith, consent_kind-eq delete impact, severe-carries impact)
consent_kind_cases (unknown s) impact =
    ground (arith, consent_kind-eq (unknown s) impact, severe-carries impact)

-- A call that is consequential is granted no method but GET, and needs a consent stage; a contained
-- call is granted no GET, and needs none.
pub methods-consent :
    (verb : Verb) (impact : Option (List Impact))
    → ((classify verb impact true false ≡ consequential)
        → (methods_for verb impact ≡ "GET" ∷ []) × (consent_kind verb impact ≢ none))
      × ((classify verb impact true false ≡ contained)
          → All (λ m. m ≢ "GET") (methods_for verb impact) × (consent_kind verb impact ≡ none))
unfolding methods_for classify
methods-consent read impact = ground (
  arith,
  requires_consent-carries read impact,
  consent_kind-eq read impact,
  severe-carries impact,
)
methods-consent create impact = ground (
  arith,
  requires_consent-carries create impact,
  consent_kind-eq create impact,
  severe-carries impact,
  eq_iff "POST" "GET",
)
methods-consent update impact = ground (
  arith,
  requires_consent-carries update impact,
  consent_kind-eq update impact,
  severe-carries impact,
  eq_iff "POST" "GET",
  eq_iff "PUT" "GET",
  eq_iff "PATCH" "GET",
)
methods-consent delete impact = ground (
  arith,
  requires_consent-carries delete impact,
  consent_kind-eq delete impact,
  severe-carries impact,
  eq_iff "DELETE" "GET",
)
methods-consent (unknown s) impact = ground (
  arith,
  requires_consent-carries (unknown s) impact,
  consent_kind-eq (unknown s) impact,
  severe-carries impact,
  eq_iff "DELETE" "GET",
)
