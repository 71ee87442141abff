-- ===== src/Domain/Taxonomy/Laws.antt =====
-- What the classification decides, and how the consent stage and the granted methods agree with it.
use nvidia_omoda.Prelude.{
  Bool, true, false, not, ◌&&◌, ◌||◌, Option, none, some, List, [], ◌∷◌, ◌++◌, ◌≡◌, refl, inl, inr,
  arith, All, All-append, Bool-cases, subst,
}
use nvidia_omoda.Domain.Taxonomy.{
  Verb, Impact, financial, legal, reputational, foreign, is_impact, same_impact, has_impact,
  is_write, collect_impacts, normalize_impact, nonempty, requires_consent,
}

-- A real impact that the list names.
abbrev pub Names : List Impact → Impact → Type 0
Names l i = has_impact l i ≡ true

has_impact-append :
    (l m : List Impact) (i : Impact) → has_impact (l ++ m) i ≡ (has_impact l i || has_impact m i)
has_impact-append [] m i = refl
has_impact-append (j ∷ l) m i = ground (arith, has_impact-append l m i)

same_impact-eq : (j i : Impact) → is_impact i ≡ true → same_impact j i ≡ true → j ≡ i
same_impact-eq financial i h e = ground arith
same_impact-eq legal i h e = ground arith
same_impact-eq reputational i h e = ground arith
same_impact-eq (foreign s) i h e = ground arith

-- An impact that is skipped, because it was seen, is in the list already.
seen_again :
    (seen : List Impact) (j i : Impact)
    → is_impact i ≡ true
    → has_impact seen j ≡ true
    → same_impact j i ≡ true
    → has_impact seen i ≡ true
seen_again seen j i h s e = subst (λ k. has_impact seen k ≡ true) (same_impact-eq j i h e) s

collect_has :
    (seen l : List Impact) (i : Impact)
    → is_impact i ≡ true
    → has_impact (collect_impacts seen l) i ≡ (has_impact seen i || has_impact l i)
unfolding collect_impacts
collect_has seen [] i h = ground arith
collect_has seen (j ∷ l) i h = elim (Bool-cases (is_impact j && not (has_impact seen j))) [
  | inl e ↦
      rw (e, collect_has (seen ++ j ∷ []) l i h, has_impact-append seen (j ∷ []) i) (ground arith)
  | inr e ↦
      rw (e, collect_has seen l i h) (ground (arith, seen_again seen j i h, same_impact-eq j i h))
]

-- Normalising keeps exactly the impacts of the taxonomy that the list names.
pub normalize_impact-has :
    (l : List Impact) (i : Impact)
    → is_impact i ≡ true
    → has_impact (normalize_impact (some l)) i ≡ has_impact l i
unfolding normalize_impact
normalize_impact-has l i h = collect_has [] l i h

collect_real :
    (seen l : List Impact)
    → All (λ i. is_impact i ≡ true) seen
    → All (λ i. is_impact i ≡ true) (collect_impacts seen l)
unfolding collect_impacts
collect_real seen [] h = h
collect_real seen (j ∷ l) h = elim (Bool-cases (is_impact j && not (has_impact seen j))) [
  | inl e ↦ rw e (collect_real (seen ++ j ∷ []) l (All-append _ seen (j ∷ []) h (ground arith, tt)))
  | inr e ↦ rw e (collect_real seen l h)
]

-- A list of impacts of the taxonomy that names none of them is empty.
empty_of_none :
    (l : List Impact)
    → All (λ i. is_impact i ≡ true) l
    → has_impact l financial ≡ false
    → has_impact l legal ≡ false
    → has_impact l reputational ≡ false
    → l ≡ []
empty_of_none [] a f g h = refl
empty_of_none (financial ∷ l) a f g h = cc
empty_of_none (legal ∷ l) a f g h = cc
empty_of_none (reputational ∷ l) a f g h = cc
empty_of_none (foreign s ∷ l) a f g h = absurd (ground arith)

-- Does a call carry an impact that somebody must consent to?
abbrev pub carries : Option (List Impact) → Bool
carries none = false
carries (some l) = has_impact l financial || has_impact l legal || has_impact l reputational

nonempty_of_has : (l : List Impact) (i : Impact) → has_impact l i ≡ true → nonempty l ≡ true
nonempty_of_has [] i h = cc
nonempty_of_has (j ∷ l) i h = refl

nonempty_normal : (o : Option (List Impact)) → nonempty (normalize_impact o) ≡ carries o
unfolding normalize_impact
nonempty_normal none = refl
nonempty_normal (some l) = ground (
  arith,
  collect_has [] l financial refl,
  collect_has [] l legal refl,
  collect_has [] l reputational refl,
  nonempty_of_has (collect_impacts [] l) financial,
  nonempty_of_has (collect_impacts [] l) legal,
  nonempty_of_has (collect_impacts [] l) reputational,
  empty_of_none (collect_impacts [] l) (collect_real [] l tt),
)

pub requires_consent-carries :
    (verb : Verb) (impact : Option (List Impact))
    → requires_consent verb impact ≡ (is_write verb && carries impact)
unfolding requires_consent
requires_consent-carries verb impact = rw (nonempty_normal impact)

pub normalize-real : (o : Option (List Impact)) → All (λ i. is_impact i ≡ true) (normalize_impact o)
unfolding normalize_impact
normalize-real none = tt
normalize-real (some l) = collect_real [] l tt
