-- ===== src/Policy/Envelope/Narrowing.antt =====
-- `revertDelta` of src/policy/envelope.js takes back what `applyDelta` added, and nothing else.
use nvidia_omoda.Prelude.{
  String, true, false, none, some, List, [], ◌∷◌, ◌++◌, map, ◌==◌, ◌≡◌, refl, ap, keep, All, arith,
  eq_refl, Bool-cases, Option-cases, inl, inr,
}
use mathlib.Core.Option
use nvidia_omoda.Prelude.Dict.{get, put, del}
use nvidia_omoda.Domain.Action.{Request}
use nvidia_omoda.Policy.Envelope.{
  Rule, Endpoint, Group, Envelope, push_endpoint, push_rule, apply_delta, not_tagged,
  clean_endpoint, clean_group, revert_delta,
}

-- No rule bears the tag.
abbrev pub Untagged : String → List Rule → Type 0
Untagged id rs = All (λ r. not_tagged id r ≡ true) rs

abbrev pub UntaggedIn : String → List Endpoint → Type 0
UntaggedIn id es = All (λ e. Untagged id e.rules) es

abbrev pub IsFresh : String → List Group → Type 0
IsFresh id gs = All (λ g. UntaggedIn id g.endpoints) gs

keep-Untagged : (id : String) (rs : List Rule) → Untagged id rs → keep (not_tagged id) rs ≡ rs
keep-Untagged id [] h = refl
keep-Untagged id (r ∷ rs) h = rw (h.0, keep-Untagged id rs h.1)

keep_pushed :
    (id : String) (rs : List Rule) (r : Rule)
    → Untagged id rs
    → not_tagged id r ≡ false
    → keep (not_tagged id) (rs ++ r ∷ []) ≡ rs
keep_pushed id [] r h t = rw t
keep_pushed id (x ∷ rs) r h t = rw (h.0, keep_pushed id rs r h.1 t)

clean_untagged :
    (id : String) (es : List Endpoint) → UntaggedIn id es → map (clean_endpoint id) es ≡ es
clean_untagged id [] h = refl
clean_untagged id (e ∷ es) h = cc (keep-Untagged id e.rules h.0, clean_untagged id es h.1)

clean_fresh : (id : String) (gs : List Group) → IsFresh id gs → map (clean_group id) gs ≡ gs
clean_fresh id [] h = refl
clean_fresh id (g ∷ gs) h = cc (clean_untagged id g.endpoints h.0, clean_fresh id gs h.1)

clean_push_endpoint :
    (id host : String) (r : Rule) (es out : List Endpoint)
    → UntaggedIn id es
    → not_tagged id r ≡ false
    → push_endpoint host r es ≡ some out
    → map (clean_endpoint id) out ≡ es
unfolding push_endpoint
clean_push_endpoint id host r [] out h t e = cc
clean_push_endpoint id host r (x ∷ es) out h t e = elim (Bool-cases (x.host == host)) [
  | inl hit ↦
      let o : record x { rules = x.rules ++ r ∷ [] } ∷ es ≡ out = ground arith in
      rw (← o) (cc (keep_pushed id x.rules r h.0 t, clean_untagged id es h.1))
  | inr miss ↦
      let (o, found, same) = (Option.map-eq-some_iff _ _).0 (rw miss at e) in
      rw (← same)
        (cc (keep-Untagged id x.rules h.0, clean_push_endpoint id host r es o h.1 t found))
]

clean_push_rule :
    (id host : String) (r : Rule) (gs out : List Group)
    → IsFresh id gs
    → not_tagged id r ≡ false
    → push_rule host r gs ≡ some out
    → map (clean_group id) out ≡ gs
unfolding push_rule
clean_push_rule id host r [] out h t e = cc
clean_push_rule id host r (g ∷ gs) out h t e =
    elim (Option-cases (push_endpoint host r g.endpoints)) [
      | inr (es, hit) ↦
          let o : record g { endpoints = es } ∷ gs ≡ out = ground arith in
          rw (← o)
            (cc (clean_push_endpoint id host r g.endpoints es h.0 t hit, clean_fresh id gs h.1))
      | inl miss ↦
          let (o, found, same) = (Option.map-eq-some_iff _ _).0 (rw (miss, push_rule) at e) in
          rw (← same)
            (cc (clean_untagged id g.endpoints h.0, clean_push_rule id host r gs o h.1 t found))
    ]

del-put :
    (id : String) (q : Request) (m : List (String × Request))
    → get id m ≡ none
    → del id (put id q m) ≡ m
unfolding get put del
del-put id q [] h = ground (arith, eq_refl id)
del-put id q ((j, w) ∷ m) h = elim (Bool-cases (j == id)) [
  | inl hit ↦ absurd (ground arith)
  | inr miss ↦ rw miss (rw miss (ap (λ l. (j, w) ∷ l) (del-put id q m (rw miss at h))))
]

-- Reverting a delta right after applying it gives the envelope back as it was, if its id was not in
-- use: neither on a rule nor among the open deltas.
pub revert-apply :
    (v w : Envelope) (id : String) (q : Request)
    → IsFresh id v.policies
    → get id v.deltas ≡ none
    → apply_delta v id q ≡ some w
    → revert_delta w id ≡ v
unfolding apply_delta revert_delta
revert-apply v w id q fresh unused e = elim (Option-cases (push_rule q.host added v.policies)) [
  | inl miss ↦ absurd (ground arith)
  | inr (gs, hit) ↦
      let o : record { policies = gs; deltas = put id q v.deltas } ≡ w = ground arith in
      rw (← o) (
        cc (
          clean_push_rule id q.host added v.policies gs fresh marked hit,
          del-put id q v.deltas unused,
        ))
]
  where
    added : Rule
    added = record { method = q.method; path = q.path; delta = some id }

    marked : not_tagged id added ≡ false
    marked = ground (arith, eq_refl id)
