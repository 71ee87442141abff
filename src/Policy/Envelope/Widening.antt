-- ===== src/Policy/Envelope/Widening.antt =====
-- `applyDelta` of src/policy/envelope.js widens the envelope by one method on one path of one host.
use nvidia_omoda.Prelude.{
  String, Bool, true, ◌&&◌, ◌||◌, Option, none, some, List, [], ◌∷◌, ◌++◌, ◌==◌, ◌≡◌, ◌≢◌, refl,
  if◌then◌else◌, arith, eq_iff, Bool-cases, Option-cases, inl, inr,
}
use mathlib.Core.Option
use nvidia_omoda.Prelude.Rx.{codes}
use nvidia_omoda.Domain.Action.{Request}
use nvidia_omoda.Prelude.Dict.{put}
use nvidia_omoda.Policy.Glob.Literal.{is_literal, path_matches_literal}
use nvidia_omoda.Policy.Envelope.{
  Rule, Endpoint, Group, Envelope, Answer, tunnel, by_rule, allowed, match_rules, endpoints_in,
  endpoints_for, check_endpoints, check_found, check, push_endpoint, push_rule, apply_delta,
}

-- An endpoint with one more rule.
abbrev pub with_rule : Rule → Endpoint → Endpoint
with_rule r e = record e { rules = e.rules ++ r ∷ [] }

-- The request is the one that the rule names.
abbrev pub names : Rule → String → String → Bool
names r method path = r.method == method && r.path == path

match_rules-append :
    (rs : List Rule) (r : Rule) (method path : String) (o : Option Rule)
    → is_literal (codes r.path) ≡ true
    → match_rules rs method path ≡ some o
    → match_rules (rs ++ r ∷ []) method path
      ≡ some (elim o [ none ↦ if names r method path then some r else none | some x ↦ some x ])
unfolding match_rules
match_rules-append [] r method path o lit h = ground (arith, path_matches_literal r.path path lit)
match_rules-append (x ∷ rs) r method path o lit h =
    ground (arith, match_rules-append rs r method path o lit)

-- What a lookup finds after a rule was pushed: the first endpoint of the host has it, and no other
-- host's endpoints have changed.
abbrev Pushed : String → Rule → List Endpoint → List Endpoint → Type 0
Pushed host r before after =
    (e : Endpoint) × (es : List Endpoint) × (endpoints_in host before ≡ e ∷ es)
    × (endpoints_in host after ≡ with_rule r e ∷ es)
    × ((h : String) → h ≢ host → endpoints_in h after ≡ endpoints_in h before)

push_endpoint_lem :
    (host : String) (r : Rule) (es out : List Endpoint)
    → push_endpoint host r es ≡ some out
    → Pushed host r es out
unfolding push_endpoint
push_endpoint_lem host r [] out e = cc
push_endpoint_lem host r (x ∷ es) out e = elim (Bool-cases (x.host == host)) [
  | inl hit ↦
      let o : with_rule r x ∷ es ≡ out = ground arith in
      rw (← o) (
        x,
        endpoints_in host es,
        rw hit,
        rw hit,
        λ h n. ground (arith, eq_iff x.host host, eq_iff x.host h),
      )
  | inr miss ↦
      let (o, found, same) = (Option.map-eq-some_iff _ _).0 (rw miss at e) in
      let (y, ys, was, now, others) = push_endpoint_lem host r es o found in
      rw (← same) (y, ys, rw miss was, rw miss now, λ h n. rw (others h n))
]

miss_endpoint :
    (host : String) (r : Rule) (es : List Endpoint)
    → push_endpoint host r es ≡ none
    → endpoints_in host es ≡ []
unfolding push_endpoint
miss_endpoint host r [] e = refl
miss_endpoint host r (x ∷ es) e = elim (Bool-cases (x.host == host)) [
  | inl hit ↦ absurd (ground arith)
  | inr miss ↦ rw miss (miss_endpoint host r es ((Option.map-eq-none_iff _ _).0 (rw miss at e)))
]

push_rule_lem :
    (host : String) (r : Rule) (gs out : List Group)
    → push_rule host r gs ≡ some out
    → (e : Endpoint) × (es : List Endpoint) × (endpoints_for host gs ≡ e ∷ es)
      × (endpoints_for host out ≡ with_rule r e ∷ es)
      × ((h : String) → h ≢ host → endpoints_for h out ≡ endpoints_for h gs)
unfolding push_rule endpoints_for
push_rule_lem host r [] out e = cc
push_rule_lem host r (g ∷ gs) out e = elim (Option-cases (push_endpoint host r g.endpoints)) [
  | inr (es, hit) ↦
      let o : record g { endpoints = es } ∷ gs ≡ out = ground arith in
      let (y, ys, was, now, others) = push_endpoint_lem host r g.endpoints es hit in
      rw (← o) (y, ys ++ endpoints_for host gs, rw was, rw now, λ h n. rw (others h n))
  | inl miss ↦
      let (o, found, same) = (Option.map-eq-some_iff _ _).0 (rw (miss, push_rule) at e) in
      let (y, ys, was, now, others) = push_rule_lem host r gs o found in
      let empty = miss_endpoint host r g.endpoints miss in
      rw (← same) (y, ys, rw empty was, rw empty now, λ h n. rw (others h n))
]

-- The check of a host whose first endpoint has one more rule.
check_with_rule :
    (e : Endpoint) (es : List Endpoint) (r : Rule) (method path : String) (a : Answer)
    → is_literal (codes r.path) ≡ true
    → check_endpoints (e ∷ es) method path ≡ some a
    → (b : Answer) × (check_endpoints (with_rule r e ∷ es) method path ≡ some b)
      × (allowed b ≡ (allowed a || names r method path))
unfolding check_endpoints
check_with_rule e es r method path a lit h = elim (Bool-cases (e.protocol == "rest")) [
  | inr raw ↦ (tunnel, ground arith, ground arith)
  | inl rest ↦ elim (Option-cases (match_rules e.rules method path)) [
    | inl bad ↦ absurd (ground arith)
    | inr (o, m) ↦ of_match rest o m
  ]
]
  where
    of_match :
        e.protocol == "rest" ≡ true
        → (o : Option Rule) → match_rules e.rules method path ≡ some o
        → (b : Answer) × (check_endpoints (with_rule r e ∷ es) method path ≡ some b)
          × (allowed b ≡ (allowed a || names r method path))
    of_match rest none m = elim (Bool-cases (names r method path)) [
      | inl hit ↦ (
        by_rule r.method r.path,
        ground (arith, match_rules-append e.rules r method path none lit m),
        ground arith,
      )
      | inr miss ↦
          (a, ground (arith, match_rules-append e.rules r method path none lit m), ground arith)
    ]
    of_match rest (some x) m = (
      by_rule x.method x.path,
      ground (arith, match_rules-append e.rules r method path (some x) lit m),
      ground arith,
    )

-- The request that a delta grants.
abbrev pub same_request : Request → Request → Bool
same_request q p = q.host == p.host && q.method == p.method && q.path == p.path

-- After a delta for a request with a plain path, the answer to any request is allowed exactly when
-- it was allowed before or it is that very request: the same host, method and path.
pub check-apply :
    (v w : Envelope) (id : String) (q p : Request) (a : Answer)
    → is_literal (codes q.path) ≡ true
    → apply_delta v id q ≡ some w
    → check v p ≡ some a
    → (b : Answer) × (check w p ≡ some b) × (allowed b ≡ (allowed a || same_request q p))
unfolding apply_delta check check_found
check-apply v w id q p a lit e h = elim (Option-cases (push_rule q.host added v.policies)) [
  | inl miss ↦ absurd (ground arith)
  | inr (gs, hit) ↦
      let o : record { policies = gs; deltas = put id q v.deltas } ≡ w = ground arith in
      let (y, ys, was, now, others) = push_rule_lem q.host added v.policies gs hit in
      rw (← o) (elim (Bool-cases (q.host == p.host)) [
        | inr other ↦
            (a, rw (others p.host (λ k. ground (arith, eq_iff q.host p.host))) h, ground arith)
        | inl same ↦
            let hosts : q.host ≡ p.host = (eq_iff q.host p.host).0 same in
            let (b, c, d) =
              check_with_rule y ys added p.method p.path a lit (rw (← hosts, was) at h) in
            (b, rw (← hosts, now) c, ground (arith, d))
      ])
]
  where
    added : Rule
    added = record { method = q.method; path = q.path; delta = some id }
