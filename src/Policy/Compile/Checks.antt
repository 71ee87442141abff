-- ===== src/Policy/Compile/Checks.antt =====
-- The policy that src/policy/compile.js writes, as src/policy/envelope.js checks it.
use nvidia_omoda.Prelude.{
  String, Bool, true, false, Option, none, some, List, [], ◌∷◌, ◌==◌, ◌≡◌, ◌≢◌, inl, inr, refl, sym,
  ap, ◌∙◌, subst, All, All-append, Memᴰ, Bool-cases, arith, eq_iff,
}
use nvidia_omoda.Domain.Taxonomy.{
  Verb, read, create, update, delete, unknown, Impact, methods_for, is_write, requires_consent,
}
use nvidia_omoda.Domain.Action.{Request}
use nvidia_omoda.Policy.Envelope.{
  Rule, Endpoint, Answer, no_entry, absent, tunnel, by_rule, allowed, match_rules, endpoints_in,
  endpoints_for, check_endpoints, check_found, check,
}
use nvidia_omoda.Policy.Glob.{path_matches}
use nvidia_omoda.Policy.Compile.{
  Egress, Capability, Manifest, Network, compile_fragment, groups_of, envelope_of,
}
use nvidia_omoda.Policy.Compile.Grants.{RuleOk, EndpointOk, NetworkOk, compile_fragment-Ok}

some_eq : (a b : Answer) → ◌≡◌ {A = Option Answer} (some a) (some b) → a ≡ b
some_eq a b e = cc

module _ (all : List Capability) (q : Request) where
  abbrev HostOk : Endpoint → Type 0
  HostOk e = (e.protocol ≡ "rest") × All (RuleOk all q.host) e.rules

  -- An answer that grants only what a capability grants.
  abbrev pub AnswerOk : Answer → Type 0
  AnswerOk no_entry = Unit
  AnswerOk absent = Unit
  AnswerOk tunnel = ⊥
  AnswerOk (by_rule m p) =
      (m ≡ q.method)
      × (path_matches p q.path ≡ some true)
      × RuleOk all q.host (record { method = m; path = p; delta = none })

  endpoints_in-Ok :
      (es : List Endpoint) → All (EndpointOk all) es → All HostOk (endpoints_in q.host es)
  endpoints_in-Ok [] h = tt
  endpoints_in-Ok (e ∷ es) h = elim (Bool-cases (e.host == q.host)) [
    | inl hit ↦ rw hit (
      (h.0.0, subst (λ x. All (RuleOk all x) e.rules) ((eq_iff e.host q.host).0 hit) h.0.1),
      endpoints_in-Ok es h.1,
    )
    | inr miss ↦ rw miss (endpoints_in-Ok es h.1)
  ]

  endpoints_for-Ok :
      (l : List (String × Network))
      → All (λ e. NetworkOk all e.0 e.1) l
      → All HostOk (endpoints_for q.host (groups_of l))
  unfolding endpoints_for
  endpoints_for-Ok [] h = tt
  endpoints_for-Ok ((k, n) ∷ l) h =
      All-append HostOk (endpoints_in q.host n.group.endpoints) (endpoints_for q.host (groups_of l))
        (endpoints_in-Ok n.group.endpoints h.0) (endpoints_for-Ok l h.1)

  match_rules-Ok :
      (rs : List Rule) (r : Rule)
      → All (RuleOk all q.host) rs
      → match_rules rs q.method q.path ≡ some (some r)
      → AnswerOk (by_rule r.method r.path)
  unfolding match_rules
  match_rules-Ok [] r h e = cc
  match_rules-Ok (x ∷ rs) r h e = elim (Bool-cases (x.method == q.method)) [
    | inr miss ↦ match_rules-Ok rs r h.1 (ground (arith, e, miss))
    | inl hit ↦ of_path hit (match_rules-Ok rs r h.1) (path_matches x.path q.path) refl
  ]
    where
      of_path :
          x.method == q.method ≡ true
          → (match_rules rs q.method q.path ≡ some (some r) → AnswerOk (by_rule r.method r.path))
          → (o : Option Bool) → path_matches x.path q.path ≡ o
          → AnswerOk (by_rule r.method r.path)
      of_path hit later none f = absurd (ground (arith, e, hit, f))
      of_path hit later (some false) f = later (ground (arith, e, hit, f))
      of_path hit later (some true) f =
          let same : x ≡ r = ground (arith, e, hit, f) in
          subst (λ y. AnswerOk (by_rule y.method y.path)) same
            ((eq_iff x.method q.method).0 hit, f, h.0)

  check_endpoints-Ok :
      (es : List Endpoint) (a : Answer)
      → All HostOk es
      → check_endpoints es q.method q.path ≡ some a
      → AnswerOk a
  unfolding check_endpoints
  check_endpoints-Ok [] a h e = subst AnswerOk (some_eq absent a e) tt
  check_endpoints-Ok (x ∷ es) a h e =
      of_rules (check_endpoints-Ok es a h.1) (match_rules x.rules q.method q.path) refl
    where
      rest : x.protocol == "rest" ≡ true
      rest = (eq_iff x.protocol "rest").1 h.0.0

      of_rules :
          (check_endpoints es q.method q.path ≡ some a → AnswerOk a)
          → (o : Option (Option Rule)) → match_rules x.rules q.method q.path ≡ o
          → AnswerOk a
      of_rules later none f = absurd (ground (arith, e, rest, f))
      of_rules later (some none) f = later (ground (arith, e, rest, f))
      of_rules later (some (some r)) f =
          let same : by_rule r.method r.path ≡ a = ground (arith, e, rest, f) in
          subst AnswerOk same (match_rules-Ok x.rules r h.0.1 f)

  check_found-Ok :
      (es : List Endpoint) (a : Answer)
      → All HostOk es
      → check_found es q.method q.path ≡ some a
      → AnswerOk a
  unfolding check_found
  check_found-Ok [] a h e = subst AnswerOk (some_eq no_entry a e) tt
  check_found-Ok (x ∷ es) a h e = check_endpoints-Ok (x ∷ es) a h e

-- Whatever the compiled policy answers, it is no open tunnel; and if a rule grants the request, then
-- the request uses the method of the rule, the path of the rule matches, and a capability of the
-- manifest has this host, that path, and the method among those it may use.
pub compiled_check :
    (le : String → String → Bool) (m : Manifest) (q : Request) (a : Answer)
    → check (envelope_of (compile_fragment le m)) q ≡ some a
    → AnswerOk m.capabilities q a
unfolding check
compiled_check le m q a e =
    check_found-Ok m.capabilities q
      (endpoints_for q.host (groups_of (compile_fragment le m).network_policies)) a
      (endpoints_for-Ok m.capabilities q (compile_fragment le m).network_policies
        (compile_fragment-Ok le m))
      e

one_of : (m : String) → Memᴰ m ("GET" ∷ []) → m ≡ "GET"
one_of m (Memᴰ.head e) = e
one_of m (Memᴰ.tail k) = elim k [ ]

-- A method other than GET is granted only to a write that needs no consent.
granted_free :
    (verb : Verb) (impact : Option (List Impact)) (m : String)
    → Memᴰ m (methods_for verb impact)
    → m ≢ "GET"
    → (is_write verb ≡ true) × (requires_consent verb impact ≡ false)
unfolding methods_for
granted_free read impact m k n = absurd (n (one_of m k))
granted_free create impact m k n = elim (Bool-cases (requires_consent create impact)) [
  | inl c ↦ absurd (n (one_of m (rw c at k)))
  | inr c ↦ (refl, c)
]
granted_free update impact m k n = elim (Bool-cases (requires_consent update impact)) [
  | inl c ↦ absurd (n (one_of m (rw c at k)))
  | inr c ↦ (refl, c)
]
granted_free delete impact m k n = elim (Bool-cases (requires_consent delete impact)) [
  | inl c ↦ absurd (n (one_of m (rw c at k)))
  | inr c ↦ (refl, c)
]
granted_free (unknown s) impact m k n = elim (Bool-cases (requires_consent (unknown s) impact)) [
  | inl c ↦ absurd (n (one_of m (rw c at k)))
  | inr c ↦ (refl, c)
]

of_answer :
    (caps : List Capability) (q : Request) (a : Answer)
    → AnswerOk caps q a
    → allowed a ≡ true
    → q.method ≢ "GET"
    → (c : Capability) × (e : Egress) × Memᴰ c caps
      × (c.egress ≡ some e)
      × (e.host ≡ q.host)
      × (path_matches e.path q.path ≡ some true)
      × (is_write c.verb ≡ true)
      × (requires_consent c.verb (some c.impact) ≡ false)
of_answer caps q no_entry ok h n = cc
of_answer caps q absent ok h n = cc
of_answer caps q tunnel ok h n = elim ok [ ]
of_answer caps q (by_rule m p) (same, hit, (c, e, k, f, key, path, by_method)) h n =
    let (writes, free) = granted_free c.verb (some c.impact) m by_method (λ g. n (sym same ∙ g)) in
    (c, e, k, f, key, ap (λ x. path_matches x q.path) (sym path) ∙ hit, writes, free)

-- The refusal of a consequential write comes from the compiled policy: if it lets a request through
-- whose method is not GET, then the manifest has a capability for its host and a path that matches,
-- which is a write and needs no consent.
pub compiled_writes :
    (le : String → String → Bool) (m : Manifest) (q : Request) (a : Answer)
    → check (envelope_of (compile_fragment le m)) q ≡ some a
    → allowed a ≡ true
    → q.method ≢ "GET"
    → (c : Capability) × (e : Egress) × Memᴰ c m.capabilities
      × (c.egress ≡ some e)
      × (e.host ≡ q.host)
      × (path_matches e.path q.path ≡ some true)
      × (is_write c.verb ≡ true)
      × (requires_consent c.verb (some c.impact) ≡ false)
compiled_writes le m q a e h n = of_answer m.capabilities q a (compiled_check le m q a e) h n
