-- ===== src/Policy/Compile/Grants.antt =====
-- What the policy that src/policy/compile.js writes lets through.
use nvidia_omoda.Prelude.{
  ℕ, String, Bool, true, false, Option, none, some, List, [], ◌∷◌, ◌++◌, ◌≡◌, inl, inr, refl, sym,
  ap, ◌∙◌, subst, if◌then◌else◌, includes, All, All-append, All-Mem, Memᴰ, Bool-cases, if-both,
}
use nvidia_omoda.Prelude.Dict.{get, get-All, put-All}
use Prim.Native.String
use nvidia_omoda.Domain.Taxonomy.{methods_for}
use nvidia_omoda.Policy.Envelope.{Rule, Endpoint}
use nvidia_omoda.Policy.Compile.Keys.{site_key-host}
use nvidia_omoda.Policy.Compile.{
  Egress, Capability, Manifest, Site, site_key, add_cap, group_by_endpoint, add_methods,
  add_cap_rules, add_rules, insert_rule, sort_rules, sort_key, Network, network_of, networks,
  compile_fragment, host_key,
}

-- A capability of the manifest that grants this method on this path of this host.
abbrev pub Granted : List Capability → String → String → String → Type 0
Granted caps host method path =
    (c : Capability) × (e : Egress) × Memᴰ c caps
    × (c.egress ≡ some e)
    × (e.host ≡ host)
    × (path ≡ e.path)
    × Memᴰ method (methods_for c.verb (some c.impact))

if-pair {ℓ κ} :
    {A : Type ℓ} {B : Type κ} (b : Bool) (x y : A) (u v : B)
    → ◌≡◌ {A = A × B} (if b then (x, u) else (y, v)) (if b then x else y, if b then u else v)
if-pair true x y u v = refl
if-pair false x y u v = refl

module _ (P : Rule → Type 0) where
  add_methods-All :
      (path : String) (ms seen : List String) (rules : List Rule)
      → All (λ m. P (record { method = m; path = path; delta = none })) ms
      → All P rules
      → All P (add_methods path ms (seen, rules)).1
  unfolding add_methods
  add_methods-All path [] seen rules h k = k
  add_methods-All path (m ∷ ms) seen rules h k =
      let sig = String.◌++◌ m (String.◌++◌ " " path) in
      let r : Rule = record { method = m; path = path; delta = none } in
      subst (λ p. All P (add_methods path ms p).1)
        (sym (if-pair (includes seen sig) seen (sig ∷ seen) rules (rules ++ r ∷ [])))
        (add_methods-All path ms (if includes seen sig then seen else sig ∷ seen)
          (if includes seen sig then rules else rules ++ r ∷ []) h.1
          (if-both (All P) (includes seen sig) rules (rules ++ r ∷ []) k
            (All-append P rules (r ∷ []) k (h.0, tt))))

  -- Every rule that a capability may give satisfies P.
  abbrev Fits : Capability → Type 0
  Fits c =
      (e : Egress)
      → c.egress ≡ some e
      → (m : String) → Memᴰ m (methods_for c.verb (some c.impact))
      → P (record { method = m; path = e.path; delta = none })

  add_cap_rules-All :
      (c : Capability) (p : List String × List Rule)
      → Fits c
      → All P p.1
      → All P (add_cap_rules c p).1
  unfolding add_cap_rules
  add_cap_rules-All c p h k = go c.egress refl
    where
      go : (o : Option Egress) → c.egress ≡ o → All P (add_cap_rules c p).1
      go none e = rw (e, add_cap_rules) k
      go (some x) e =
          rw (e, add_cap_rules)
            (add_methods-All x.path (methods_for c.verb (some c.impact)) p.0 p.1
              (All-Mem (λ m. P (record { method = m; path = x.path; delta = none }))
                (methods_for c.verb (some c.impact)) (h x e))
              k)

  add_rules-All :
      (caps : List Capability) (p : List String × List Rule)
      → All Fits caps
      → All P p.1
      → All P (add_rules caps p).1
  unfolding add_rules
  add_rules-All [] p h k = k
  add_rules-All (c ∷ cs) p h k =
      add_rules-All cs (add_cap_rules c p) h.1 (add_cap_rules-All c p h.0 k)

  module _ (le : String → String → Bool) where
    insert_rule-All : (r : Rule) (rs : List Rule) → P r → All P rs → All P (insert_rule le r rs)
    unfolding insert_rule
    insert_rule-All r [] p h = (p, tt)
    insert_rule-All r (s ∷ rs) p h = elim (Bool-cases (le (sort_key le r) (sort_key le s))) [
      | inl first ↦ rw first (p, h)
      | inr later ↦ rw later (h.0, insert_rule-All r rs p h.1)
    ]

    sort_rules-All : (rs : List Rule) → All P rs → All P (sort_rules le rs)
    unfolding sort_rules
    sort_rules-All [] h = tt
    sort_rules-All (r ∷ rs) h = insert_rule-All r (sort_rules le rs) h.0 (sort_rules-All rs h.1)

module _ (all : List Capability) where
  abbrev pub Belongs : String → ℕ → Capability → Type 0
  Belongs host port c =
      Memᴰ c all × ((e : Egress) → c.egress ≡ some e → site_key e.host e.port ≡ site_key host port)

  -- The groups hold capabilities of the manifest, each under its own endpoint.
  abbrev pub SiteOk : String → Site → Type 0
  SiteOk k s = (k ≡ site_key s.host s.port) × All (Belongs s.host s.port) s.caps

  same_egress : (c : Capability) (x e : Egress) → c.egress ≡ some x → c.egress ≡ some e → x ≡ e
  same_egress c x e h k = cc

  add_cap-Ok :
      (c : Capability) (sites : List (String × Site))
      → Memᴰ c all
      → All (λ e. SiteOk e.0 e.1) sites
      → All (λ e. SiteOk e.0 e.1) (add_cap c sites)
  unfolding add_cap
  add_cap-Ok c sites m h = go c.egress refl
    where
      found :
          (x : Egress)
          → c.egress ≡ some x
          → (o : Option Site) → get (site_key x.host x.port) sites ≡ o
          → All (λ e. SiteOk e.0 e.1) (add_cap c sites)
      found x e none g =
          rw (e, add_cap)
            (rw (g, add_cap)
              (put-All SiteOk (site_key x.host x.port) _ sites h
                (refl, ((m, λ y k. ap (λ z. site_key z.host z.port) (same_egress c y x k e)), tt))))
      found x e (some s) g =
          let (k, caps) = get-All SiteOk (site_key x.host x.port) s sites h g in
          rw (e, add_cap)
            (rw (g, add_cap)
              (put-All SiteOk (site_key x.host x.port) _ sites h (
                k,
                All-append (Belongs s.host s.port) s.caps (c ∷ []) caps
                    ((m, λ y f. ap (λ z. site_key z.host z.port) (same_egress c y x f e) ∙ k), tt),
              )))

      go : (o : Option Egress) → c.egress ≡ o → All (λ e. SiteOk e.0 e.1) (add_cap c sites)
      go none e = rw (e, add_cap) h
      go (some x) e = found x e (get (site_key x.host x.port) sites) refl

  pub group_by_endpoint-Ok :
      (cs : List Capability) (sites : List (String × Site))
      → All (λ c. Memᴰ c all) cs
      → All (λ e. SiteOk e.0 e.1) sites
      → All (λ e. SiteOk e.0 e.1) (group_by_endpoint cs sites)
  unfolding group_by_endpoint
  group_by_endpoint-Ok [] sites m h = h
  group_by_endpoint-Ok (c ∷ cs) sites m h =
      group_by_endpoint-Ok cs (add_cap c sites) m.1 (add_cap-Ok c sites m.0 h)

  abbrev pub RuleOk : String → Rule → Type 0
  RuleOk host r = Granted all host r.method r.path

  abbrev pub EndpointOk : Endpoint → Type 0
  EndpointOk e = (e.protocol ≡ "rest") × All (RuleOk e.host) e.rules

  abbrev pub NetworkOk : String → Network → Type 0
  NetworkOk k n = All EndpointOk n.group.endpoints

  module _ (le : String → String → Bool) (binaries : List String) where
    site_Fits :
        (s : Site) (caps : List Capability)
        → All (Belongs s.host s.port) caps
        → All (Fits (RuleOk s.host)) caps
    site_Fits s [] h = tt
    site_Fits s (c ∷ cs) h = (
      λ e k m f. (c, e, h.0.0, k, site_key-host e.host s.host e.port s.port (h.0.1 e k), refl, f),
      site_Fits s cs h.1,
    )

    network_of-Ok :
        (k : String) (s : Site)
        → SiteOk k s
        → NetworkOk (host_key false s.host) (network_of le binaries s)
    unfolding network_of
    network_of-Ok k s ok = (
      (
        refl,
        sort_rules-All (RuleOk s.host) le (add_rules s.caps ([], [])).1
            (add_rules-All (RuleOk s.host) s.caps ([], []) (site_Fits s s.caps ok.1) tt),
      ),
      tt,
    )

    pub networks-Ok :
        (l : List (String × Site)) (m : List (String × Network))
        → All (λ e. SiteOk e.0 e.1) l
        → All (λ e. NetworkOk e.0 e.1) m
        → All (λ e. NetworkOk e.0 e.1) (networks le binaries l m)
    unfolding networks
    networks-Ok [] m h k = k
    networks-Ok ((key, s) ∷ l) m h k = networks-Ok l _ h.1 (
        put-All NetworkOk (host_key false s.host) (network_of le binaries s) m k
          (network_of-Ok key s h.0))

-- Every group of a compiled policy has endpoints of kind `rest` whose rules a capability grants.
pub compile_fragment-Ok :
    (le : String → String → Bool) (m : Manifest)
    → All (λ e. NetworkOk m.capabilities e.0 e.1) (compile_fragment le m).network_policies
unfolding compile_fragment
compile_fragment-Ok le m =
    networks-Ok m.capabilities le m.binaries (group_by_endpoint m.capabilities []) []
      (group_by_endpoint-Ok m.capabilities m.capabilities []
        (All-Mem (λ c. Memᴰ c m.capabilities) m.capabilities (λ c k. k)) tt)
      tt
