-- ===== src/Skills/Load.antt =====
-- The registry of src/policy/compile.js, and from src/skills/load.js what a level grants, the index of
-- capabilities and the merge of the compiled policies.
pub mod Declared
use nvidia_omoda.Prelude.{
  ℕ, suc, ◌+◌, String, Bool, true, false, not, ◌&&◌, ◌||◌, Option, none, some, List, [], ◌∷◌, ◌++◌,
  ◌==◌, if◌then◌else◌, get_or, is_some, any, leb, eqb,
}
use Prim.Native.String
use nvidia_omoda.Prelude.Dict.{get, put}
use nvidia_omoda.Domain.Taxonomy.{
  Verb, Impact, Stage, is_write, requires_inverse, requires_consent, consent_kind, methods_for,
}
use nvidia_omoda.Policy.Envelope.{Rule, Endpoint, Group}
use nvidia_omoda.Policy.Compile.{Egress, Capability, Manifest, Network}

pub record Row : Type 0 where
  pub agent : String
  pub skill : String
  pub tool : String
  pub verb : Verb
  pub impact : List Impact
  pub grant : String
  pub consent : Option Stage
  pub inverse_required : Bool
  pub egress : Option Egress

-- `methods.join(",")`.
unfoldable pub join_texts : List String → String
join_texts [] = ""
join_texts (s ∷ []) = s
join_texts (s ∷ l) = String.◌++◌ s (String.◌++◌ "," (join_texts l))

unfoldable pub grant_of : Capability → Bool → String
unfolding join_texts methods_for
grant_of c gated = elim c.egress [
  | none ↦ if is_write c.verb then "local filesystem only" else "local read only"
  | some e ↦ String.◌++◌ (join_texts (methods_for c.verb (some c.impact))) (
      String.◌++◌ " " (
        String.◌++◌ e.host
          (String.◌++◌ e.path (if gated then " (read-only until consented)" else ""))))
]

-- A row of the registry; its consent is `none` where the source says "none".
unfoldable pub row_of : Manifest → Capability → Row
unfolding grant_of requires_consent consent_kind
row_of m c =
    let gated = requires_consent c.verb (some c.impact) in
    record {
      agent = m.agent;
      skill = m.skill;
      tool = c.tool;
      verb = c.verb;
      impact = c.impact;
      grant = grant_of c gated;
      consent = if gated then consent_kind c.verb (some c.impact) else none;
      inverse_required = requires_inverse c.verb;
      egress = c.egress;
    }

unfoldable pub registry_rows : Manifest → List Capability → List Row
unfolding row_of
registry_rows m [] = []
registry_rows m (c ∷ cs) = row_of m c ∷ registry_rows m cs

abbrev pub registry : Manifest → List Row
registry m = registry_rows m m.capabilities

pub data Tools : Type 0 where
  no_tools consent_none all_declared : Tools

-- What an agent of a level is handed.
pub record Grants : Type 0 where
  pub level : ℕ
  pub inference : Bool
  pub retrieval : Bool
  pub tools : Tools
  pub task_context : Bool

unfoldable pub grants_for : ℕ → Grants
grants_for level = record {
  level = level;
  inference = leb level 1;
  retrieval = eqb level 1;
  tools = if leb level 1 then no_tools else if eqb level 2 then consent_none else all_declared;
  task_context = leb level 2;
}

-- `buildCapabilityIndex`: a later row replaces an earlier one of the same tool.
unfoldable pub index_rows : List Row → List (String × Row) → List (String × Row)
unfolding put
index_rows [] m = m
index_rows (r ∷ rs) m = index_rows rs (put r.tool r m)

unfoldable pub lookup : String → List (String × Row) → Option Row
unfolding get
lookup tool m = get tool m

unfoldable pub is_declared : String → List (String × Row) → Bool
unfolding get
is_declared tool m = is_some (get tool m)

abbrev pub same_rule : Rule → Rule → Bool
same_rule r s = (r.method == s.method) && (r.path == s.path)

-- The loop over the rules of a later fragment: a rule that is there is not added again.
unfoldable pub union_rules : List Rule → List Rule → List Rule
union_rules target [] = target
union_rules target (r ∷ rs) =
    union_rules (if any (λ s. same_rule s r) target then target else target ++ r ∷ []) rs

abbrev pub rules_of : List Endpoint → List Rule
rules_of [] = []
rules_of (e ∷ es) = e.rules ++ rules_of es

-- The rules of all endpoints go to the first endpoint of the target; a compiled group has one endpoint.
unfoldable pub merge_endpoints : List Endpoint → List Endpoint → List Endpoint
unfolding union_rules
merge_endpoints [] from = []
merge_endpoints (t ∷ ts) from = record t { rules = union_rules t.rules (rules_of from) } ∷ ts

unfoldable pub merge_group : String → Group → List (String × Group) → List (String × Group)
unfolding get put merge_endpoints
merge_group key g merged = elim (get key merged) [
  | none ↦ put key g merged
  | some target ↦
      put key (record target { endpoints = merge_endpoints target.endpoints g.endpoints }) merged
]

-- The loop over the groups of one fragment, and over the fragments.
unfoldable pub merge_groups :
    List (String × Network) → List (String × Group) → List (String × Group)
unfolding merge_group
merge_groups [] merged = merged
merge_groups ((key, n) ∷ l) merged = merge_groups l (merge_group key n.group merged)

unfoldable pub merge_fragments :
    List (List (String × Network)) → List (String × Group) → List (String × Group)
unfolding merge_groups
merge_fragments [] merged = merged
merge_fragments (f ∷ fs) merged = merge_fragments fs (merge_groups f merged)
