-- ===== src/Skills/Load/Declared.antt =====
-- What the loaded skills of src/skills/load.js declare and grant.
use nvidia_omoda.Prelude.{
  String, true, ◌||◌, List, [], ◌∷◌, ◌++◌, ◌==◌, ◌≡◌, refl, if◌then◌else◌, if-both, is_some, any,
  All, All-append, Option-cases, inl, inr, arith,
}
use nvidia_omoda.Prelude.Dict.{get, put, get-put, get-All, put-All}
use nvidia_omoda.Policy.Envelope.{Rule, Endpoint, Group}
use nvidia_omoda.Policy.Compile.{Capability, Manifest, Network, level_problems}
use nvidia_omoda.Skills.Load.{
  Row, no_tools, grants_for, index_rows, is_declared, same_rule, union_rules, rules_of,
  merge_endpoints, merge_group, merge_groups, merge_fragments,
}

index_rows_lem :
    (tool : String) (rs : List Row) (m : List (String × Row))
    → is_some (get tool (index_rows rs m)) ≡ (is_some (get tool m) || any (λ r. r.tool == tool) rs)
unfolding index_rows
index_rows_lem tool [] m = ground arith
index_rows_lem tool (r ∷ rs) m =
    ground (arith, index_rows_lem tool rs (put r.tool r m), get-put r.tool tool r m)

-- A tool is declared exactly if a row of the registry is about it.
pub is_declared_iff :
    (tool : String) (rs : List Row)
    → is_declared tool (index_rows rs []) ≡ any (λ r. r.tool == tool) rs
unfolding is_declared get
is_declared_iff tool rs = index_rows_lem tool rs []

-- A manifest that passes the check of its level and holds an inference grant is of a level that is
-- handed inference and no tools, and declares no capability.
pub inference-grants_for :
    (m : Manifest)
    → level_problems m ≡ []
    → m.inference ≡ true
    → ((grants_for m.level).inference ≡ true)
      × ((grants_for m.level).tools ≡ no_tools)
      × (m.capabilities ≡ [])
unfolding level_problems grants_for
inference-grants_for m h i = go m.capabilities refl
  where
    go :
        (cs : List Capability)
        → m.capabilities ≡ cs
        → ((grants_for m.level).inference ≡ true)
          × ((grants_for m.level).tools ≡ no_tools)
          × (m.capabilities ≡ [])
    go [] e = ground (arith, h, i, e)
    go (c ∷ cs) e = ground (arith, h, i, e)

module _ (P : Rule → Type 0) where
  union_rules-All :
      (target rs : List Rule) → All P target → All P rs → All P (union_rules target rs)
  unfolding union_rules
  union_rules-All target [] h k = h
  union_rules-All target (r ∷ rs) h k =
      union_rules-All (if any (λ s. same_rule s r) target then target else target ++ r ∷ []) rs
        (if-both (All P) (any (λ s. same_rule s r) target) target (target ++ r ∷ []) h
          (All-append P target (r ∷ []) h (k.0, tt)))
        k.1

  -- Every rule of the group satisfies P.
  abbrev pub GroupHas : Group → Type 0
  GroupHas g = All (λ e. All P e.rules) g.endpoints

  rules_of-All : (es : List Endpoint) → All (λ e. All P e.rules) es → All P (rules_of es)
  rules_of-All [] h = tt
  rules_of-All (e ∷ es) h = All-append P e.rules (rules_of es) h.0 (rules_of-All es h.1)

  merge_endpoints-All :
      (ts from : List Endpoint)
      → All (λ e. All P e.rules) ts
      → All (λ e. All P e.rules) from
      → All (λ e. All P e.rules) (merge_endpoints ts from)
  unfolding merge_endpoints
  merge_endpoints-All [] from h k = tt
  merge_endpoints-All (t ∷ ts) from h k =
      (union_rules-All t.rules (rules_of from) h.0 (rules_of-All from k), h.1)

  merge_group-All :
      (key : String) (g : Group) (merged : List (String × Group))
      → GroupHas g
      → All (λ e. GroupHas e.1) merged
      → All (λ e. GroupHas e.1) (merge_group key g merged)
  unfolding merge_group
  merge_group-All key g merged h k = elim (Option-cases (get key merged)) [
    | inl e ↦ rw (e, merge_group) (put-All (λ k g. GroupHas g) key g merged k h)
    | inr (t, e) ↦
        rw (e, merge_group)
          (put-All (λ k g. GroupHas g) key _ merged k
            (merge_endpoints-All t.endpoints g.endpoints
              (get-All (λ k g. GroupHas g) key t merged k e) h))
  ]

  merge_groups-All :
      (l : List (String × Network)) (merged : List (String × Group))
      → All (λ e. GroupHas e.1.group) l
      → All (λ e. GroupHas e.1) merged
      → All (λ e. GroupHas e.1) (merge_groups l merged)
  unfolding merge_groups
  merge_groups-All [] merged h k = k
  merge_groups-All ((key, n) ∷ l) merged h k =
      merge_groups-All l (merge_group key n.group merged) h.1
        (merge_group-All key n.group merged h.0 k)

  merge_from-All :
      (fs : List (List (String × Network))) (merged : List (String × Group))
      → All (λ f. All (λ e. GroupHas e.1.group) f) fs
      → All (λ e. GroupHas e.1) merged
      → All (λ e. GroupHas e.1) (merge_fragments fs merged)
  unfolding merge_fragments
  merge_from-All [] merged h k = k
  merge_from-All (f ∷ fs) merged h k =
      merge_from-All fs (merge_groups f merged) h.1 (merge_groups-All f merged h.0 k)

  -- The merge of compiled policies grants no rule that none of them has: what holds of every rule of
  -- the fragments holds of every rule of the merge.
  pub merge_fragments-All :
      (fs : List (List (String × Network)))
      → All (λ f. All (λ e. GroupHas e.1.group) f) fs
      → All (λ e. GroupHas e.1) (merge_fragments fs [])
  merge_fragments-All fs h = merge_from-All fs [] h tt
