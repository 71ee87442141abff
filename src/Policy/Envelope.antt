-- ===== src/Policy/Envelope.antt =====
-- src/policy/envelope.js: the compiled envelope, evaluated request by request, and its deltas. A
-- check is `none` where a pattern in the policy is no valid expression and the source throws.
pub mod Widening
pub mod Narrowing
use nvidia_omoda.Prelude.{
  ℕ, zero, suc, ◌+◌, ◌-◌, String, Bool, true, false, not, ◌&&◌, Option, none, some, List, [], ◌∷◌,
  ◌++◌, map, ◌==◌, if◌then◌else◌, keep, length,
}
use mathlib.Core.Option
use nvidia_omoda.Prelude.Dict.{get, put, del}
use nvidia_omoda.Domain.Action.{Request}
use nvidia_omoda.Policy.Glob.{path_matches}

-- `{ allow: { method, path }, __delta }`.
pub record Rule : Type 0 where
  pub method : String
  pub path : String
  pub delta : Option String

pub record Endpoint : Type 0 where
  pub host : String
  pub protocol : String
  pub rules : List Rule

pub record Group : Type 0 where
  pub key : String
  pub endpoints : List Endpoint

pub record Envelope : Type 0 where
  pub policies : List Group
  pub deltas : List (String × Request)

-- The answer of `check` with its reason.
pub data Answer : Type 0 where
  no_entry absent tunnel : Answer
  by_rule : String → String → Answer

abbrev pub allowed : Answer → Bool
allowed no_entry = false
allowed absent = false
allowed tunnel = true
allowed (by_rule m p) = true

abbrev pub status : Answer → ℕ
status a = if allowed a then 200 else 403

-- The loop over the rules of one endpoint: the first that grants the request.
unfoldable pub match_rules : List Rule → String → String → Option (Option Rule)
match_rules [] method path = some none
match_rules (r ∷ rs) method path = elim (r.method == method) [
  | true ↦ elim (path_matches r.path path) [
    | none ↦ none
    | some true ↦ some (some r)
    | some false ↦ match_rules rs method path
  ]
  | false ↦ match_rules rs method path
]

abbrev pub endpoints_in : String → List Endpoint → List Endpoint
endpoints_in host eps = keep (λ e. e.host == host) eps

unfoldable pub endpoints_for : String → List Group → List Endpoint
endpoints_for host [] = []
endpoints_for host (g ∷ gs) = endpoints_in host g.endpoints ++ endpoints_for host gs

-- The loop over the endpoints of the host.
unfoldable pub check_endpoints : List Endpoint → String → String → Option Answer
unfolding match_rules
check_endpoints [] method path = some absent
check_endpoints (e ∷ es) method path = elim (e.protocol == "rest") [
  | false ↦ some tunnel
  | true ↦ elim (match_rules e.rules method path) [
    | none ↦ none
    | some none ↦ check_endpoints es method path
    | some (some r) ↦ some (by_rule r.method r.path)
  ]
]

unfoldable pub check_found : List Endpoint → String → String → Option Answer
unfolding check_endpoints
check_found [] method path = some no_entry
check_found (e ∷ es) method path = check_endpoints (e ∷ es) method path

unfoldable pub check : Envelope → Request → Option Answer
unfolding check_found endpoints_for
check v req = check_found (endpoints_for req.host v.policies) req.method req.path

-- `eps[0].rules.push(rule)`, on the first endpoint of the host; `none` where there is none.
unfoldable pub push_endpoint : String → Rule → List Endpoint → Option (List Endpoint)
push_endpoint host r [] = none
push_endpoint host r (e ∷ es) =
    if e.host == host
    then some (record e { rules = e.rules ++ r ∷ [] } ∷ es)
    else Option.map (λ l. e ∷ l) (push_endpoint host r es)

unfoldable pub push_rule : String → Rule → List Group → Option (List Group)
unfolding push_endpoint
push_rule host r [] = none
push_rule host r (g ∷ gs) = elim (push_endpoint host r g.endpoints) [
  | none ↦ Option.map (λ l. g ∷ l) (push_rule host r gs)
  | some eps ↦ some (record g { endpoints = eps } ∷ gs)
]

unfoldable pub apply_delta : Envelope → String → Request → Option Envelope
unfolding push_rule
apply_delta v id req =
    elim (push_rule req.host (record { method = req.method; path = req.path; delta = some id })
      v.policies) [
        | none ↦ none
        | some gs ↦ some (record { policies = gs; deltas = put id req v.deltas })
      ]

abbrev pub is_tag : String → Option String → Bool
is_tag id none = false
is_tag id (some t) = t == id

-- `r.__delta !== id`.
abbrev pub not_tagged : String → Rule → Bool
not_tagged id r = not (is_tag id r.delta)

abbrev pub clean_endpoint : String → Endpoint → Endpoint
clean_endpoint id e = record e { rules = keep (not_tagged id) e.rules }

abbrev pub clean_group : String → Group → Group
clean_group id g = record g { endpoints = map (clean_endpoint id) g.endpoints }

unfoldable pub revert_delta : Envelope → String → Envelope
revert_delta v id = record { policies = map (clean_group id) v.policies; deltas = del id v.deltas }

-- How many rules `revertDelta` took away.
unfoldable pub count_tagged : Envelope → String → ℕ
count_tagged v id = count_groups v.policies
  where
    count_endpoints : List Endpoint → ℕ
    count_endpoints [] = 0
    count_endpoints (e ∷ es) =
        (length e.rules - length (keep (not_tagged id) e.rules)) + count_endpoints es

    count_groups : List Group → ℕ
    count_groups [] = 0
    count_groups (g ∷ gs) = count_endpoints g.endpoints + count_groups gs
