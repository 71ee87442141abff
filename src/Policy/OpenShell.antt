-- ===== src/Policy/OpenShell.antt =====
-- src/policy/openshell.js: the policy port over the policy that is live on the box. The command line
-- tools are parameters over a state W of the box: `read_live` answers with the policy's groups or an
-- error, `write_live` with an error or none.
pub mod Closed
use nvidia_omoda.Prelude.{
  ℕ, suc, ◌+◌, String, Bool, true, false, not, ◌&&◌, ◌||◌, Option, none, some, List, [], ◌∷◌, ◌==◌,
  if◌then◌else◌, get_or, map, keep, leb,
}
use Prim.Native.String
use nvidia_omoda.Prelude.Dict.{get, put, del}
use nvidia_omoda.Domain.Action.{Action, Request}
use nvidia_omoda.Broker.Decision.{Decision}
use nvidia_omoda.Policy.Envelope.{
  Rule, Endpoint, Group, Envelope, Answer, allowed, check, endpoints_for, push_rule, clean_group,
}
use nvidia_omoda.Policy.Port.{Reply, returned, threw}

pub data Read : Type 0 where
  live : List Group → Read
  failed : String → Read

-- An open delta.
pub record Delta : Type 0 where
  pub id : String
  pub request : Request
  pub expires_at : ℕ
  pub decision_id : Option String

-- The open deltas by action id; an action without an id is kept under the text of `undefined`.
abbrev pub Open : Type 0
Open = List (String × Delta)

abbrev pub key_of : Option String → String
key_of action_id = get_or action_id "undefined"

abbrev pub delta_name : Option String → String
delta_name action_id = String.◌++◌ "omoda-delta-" (key_of action_id)

-- The request with its three parts, if none is missing or empty.
abbrev pub full_request : Option Request → Option Request
full_request none = none
full_request (some q) =
    if (q.host == "") || ((q.method == "") || (q.path == "")) then none else some q

-- The first endpoint of the host.
unfoldable pub endpoint_for : List Group → String → Option Endpoint
unfolding endpoints_for
endpoint_for gs host = elim (endpoints_for host gs) [ [] ↦ none | e ∷ es ↦ some e ]

-- Whether a delta may be added for the request; the error if not.
unfoldable pub widen_error : List Group → Request → Option String
unfolding endpoint_for
widen_error gs q = elim (endpoint_for gs q.host) [
  | none ↦ some (String.◌++◌ "refusing to widen an undeclared host: " q.host)
  | some e ↦
      if e.protocol == "rest"
      then none
      else some (
          String.◌++◌ "endpoint "
            (String.◌++◌ q.host " is not protocol:rest; a scoped delta cannot be enforced"))
]

-- The live policy with one more rule.
unfoldable pub widened : List Group → String → Request → List Group
unfolding push_rule
widened gs id q =
    get_or (push_rule q.host (record { method = q.method; path = q.path; delta = some id }) gs) gs

module _ {W : Type 0} (read_live : W → Read × W) (write_live : List Group → W → Option String × W)
    (dry_run : Bool) (ttl : ℕ) where
  -- `writePolicy`.
  unfoldable pub write_policy : List Group → W → Option String × W
  write_policy gs w = if dry_run then (none, w) else write_live gs w

  -- `check`: the live policy is read and the request evaluated against it.
  unfoldable pub check_live : Request → W → Option Answer × W
  unfolding check
  check_live q w =
      let (answer, w') = read_live w in
      elim answer [
        | failed m ↦ (none, w')
        | live gs ↦ (check (record { policies = gs; deltas = [] }) q, w')
      ]

  unfoldable pub apply_read :
      Option String → Option String → Request → ℕ → List Group → Open → W → Reply × Open × W
  unfolding widen_error widened write_policy put
  apply_read action_id decision_id q now gs open_deltas w = elim (widen_error gs q) [
    | some m ↦ (threw m, open_deltas, w)
    | none ↦
        let (error, w') = write_policy (widened gs (delta_name action_id) q) w in
        elim error [
          | some m ↦ (threw m, open_deltas, w')
          | none ↦ (
            returned,
            put (key_of action_id)
                (record {
                  id = delta_name action_id;
                  request = q;
                  expires_at = now + ttl;
                  decision_id = decision_id;
                })
                open_deltas,
            w',
          )
        ]
  ]

  -- `applyDelta`.
  unfoldable pub apply_delta : Action → Option Decision → ℕ → Open → W → Reply × Open × W
  unfolding apply_read
  apply_delta a d now open_deltas w = elim (full_request a.request) [
    | none ↦ (threw "applyDelta needs action.request {host, method, path}", open_deltas, w)
    | some q ↦
        let (answer, w') = read_live w in
        elim answer [
          | failed m ↦ (threw m, open_deltas, w')
          | live gs ↦
              apply_read a.action_id (elim d [ none ↦ none | some c ↦ some c.decision_id ]) q now gs
                open_deltas w'
        ]
  ]

  -- The check after the rule is gone: a request that is still allowed is an error. The text of the error
  -- of a failed read is not kept.
  unfoldable pub verify_gone : Delta → Open → W → Reply × Open × W
  unfolding check_live
  verify_gone d open_deltas w =
      if dry_run
      then (returned, open_deltas, w)
      else let (answer, w') = check_live d.request w in
        elim answer [
          | none ↦ (threw "the live policy could not be checked", open_deltas, w')
          | some a ↦
              if allowed a
              then (
                threw (
                    String.◌++◌ "delta "
                      (String.◌++◌ d.id " still grants its request after revert")),
                open_deltas,
                w',
              )
              else (returned, open_deltas, w')
        ]

  unfoldable pub revert_read : String → Delta → List Group → Open → W → Reply × Open × W
  unfolding write_policy verify_gone del
  revert_read key d gs open_deltas w =
      let (error, w') = write_policy (map (clean_group d.id) gs) w in
      elim error [
        | some m ↦ (threw m, open_deltas, w')
        | none ↦ verify_gone d (del key open_deltas) w'
      ]

  -- `revertDelta`, by the key of the action.
  unfoldable pub revert_key : String → Open → W → Reply × Open × W
  unfolding get revert_read
  revert_key key open_deltas w = elim (get key open_deltas) [
    | none ↦ (returned, open_deltas, w)
    | some d ↦
        let (answer, w') = read_live w in
        elim answer [
          | failed m ↦ (threw m, open_deltas, w')
          | live gs ↦ revert_read key d gs open_deltas w'
        ]
  ]

  -- The loop of `revertAll` and of `expireStale`: an error stops it.
  unfoldable pub revert_keys : List String → Open → W → Reply × Open × W
  unfolding revert_key
  revert_keys [] open_deltas w = (returned, open_deltas, w)
  revert_keys (k ∷ ks) open_deltas w =
      let (reply, open', w') = revert_key k open_deltas w in
      let rest = revert_keys ks open' w' in
      elim reply [ threw m ↦ (threw m, open', w') | returned ↦ rest ]

  abbrev pub keys : Open → List String
  keys [] = []
  keys ((k, d) ∷ l) = k ∷ keys l

  -- `revertAll`, and `expireStale` at a time.
  abbrev pub revert_all : Open → W → Reply × Open × W
  revert_all open_deltas w = revert_keys (keys open_deltas) open_deltas w

  abbrev pub expire_stale : ℕ → Open → W → Reply × Open × W
  expire_stale now open_deltas w =
      revert_keys (keys (keep (λ e. leb e.1.expires_at now) open_deltas)) open_deltas w
