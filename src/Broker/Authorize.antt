-- ===== src/Broker/Authorize.antt =====
-- `authorize` of src/broker/authorize.js: prohibited, then undeclared, then the ledger, then the
-- dispatch on the tier. A thrown error is an outcome too.
pub mod Cases
pub mod Effects
pub mod Safety
pub mod Closing
pub mod Narrow
use nvidia_omoda.Prelude.{
  ℕ, suc, ◌+◌, String, Bool, true, false, not, ◌&&◌, Option, none, some, List, [], ◌∷◌, ◌++◌,
  get_or, is_some, ◌==◌, if◌then◌else◌,
}
use Prim.Native.String
use nvidia_omoda.Prelude.Rx.{clip}
use nvidia_omoda.Json.{Value, Fields, str, num, or_null, undef, prop}
use nvidia_omoda.Domain.Taxonomy.{
  Tier, safe, contained, consequential, undeclared, prohibited, classify, requires_inverse,
}
use nvidia_omoda.Domain.Action.{Action}
use nvidia_omoda.Domain.Prohibited.{
  Rule, prohibited_reason, shared_service_port, port_outside_block, model_cache, shared_path,
  credential_exfiltration, policy_weakening, inference_host_direct, gateway_self_protection,
  no_mass_broadcast, no_grid_blackout, no_biometric_surveillance, no_surveillance_public_release,
  force_push_shared_ref, delete_foreign_branch,
}
use nvidia_omoda.Ledger.{Record, Ledger, Appended, done, write_error}
use nvidia_omoda.Policy.Port.{Port, Reply, returned, threw}
use nvidia_omoda.Prelude.Print.{print_number}
use nvidia_omoda.Broker.Decision.{
  Quorum, Decision, Denial, verify_decision, no_decision, not_approve, other_action, replay,
  not_settled, expired, self_approval, no_scope, no_reason,
}
use nvidia_omoda.Broker.Undo.{Store, register}
use nvidia_omoda.Broker.World.{
  Event, logged, ran, opened, closed, stuck, World, Env, entry_of, log, write, note,
}

pub data Reason : Type 0 where
  rule : Rule → Reason
  not_in_manifest unknown_verb not_reversible : Reason
  unlogged : String → Reason
  denial : Denial → Reason

pub data Outcome : Type 0 where
  refused : Tier → Reason → Outcome
  escalated : Record → Outcome
  executed : Tier → String → Record → Option String → Outcome
  failed : String → Outcome

abbrev pub rule_name : Rule → String
rule_name shared_service_port = "shared-service-port"
rule_name port_outside_block = "port-outside-block"
rule_name model_cache = "model-cache"
rule_name shared_path = "shared-path"
rule_name credential_exfiltration = "credential-exfiltration"
rule_name policy_weakening = "policy-weakening"
rule_name inference_host_direct = "inference-host-direct"
rule_name gateway_self_protection = "gateway-self-protection"
rule_name no_mass_broadcast = "no-mass-broadcast"
rule_name no_grid_blackout = "no-grid-blackout"
rule_name no_biometric_surveillance = "no-biometric-surveillance"
rule_name no_surveillance_public_release = "no-surveillance-public-release"
rule_name force_push_shared_ref = "force-push-shared-ref"
rule_name delete_foreign_branch = "delete-foreign-branch"

abbrev pub quorum_detail : Option Quorum → String
quorum_detail none = ""
quorum_detail (some q) = String.◌++◌ " (" (
    String.◌++◌ (print_number (q.have + 1) q.have)
      (String.◌++◌ "/" (String.◌++◌ (print_number (q.needed + 1) q.needed) " approvers)")))

-- The reason that `verifyDecision` gives.
unfoldable pub denial_text : Decision → Denial → String
unfolding print_number
denial_text d no_decision = "no decision recorded for this action"
denial_text d not_approve =
    String.◌++◌ "decision verdict is " (String.◌++◌ (get_or d.verdict "undefined") ", not approve")
denial_text d other_action = "decision is bound to a different action (mismatch)"
denial_text d replay = "decision already spent, replay refused"
denial_text d not_settled = String.◌++◌ "decision awaits a second approver" (quorum_detail d.quorum)
denial_text d expired = "decision expired"
denial_text d self_approval = "separation of duties: proposer cannot be the decider (self-approval)"
denial_text d no_scope = "decider lacks intent:decide scope"
denial_text d no_reason = "decision requires a reason"

-- `value ?? undefined` of an optional text.
abbrev pub or_undef : Option String → Value
or_undef none = undef
or_undef (some s) = str s

abbrev pub decision_authority : Decision → String
decision_authority d = String.◌++◌ "decision:" d.decision_id

-- The token that the operator sees: the head of the hash, if there is an inverse.
unfoldable pub undo_token : Action → Record → Option String
unfolding clip
undo_token a entry = elim a.inverse [ none ↦ none | some i ↦ some (clip 12 entry.hash) ]

module _ {S : Type 0} (env : Env S) (a : Action) where
  abbrev pub entry : Tier → String → String → List (String × Value) → Fields
  entry = entry_of env.sha256 a

  abbrev pub of_seq : Record → String × Value
  of_seq r = ("ofSeq", prop "seq" r.body)

  -- `ctx.undo?.register(...)`, with a replay given.
  unfoldable pub remember : Record → World S → World S
  unfolding register undo_token
  remember r w = elim a.inverse [
    | none ↦ w
    | some i ↦ record w { undo = register (clip 12 r.hash) a i true w.undo }
  ]

  -- `await execute(action)`.
  abbrev pub run_action : World S → World S
  run_action w = log env (ran a) w

  unfoldable pub run_safe : Record → World S → Outcome × World S
  run_safe r w = elim (env.execute a) [
    | threw m ↦ (failed m, run_action w)
    | returned ↦ (
      executed safe "envelope" r none,
      note env (entry safe "envelope" "executed" (of_seq r ∷ [])) (run_action w),
    )
  ]

  abbrev pub lacks_inverse : Bool
  lacks_inverse = requires_inverse a.verb && not (is_some a.inverse)

  unfoldable pub run_contained : Record → World S → Outcome × World S
  unfolding remember undo_token
  run_contained r w =
      if lacks_inverse then (refused contained not_reversible, w) else elim (env.execute a) [
        | threw m ↦ (failed m, run_action w)
        | returned ↦ (
          executed contained "envelope" r (undo_token a r),
          remember r
              (note env (entry contained "envelope" "executed" (of_seq r ∷ [])) (run_action w)),
        )
      ]

  -- The `finally` block: a revert that throws is recorded and replaces the outcome.
  unfoldable pub close_delta : Decision → Outcome × World S → Outcome × World S
  close_delta d (out, w) =
      let (reply, policy) = env.port.revert w.policy a d in
      let tried : World S = record w { policy = policy } in
      elim reply [
        | returned ↦ (out, log env closed tried)
        | threw m ↦ (
          failed (String.◌++◌ "HALT: policy delta revert failed, capability may remain open: " m),
          note env (entry consequential "incident" "revert-failed" (("reason", str m) ∷ []))
              (log env stuck tried),
        )
      ]

  -- The body of the `try` once the delta is open.
  unfoldable pub run_decided : Decision → Record → World S → Outcome × World S
  unfolding remember undo_token
  run_decided d r w = elim (env.execute a) [
    | threw m ↦ (failed m, run_action w)
    | returned ↦ (
      executed consequential (decision_authority d) r (undo_token a r),
      remember r (
          note env
            (entry consequential (decision_authority d) "executed"
              (of_seq r ∷ ("decidedBy", or_undef d.decided_by) ∷ []))
            (run_action w)),
    )
  ]

  -- A port that applies a delta gives it back, as both ports of src/policy do: `if (delta)` holds then.
  unfoldable pub materialize : Decision → Record → World S → Outcome × World S
  unfolding close_delta run_decided
  materialize d r w =
      let (reply, policy) = env.port.apply w.policy a d in
      let tried : World S = record w { policy = policy } in
      elim reply [
        | threw m ↦ (failed m, tried)
        | returned ↦ close_delta d (run_decided d r (log env opened tried))
      ]

  unfoldable pub run_consequential : Option Decision → ℕ → Record → World S → Outcome × World S
  unfolding materialize verify_decision denial_text
  run_consequential none now r w = (escalated r, w)
  run_consequential (some d) now r w = elim (verify_decision (some d) a.action_id now) [
    | some why ↦ (
      refused consequential (denial why),
      note env (entry consequential "denied" "refused" (("reason", str (denial_text d why)) ∷ []))
          w,
    )
    | none ↦ if lacks_inverse then (refused consequential not_reversible, w) else materialize d r w
  ]

  unfoldable pub dispatch : Tier → Option Decision → ℕ → Record → World S → Outcome × World S
  unfolding run_safe run_contained run_consequential
  dispatch safe d now r w = run_safe r w
  dispatch contained d now r w = run_contained r w
  dispatch _ d now r w = run_consequential d now r w

  -- The required record: no action without it.
  unfoldable pub admit : Tier → Option Decision → ℕ → World S → Outcome × World S
  unfolding dispatch
  admit tier d now w =
      let (answer, w') = write env (entry tier "pending" "admitted" []) w in
      elim answer [
        | write_error m ↦ (refused tier (unlogged m), w')
        | done r ↦ dispatch tier d now r w'
      ]

  unfoldable pub govern : Tier → Option Decision → ℕ → World S → Outcome × World S
  unfolding admit
  govern undeclared d now w =
      (refused undeclared unknown_verb, note env (entry undeclared "denied" "refused" []) w)
  govern tier d now w = admit tier d now w

  unfoldable pub authorize : Option Decision → ℕ → World S → Outcome × World S
  unfolding govern prohibited_reason classify
  authorize d now w = elim (prohibited_reason env.hf_home a) [
    | some r ↦ (
      refused prohibited (rule r),
      note env (entry prohibited "prohibited" "refused" (("rule", str (rule_name r)) ∷ [])) w,
    )
    | none ↦
        if not a.declared
        then (
          refused undeclared not_in_manifest,
          note env (entry undeclared "denied" "refused" []) w,
        )
        else govern (classify a.verb a.impact true false) d now w
  ]
