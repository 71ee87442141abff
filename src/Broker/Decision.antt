-- ===== src/Broker/Decision.antt =====
-- src/broker/decision.js: when a recorded decision unlocks an action.
pub mod Accepts
use nvidia_omoda.Prelude.{
  ℕ, String, Bool, true, false, not, ◌&&◌, Option, none, some, List, ◌==◌, leb, all, includes,
  if◌then◌else◌,
}
use nvidia_omoda.Prelude.Rx.{codes, space}

pub record Quorum : Type 0 where
  pub needed : ℕ
  pub have : ℕ

pub record Decision : Type 0 where
  pub decision_id : String
  pub action_id : Option String
  pub verdict : Option String
  pub reason : Option String
  pub decided_by : Option String
  pub proposed_by : Option String
  pub scopes : Option (List String)
  pub spent : Bool
  pub settled : Option Bool
  pub quorum : Option Quorum
  pub expires_at : Option ℕ

-- Why a decision is turned down.
pub data Denial : Type 0 where
  no_decision not_approve other_action replay not_settled expired self_approval no_scope no_reason :
      Denial

abbrev pub decision_scope : String
decision_scope = "intent:decide"

-- A text that is there and not empty.
abbrev pub truthy_text : Option String → Bool
truthy_text none = false
truthy_text (some s) = not (s == "")

abbrev pub same_text : Option String → Option String → Bool
same_text none none = true
same_text (some s) (some t) = s == t
same_text _ _ = false

-- `!reason || !String(reason).trim()`.
unfoldable pub blank : Option String → Bool
blank none = true
blank (some s) = all space (codes s)

abbrev pub is_past : Option ℕ → ℕ → Bool
is_past none now = false
is_past (some t) now = leb t now

abbrev pub lacks_scope : Option (List String) → Bool
lacks_scope none = false
lacks_scope (some l) = not (includes l decision_scope)

abbrev pub is_unsettled : Option Bool → Bool
is_unsettled (some false) = true
is_unsettled _ = false

-- The checks on a decision that is there; `none` is `{ ok: true }`.
unfoldable pub check_decision : Decision → Option String → ℕ → Option Denial
check_decision d action_id now =
    if not (same_text d.verdict (some "approve"))
    then some not_approve
    else if truthy_text action_id && not (same_text d.action_id action_id)
    then some other_action
    else if d.spent
    then some replay
    else if is_unsettled d.settled
    then some not_settled
    else if is_past d.expires_at now
    then some expired
    else if truthy_text d.decided_by
        && truthy_text d.proposed_by
        && same_text d.decided_by d.proposed_by
    then some self_approval
    else if lacks_scope d.scopes
    then some no_scope
    else if blank d.reason
    then some no_reason
    else none

unfoldable pub verify_decision : Option Decision → Option String → ℕ → Option Denial
unfolding check_decision
verify_decision none action_id now = some no_decision
verify_decision (some d) action_id now = check_decision d action_id now
