-- ===== src/Policy/Port.antt =====
-- The policy port of src/broker/authorize.js: what the Broker asks of whoever enforces the policy.
use nvidia_omoda.Prelude.{String, ◌≡◌}
use nvidia_omoda.Domain.Action.{Action}
use nvidia_omoda.Broker.Decision.{Decision}

-- A call returned, `applyDelta` with a delta that is not empty (as both ports of src/policy give it), or threw an
-- error with this message.
pub data Reply : Type 0 where
  returned : Reply
  threw : String → Reply

pub record Port (S : Type 0) : Type 0 where
  pub apply : S → Action → Decision → Reply × S
  pub revert : S → Action → Decision → Reply × S

-- What the Broker relies on: a delta that was applied can be reverted, and then the policy grants
-- what it granted before. `grants` is the part of the state that decides requests.
pub record Restores {S : Type 0} (port : Port S) {V : Type 0} (grants : S → V)
    (Good : S → Action → Type 0) : Type 0 where
  pub restores :
      (s : S) (a : Action) (d : Decision)
      → Good s a
      → (port.apply s a d).0 ≡ returned
      → ((port.revert (port.apply s a d).1 a d).0 ≡ returned)
        × (grants (port.revert (port.apply s a d).1 a d).1 ≡ grants s)
  pub unchanged :
      (s : S) (a : Action) (d : Decision) (m : String)
      → (port.apply s a d).0 ≡ threw m
      → grants (port.apply s a d).1 ≡ grants s
