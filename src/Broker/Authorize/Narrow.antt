-- ===== src/Broker/Authorize/Narrow.antt =====
-- `authorize` of src/broker/authorize.js over the policy of `createSimulatedPolicy`.
use nvidia_omoda.Prelude.{ℕ, Option, ◌≡◌, sym, subst}
use nvidia_omoda.Domain.Action.{Action}
use nvidia_omoda.Policy.Port.{Restores}
use nvidia_omoda.Policy.Simulated.{Simulated, simulated_port}
use nvidia_omoda.Policy.Simulated.Closes.{IsReady, simulated-Restores}
use nvidia_omoda.Broker.Decision.{Decision}
use nvidia_omoda.Broker.World.{World, Env}
use nvidia_omoda.Broker.Authorize.{authorize}
use nvidia_omoda.Broker.Authorize.Closing.{authorize-grants}

-- Over the simulated policy, if its next delta id is not in use and, for an action without an id, no
-- delta is noted under the empty id, then authorizing an action leaves the envelope as it was.
pub authorize_simulated :
    (env : Env Simulated) (a : Action) (d : Option Decision) (now : ℕ) (w : World Simulated)
    → env.port ≡ simulated_port
    → IsReady w.policy a
    → (authorize env a d now w).1.policy.envelope ≡ w.policy.envelope
authorize_simulated env a d now w e ready =
    authorize-grants env a (λ s. s.envelope) IsReady
      (subst (λ p. Restores p (λ s. s.envelope) IsReady) (sym e) simulated-Restores) d now w ready
