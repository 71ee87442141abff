-- ===== src/Policy/Simulated.antt =====
-- `createSimulatedPolicy` of src/policy/envelope.js: the policy port over the envelope in process.
pub mod Closes
use nvidia_omoda.Prelude.{
  ℕ, zero, suc, ◌+◌, ◌/◌, ◌%◌, String, Bool, true, false, Option, none, some, List, [], ◌∷◌, ◌≡◌,
  ◌==◌, refl, get_or, if◌then◌else◌, ltb, eqb,
}
use Prim.Native.String
use nvidia_omoda.Prelude.Print.{print_number}
use nvidia_omoda.Prelude.Dict.{get, put, del}
use nvidia_omoda.Domain.Action.{Action, Request}
use nvidia_omoda.Broker.Decision.{Decision}
use nvidia_omoda.Policy.Envelope.{Envelope, apply_delta, revert_delta}
use nvidia_omoda.Policy.Port.{Port, Reply, returned, threw}

unfoldable pub delta_id : ℕ → String
unfolding print_number
delta_id n = String.◌++◌ "delta-" (print_number (n + 1) n)

pub record Simulated : Type 0 where
  pub envelope : Envelope
  pub counter : ℕ
  pub applied : List (String × String)

unfoldable pub apply_simulated : Simulated → Action → Decision → Reply × Simulated
unfolding apply_delta delta_id
apply_simulated s a d =
    let id = delta_id (s.counter + 1) in
    let counted : Simulated = record s { counter = s.counter + 1 } in
    let noted : Simulated = record counted { applied = put (get_or a.action_id id) id s.applied } in
    elim a.request [
      | none ↦ (threw "cannot destructure the request", counted)
      | some req ↦ elim (apply_delta s.envelope id req) [
        | none ↦ (threw (String.◌++◌ "cannot widen an unknown host " req.host), noted)
        | some v ↦ (returned, record noted { envelope = v })
      ]
    ]

unfoldable pub revert_simulated : Simulated → Action → Decision → Reply × Simulated
unfolding revert_delta delta_id
revert_simulated s a d =
    let key = get_or a.action_id "" in
    let id = get_or (get key s.applied) (delta_id s.counter) in
    (returned, record s { applied = del key s.applied; envelope = revert_delta s.envelope id })

abbrev pub simulated_port : Port Simulated
simulated_port = record { apply = apply_simulated; revert = revert_simulated }
