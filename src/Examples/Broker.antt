-- ===== src/Examples/Broker.antt =====
-- The Broker of src/broker at a concrete payment.
use nvidia_omoda.Prelude.{
  ℕ, String, true, false, none, some, List, [], ◌∷◌, ◌≡◌, ◌≢◌, refl, ◌⊎◌, inl, ◌↔◌, arith, eq_iff,
}
use nvidia_omoda.Prelude.Dict.{get, put, del}
use nvidia_omoda.Json.{undef, null}
use nvidia_omoda.Domain.Taxonomy.{create, financial}
use nvidia_omoda.Domain.Action.{Action}
use nvidia_omoda.Ledger.{synced, genesis, append}
use nvidia_omoda.Ledger.Chain.{IsSound}
use nvidia_omoda.Policy.Port.{Reply, returned}
use nvidia_omoda.Policy.Envelope.{Envelope, apply_delta, revert_delta}
use nvidia_omoda.Policy.Simulated.{Simulated, apply_simulated, revert_simulated, simulated_port}
use nvidia_omoda.Policy.Simulated.Closes.{IsReady, simulated-Restores}
use nvidia_omoda.Broker.Decision.{Decision, blank, verify_decision}
use nvidia_omoda.Broker.Decision.Accepts.{Unlocks, verify_decision_iff}
use nvidia_omoda.Broker.Undo.{Store, already_run, run}
use nvidia_omoda.Broker.Undo.Once.{undoing, registering, step, steps, undo_once, HasRun}
use nvidia_omoda.Broker.World.{ran, opened, closed, World, Env, note}
use nvidia_omoda.Broker.World.Writes.{effects}
use nvidia_omoda.Broker.Authorize.{authorize}
use nvidia_omoda.Broker.Authorize.Safety.{Grounds, authorize-Lawful}
use nvidia_omoda.Broker.Authorize.Effects.{Journal, authorize-Journal}
use nvidia_omoda.Broker.Authorize.Closing.{authorize-IsSound, authorize-grants}
use nvidia_omoda.Broker.Authorize.Narrow.{authorize_simulated}

abbrev digest : List ℕ → String
digest s = "0123456789abcdef"

abbrev bank : Envelope
bank = record {
  policies =
      record {
        key = "bank_example";
        endpoints =
            record {
              host = "bank.example";
              protocol = "rest";
              rules = record { method = "GET"; path = "/pay"; delta = none } ∷ [];
            }
            ∷ [];
      }
      ∷ [];
  deltas = [];
}

abbrev env : Env Simulated
env = record {
  sha256 = digest;
  disk = λ n. synced;
  stamp = λ n. "2026-01-01";
  port = simulated_port;
  execute = λ a. returned;
  hf_home = "/models";
}

abbrev world : World Simulated
world = record {
  ledger = record { broken = false; seq = 0; prev_hash = genesis; memory = []; file = [] };
  policy = record { envelope = bank; counter = 0; applied = [] };
  undo = [];
  writes = 0;
  trace = [];
}

abbrev pay : Action
pay = record {
  tool = some "bank.pay";
  verb = create;
  impact = some (financial ∷ []);
  declared = true;
  action_id = some "act-1";
  intent_id = some "int-1";
  resource = none;
  agent = some "worker";
  port = undef;
  path = undef;
  args = none;
  policy_delta = null;
  inverse = none;
  request = some (record { host = "bank.example"; method = "POST"; path = "/pay" });
}

abbrev yes_from_alice : Decision
yes_from_alice = record {
  decision_id = "dec-1";
  action_id = some "act-1";
  verdict = some "approve";
  reason = some "invoice checked";
  decided_by = some "alice";
  proposed_by = some "worker";
  scopes = some ("intent:decide" ∷ []);
  spent = false;
  settled = some true;
  quorum = none;
  expires_at = some 120000;
}

ready : IsReady world.policy pay
unfolding get
ready = ((((refl, tt), tt), tt), refl, λ e. refl)

world-IsSound : IsSound digest world.ledger
world-IsSound = record { chained = tt; latest = refl; counted = refl; numbered = tt }

authorize-Lawful_example :
    Grounds env pay (some yes_from_alice) 5 world
    ⊎ (effects (authorize env pay (some yes_from_alice) 5 world).1.trace ≡ effects world.trace)
authorize-Lawful_example = authorize-Lawful env pay (some yes_from_alice) 5 world

authorize-Journal_example : Journal env pay world (authorize env pay (some yes_from_alice) 5 world)
authorize-Journal_example = authorize-Journal env pay (some yes_from_alice) 5 world

authorize-IsSound_example :
    IsSound digest (authorize env pay (some yes_from_alice) 5 world).1.ledger
authorize-IsSound_example = authorize-IsSound env pay (some yes_from_alice) 5 world world-IsSound

authorize-grants_example :
    (authorize env pay (some yes_from_alice) 5 world).1.policy.envelope ≡ bank
authorize-grants_example =
    authorize-grants env pay (λ s. s.envelope) IsReady simulated-Restores (some yes_from_alice) 5
      world ready

authorize_simulated_example :
    (authorize env pay (some yes_from_alice) 5 world).1.policy.envelope ≡ bank
authorize_simulated_example = authorize_simulated env pay (some yes_from_alice) 5 world refl ready

verify_decision_iff_example :
    (verify_decision (some yes_from_alice) (some "act-1") 5 ≡ none)
    ↔ Unlocks yes_from_alice (some "act-1") 5
verify_decision_iff_example = verify_decision_iff yes_from_alice (some "act-1") 5

-- The payment goes through: the delta is opened, the action runs once, the delta is closed.
paid :
    effects (authorize env pay (some yes_from_alice) 5 world).1.trace
    ≡ opened ∷ ran pay ∷ closed ∷ []
unfolding authorize note apply_delta revert_delta get put del verify_decision append blank
    apply_simulated revert_simulated
paid = refl

-- One decision, used for two payments: both go through.
paid_twice :
    effects
      (authorize env pay
        (some yes_from_alice)
        6
        (authorize env pay (some yes_from_alice) 5 world).1).1.trace
    ≡ opened ∷ ran pay ∷ closed ∷ opened ∷ ran pay ∷ closed ∷ []
unfolding authorize note apply_delta revert_delta get put del verify_decision append blank
    apply_simulated revert_simulated
paid_twice = refl

abbrev other_token : String
other_token = "tok-2"

abbrev token : String
token = "tok-1"

abbrev replay : Action → String → Reply
replay a i = returned

abbrev registry : Store
registry = (token, record { action = pay; inverse = "refund"; replays = true; spent = false }) ∷ []

reversal_runs :
    HasRun digest replay (run digest replay token "alice" "t1" synced registry world.ledger).0
unfolding run get
reversal_runs = inl refl

others : other_token ≢ token
others e = ground (arith, eq_iff other_token token, e)

undo_once_example :
    let mid =
      steps digest
        (registering other_token pay "refund" true ∷ [])
        (step digest (undoing replay token "alice" "t1" synced) (registry, world.ledger)) in
    run digest replay token "bob" "t2" synced mid.0 mid.1 ≡ (already_run, mid.0, mid.1)
undo_once_example =
    undo_once digest token replay replay "alice" "t1" "bob" "t2" synced synced registry world.ledger
      (registering other_token pay "refund" true ∷ []) reversal_runs (others, tt)
