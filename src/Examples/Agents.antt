-- ===== src/Examples/Agents.antt =====
-- The planner, the orchestrator, the operator's channel and the knowledge store at concrete inputs.
use nvidia_omoda.Prelude.{ℕ, String, true, false, none, some, List, [], ◌∷◌, ◌≡◌, refl, All, arith}
use nvidia_omoda.Prelude.{map}
use nvidia_omoda.Prelude.Dict.{get}
use nvidia_omoda.Prelude.Rx.{codes}
use nvidia_omoda.Json.{Fields, null, str, field, end, obj}
use nvidia_omoda.Domain.Taxonomy.{update, legal, approval}
use nvidia_omoda.Domain.Action.{Action}
use nvidia_omoda.Ledger.{synced, genesis, Ledger}
use nvidia_omoda.Broker.Decision.{Decision}
use nvidia_omoda.Api.Intents.{
  Caller, Intent, Intents, no_intents, propose, await_consent, new_intent, nullish,
}
use nvidia_omoda.Api.Intents.Decide
use nvidia_omoda.Api.Intents.Decide.{make_decision, recorded}
use nvidia_omoda.Skills.Load.{Row}
use nvidia_omoda.Models.Plan.{Reply, said, threw, plan_action}
use nvidia_omoda.Models.Plan
use nvidia_omoda.Models.Plan.Named.{sensitive_stays}
use nvidia_omoda.Models.Router.{is_sensitive}
use nvidia_omoda.Orchestrator
use nvidia_omoda.Orchestrator.Governed.{Governed, seen, on_intent-Governed}
use nvidia_omoda.Prelude.Split.{free_of}
use nvidia_omoda.Channels.Telegram.{Tap, tapped, decide, parse_update}
use nvidia_omoda.Channels.Telegram.Taps.{Acts, no_colon, parse-callback_data}
use nvidia_omoda.Channels.World.{Env, World}
use nvidia_omoda.Channels.Loop.{handle, act}
use nvidia_omoda.Channels.Vote.{vote_on, ballot_of}
use nvidia_omoda.Channels.Loop.Approved.{RunsSettled, handle-RunsSettled}
use nvidia_omoda.Channels.Loop.Lost.{lost_vote_never_runs}
use nvidia_omoda.Telemetry.Narrate.{plan_for, narrate_response}
use nvidia_omoda.Telemetry.Audit.{handoff_to_audit}
use nvidia_omoda.Telemetry.Awaits.{shown, standing, response_standings}
use nvidia_omoda.Knowledge.{chunk_text}
use nvidia_omoda.Knowledge.Chunks.{Fits, chunk_text-Fits}
use nvidia_omoda.Knowledge.Words.{letters, all_letters, chunk_text-letters}

abbrev dispatch : Row
dispatch = record {
  agent = "fire-agent";
  skill = "fire";
  tool = "dispatch.send";
  verb = update;
  impact = legal ∷ [];
  grant = "local filesystem only";
  consent = some approval;
  inverse_required = true;
  egress = none;
}

abbrev registry : List (String × Row)
registry = ("dispatch.send", dispatch) ∷ []

-- A model that names the tool, whatever it is asked.
abbrev models : nvidia_omoda.Models.Plan.Env
models = record {
  print = λ l. "dispatch.send";
  parse = λ l. some (obj (field "tool" (str "dispatch.send") end));
  local_model = λ system user. said (codes "{}");
  hosted_model = λ system user. said (codes "{}");
  local_available = true;
  hosted_available = true;
}

abbrev worker : Caller
worker = record { id = "worker"; scopes = some ("intent:propose" ∷ []) }

abbrev call_out : Fields
call_out = field "requested_outcome" (str "call /home/arif/ out") end

abbrev intent : Intent
intent = new_intent "int-1" "t0" call_out worker null

abbrev ledger : Ledger
ledger = record { broken = false; seq = 0; prev_hash = genesis; memory = []; file = [] }

abbrev routing : nvidia_omoda.Orchestrator.Env
routing = record {
  models = models;
  context = λ i. "";
  escalate = none;
  sha256 = λ l. "0123";
  time = "t0";
  now = 1;
  disk = synced;
}

abbrev proposed : Intents
proposed = (propose "int-1" "t0" none call_out worker null no_intents).store

on_intent-Governed_example : Governed registry intent proposed (
    seen (
      nvidia_omoda.Orchestrator.on_intent routing registry intent
        (record { intents = proposed; ledger = ledger })))
on_intent-Governed_example =
    on_intent-Governed routing registry intent (record { intents = proposed; ledger = ledger })

is_secret : is_sensitive (nullish intent.requested_outcome (str "")) false ≡ true
unfolding is_sensitive new_intent
is_secret = refl

sensitive_stays_example :
    plan_action (record models { hosted_model = λ system user. threw "down" }) registry intent ""
    ≡ plan_action models registry intent ""
sensitive_stays_example =
    sensitive_stays models registry intent "" (λ system user. threw "down") is_secret

abbrev tap : Tap
tap = record {
  id = "cb-1";
  from = "42";
  payload = "approve:int-1:act-1";
  chat_id = some "7";
  message_id = some "8";
}

abbrev print : List ℕ → String
print l = ""

short_intent : no_colon "int-1" ≡ true
unfolding free_of
short_intent = refl

short_action : no_colon "act-1" ≡ true
unfolding free_of
short_action = refl

acted : Acts (parse_update print ("42" ∷ []) (tapped tap))
unfolding parse_update
acted = tt

parse-callback_data_example :
    parse_update print ("42" ∷ []) (tapped tap) ≡ decide "approve" (some "int-1") (some "act-1") tap
parse-callback_data_example =
    parse-callback_data print ("42" ∷ []) tap "approve" "int-1" "act-1" refl refl short_intent
      short_action refl

abbrev operator : Caller
operator = record { id = "op"; scopes = some ("intent:decide" ∷ []) }

abbrev action : Action
action = nvidia_omoda.Orchestrator.action_of routing intent dispatch "needed"

abbrev env : Env
env = record {
  print = print;
  allowed = "42" ∷ [];
  operator = operator;
  single_operator = true;
  random_id = "dec-1";
  now = 5;
  time = "t1";
  sha256 = λ l. "0123";
  disk = synced;
  lost = λ n. none;
  transform = none;
  revert = none;
  replay = none;
  has_bus = true;
  runs_approved = true;
}

abbrev world : World
world = record {
  intents = proposed;
  ledger = ledger;
  undo = [];
  halted = false;
  offset = 0;
  published = [];
  approved = [];
}

handle-RunsSettled_example :
    RunsSettled env
      (parse_update print ("42" ∷ []) (tapped tap))
      world
      (handle env (tapped tap) world).1.approved
handle-RunsSettled_example = handle-RunsSettled env (tapped tap) world

abbrev unheard : Env
unheard = record env { lost = λ n. some "network down" }

abbrev vote : Decision
vote =
    make_decision "dec-1" 5 (ballot_of unheard "approve" (some "int-1") (some "act-1")) intent true
      1 1

was_taken :
    (vote_on unheard (ballot_of unheard "approve" (some "int-1") (some "act-1")) proposed).0
    ≡ recorded vote
unfolding nvidia_omoda.Api.Intents.Decide.decide propose get
was_taken = refl

lost_vote_never_runs_example :
    let w' = (act unheard (decide "approve" (some "int-1") (some "act-1") tap) world).1 in
    (w'.ledger ≡ world.ledger)
    × ((w'.approved ≡ world.approved)
        × ((act env (decide "approve" (some "int-1") (some "act-1") tap) w').1.approved
            ≡ world.approved))
lost_vote_never_runs_example =
    lost_vote_never_runs unheard env "approve" "approve" (some "int-1") (some "act-1") tap tap world
      "network down" vote refl was_taken refl refl

abbrev page : List ℕ
page = codes "ab\n\ncd"

chunk_text-Fits_example : All (Fits 3) (chunk_text 3 page)
chunk_text-Fits_example = chunk_text-Fits 3 page (omega arith)

chunk_text-letters_example : all_letters (chunk_text 3 page) ≡ letters page
chunk_text-letters_example = chunk_text-letters 3 page

two_chunks : chunk_text 3 page ≡ codes "ab" ∷ codes "cd" ∷ []
unfolding chunk_text
two_chunks = refl

response_standings_example :
    map
      (λ h. standing (handoff_to_audit h))
      (narrate_response (("fire", 1) ∷ []) "fire" (some "fire-agent") "int-1")
    ≡ shown false ∷ map (λ h. shown h.dangerous) (plan_for "fire").chain
response_standings_example =
    response_standings (("fire", 1) ∷ []) "fire" (some "fire-agent") "int-1"
