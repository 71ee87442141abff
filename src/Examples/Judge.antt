-- ===== src/Examples/Judge.antt =====
-- The judge of src/coco/judge.js at concrete observations.
use nvidia_omoda.Prelude.{
  ℕ, ◌<◌, String, Bool, true, false, Option, none, some, List, [], ◌∷◌, ◌≡◌, refl, All, arith,
}
use nvidia_omoda.Json.{undef}
use nvidia_omoda.Ledger.{synced, genesis}
use nvidia_omoda.Api.Intents.{no_intents}
use nvidia_omoda.Coco.Signals.{Observation, listed}
use nvidia_omoda.Coco.World.{Judgement, World, Env, broke, of_camera}
use nvidia_omoda.Coco.Judge.{all_signals}
use nvidia_omoda.Coco.Incidents.{conclude}
use nvidia_omoda.Coco.Adapter.{Frame, Adapter, no_json, seen, context_for}
use nvidia_omoda.Coco.Adapter.Recent.{receive, last, sightings, context_is_last}
use nvidia_omoda.Coco.Judge.Open.{observe_all, quiet_clears}
use nvidia_omoda.Coco.Judge.Sound.{Event, observed, heard, run, new_judge, IsSound, run-IsSound}
use nvidia_omoda.Coco.Judge.Once.{judged_once}

abbrev env : Env
env = record {
  sha256 = λ l. "0123";
  print = λ l. "scene";
  parse = λ l. none;
  time = "t0";
  disk = synced;
  random_id = "int-1";
  local_available = true;
  triggers = none;
}

abbrev empty_street : Observation
empty_street = record {
  observation_id = "o-1";
  camera_id = "cam-1";
  contacts = [];
  changes = listed [];
  vehicles = [];
  signs = [];
  pedestrians = [];
  occupied_by_objects = [];
  intersection_condition = none;
  traffic_flow_state = none;
  road_damage = false;
  pothole = false;
  damaged_surface = false;
  flooding = false;
  danger_signal = false;
  scene_description = none;
  confidence = undef;
  captured_at = undef;
  evidence_ref = undef;
}

abbrev contact : Observation
contact = record empty_street { contacts = true ∷ [] }

abbrev start : World
start = record {
  judge = new_judge;
  intents = no_intents;
  ledger = record { broken = false; seq = 0; prev_hash = genesis; memory = []; file = [] };
}

-- An accident is seen, another frame comes while the model is asked, and the model does not answer.
abbrev events : List Event
events = observed env contact ∷ observed env contact ∷ heard env (broke "timeout") ∷ []

run-IsSound_example : IsSound 3 (run 3 events start).judge
run-IsSound_example = run-IsSound 3 events start (omega arith) refl

abbrev accident : Judgement
accident = record {
  is_incident = true;
  incident_type = "traffic-accident";
  severity = "high";
  reason = "two cars touch";
  degraded = false;
}

judged_once_example :
    (conclude env contact [] none accident
      (conclude env contact [] none accident start).1).1.intents
    ≡ (conclude env contact [] none accident start).1.intents
judged_once_example =
    judged_once env env contact contact [] [] none none accident accident start refl refl refl

abbrev open_world : World
open_world = record start {
  judge = record new_judge {
    open_incidents =
        ("cam-1|fire", record { intent_id = "int-1"; occurrences = 1; quiet_streak = 1 }) ∷ [];
  };
}

nothing_there : all_signals env empty_street ≡ []
unfolding nvidia_omoda.Coco.Signals.candidate_signals nvidia_omoda.Prelude.Search.find_first
nothing_there = refl

quiet_clears_example :
    All
      (λ e. of_camera "cam-1" e.0 ≡ false)
      (observe_all 2
        ((env, empty_street) ∷ (env, empty_street) ∷ [])
        open_world).judge.open_incidents
quiet_clears_example =
    quiet_clears 2 "cam-1" ((env, empty_street) ∷ (env, empty_street) ∷ []) open_world
      ((refl, nothing_there), ((refl, nothing_there), tt)) (omega arith) ((λ own. omega arith), tt)

abbrev frames : List (Env × Frame)
frames =
    (env, seen empty_street)
    ∷ (env, no_json)
    ∷ (env, seen (record empty_street { camera_id = "cam-2" }))
    ∷ (env, seen contact)
    ∷ (env, seen empty_street)
    ∷ []

abbrev adapter : Adapter
adapter = record { contexts = []; world = start }

context_is_last_example :
    context_for "cam-1" (receive 2 3 frames adapter) ≡ last 2 (sightings "cam-1" frames)
context_is_last_example = context_is_last 2 3 "cam-1" frames adapter refl
