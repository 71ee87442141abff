-- ===== src/Coco/Judge.antt =====
-- `createObservationJudge` of src/coco/judge.js. An observation that is put to the model is pending until the
-- answer comes, and other observations may come in between. The model's server constrains its answer to
-- the schema of a judgment.
pub mod Open
pub mod Sound
pub mod Once
use nvidia_omoda.Prelude.{
  ℕ, suc, ◌+◌, String, Bool, true, false, not, ◌&&◌, ◌||◌, Option, none, some, List, [], ◌∷◌, ◌++◌,
  ◌==◌, if◌then◌else◌, includes, get_or, find, is_some, leb,
}
use Prim.Native.String
use nvidia_omoda.Prelude.Dict.{get, put}
use nvidia_omoda.Prelude.Print.{print_number}
use nvidia_omoda.Prelude.Rx.{codes, clip, starts_with}
use nvidia_omoda.Json.{
  Value, Fields, undef, null, bool, str, obj, arr, object, end, prop, truthy, texts,
}
use nvidia_omoda.Ledger.{Ledger, Disk, append}
use nvidia_omoda.Api.Intents.{Intents, propose}
use nvidia_omoda.Api.Stream.{transport_envelope}
use nvidia_omoda.Models.Router.{route, classify, Route, routed, refused, nowhere}
use nvidia_omoda.Models.Screen.{screen_text}
use nvidia_omoda.Models.Client.{extract_json}
use nvidia_omoda.Transport.Triggers.{Trigger, match_text}
use nvidia_omoda.Coco.Signals.{Observation, candidate_signals}
use nvidia_omoda.Coco.World.{
  Judgement, Pending, World, Env, Answer, Verdict, note, entry, count, set_pending, join_signals,
  degraded_verdict, judgement_of, unparseable, replied, broke, nominal, awaiting, skipped_busy,
  incident,
}
use nvidia_omoda.Coco.Incidents.{conclude, quiet}

-- A candidate goes to the local model, or is judged without it.
abbrev pub has_model : Route → Bool
has_model (routed nowhere degraded) = false
has_model (routed way degraded) = true
has_model (refused why) = false

unfoldable pub local_route : Env → Route
unfolding route
local_route env = route (record {
  task = classify;
  payload = str "";
  multimodal = false;
  hosted_available = true;
  local_available = env.local_available;
  declared_sensitive = false;
})

abbrev pub degraded_entry : List (String × Value)
degraded_entry =
    entry "judge.infer" "read" "degraded"
      "local model unavailable; Broker uses static rules only and escalates when inconclusive"

unfoldable pub ask : Env → Observation → List String → World → Verdict × World
unfolding local_route note degraded_verdict conclude
ask env o signals w =
    if has_model (local_route env)
    then (awaiting, set_pending (some (record { observation = o; signals = signals })) w)
    else conclude env o signals none (degraded_verdict signals "local model unavailable")
        (note env degraded_entry w)

-- A trigger names the type of the incident.
abbrev pub trigger_judgement : Trigger × String → Judgement
trigger_judgement (t, phrase) = record {
  is_incident = true;
  incident_type = t.incident_type;
  severity = "unranked";
  reason = String.◌++◌ "take-action trigger matched: \"" (String.◌++◌ phrase "\"");
  degraded = false;
}

abbrev pub hit_of : Env → Observation → Option (Trigger × String)
hit_of env o = elim env.triggers [
  | none ↦ none
  | some rules ↦ match_text rules (get_or o.scene_description "")
]

abbrev pub all_signals : Env → Observation → List String
all_signals env o = elim (hit_of env o) [
  | none ↦ candidate_signals o
  | some (t, phrase) ↦ candidate_signals o ++ String.◌++◌ "trigger:" phrase ∷ []
]

abbrev pub matched_entry : Trigger → String → List (String × Value)
matched_entry t phrase =
    entry "judge.trigger" "read" "matched" (String.◌++◌ phrase (String.◌++◌ " -> " t.incident_type))

-- A candidate, once it is counted.
unfoldable pub consider : Env → Observation → List String → World → Verdict × World
unfolding match_text note ask conclude join_signals
consider env o signals w =
    if is_some w.judge.pending
    then (
      skipped_busy signals,
      note env (entry "judge.infer" "read" "skipped-busy" (join_signals signals))
          (count (λ s. record s { skipped_busy = s.skipped_busy + 1 }) w),
    )
    else elim (hit_of env o) [
      | some (t, phrase) ↦
          conclude env o signals (some (t, phrase)) (trigger_judgement (t, phrase))
            (note env (matched_entry t phrase) w)
      | none ↦ ask env o signals w
    ]

-- `onObservation`, up to where it returns or awaits the model.
unfoldable pub on_observation : ℕ → Env → Observation → World → Verdict × World
unfolding match_text candidate_signals quiet consider
on_observation clear_after env o w =
    let seen = count (λ s. record s { observations = s.observations + 1 }) w in
    elim (all_signals env o) [
      | [] ↦ (nominal, quiet clear_after env o seen)
      | s ∷ ss ↦
          consider env o (s ∷ ss) (count (λ t. record t { candidates = t.candidates + 1 }) seen)
    ]

-- What the model's answer comes to, with its record and its count.
unfoldable pub read_answer : Env → List String → Answer → World → Judgement × World
unfolding extract_json judgement_of degraded_verdict note clip
read_answer env signals (broke message) w = (
  degraded_verdict signals "inference unreachable",
  note env
      (entry "judge.infer" "read" "degraded" (String.◌++◌ "inference failed: " (clip 120 message)))
      w,
)
read_answer env signals (replied text) w =
    let counted = count (λ s. record s { inferences = s.inferences + 1 }) w in
    elim (extract_json env.parse text) [
      | some v ↦ (judgement_of v, counted)
      | none ↦ (
        unparseable,
        note env
            (("tool", str "judge.infer")
              ∷ ("verb", str "read")
              ∷ ("outcome", str "unparseable")
              ∷ [])
            counted,
      )
    ]

-- The rest of `onObservation`, when the answer for what is pending is there.
unfoldable pub answered : Env → Answer → World → Option Pending → Verdict × World
unfolding read_answer conclude
answered env a w none = (nominal, w)
answered env a w (some p) =
    let (j, w') = read_answer env p.signals a w in
    conclude env p.observation p.signals none j (set_pending none w')

abbrev pub on_answer : Env → Answer → World → Verdict × World
on_answer env a w = answered env a w w.judge.pending
