-- ===== src/Coco/Incidents.antt =====
-- The incidents of the judge of src/coco/judge.js: how they are opened, attached to and cleared.
use nvidia_omoda.Prelude.{
  ℕ, ◌+◌, String, Bool, not, ◌&&◌, ◌||◌, Option, none, some, List, [], ◌∷◌, ◌==◌, if◌then◌else◌,
  get_or, find, leb,
}
use Prim.Native.String
use nvidia_omoda.Prelude.Dict.{get, put}
use nvidia_omoda.Prelude.Print.{print_number}
use nvidia_omoda.Prelude.Rx.{codes, clip, starts_with}
use nvidia_omoda.Json.{Value, Fields, bool, str, obj, arr, object, texts}
use nvidia_omoda.Api.Intents.{propose}
use nvidia_omoda.Api.Stream.{transport_envelope}
use nvidia_omoda.Models.Screen.{screen_text}
use nvidia_omoda.Transport.Triggers.{Trigger}
use nvidia_omoda.Coco.Signals.{Observation}
use nvidia_omoda.Coco.World.{
  Judgement, Incident, World, Env, Verdict, note, entry, with_intent, count, set_open, key_of,
  of_camera, number, judged_nominal, attached, incident,
}

abbrev pub cleared_entry : String → Incident → List (String × Value)
cleared_entry key i = with_intent i.intent_id (
    entry "judge.resolve" "update" "cleared" (
      String.◌++◌ key
        (String.◌++◌ " quiet for " (String.◌++◌ (number i.quiet_streak) " observation(s)"))))

module _ (clear_after : ℕ) where
  abbrev pub is_clear : Incident → Bool
  is_clear i = leb clear_after (i.quiet_streak + 1)

  abbrev pub quieter : Incident → Incident
  quieter i = record i { quiet_streak = i.quiet_streak + 1 }

  -- The incidents that stay open after a quiet observation of a camera, and those that it clears.
  unfoldable pub still_open : String → List (String × Incident) → List (String × Incident)
  unfolding starts_with
  still_open camera [] = []
  still_open camera ((key, i) ∷ m) =
      let rest = still_open camera m in
      if not (of_camera camera key)
      then (key, i) ∷ rest
      else if is_clear i
      then rest
      else (key, quieter i) ∷ rest

  unfoldable pub cleared : String → List (String × Incident) → List (String × Incident)
  unfolding starts_with
  cleared camera [] = []
  cleared camera ((key, i) ∷ m) =
      let rest = cleared camera m in
      if of_camera camera key && is_clear i then (key, quieter i) ∷ rest else rest

  unfoldable pub note_cleared : Env → List (String × Incident) → World → World
  unfolding note print_number
  note_cleared env [] w = w
  note_cleared env ((key, i) ∷ l) w = note_cleared env l (note env (cleared_entry key i) w)

  -- A quiet observation.
  unfoldable pub quiet : Env → Observation → World → World
  unfolding still_open cleared note_cleared
  quiet env o w =
      note_cleared env (cleared o.camera_id w.judge.open_incidents)
        (set_open (still_open o.camera_id w.judge.open_incidents) w)

-- The body of the intent that an incident opens.
unfoldable pub incident_body : Env → Observation → List String → Judgement → Fields
unfolding screen_text clip
incident_body env o signals j = object (
    ("source", str "coco")
    ∷ ("kind", str "detection")
    ∷ ("detector", str (String.◌++◌ "coco:" o.camera_id))
    ∷ ("confidence", o.confidence)
    ∷ ("observed_at", o.captured_at)
    ∷ (
      "evidence",
      obj (
          object (
            ("incident_type", str j.incident_type)
            ∷ ("severity", str j.severity)
            ∷ ("signals", arr (texts signals))
            ∷ (
              "scene",
              str (env.print (screen_text 400 (codes (get_or o.scene_description ""))).clean),
            )
            ∷ ("evidence_ref", o.evidence_ref)
            ∷ ("degraded", bool j.degraded)
            ∷ [])),
    )
    ∷ (
      "requested_outcome",
      str (
          clip 300 (
            String.◌++◌ "respond to " (
              String.◌++◌ j.incident_type
                (String.◌++◌ " at " (String.◌++◌ o.camera_id (String.◌++◌ ": " j.reason)))))),
    )
    ∷ [])

-- The action of the trigger that fired, or of the first rule for this type.
abbrev pub trigger_action : Env → Judgement → Option (Trigger × String) → Option String
trigger_action env j hit = elim hit [
  | some (t, p) ↦ some t.action
  | none ↦ elim (find (λ t. t.incident_type == j.incident_type) (get_or env.triggers [])) [
    | none ↦ none
    | some t ↦ some t.action
  ]
]

-- A judged incident that is not open yet becomes one intent.
unfoldable pub open_incident :
    Env
    → Observation
    → List String
    → Option (Trigger × String)
    → Judgement
    → String
    → World
    → Verdict × World
unfolding propose incident_body note put
open_incident env o signals hit j key w =
    let idem = String.◌++◌ "coco-" (String.◌++◌ key (String.◌++◌ "-" o.observation_id)) in
    let p =
      propose env.random_id env.time (some idem) (incident_body env o signals j)
        (record { id = String.◌++◌ "coco:" o.camera_id; scopes = some ("intent:propose" ∷ []) })
        (transport_envelope "stream" "outbound-dial" "json" idem env.time) w.intents in
    let opened =
      count (λ s. record s { incidents = s.incidents + 1 })
        (set_open
          (put key (record { intent_id = p.intent; occurrences = 1; quiet_streak = 0 })
            w.judge.open_incidents)
          (record w { intents = p.store })) in
    (
      incident p.intent j signals (elim hit [ none ↦ none | some (t, phrase) ↦ some phrase ])
          (trigger_action env j hit),
      note env
          (with_intent p.intent (
            entry "judge.incident" "create" "intent-opened"
              (String.◌++◌ j.incident_type (String.◌++◌ " " j.severity))))
          opened,
    )

-- An incident that is open already occurred once more.
unfoldable pub attach : Env → String → Incident → World → Verdict × World
unfolding note put print_number
attach env key i w =
    let again : Incident = record i { occurrences = i.occurrences + 1; quiet_streak = 0 } in
    (
      attached i.intent_id again.occurrences,
      note env
          (with_intent i.intent_id (
            entry "judge.attach" "update" "occurrence"
              (String.◌++◌ key (String.◌++◌ " x" (number again.occurrences)))))
          (set_open (put key again w.judge.open_incidents) w),
    )

-- What follows from a judgment.
unfoldable pub conclude :
    Env
    → Observation
    → List String
    → Option (Trigger × String)
    → Judgement
    → World
    → Verdict × World
unfolding note get attach open_incident clip
conclude env o signals hit j w =
    if not j.is_incident || (j.incident_type == "none")
    then (
      judged_nominal j.reason,
      note env (entry "judge.infer" "read" "nominal-after-judgment" (clip 160 j.reason)) w,
    )
    else elim (get (key_of o j.incident_type) w.judge.open_incidents) [
      | some i ↦ attach env (key_of o j.incident_type) i w
      | none ↦ open_incident env o signals hit j (key_of o j.incident_type) w
    ]
