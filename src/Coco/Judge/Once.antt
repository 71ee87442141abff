-- ===== src/Coco/Judge/Once.antt =====
-- An incident that src/coco/judge.js judges twice is one intent.
use nvidia_omoda.Prelude.{
  String, false, not, ◌||◌, Option, none, some, List, ◌≡◌, refl, ap, ◌∙◌, ◌==◌, Option-cases, inl,
  inr,
}
use nvidia_omoda.Prelude.Dict.{get, get-put_self}
use nvidia_omoda.Transport.Triggers.{Trigger}
use nvidia_omoda.Coco.Signals.{Observation}
use nvidia_omoda.Coco.World.{Judgement, Incident, World, Env, note, key_of}
use nvidia_omoda.Coco.Incidents.{conclude, open_incident, attach}

abbrev IsIncident : Judgement → Type 0
IsIncident j = (not j.is_incident || (j.incident_type == "none")) ≡ false

attached_world :
    (env : Env) (o : Observation) (signals : List String) (hit : Option (Trigger × String))
    (j : Judgement) (i : Incident) (w : World)
    → IsIncident j
    → get (key_of o j.incident_type) w.judge.open_incidents ≡ some i
    → conclude env o signals hit j w ≡ attach env (key_of o j.incident_type) i w
unfolding conclude
attached_world env o signals hit j i w is known = rw (is, known) refl

opened_world :
    (env : Env) (o : Observation) (signals : List String) (hit : Option (Trigger × String))
    (j : Judgement) (w : World)
    → IsIncident j
    → get (key_of o j.incident_type) w.judge.open_incidents ≡ none
    → conclude env o signals hit j w
      ≡ open_incident env o signals hit j (key_of o j.incident_type) w
unfolding conclude
opened_world env o signals hit j w is new = rw (is, new) refl

-- The incident is open once it is judged.
is_open :
    (env : Env) (o : Observation) (signals : List String) (hit : Option (Trigger × String))
    (j : Judgement) (w : World)
    → IsIncident j
    → (i : Incident) × (get
          (key_of o j.incident_type)
          (conclude env o signals hit j w).1.judge.open_incidents
        ≡ some i)
unfolding attach open_incident note
is_open env o signals hit j w is =
    elim (Option-cases (get (key_of o j.incident_type) w.judge.open_incidents)) [
      | inl new ↦ (
        _,
        ap (λ x. get (key_of o j.incident_type) x.1.judge.open_incidents)
              (opened_world env o signals hit j w is new)
            ∙ get-put_self (key_of o j.incident_type) _ w.judge.open_incidents,
      )
      | inr (i, known) ↦ (
        _,
        ap (λ x. get (key_of o j.incident_type) x.1.judge.open_incidents)
              (attached_world env o signals hit j i w is known)
            ∙ get-put_self (key_of o j.incident_type) _ w.judge.open_incidents,
      )
    ]

-- A second judgment of an incident of the same type at the same camera changes no intent.
pub judged_once :
    (env env' : Env) (o o' : Observation) (signals signals' : List String)
    (hit hit' : Option (Trigger × String)) (j j' : Judgement) (w : World)
    → IsIncident j
    → IsIncident j'
    → key_of o' j'.incident_type ≡ key_of o j.incident_type
    → (conclude env' o' signals' hit' j' (conclude env o signals hit j w).1).1.intents
      ≡ (conclude env o signals hit j w).1.intents
unfolding attach note
judged_once env env' o o' signals signals' hit hit' j j' w is is' same =
    let (i, there) = is_open env o signals hit j w is in
    ap (λ x. x.1.intents)
      (attached_world env' o' signals' hit' j' i (conclude env o signals hit j w).1 is'
        (ap (λ k. get k (conclude env o signals hit j w).1.judge.open_incidents) same ∙ there))
