-- ===== src/Orchestrator/Governed.antt =====
-- What the orchestrator of src/orchestrator.js can put before the Broker.
use nvidia_omoda.Prelude.{
  String, true, Option, none, some, List, [], ◌∷◌, ◌≡◌, refl, Bool-cases, Option-cases, inl, inr,
}
use nvidia_omoda.Domain.Action.{Action}
use nvidia_omoda.Api.Intents.{Intent, Intents, await_consent}
use nvidia_omoda.Skills.Load.{Row, lookup}
use nvidia_omoda.Domain.Taxonomy.{Stage, consent_kind}
use nvidia_omoda.Models.Plan.{Plan, Planned, planned, undeclared, failed, plan_action}
use nvidia_omoda.Orchestrator.{
  Env, World, Routed, not_routed, chosen, note, escalated, action_of, propose_action, follow,
  on_intent, is_demo,
}

-- The row's own description of a tool is the action's.
abbrev Describes : Row → Action → Type 0
Describes r a =
    (a.tool ≡ some r.tool)
    × ((a.verb ≡ r.verb)
        × ((a.impact ≡ some r.impact) × ((a.agent ≡ some r.agent) × (a.declared ≡ true))))

-- Nothing awaits consent that did not before, or an action for a tool of the registry does, and no other.
abbrev pub Governed : List (String × Row) → Intent → Intents → Routed × Intents → Type 0
Governed registry intent old (not_routed reason, new) = new ≡ old
Governed registry intent old (chosen tool agent stage id, new) =
    (r : Row) × (a : Action) × ((lookup tool registry ≡ some r)
      × (Describes r a
          × ((stage ≡ consent_kind r.verb (some r.impact))
              × (new ≡ await_consent intent.id a old))))

escalated-intents :
    (env : Env) (intent : Intent) (a : Action) (tool : String) (stage : Option Stage) (w : World)
    → (escalated env intent a tool stage w).intents ≡ w.intents
unfolding escalated note
escalated-intents env intent a tool none w = refl
escalated-intents env intent a tool (some stage) w = elim (Option-cases env.escalate) [
  | inl off ↦ rw off refl
  | inr (ask, on) ↦ elim (Option-cases (ask intent a stage)) [
    | inl done ↦ rw (escalated, on, done) refl
    | inr (message, lost) ↦ rw (escalated, on, lost) refl
  ]
]

abbrev pub seen : Routed × World → Routed × Intents
seen x = (x.0, x.1.intents)

propose-Governed :
    (env : Env) (registry : List (String × Row)) (intent : Intent) (r : Row) (p : Plan)
    (tool : String) (w : World)
    → lookup tool registry ≡ some r
    → Governed registry intent w.intents (seen (propose_action env intent r p tool w))
unfolding propose_action action_of note
propose-Governed env registry intent r p tool w there = (
  r,
  action_of env intent r p.reason,
  (
    there,
    (
      (refl, (refl, (refl, (refl, refl)))),
      (
        refl,
        escalated-intents env intent (action_of env intent r p.reason) tool
            (consent_kind r.verb (some r.impact)) _,
      ),
    ),
  ),
)

follow-Governed :
    (env : Env) (registry : List (String × Row)) (intent : Intent) (plan : Planned) (w : World)
    → Governed registry intent w.intents (seen (follow env registry intent plan w))
unfolding follow note
follow-Governed env registry intent (undeclared message tool) w = refl
follow-Governed env registry intent (failed message) w = refl
follow-Governed env registry intent (planned p) w = elim (Option-cases p.tool) [
  | inl nothing ↦ rw (follow, nothing) refl
  | inr (tool, named) ↦ elim (Option-cases (lookup tool registry)) [
    | inl gone ↦ rw (follow, named, gone) refl
    | inr (r, there) ↦
        rw (follow, named, there) (propose-Governed env registry intent r p tool w there)
  ]
]

-- Whatever the models answer and whatever the knowledge says, an intent that comes up leaves every intent as it
-- was, or an action awaits consent whose tool, verb, impact and agent are those of a row of the registry, with
-- the stage of consent that the row asks for.
pub on_intent-Governed :
    (env : Env) (registry : List (String × Row)) (intent : Intent) (w : World)
    → Governed registry intent w.intents (seen (on_intent env registry intent w))
unfolding on_intent
on_intent-Governed env registry intent w = go intent.actions refl
  where
    go :
        (l : List Action)
        → intent.actions ≡ l
        → Governed registry intent w.intents (seen (on_intent env registry intent w))
    go (a ∷ l) e = rw (on_intent, e) refl
    go [] e = elim (Bool-cases (is_demo intent.kind)) [
      | inl demo ↦ rw (on_intent, e, demo) refl
      | inr other ↦
          rw (on_intent, e, other)
            (follow-Governed env registry intent
              (plan_action env.models registry intent (env.context intent)) w)
    ]
