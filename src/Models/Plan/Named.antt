-- ===== src/Models/Plan/Named.antt =====
-- What the planner of src/models/plan.js can name, and which model hears of it.
use nvidia_omoda.Prelude.{
  String, true, false, some, List, ◌≡◌, ◌⊎◌, refl, Bool-cases, Option-cases, inl, inr, arith,
}
use nvidia_omoda.Json.{Fields, str, prop}
use nvidia_omoda.Api.Intents.{Intent, nullish}
use nvidia_omoda.Models.Router.{
  routed, refused, is_sensitive, route, Route, on_box, hosted, nowhere,
}
use nvidia_omoda.Models.Client.{extract_json}
use nvidia_omoda.Skills.Load.{Row, is_declared}
use nvidia_omoda.Models.Plan.{
  Env, Reply, said, threw, Planned, planned, plan_action, read_plan, check_proposal, proposed_tool,
  reason_of, user_prompt, plan_ask, fields_of, rows_of, system_text,
}

-- A planned tool is one of the registry.
abbrev pub NamesDeclared : List (String × Row) → Planned → Type 0
NamesDeclared registry (planned p) =
    (tool : String) → p.tool ≡ some tool → is_declared tool registry ≡ true
NamesDeclared registry _ = Unit

check-NamesDeclared :
    (env : Env) (registry : List (String × Row)) (fs : Fields)
    → NamesDeclared registry (check_proposal env registry fs)
unfolding check_proposal
check-NamesDeclared env registry fs = elim (Option-cases (proposed_tool env (prop "tool" fs))) [
  | inl nothing ↦ rw (check_proposal, nothing) (λ tool e. absurd (ground (arith, e)))
  | inr (name, named) ↦ elim (Bool-cases (is_declared name registry)) [
    | inl there ↦ rw (check_proposal, named, there) (λ tool e. ground (arith, e, there))
    | inr gone ↦ rw (check_proposal, named, gone) tt
  ]
]

read-NamesDeclared :
    (env : Env) (registry : List (String × Row)) (reply : Reply)
    → NamesDeclared registry (read_plan env registry reply)
unfolding read_plan
read-NamesDeclared env registry (threw message) = tt
read-NamesDeclared env registry (said text) = elim (Option-cases (extract_json env.parse text)) [
  | inl bad ↦ rw (read_plan, bad) (λ tool e. absurd (ground (arith, e)))
  | inr (v, good) ↦ rw (read_plan, good) (check-NamesDeclared env registry (fields_of v))
]

-- Whatever the models answer, a tool that is planned is in the registry.
pub plan-NamesDeclared :
    (env : Env) (registry : List (String × Row)) (intent : Intent) (context : String)
    → NamesDeclared registry (plan_action env registry intent context)
unfolding plan_action
plan-NamesDeclared env registry intent context = go (route (plan_ask env intent)) refl
  where
    go :
        (r : Route)
        → route (plan_ask env intent) ≡ r
        → NamesDeclared registry (plan_action env registry intent context)
    go (refused why) e = rw (plan_action, e) tt
    go (routed nowhere degraded) e = rw (plan_action, e) (λ tool n. absurd (ground (arith, n)))
    go (routed on_box degraded) e =
        rw (plan_action, e)
          (read-NamesDeclared env registry
            (env.local_model system_text (user_prompt env intent (rows_of registry) context)))
    go (routed hosted degraded) e =
        rw (plan_action, e)
          (read-NamesDeclared env registry
            (env.hosted_model system_text (user_prompt env intent (rows_of registry) context)))

never_hosted :
    (env : Env) (intent : Intent)
    → is_sensitive (nullish intent.requested_outcome (str "")) false ≡ true
    → (route (plan_ask env intent) ≡ routed on_box false)
      ⊎ ((why : String) × (route (plan_ask env intent) ≡ refused why))
unfolding route
never_hosted env intent s = elim (Bool-cases env.local_available) [
  | inl up ↦ inl (rw (s, up) refl)
  | inr down ↦ inr (
    "sensitive payload and the local model is unavailable; refusing to route it off-box",
    rw (s, down) refl,
  )
]

-- What the plan for a sensitive outcome comes to does not depend on the hosted model: it is not asked.
pub sensitive_stays :
    (env : Env) (registry : List (String × Row)) (intent : Intent) (context : String)
    (other : String → String → Reply)
    → is_sensitive (nullish intent.requested_outcome (str "")) false ≡ true
    → plan_action (record env { hosted_model = other }) registry intent context
      ≡ plan_action env registry intent context
unfolding plan_action user_prompt read_plan check_proposal proposed_tool reason_of
sensitive_stays env registry intent context other s = elim (never_hosted env intent s) [
  | inl local ↦ rw (plan_action, local) refl
  | inr (why, closed) ↦ rw (plan_action, closed) refl
]

-- The sensitivity of the detector's name and of the retrieved context is not looked at: with an outcome that is
-- not sensitive they go to the hosted model, if it is available.
hosted_hears :
    (env : Env) (registry : List (String × Row)) (intent : Intent) (context : String)
    → is_sensitive (nullish intent.requested_outcome (str "")) false ≡ false
    → env.hosted_available ≡ true
    → plan_action env registry intent context
      ≡ read_plan env registry
          (env.hosted_model system_text (user_prompt env intent (rows_of registry) context))
unfolding plan_action route
hosted_hears env registry intent context s up = rw (plan_action, route, s, up) refl
