-- ===== src/Telemetry/Awaits.antt =====
-- What the audit shows of the response to an incident.
use nvidia_omoda.Prelude.{
  ℕ, String, Bool, false, Option, some, List, [], ◌∷◌, ◌≡◌, refl, if◌then◌else◌, map, Bool-cases,
  inl, inr,
}
use nvidia_omoda.Telemetry.Narrate.{Hop, hop, plan_for, narrate_handoff, narrate_response}
use nvidia_omoda.Telemetry.Audit.{Event, Authority, pending, envelope, handoff_to_audit}

-- How the audit shows that a hop is held for a person, or that it goes ahead.
abbrev pub shown : Bool → Authority × Option String
shown dangerous =
    if dangerous then (pending, some "awaiting-approval") else (envelope, some "handed-off")

abbrev pub standing : Event → Authority × Option String
standing e = (e.authority, e.outcome)

one_standing :
    (levels : List (String × ℕ)) (id : String) (h : Hop)
    → standing (handoff_to_audit (narrate_handoff levels id h)) ≡ shown h.dangerous
unfolding handoff_to_audit narrate_handoff
one_standing levels id h = elim (Bool-cases h.dangerous) [
  | inl held ↦ rw held refl
  | inr free ↦ rw free refl
]

all_standings :
    (levels : List (String × ℕ)) (id : String) (l : List Hop)
    → map (λ h. standing (handoff_to_audit h)) (map (narrate_handoff levels id) l)
      ≡ map (λ h. shown h.dangerous) l
all_standings levels id [] = refl
all_standings levels id (h ∷ l) = cc (one_standing levels id h, all_standings levels id l)

-- The audit of a new incident shows the handoff to its domain expert as going ahead, and then the hops of its response plan in
-- their order, each held for a person exactly if the plan marks it as dangerous.
pub response_standings :
    (levels : List (String × ℕ)) (incident_type : String) (l1 : Option String) (id : String)
    → map (λ h. standing (handoff_to_audit h)) (narrate_response levels incident_type l1 id)
      ≡ shown false ∷ map (λ h. shown h.dangerous) (plan_for incident_type).chain
unfolding narrate_response
response_standings levels incident_type l1 id =
    cc (
      one_standing levels id (hop "l0" _ _),
      all_standings levels id (plan_for incident_type).chain,
    )
