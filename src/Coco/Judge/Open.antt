-- ===== src/Coco/Judge/Open.antt =====
-- How the incidents of src/coco/judge.js are cleared.
use nvidia_omoda.Prelude.{
  ℕ, ◌+◌, ◌≤◌, ◌<◌, String, true, false, List, [], ◌∷◌, ◌≡◌, refl, sym, ap, ◌∙◌, subst, length, All,
  Bool-cases, inl, inr, arith,
}
use nvidia_omoda.Coco.Signals.{Observation}
use nvidia_omoda.Coco.World.{Incident, World, Env, note, of_camera, set_open, count}
use nvidia_omoda.Coco.Incidents.{note_cleared, is_clear, still_open, quiet, cleared, cleared_entry}
use nvidia_omoda.Coco.Judge.{all_signals, on_observation}

pub note_judge :
    (env : Env) (fs : List (String × nvidia_omoda.Json.Value)) (w : World)
    → (note env fs w).judge ≡ w.judge
unfolding note
note_judge env fs w = refl

note_cleared_judge :
    (n : ℕ) (env : Env) (l : List (String × Incident)) (w : World)
    → (note_cleared n env l w).judge ≡ w.judge
unfolding note_cleared
note_cleared_judge n env [] w = refl
note_cleared_judge n env ((key, i) ∷ l) w =
    note_cleared_judge n env l (note env (cleared_entry key i) w)
    ∙ note_judge env (cleared_entry key i) w

-- A quiet observation of a camera passes over the open incidents, and does nothing else to the judge.
pub quiet_judge :
    (n : ℕ) (env : Env) (o : Observation) (w : World)
    → (quiet n env o w).judge ≡ (set_open (still_open n o.camera_id w.judge.open_incidents) w).judge
unfolding quiet
quiet_judge n env o w =
    note_cleared_judge n env (cleared n o.camera_id w.judge.open_incidents)
      (set_open (still_open n o.camera_id w.judge.open_incidents) w)

quiet_open :
    (n : ℕ) (env : Env) (o : Observation) (w : World)
    → (quiet n env o w).judge.open_incidents ≡ still_open n o.camera_id w.judge.open_incidents
unfolding quiet
quiet_open n env o w = ap (λ j. j.open_incidents) (quiet_judge n env o w)

observed_open :
    (n : ℕ) (env : Env) (o : Observation) (w : World)
    → all_signals env o ≡ []
    → (on_observation n env o w).1.judge.open_incidents
      ≡ still_open n o.camera_id w.judge.open_incidents
unfolding on_observation
observed_open n env o w h =
    rw (on_observation, h)
      (quiet_open n env o (count (λ s. record s { observations = s.observations + 1 }) w))

-- Every open incident of the camera has been quiet for at least k observations, and for less than n.
abbrev Quiet : String → ℕ → List (String × Incident) → Type 0
Quiet camera k m = All (λ e. of_camera camera e.0 ≡ true → k ≤ e.1.quiet_streak) m

abbrev Below : ℕ → String → List (String × Incident) → Type 0
Below n camera m = All (λ e. of_camera camera e.0 ≡ true → e.1.quiet_streak < n) m

still_open-Quiet :
    (n k : ℕ) (camera : String) (m : List (String × Incident))
    → Quiet camera k m
    → Quiet camera (k + 1) (still_open n camera m)
unfolding still_open
still_open-Quiet n k camera [] h = tt
still_open-Quiet n k camera ((key, i) ∷ m) h = elim (Bool-cases (of_camera camera key)) [
  | inr other ↦
      rw other ((λ e. absurd (ground (arith, e, other))), still_open-Quiet n k camera m h.1)
  | inl own ↦ elim (Bool-cases (is_clear n i)) [
    | inl done ↦ rw own (rw done (still_open-Quiet n k camera m h.1))
    | inr more ↦ rw own (rw more ((λ e. omega (arith, h.0 own)), still_open-Quiet n k camera m h.1))
  ]
]

still_open-Below :
    (n : ℕ) (camera : String) (m : List (String × Incident))
    → Below n camera (still_open n camera m)
unfolding still_open
still_open-Below n camera [] = tt
still_open-Below n camera ((key, i) ∷ m) = elim (Bool-cases (of_camera camera key)) [
  | inr other ↦ rw other ((λ e. absurd (ground (arith, e, other))), still_open-Below n camera m)
  | inl own ↦ elim (Bool-cases (is_clear n i)) [
    | inl done ↦ rw own (rw done (still_open-Below n camera m))
    | inr more ↦ rw own (rw more ((λ e. ground (arith, more)), still_open-Below n camera m))
  ]
]

-- A quiet observation for each of the worlds' clocks.
unfoldable pub observe_all : ℕ → List (Env × Observation) → World → World
unfolding on_observation
observe_all clear_after [] w = w
observe_all clear_after ((env, o) ∷ l) w =
    observe_all clear_after l (on_observation clear_after env o w).1

abbrev AreQuiet : String → List (Env × Observation) → Type 0
AreQuiet camera l = All (λ e. (e.1.camera_id ≡ camera) × (all_signals e.0 e.1 ≡ [])) l

one_quiet :
    (n : ℕ) (camera : String) (env : Env) (o : Observation) (w : World)
    → ((o.camera_id ≡ camera) × (all_signals env o ≡ []))
    → (on_observation n env o w).1.judge.open_incidents ≡ still_open n camera w.judge.open_incidents
one_quiet n camera env o w (c, h) =
    observed_open n env o w h ∙ ap (λ x. still_open n x w.judge.open_incidents) c

Quiet-weaken :
    (camera : String) (k t : ℕ)
    → t ≤ k
    → (m : List (String × Incident)) → Quiet camera k m
    → Quiet camera t m
Quiet-weaken camera k t le [] h = tt
Quiet-weaken camera k t le (e ∷ m) h =
    ((λ own. omega (arith, le, h.0 own)), Quiet-weaken camera k t le m h.1)

Quiet-for :
    (n k t : ℕ) (camera : String) (l : List (Env × Observation)) (w : World)
    → AreQuiet camera l
    → t ≤ length l + k
    → Quiet camera k w.judge.open_incidents
    → Quiet camera t (observe_all n l w).judge.open_incidents
unfolding observe_all
Quiet-for n k t camera [] w q le h =
    Quiet-weaken camera k t (ground (arith, le)) w.judge.open_incidents h
Quiet-for n k t camera ((env, o) ∷ l) w q le h =
    Quiet-for n (k + 1) t camera l (on_observation n env o w).1 q.1 (ground (arith, le)) (
      subst (Quiet camera (k + 1)) (sym (one_quiet n camera env o w q.0))
        (still_open-Quiet n k camera w.judge.open_incidents h))

Below-for :
    (n : ℕ) (camera : String) (l : List (Env × Observation)) (w : World)
    → AreQuiet camera l
    → Below n camera w.judge.open_incidents
    → Below n camera (observe_all n l w).judge.open_incidents
unfolding observe_all
Below-for n camera [] w q h = h
Below-for n camera ((env, o) ∷ l) w q h = Below-for n camera l (on_observation n env o w).1 q.1 (
    subst (Below n camera) (sym (one_quiet n camera env o w q.0))
      (still_open-Below n camera w.judge.open_incidents))

none_left :
    (n : ℕ) (camera : String) (m : List (String × Incident))
    → Quiet camera n m
    → Below n camera m
    → All (λ e. of_camera camera e.0 ≡ false) m
none_left n camera [] q b = tt
none_left n camera ((key, i) ∷ m) q b = elim (Bool-cases (of_camera camera key)) [
  | inl own ↦ absurd (omega (arith, q.0 own, b.0 own))
  | inr other ↦ (other, none_left n camera m q.1 b.1)
]

any_Quiet : (camera : String) (m : List (String × Incident)) → Quiet camera 0 m
any_Quiet camera [] = tt
any_Quiet camera (e ∷ m) = ((λ own. omega arith), any_Quiet camera m)

-- When no incident of the camera has waited longer than the judge lets it, `clear_after` observations
-- of the camera in a row that show no signal leave no incident of it open.
pub quiet_clears :
    (n : ℕ) (camera : String) (l : List (Env × Observation)) (w : World)
    → AreQuiet camera l
    → n ≤ length l
    → Below n camera w.judge.open_incidents
    → All (λ e. of_camera camera e.0 ≡ false) (observe_all n l w).judge.open_incidents
quiet_clears n camera l w q le b =
    none_left n camera (observe_all n l w).judge.open_incidents
      (Quiet-for n 0 n camera l w q (omega (arith, le)) (any_Quiet camera w.judge.open_incidents))
      (Below-for n camera l w q b)
