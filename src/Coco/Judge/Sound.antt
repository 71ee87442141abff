-- ===== src/Coco/Judge/Sound.antt =====
-- What the judge of src/coco/judge.js keeps while observations and answers come in.
use nvidia_omoda.Prelude.{
  ℕ, ◌+◌, ◌≤◌, ◌<◌, String, not, ◌||◌, Option, none, some, List, [], ◌∷◌, ◌≡◌, refl, sym, subst,
  if◌then◌else◌, is_some, All, Bool-cases, Option-cases, inl, inr, arith, ◌==◌,
}
use nvidia_omoda.Prelude.Dict.{get, put-All}
use nvidia_omoda.Transport.Triggers.{Trigger}
use nvidia_omoda.Coco.Signals.{Observation}
use nvidia_omoda.Models.Client.{extract_json}
use nvidia_omoda.Coco.World.{
  Judgement, Incident, Judge, World, Env, Answer, replied, broke, note, of_camera, count,
  set_pending, key_of, degraded_verdict,
}
use nvidia_omoda.Coco.Incidents.{is_clear, still_open, conclude, open_incident, attach}
use nvidia_omoda.Coco.Judge.{
  all_signals, on_observation, ask, consider, read_answer, answered, on_answer, hit_of, has_model,
  local_route, degraded_entry, matched_entry, trigger_judgement,
}
use nvidia_omoda.Coco.Judge.Open.{quiet_judge}

abbrev waiting : Judge → ℕ
waiting j = if is_some j.pending then 1 else 0

abbrev ShortStreaks : ℕ → List (String × Incident) → Type 0
ShortStreaks n m = All (λ e. e.1.quiet_streak < n) m

-- Candidates may be counted already, and not yet as an inference (`asked` of them) or an incident (`judged`).
abbrev IsAccounted : ℕ → ℕ → ℕ → Judge → Type 0
IsAccounted n asked judged j =
    (j.stats.inferences + j.stats.skipped_busy + waiting j + asked ≤ j.stats.candidates)
    × ((j.stats.incidents + j.stats.skipped_busy + waiting j + judged ≤ j.stats.candidates)
        × ((j.stats.candidates ≤ j.stats.observations) × ShortStreaks n j.open_incidents))

abbrev pub IsSound : ℕ → Judge → Type 0
IsSound n j = IsAccounted n 0 0 j

still_open-ShortStreaks :
    (n : ℕ) (camera : String) (m : List (String × Incident))
    → ShortStreaks n m
    → ShortStreaks n (still_open n camera m)
unfolding still_open
still_open-ShortStreaks n camera [] h = tt
still_open-ShortStreaks n camera ((key, i) ∷ m) h = elim (Bool-cases (of_camera camera key)) [
  | inr other ↦ rw other (h.0, still_open-ShortStreaks n camera m h.1)
  | inl own ↦ elim (Bool-cases (is_clear n i)) [
    | inl done ↦ rw own (rw done (still_open-ShortStreaks n camera m h.1))
    | inr more ↦ rw own (rw more (ground (arith, more), still_open-ShortStreaks n camera m h.1))
  ]
]

weaken : (n : ℕ) (j : Judge) → IsAccounted n 0 1 j → IsSound n j
weaken n j (a, (b, (c, d))) = (omega (arith, a), (omega (arith, b), (c, d)))

attach-IsSound :
    (n : ℕ) (env : Env) (key : String) (i : Incident) (w : World)
    → 0 < n
    → IsAccounted n 0 1 w.judge
    → IsSound n (attach env key i w).1.judge
unfolding attach note
attach-IsSound n env key i w pos (a, (b, (c, d))) = (
  omega (arith, a),
  (omega (arith, b), (c, put-All (λ k x. x.quiet_streak < n) key _ w.judge.open_incidents d pos)),
)

open_incident-IsSound :
    (n : ℕ) (env : Env) (o : Observation) (signals : List String) (hit : Option (Trigger × String))
    (j : Judgement) (key : String) (w : World)
    → 0 < n
    → IsAccounted n 0 1 w.judge
    → IsSound n (open_incident env o signals hit j key w).1.judge
unfolding open_incident note
open_incident-IsSound n env o signals hit j key w pos (a, (b, (c, d))) = (
  omega (arith, a),
  (omega (arith, b), (c, put-All (λ k x. x.quiet_streak < n) key _ w.judge.open_incidents d pos)),
)

conclude-IsSound :
    (n : ℕ) (env : Env) (o : Observation) (signals : List String) (hit : Option (Trigger × String))
    (j : Judgement) (w : World)
    → 0 < n
    → IsAccounted n 0 1 w.judge
    → IsSound n (conclude env o signals hit j w).1.judge
unfolding conclude note
conclude-IsSound n env o signals hit j w pos h =
    elim (Bool-cases (not j.is_incident || (j.incident_type == "none"))) [
      | inl nominal ↦ rw nominal (weaken n w.judge h)
      | inr judged ↦
          rw judged (elim (Option-cases (get (key_of o j.incident_type) w.judge.open_incidents)) [
            | inl new ↦
                rw new
                  (open_incident-IsSound n env o signals hit j (key_of o j.incident_type) w pos h)
            | inr (i, known) ↦ rw known (attach-IsSound n env (key_of o j.incident_type) i w pos h)
          ])
    ]

ask-IsSound :
    (n : ℕ) (env : Env) (o : Observation) (signals : List String) (w : World)
    → 0 < n
    → w.judge.pending ≡ none
    → IsAccounted n 1 1 w.judge
    → IsSound n (ask env o signals w).1.judge
unfolding ask note
ask-IsSound n env o signals w pos idle (a, (b, (c, d))) =
    elim (Bool-cases (has_model (local_route env))) [
      | inl there ↦ rw there (ground (arith, a, idle), (ground (arith, b, idle), (c, d)))
      | inr gone ↦ rw gone (
          conclude-IsSound n env o signals none (degraded_verdict signals "local model unavailable")
            (note env degraded_entry w) pos (omega (arith, a), (b, (c, d))))
    ]

consider-IsSound :
    (n : ℕ) (env : Env) (o : Observation) (signals : List String) (w : World)
    → 0 < n
    → IsAccounted n 1 1 w.judge
    → IsSound n (consider env o signals w).1.judge
unfolding consider note
consider-IsSound n env o signals w pos (a, (b, (c, d))) = elim (Option-cases w.judge.pending) [
  | inr (p, busy) ↦ rw busy (ground (arith, a, busy), (ground (arith, b, busy), (c, d)))
  | inl idle ↦ rw idle (elim (Option-cases (hit_of env o)) [
    | inr ((t, phrase), hit) ↦ rw hit (
        conclude-IsSound n env o signals (some (t, phrase)) (trigger_judgement (t, phrase))
          (note env (matched_entry t phrase) w) pos (omega (arith, a), (b, (c, d))))
    | inl miss ↦ rw miss (ask-IsSound n env o signals w pos idle (a, (b, (c, d))))
  ])
]

on_observation-IsSound :
    (n : ℕ) (env : Env) (o : Observation) (w : World)
    → 0 < n
    → IsSound n w.judge
    → IsSound n (on_observation n env o w).1.judge
unfolding on_observation
on_observation-IsSound n env o w pos (a, (b, (c, d))) = go (all_signals env o) refl
  where
    seen : World
    seen = count (λ s. record s { observations = s.observations + 1 }) w

    go : (l : List String) → all_signals env o ≡ l → IsSound n (on_observation n env o w).1.judge
    go [] e =
        rw (on_observation, e)
          (subst (IsSound n) (sym (quiet_judge n env o seen)) (
            a,
            (b, (omega (arith, c), still_open-ShortStreaks n o.camera_id w.judge.open_incidents d)),
          ))
    go (s ∷ l) e =
        rw (on_observation, e)
          (consider-IsSound n env o (s ∷ l)
            (count (λ t. record t { candidates = t.candidates + 1 }) seen) pos
            (omega (arith, a), (omega (arith, b), (omega (arith, c), d))))

-- An answer is judged with its own candidate no longer waiting.
read_answer-IsAccounted :
    (n : ℕ) (env : Env) (signals : List String) (a : Answer) (w : World)
    → IsAccounted n 1 1 (record w.judge { pending = none })
    → IsAccounted n 0 1 (set_pending none (read_answer env signals a w).1).judge
unfolding read_answer note
read_answer-IsAccounted n env signals (broke message) w (a, (b, (c, d))) =
    (omega (arith, a), (b, (c, d)))
read_answer-IsAccounted n env signals (replied text) w (a, (b, (c, d))) =
    elim (Option-cases (extract_json env.parse text)) [
      | inl bad ↦ rw (read_answer, bad) (omega (arith, a), (b, (c, d)))
      | inr (v, good) ↦ rw (read_answer, good) (omega (arith, a), (b, (c, d)))
    ]

on_answer-IsSound :
    (n : ℕ) (env : Env) (a : Answer) (w : World)
    → 0 < n
    → IsSound n w.judge
    → IsSound n (on_answer env a w).1.judge
unfolding answered
on_answer-IsSound n env a w pos (h, (k, (c, d))) = elim (Option-cases w.judge.pending) [
  | inl idle ↦ subst (λ q. IsSound n (answered env a w q).1.judge) (sym idle) (h, (k, (c, d)))
  | inr (p, busy) ↦
      subst (λ q. IsSound n (answered env a w q).1.judge) (sym busy)
        (conclude-IsSound n env p.observation p.signals none (read_answer env p.signals a w).0
          (set_pending none (read_answer env p.signals a w).1) pos
          (read_answer-IsAccounted n env p.signals a w
            (ground (arith, h, busy), (ground (arith, k, busy), (c, d)))))
]

-- What happens to the judge, in its order.
pub data Event : Type 0 where
  observed : Env → Observation → Event
  heard : Env → Answer → Event

unfoldable pub run : ℕ → List Event → World → World
unfolding on_observation answered
run clear_after [] w = w
run clear_after (observed env o ∷ l) w = run clear_after l (on_observation clear_after env o w).1
run clear_after (heard env a ∷ l) w = run clear_after l (on_answer env a w).1

abbrev pub new_judge : Judge
new_judge = record {
  open_incidents = [];
  pending = none;
  stats = record {
    observations = 0;
    candidates = 0;
    inferences = 0;
    skipped_busy = 0;
    incidents = 0;
  };
}

run_from :
    (n : ℕ) (l : List Event) (w : World) → 0 < n → IsSound n w.judge → IsSound n (run n l w).judge
unfolding run
run_from n [] w pos h = h
run_from n (observed env o ∷ l) w pos h =
    run_from n l (on_observation n env o w).1 pos (on_observation-IsSound n env o w pos h)
run_from n (heard env a ∷ l) w pos h =
    run_from n l (on_answer env a w).1 pos (on_answer-IsSound n env a w pos h)

-- However observations and answers follow on each other from a new judge, its counts agree: the inferences,
-- the candidates skipped while one was with the model, and the one that waits are no more than the
-- candidates, the incidents opened likewise, the candidates are no more than the observations, and no open
-- incident has been quiet for `clear_after` observations, which is a positive number.
pub run-IsSound :
    (n : ℕ) (l : List Event) (w : World) → 0 < n → w.judge ≡ new_judge → IsSound n (run n l w).judge
run-IsSound n l w pos fresh =
    run_from n l w pos
      (subst (IsSound n) (sym fresh) (omega arith, (omega arith, (omega arith, tt))))
