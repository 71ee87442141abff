-- ===== src/Api/Dialer/Connected.antt =====
-- How many connections a dialer of src/api/stream.js has.
use nvidia_omoda.Prelude.{ℕ, ◌+◌, ◌≤◌, List, [], ◌∷◌, All, arith, eqb, if-both}
use nvidia_omoda.Api.Dialer.{
  Dialer, Event, start, stop, opened, closed, due, step, on_close, on_due, new_dialer,
}

unfoldable pub run : ℕ → ℕ → List Event → Dialer → Dialer
unfolding step
run reconnect max [] d = d
run reconnect max (e ∷ l) d = run reconnect max l (step reconnect max e d)

abbrev NoStart : Event → Type 0
NoStart start = ⊥
NoStart _ = Unit

-- Every delay that a redial was given lies between the two limits.
abbrev pub InTime : ℕ → ℕ → Dialer → Type 0
InTime reconnect max d = All (λ w. (reconnect ≤ w) × (w ≤ max)) d.waits

-- One connection, or one redial that is due; and the backoff and every delay so far between the two limits.
abbrev pub IsSingle : ℕ → ℕ → Dialer → Type 0
IsSingle reconnect max d =
    (d.live + d.timers ≤ 1) × ((reconnect ≤ d.backoff) × (d.backoff ≤ max)) × InTime reconnect max d

step-IsSingle :
    (reconnect max : ℕ) (e : Event) (d : Dialer)
    → reconnect ≤ max
    → NoStart e
    → IsSingle reconnect max d
    → IsSingle reconnect max (step reconnect max e d)
unfolding step on_close on_due
step-IsSingle reconnect max start d le n h = absurd n
step-IsSingle reconnect max stop d le n (a, (b, c), k) = (omega (arith, a), (b, c), k)
step-IsSingle reconnect max opened d le n (a, (b, c), k) =
    (ground (arith, a), (ground (arith, b), ground (arith, c, le)), waits)
  where
    waits : InTime reconnect max (step reconnect max opened d)
    waits = if-both (InTime reconnect max) (eqb d.live 0) d (record d { backoff = reconnect }) k k
step-IsSingle reconnect max closed d le n (a, (b, c), k) =
    (ground (arith, a), (ground (arith, b, le), ground (arith, c)), waits)
  where
    waits : InTime reconnect max (step reconnect max closed d)
    waits =
        if-both (InTime reconnect max) (eqb d.live 0) d (on_close max d) k
          (if-both (InTime reconnect max) d.running _ _ ((b, c), k) k)
step-IsSingle reconnect max due d le n (a, (b, c), k) =
    (ground (arith, a), (ground (arith, b), ground (arith, c)), waits)
  where
    waits : InTime reconnect max (step reconnect max due d)
    waits =
        if-both (InTime reconnect max) (eqb d.timers 0) d (on_due d) k
          (if-both (InTime reconnect max) d.running _ _ k k)

run-IsSingle :
    (reconnect max : ℕ) (l : List Event) (d : Dialer)
    → reconnect ≤ max
    → All NoStart l
    → IsSingle reconnect max d
    → IsSingle reconnect max (run reconnect max l d)
unfolding run
run-IsSingle reconnect max [] d le n h = h
run-IsSingle reconnect max (e ∷ l) d le n h =
    run-IsSingle reconnect max l (step reconnect max e d) le n.1
      (step-IsSingle reconnect max e d le n.0 h)

-- A dialer that is started once has at most one connection or one redial that is due, whatever happens to it, and every
-- delay that it gave to a redial is at least the first and at most the longest time.
pub started-IsSingle :
    (reconnect max : ℕ) (l : List Event)
    → reconnect ≤ max
    → All NoStart l
    → IsSingle reconnect max (run reconnect max l (step reconnect max start (new_dialer reconnect)))
unfolding step
started-IsSingle reconnect max l le n =
    run-IsSingle reconnect max l (step reconnect max start (new_dialer reconnect)) le n
      (omega arith, (omega arith, omega (arith, le)), tt)
