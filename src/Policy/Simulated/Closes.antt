-- ===== src/Policy/Simulated/Closes.antt =====
-- The policy of `createSimulatedPolicy` of src/policy/envelope.js keeps what the Broker asks of a port.
use nvidia_omoda.Prelude.{
  ℕ, ◌+◌, String, Option, none, some, List, [], ◌∷◌, ◌≡◌, ◌≢◌, ◌==◌, true, false, eq_iff, refl, ap,
  sym, ◌∙◌, get_or, Option-cases, inl, inr, arith,
}
use nvidia_omoda.Prelude.Rx.{codes}
use Prim.Native.String
use Prim.Native.String.append
use nvidia_omoda.Prelude.Print.{print_number}
use nvidia_omoda.Prelude.Dict.{get, put, get-put_self, get-put}
use nvidia_omoda.Domain.Action.{Action, Request}
use nvidia_omoda.Broker.Decision.{Decision}
use nvidia_omoda.Policy.Envelope.{Envelope, apply_delta, revert_delta}
use nvidia_omoda.Policy.Envelope.Narrowing.{IsFresh, revert-apply}
use nvidia_omoda.Policy.Port.{returned, threw, Restores}
use nvidia_omoda.Policy.Simulated.{
  Simulated, delta_id, apply_simulated, revert_simulated, simulated_port,
}

-- The next delta id is not in use, and an action without an id finds no delta under the empty id.
abbrev pub IsReady : Simulated → Action → Type 0
IsReady s a =
    IsFresh (delta_id (s.counter + 1)) s.envelope.policies
    × (get (delta_id (s.counter + 1)) s.envelope.deltas ≡ none)
    × (a.action_id ≡ none → get "" s.applied ≡ none)

-- The id that a revert finds for the action is the one that its apply noted.
found_id :
    (o : Option String) (id : String) (m : List (String × String))
    → (o ≡ none → get "" m ≡ none)
    → id == "" ≡ false
    → get_or (get (get_or o "") (put (get_or o id) id m)) id ≡ id
found_id (some k) id m h n = rw (get-put_self k id m) refl
found_id none id m h n = rw (get-put id "" id m, n, h refl) refl

elta : ℕ → String
elta n = String.◌++◌ "elta-" (print_number (n + 1) n)

codes-delta_id : (n : ℕ) → codes (delta_id n) ≡ 100 ∷ codes (elta n)
unfolding delta_id elta
codes-delta_id n = ap codes (append.cons _ "elta-" (print_number (n + 1) n))

nonempty : (c : ℕ) (l : List ℕ) → c ∷ l ≢ []
nonempty c l e = cc

next_real : (s : Simulated) → delta_id (s.counter + 1) == "" ≡ false
next_real s = ground (arith, real)
  where
    real : delta_id (s.counter + 1) == "" ≢ true
    real h = nonempty _ _ (sym (codes-delta_id (s.counter + 1)) ∙ ap codes ((eq_iff _ _).0 h))

not_both : (m : String) → returned ≢ threw m
not_both m h = cc

module _ (s : Simulated) (a : Action) (d : Decision) where
  abbrev next : String
  next = delta_id (s.counter + 1)

  applied_eq :
      (req : Request) (v : Envelope)
      → a.request ≡ some req
      → apply_delta s.envelope next req ≡ some v
      → apply_simulated s a d ≡ (
        returned,
        record {
          envelope = v;
          counter = s.counter + 1;
          applied = put (get_or a.action_id next) next s.applied;
        },
      )
  unfolding apply_simulated
  applied_eq req v e f = rw (e, apply_simulated) (rw (f, apply_simulated) refl)

  unknown_eq :
      (req : Request)
      → a.request ≡ some req
      → apply_delta s.envelope next req ≡ none
      → (apply_simulated s a d).1.envelope ≡ s.envelope
  unfolding apply_simulated
  unknown_eq req e f = rw (e, apply_simulated) (rw (f, apply_simulated) refl)

  requestless_eq : a.request ≡ none → (apply_simulated s a d).1.envelope ≡ s.envelope
  unfolding apply_simulated
  requestless_eq e = rw (e, apply_simulated) refl

  requestless_threw : a.request ≡ none → (apply_simulated s a d).0 ≢ returned
  unfolding apply_simulated
  requestless_threw e = rw (e, apply_simulated) (λ k. cc)

  unknown_threw :
      (req : Request)
      → a.request ≡ some req
      → apply_delta s.envelope next req ≡ none
      → (apply_simulated s a d).0 ≢ returned
  unfolding apply_simulated
  unknown_threw req e f = rw (e, apply_simulated) (rw (f, apply_simulated) (λ k. cc))

  reverted :
      (v : Envelope) (t : Simulated)
      → t ≡ record {
        envelope = v;
        counter = s.counter + 1;
        applied = put (get_or a.action_id next) next s.applied;
      }
      → (a.action_id ≡ none → get "" s.applied ≡ none)
      → revert_delta v next ≡ s.envelope
      → ((revert_simulated t a d).0 ≡ returned) × ((revert_simulated t a d).1.envelope ≡ s.envelope)
  unfolding revert_simulated
  reverted v t e free back =
      rw (e, revert_simulated)
        (refl, ap (revert_delta v) (found_id a.action_id next s.applied free (next_real s)) ∙ back)

-- The simulated policy takes back every delta that it applies, for an action for which it is ready:
-- reverting works and gives the envelope as it was, and a delta that could not be applied leaves the
-- envelope alone.
pub simulated-Restores : Restores simulated_port (λ s. s.envelope) IsReady
simulated-Restores = record { restores = restores; unchanged = unchanged }
  where
    opened :
        (s : Simulated) (a : Action) (d : Decision) (o : Option Request)
        → a.request ≡ o
        → IsReady s a
        → (apply_simulated s a d).0 ≡ returned
        → ((revert_simulated (apply_simulated s a d).1 a d).0 ≡ returned)
          × ((revert_simulated (apply_simulated s a d).1 a d).1.envelope ≡ s.envelope)
    opened s a d none e ready ok = absurd (requestless_threw s a d e ok)
    opened s a d (some req) e (fresh, unused, free) ok =
        elim (Option-cases (apply_delta s.envelope (delta_id (s.counter + 1)) req)) [
          | inl f ↦ absurd (unknown_threw s a d req e f ok)
          | inr (v, f) ↦
              reverted s a d v (apply_simulated s a d).1
                (ap (λ p. p.1) (applied_eq s a d req v e f)) free
                (revert-apply s.envelope v (delta_id (s.counter + 1)) req fresh unused f)
        ]

    restores :
        (s : Simulated) (a : Action) (d : Decision)
        → IsReady s a
        → (apply_simulated s a d).0 ≡ returned
        → ((revert_simulated (apply_simulated s a d).1 a d).0 ≡ returned)
          × ((revert_simulated (apply_simulated s a d).1 a d).1.envelope ≡ s.envelope)
    restores s a d ready ok = opened s a d a.request refl ready ok

    stays :
        (s : Simulated) (a : Action) (d : Decision) (m : String) (o : Option Request)
        → a.request ≡ o
        → (apply_simulated s a d).0 ≡ threw m
        → (apply_simulated s a d).1.envelope ≡ s.envelope
    stays s a d m none e h = requestless_eq s a d e
    stays s a d m (some req) e h =
        elim (Option-cases (apply_delta s.envelope (delta_id (s.counter + 1)) req)) [
          | inl f ↦ unknown_eq s a d req e f
          | inr (v, f) ↦ absurd (not_both m (sym (ap (λ p. p.0) (applied_eq s a d req v e f)) ∙ h))
        ]

    unchanged :
        (s : Simulated) (a : Action) (d : Decision) (m : String)
        → (apply_simulated s a d).0 ≡ threw m
        → (apply_simulated s a d).1.envelope ≡ s.envelope
    unchanged s a d m h = stays s a d m a.request refl h
