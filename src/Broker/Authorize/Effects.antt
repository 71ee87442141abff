-- ===== src/Broker/Authorize/Effects.antt =====
-- What `authorize` does besides recording, for each outcome, and that the ledger has the admission
-- record before anything runs.
use nvidia_omoda.Prelude.{
  ℕ, String, false, Option, none, some, List, [], ◌∷◌, ◌++◌, ◌≡◌, refl, ◌≢◌, ◌⊎◌, inl, inr, sym,
  subst, Bool-cases, arith, ap, ◌∙◌,
}
use mathlib.Core.List.{append-nil, append_assoc}
use nvidia_omoda.Json.{Fields}
use nvidia_omoda.Domain.Taxonomy.{Tier, safe, contained, consequential, undeclared, prohibited}
use nvidia_omoda.Domain.Action.{Action}
use nvidia_omoda.Ledger.{Record, done, write_error}
use nvidia_omoda.Policy.Port.{Reply, returned, threw}
use nvidia_omoda.Broker.Decision.{Decision, Denial, verify_decision}
use nvidia_omoda.Broker.World.{
  Event, logged, ran, opened, closed, stuck, World, Env, log, write, note,
}
use nvidia_omoda.Broker.World.Writes.{effects, effects-append, write_cases}
use nvidia_omoda.Broker.Authorize.{
  Reason, unlogged, Outcome, refused, escalated, executed, failed, entry, undo_token, remember,
  run_action, run_safe, run_contained, close_delta, run_decided, materialize, run_consequential,
  authorize, lacks_inverse,
}
use nvidia_omoda.Broker.Authorize.Cases.{tier_of, authorize_cases}

-- An outcome with the events that led to it, records in the ledger left out.
pub data Did (a : Action) : Outcome → List Event → Type 0 where
  refusing : (t : Tier) (why : Reason) → Did a (refused t why) []
  escalating : (r : Record) → Did a (escalated r) []
  free :
      (t : Tier) (by : String) (r : Record) (token : Option String)
      → t ≢ consequential
      → Did a (executed t by r token) (ran a ∷ [])
  decided :
      (by : String) (r : Record) (token : Option String)
      → Did a (executed consequential by r token) (opened ∷ ran a ∷ closed ∷ [])
  not_opened : (m : String) → Did a (failed m) []
  free_failed : (m : String) → Did a (failed m) (ran a ∷ [])
  decided_failed : (m : String) → Did a (failed m) (opened ∷ ran a ∷ closed ∷ [])
  not_closed : (m : String) → Did a (failed m) (opened ∷ ran a ∷ stuck ∷ [])

module _ {S : Type 0} (env : Env S) (a : Action) where
  -- The trace has grown by events that fit the outcome.
  abbrev Doing : World S → Outcome × World S → Type 0
  Doing w p = (t : List Event) × (p.1.trace ≡ w.trace ++ t) × Did a p.0 (effects t)

  note_trace :
      (e : Fields) (w : World S)
      → (t : List Event) × ((note env e w).trace ≡ w.trace ++ t) × (effects t ≡ [])
  unfolding note
  note_trace e w = elim (write_cases env e w) [
    | inl (r, k, grown, m, b) ↦ (logged e ∷ [], grown, refl)
    | inr (m, k, same, h) ↦ ([], same ∙ sym (append-nil w.trace), refl)
  ]

  remember_trace : (r : Record) (w : World S) → (remember env a r w).trace ≡ w.trace
  unfolding remember
  remember_trace r w = ground arith

  -- A record behind the events that were done.
  after_note :
      (w v : World S) (t : List Event) (e : Fields) (out : Outcome)
      → v.trace ≡ w.trace ++ t
      → Did a out (effects t)
      → Doing w (out, note env e v)
  after_note w v t e out grown did =
      let (s, more, silent) = note_trace e v in
      (
        t ++ s,
        more ∙ ap (λ l. l ++ s) grown ∙ append_assoc w.trace t s,
        subst (Did a out)
            (sym (effects-append t s ∙ ap (λ l. effects t ++ l) silent ∙ append-nil (effects t)))
            did,
      )

  after_remember :
      (w v : World S) (r : Record) (out : Outcome)
      → Doing w (out, v)
      → Doing w (out, remember env a r v)
  after_remember w v r out (t, grown, did) = (t, remember_trace r v ∙ grown, did)

  run_safe-Doing : (r : Record) (w : World S) → Doing w (run_safe env a r w)
  unfolding run_safe
  run_safe-Doing r w = go (env.execute a) refl
    where
      go : (reply : Reply) → env.execute a ≡ reply → Doing w (run_safe env a r w)
      go (threw m) e = rw (e, run_safe) (ran a ∷ [], refl, free_failed m)
      go returned e =
          rw (e, run_safe)
            (after_note w (run_action env a w) (ran a ∷ []) _ _ refl
              (free safe "envelope" r none (λ k. cc)))

  run_contained-Doing : (r : Record) (w : World S) → Doing w (run_contained env a r w)
  unfolding run_contained
  run_contained-Doing r w = elim (Bool-cases (lacks_inverse env a)) [
    | inl e ↦ rw (e, run_contained) ([], sym (append-nil w.trace), refusing contained _)
    | inr n ↦ go n (env.execute a) refl
  ]
    where
      go :
          lacks_inverse env a ≡ false
          → (reply : Reply) → env.execute a ≡ reply
          → Doing w (run_contained env a r w)
      go n (threw m) e = rw (n, e, run_contained) (ran a ∷ [], refl, free_failed m)
      go n returned e =
          rw (n, e, run_contained)
            (after_remember w _ r _ (
              after_note w (run_action env a w) (ran a ∷ []) _ _ refl
                (free contained "envelope" r (undo_token a r) (λ k. cc))))

  -- The outcomes of the body of the `try`.
  abbrev Inner : Outcome → Type 0
  Inner out =
      ((m : String) × (out ≡ failed m))
      ⊎ ((by : String) × (r : Record) × (token : Option String) × (out
            ≡ executed consequential by r token))

  abbrev Ran : World S → Outcome × World S → Type 0
  Ran w p = (t : List Event) × (p.1.trace ≡ w.trace ++ t) × (effects t ≡ ran a ∷ []) × Inner p.0

  run_decided-Ran : (d : Decision) (r : Record) (w : World S) → Ran w (run_decided env a d r w)
  unfolding run_decided
  run_decided-Ran d r w = go (env.execute a) refl
    where
      go : (reply : Reply) → env.execute a ≡ reply → Ran w (run_decided env a d r w)
      go (threw m) e = rw (e, run_decided) (ran a ∷ [], refl, refl, inl (m, refl))
      go returned e =
          let (s, more, silent) = note_trace _ (run_action env a w) in
          rw (e, run_decided)
            (
              ran a ∷ s,
              remember_trace r _ ∙ more ∙ append_assoc w.trace (ran a ∷ []) s,
              ap (λ l. ran a ∷ l) silent,
              inr (_, r, undo_token a r, refl),
            )

  Did-closed : (out : Outcome) → Inner out → Did a out (opened ∷ ran a ∷ closed ∷ [])
  Did-closed out (inl (m, e)) = rw e (decided_failed m)
  Did-closed out (inr (by, r, token, e)) = rw e (decided by r token)

  -- The `finally` block behind a body that ran in a world v, which came from w by opening the delta.
  close_delta-Doing :
      (d : Decision) (w v : World S) (p : Outcome × World S)
      → v.trace ≡ w.trace ++ opened ∷ []
      → Ran v p
      → Doing w (close_delta env a d p)
  unfolding close_delta
  close_delta-Doing d w v p start (t, grown, one, inner) =
      go (env.port.revert p.1.policy a d).0 refl
    where
      so_far : p.1.trace ≡ w.trace ++ (opened ∷ t)
      so_far = grown ∙ ap (λ l. l ++ t) start ∙ append_assoc w.trace (opened ∷ []) t

      done_with : (e : Event) → p.1.trace ++ e ∷ [] ≡ w.trace ++ (opened ∷ (t ++ e ∷ []))
      done_with e = ap (λ l. l ++ e ∷ []) so_far ∙ append_assoc w.trace (opened ∷ t) (e ∷ [])

      seen : (e : Event) → effects (opened ∷ (t ++ e ∷ [])) ≡ opened ∷ ran a ∷ effects (e ∷ [])
      seen e =
          ap (λ l. opened ∷ l) (effects-append t (e ∷ []) ∙ ap (λ l. l ++ effects (e ∷ [])) one)

      go :
          (reply : Reply)
          → (env.port.revert p.1.policy a d).0 ≡ reply
          → Doing w (close_delta env a d p)
      go returned e =
          rw (e, close_delta)
            (
              opened ∷ (t ++ closed ∷ []),
              done_with closed,
              subst (Did a p.0) (sym (seen closed)) (Did-closed p.0 inner),
            )
      go (threw m) e =
          rw (e, close_delta)
            (after_note w _ (opened ∷ (t ++ stuck ∷ [])) _ _ (done_with stuck)
              (subst (Did a (failed _)) (sym (seen stuck)) (not_closed _)))

  materialize-Doing : (d : Decision) (r : Record) (w : World S) → Doing w (materialize env a d r w)
  unfolding materialize
  materialize-Doing d r w = go (env.port.apply w.policy a d).0 refl
    where
      go :
          (reply : Reply)
          → (env.port.apply w.policy a d).0 ≡ reply
          → Doing w (materialize env a d r w)
      go (threw m) e = rw (e, materialize) ([], sym (append-nil w.trace), not_opened m)
      go returned e =
          let open_world : World S =
            log env opened (record w { policy = (env.port.apply w.policy a d).1 }) in
          rw (e, materialize)
            (close_delta-Doing d w open_world (run_decided env a d r open_world) refl
              (run_decided-Ran d r open_world))

  run_consequential-Doing :
      (d : Option Decision) (now : ℕ) (r : Record) (w : World S)
      → Doing w (run_consequential env a d now r w)
  unfolding run_consequential
  run_consequential-Doing none now r w = ([], sym (append-nil w.trace), escalating r)
  run_consequential-Doing (some d) now r w = go (verify_decision (some d) a.action_id now) refl
    where
      go :
          (check : Option Denial)
          → verify_decision (some d) a.action_id now ≡ check
          → Doing w (run_consequential env a (some d) now r w)
      go (some why) e =
          rw (e, run_consequential)
            (after_note w w [] _ _ (sym (append-nil w.trace)) (refusing consequential _))
      go none e = elim (Bool-cases (lacks_inverse env a)) [
        | inl m ↦
            rw (e, m, run_consequential) ([], sym (append-nil w.trace), refusing consequential _)
        | inr k ↦ rw (e, k, run_consequential) (materialize-Doing d r w)
      ]

  -- The events of a run: they fit the outcome, and if anything was done, the first of them is the
  -- admission record.
  abbrev pub Journal : World S → Outcome × World S → Type 0
  Journal w p =
      (t : List Event) × (p.1.trace ≡ w.trace ++ t)
      × Did a p.0 (effects t)
      × ((effects t ≡ [])
          ⊎ ((rest : List Event) × (t
                ≡ logged (entry env a (tier_of a) "pending" "admitted" []) ∷ rest)))

  silent_Journal :
      (w : World S) (e : Fields) (t : Tier) (why : Reason) → Journal w (refused t why, note env e w)
  silent_Journal w e t why =
      let (s, more, silent) = note_trace e w in
      (s, more, subst (Did a (refused t why)) (sym silent) (refusing t why), inl silent)

  unlogged_Journal :
      (w : World S) (t : Tier) (m : String)
      → (write env (entry env a t "pending" "admitted" []) w).0 ≡ write_error m
      → Journal w (refused t (unlogged m), (write env (entry env a t "pending" "admitted" []) w).1)
  unlogged_Journal w t m e = elim (write_cases env (entry env a t "pending" "admitted" []) w) [
    | inl (r, bad, _, _, _) ↦ absurd (ground (arith, e, bad))
    | inr (k, _, same, _) ↦ ([], same ∙ sym (append-nil w.trace), refusing t (unlogged m), inl refl)
  ]

  admitted_Journal :
      (w : World S) (t : Tier) (r : Record) (p : Outcome × World S)
      → tier_of a ≡ t
      → (write env (entry env a t "pending" "admitted" []) w).0 ≡ done r
      → Doing (write env (entry env a t "pending" "admitted" []) w).1 p
      → Journal w p
  admitted_Journal w t r p k e (s, grown, did) =
      elim (write_cases env (entry env a t "pending" "admitted" []) w) [
        | inr (m, bad, _, _) ↦ absurd (ground (arith, e, bad))
        | inl (r', _, first, _, _) ↦ (
          logged (entry env a t "pending" "admitted" []) ∷ s,
          grown ∙ ap (λ l. l ++ s) first ∙ append_assoc w.trace _ s,
          did,
          inr (s, ap (λ u. logged (entry env a u "pending" "admitted" []) ∷ s) (sym k)),
        )
      ]

  -- Every run appends to the trace events that fit its outcome: a refusal or an escalation does
  -- nothing, a free execution runs the action once, and a decided one opens the delta, runs the action
  -- once and closes the delta, also when the action throws. If anything was done, then the admission
  -- record was in the ledger before.
  pub authorize-Journal :
      (d : Option Decision) (now : ℕ) (w : World S) → Journal w (authorize env a d now w)
  authorize-Journal d now w = authorize_cases env a d now w (Journal w) (record {
    on_prohibited = λ r e. silent_Journal w _ prohibited _;
    on_undeclared = λ e f. silent_Journal w _ undeclared _;
    on_unknown = λ p k. silent_Journal w _ undeclared _;
    on_unlogged = λ t m p k e. unlogged_Journal w t m e;
    on_safe = λ r p k e.
        admitted_Journal w safe r
          (run_safe env a r (write env (entry env a safe "pending" "admitted" []) w).1) k e
          (run_safe-Doing r (write env (entry env a safe "pending" "admitted" []) w).1);
    on_contained = λ r p k e.
        admitted_Journal w contained r
          (run_contained env a r (write env (entry env a contained "pending" "admitted" []) w).1) k
          e (run_contained-Doing r (write env (entry env a contained "pending" "admitted" []) w).1);
    on_consequential = λ r p k e.
        admitted_Journal w consequential r
          (run_consequential env a d now r
            (write env (entry env a consequential "pending" "admitted" []) w).1)
          k e
          (run_consequential-Doing d now r
            (write env (entry env a consequential "pending" "admitted" []) w).1);
  })
