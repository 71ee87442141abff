-- ===== src/Broker/Authorize/Closing.antt =====
-- `authorize` of src/broker/authorize.js leaves the policy as it was and the ledger sound.
use nvidia_omoda.Prelude.{
  ℕ, String, true, false, List, Option, none, some, [], ◌≡◌, refl, ap, sym, ◌∙◌, subst, Bool-cases,
  inl, inr,
}
use nvidia_omoda.Json.{Value, Fields, object}
use nvidia_omoda.Domain.Taxonomy.{Tier, safe, contained, consequential}
use nvidia_omoda.Domain.Action.{Action}
use nvidia_omoda.Ledger.{Record}
use nvidia_omoda.Ledger.Chain.{IsSound, hashless}
use nvidia_omoda.Policy.Port.{Reply, returned, threw, Restores}
use nvidia_omoda.Broker.Decision.{Decision, Denial, verify_decision}
use nvidia_omoda.Broker.World.{opened, World, Env, log, write, note}
use nvidia_omoda.Broker.World.Writes.{write_policy, note_policy, write-IsSound, note-IsSound}
use nvidia_omoda.Broker.World.Entry.{hashless-entry_of}
use nvidia_omoda.Broker.Authorize.{
  Outcome, entry, remember, run_action, run_safe, run_contained, close_delta, run_decided,
  materialize, run_consequential, authorize, lacks_inverse,
}
use nvidia_omoda.Broker.Authorize.Cases.{authorize_cases}

module _ {S : Type 0} (env : Env S) (a : Action) where
  -- What a step keeps: the soundness of the ledger.
  abbrev Keeps : World S → World S → Type 0
  Keeps w v = IsSound env.sha256 w.ledger → IsSound env.sha256 v.ledger

  of_entry :
      (t : Tier) (authority outcome : String) (more : List (String × Value))
      → hashless (object more) ≡ true
      → hashless (entry env a t authority outcome more) ≡ true
  of_entry = hashless-entry_of env.sha256 a

  -- And the policy.
  abbrev Same : World S → World S → Type 0
  Same w v = (v.policy ≡ w.policy) × Keeps w v

  remember-Same : (r : Record) (w : World S) → Same w (remember env a r w)
  unfolding remember
  remember-Same r w = go a.inverse refl
    where
      go : (i : Option String) → a.inverse ≡ i → Same w (remember env a r w)
      go none e = rw (e, remember) (refl, λ s. s)
      go (some i) e = rw (e, remember) (refl, λ s. s)

  -- A record after the action, and the undo registered.
  finish_Same :
      (r : Record) (w : World S) (e : Fields)
      → hashless e ≡ true
      → Same w (remember env a r (note env e (run_action env a w)))
  finish_Same r w e own =
      let (p, k) = remember-Same r (note env e (run_action env a w)) in
      (
        p ∙ note_policy env e (run_action env a w),
        λ s. k (note-IsSound env e (run_action env a w) own s),
      )

  run_safe-Same : (r : Record) (w : World S) → Same w (run_safe env a r w).1
  unfolding run_safe
  run_safe-Same r w = go (env.execute a) refl
    where
      go : (reply : Reply) → env.execute a ≡ reply → Same w (run_safe env a r w).1
      go (threw m) e = rw (e, run_safe) (refl, λ s. s)
      go returned e =
          rw (e, run_safe)
            (
              note_policy env _ (run_action env a w),
              note-IsSound env _ (run_action env a w) (of_entry _ _ _ _ refl),
            )

  run_contained-Same : (r : Record) (w : World S) → Same w (run_contained env a r w).1
  unfolding run_contained
  run_contained-Same r w = elim (Bool-cases (lacks_inverse env a)) [
    | inl e ↦ rw (e, run_contained) (refl, λ s. s)
    | inr n ↦ go n (env.execute a) refl
  ]
    where
      go :
          lacks_inverse env a ≡ false
          → (reply : Reply) → env.execute a ≡ reply
          → Same w (run_contained env a r w).1
      go n (threw m) e = rw (n, e, run_contained) (refl, λ s. s)
      go n returned e = rw (n, e, run_contained) (finish_Same r w _ (of_entry _ _ _ _ refl))

  run_decided-Same : (d : Decision) (r : Record) (w : World S) → Same w (run_decided env a d r w).1
  unfolding run_decided
  run_decided-Same d r w = go (env.execute a) refl
    where
      go : (reply : Reply) → env.execute a ≡ reply → Same w (run_decided env a d r w).1
      go (threw m) e = rw (e, run_decided) (refl, λ s. s)
      go returned e = rw (e, run_decided) (finish_Same r w _ (of_entry _ _ _ _ refl))

  close_delta-Keeps : (d : Decision) (p : Outcome × World S) → Keeps p.1 (close_delta env a d p).1
  unfolding close_delta
  close_delta-Keeps d p = go (env.port.revert p.1.policy a d).0 refl
    where
      go :
          (reply : Reply)
          → (env.port.revert p.1.policy a d).0 ≡ reply
          → Keeps p.1 (close_delta env a d p).1
      go returned e = rw (e, close_delta) (λ s. s)
      go (threw m) e = rw (e, close_delta) (λ s. note-IsSound env _ _ (of_entry _ _ _ _ refl) s)

  materialize-Keeps :
      (d : Decision) (r : Record) (w : World S) → Keeps w (materialize env a d r w).1
  unfolding materialize
  materialize-Keeps d r w = go (env.port.apply w.policy a d).0 refl
    where
      go :
          (reply : Reply)
          → (env.port.apply w.policy a d).0 ≡ reply
          → Keeps w (materialize env a d r w).1
      go (threw m) e = rw (e, materialize) (λ s. s)
      go returned e =
          let open_world : World S =
            log env opened (record w { policy = (env.port.apply w.policy a d).1 }) in
          rw (e, materialize)
            (λ s.
              close_delta-Keeps d (run_decided env a d r open_world)
                ((run_decided-Same d r open_world).1 s))

  run_consequential-Keeps :
      (d : Option Decision) (now : ℕ) (r : Record) (w : World S)
      → Keeps w (run_consequential env a d now r w).1
  unfolding run_consequential
  run_consequential-Keeps none now r w = λ s. s
  run_consequential-Keeps (some d) now r w = go (verify_decision (some d) a.action_id now) refl
    where
      go :
          (check : Option Denial)
          → verify_decision (some d) a.action_id now ≡ check
          → Keeps w (run_consequential env a (some d) now r w).1
      go (some why) e = rw (e, run_consequential) (note-IsSound env _ w (of_entry _ _ _ _ refl))
      go none e = elim (Bool-cases (lacks_inverse env a)) [
        | inl m ↦ rw (e, m, run_consequential) (λ s. s)
        | inr k ↦ rw (e, k, run_consequential) (materialize-Keeps d r w)
      ]

  -- Whatever the action, the decision, the disk, the policy and the executor do, authorizing an action
  -- keeps a sound ledger sound.
  pub authorize-IsSound :
      (d : Option Decision) (now : ℕ) (w : World S)
      → IsSound env.sha256 w.ledger
      → IsSound env.sha256 (authorize env a d now w).1.ledger
  authorize-IsSound d now w =
      authorize_cases env a d now w (λ p. Keeps w p.1)
        (record {
          on_prohibited = λ r e. note-IsSound env _ w (of_entry _ _ _ _ refl);
          on_undeclared = λ e f. note-IsSound env _ w (of_entry _ _ _ _ refl);
          on_unknown = λ p k. note-IsSound env _ w (of_entry _ _ _ _ refl);
          on_unlogged = λ t m p k e. write-IsSound env _ w (of_entry _ _ _ _ refl);
          on_safe = λ r p k e. λ s.
              (run_safe-Same r (admitted w safe)).1
                (write-IsSound env _ w (of_entry _ _ _ _ refl) s);
          on_contained = λ r p k e. λ s.
              (run_contained-Same r (admitted w contained)).1
                (write-IsSound env _ w (of_entry _ _ _ _ refl) s);
          on_consequential = λ r p k e. λ s.
              run_consequential-Keeps d now r (admitted w consequential)
                (write-IsSound env _ w (of_entry _ _ _ _ refl) s);
        })
    where
      admitted : World S → Tier → World S
      admitted w t = (write env (entry env a t "pending" "admitted" []) w).1

  module _ {V : Type 0} (grants : S → V) (Good : S → Action → Type 0)
      (law : Restores env.port grants Good) where
    close_delta_grants :
        (d : Decision) (s : S) (p : Outcome × World S)
        → Good s a
        → (env.port.apply s a d).0 ≡ returned
        → p.1.policy ≡ (env.port.apply s a d).1
        → grants (close_delta env a d p).1.policy ≡ grants s
    unfolding close_delta
    close_delta_grants d s p good ok same =
        let (closes, back) = law.restores s a d good ok in
        let e : (env.port.revert p.1.policy a d).0 ≡ returned =
          ap (λ x. (env.port.revert x a d).0) same ∙ closes in
        rw (e, close_delta) (ap (λ x. grants (env.port.revert x a d).1) same ∙ back)

    materialize_grants :
        (d : Decision) (r : Record) (w : World S)
        → Good w.policy a
        → grants (materialize env a d r w).1.policy ≡ grants w.policy
    unfolding materialize
    materialize_grants d r w good = go (env.port.apply w.policy a d).0 refl
      where
        go :
            (reply : Reply)
            → (env.port.apply w.policy a d).0 ≡ reply
            → grants (materialize env a d r w).1.policy ≡ grants w.policy
        go (threw m) e = rw (e, materialize) (law.unchanged w.policy a d m e)
        go returned e =
            let open_world : World S =
              log env opened (record w { policy = (env.port.apply w.policy a d).1 }) in
            rw (e, materialize)
              (close_delta_grants d w.policy (run_decided env a d r open_world) good e
                (run_decided-Same d r open_world).0)

    run_consequential_grants :
        (d : Option Decision) (now : ℕ) (r : Record) (w : World S)
        → Good w.policy a
        → grants (run_consequential env a d now r w).1.policy ≡ grants w.policy
    unfolding run_consequential
    run_consequential_grants none now r w good = refl
    run_consequential_grants (some d) now r w good =
        go (verify_decision (some d) a.action_id now) refl
      where
        go :
            (check : Option Denial)
            → verify_decision (some d) a.action_id now ≡ check
            → grants (run_consequential env a (some d) now r w).1.policy ≡ grants w.policy
        go (some why) e = rw (e, run_consequential) (ap grants (note_policy env _ w))
        go none e = elim (Bool-cases (lacks_inverse env a)) [
          | inl m ↦ rw (e, m, run_consequential) refl
          | inr k ↦ rw (e, k, run_consequential) (materialize_grants d r w good)
        ]

    -- If the policy takes back the deltas it applied, then it grants after an authorization what it
    -- granted before, whatever the outcome: no capability stays open, also when the action throws.
    pub authorize-grants :
        (d : Option Decision) (now : ℕ) (w : World S)
        → Good w.policy a
        → grants (authorize env a d now w).1.policy ≡ grants w.policy
    authorize-grants d now w good =
        authorize_cases env a d now w (λ p. grants p.1.policy ≡ grants w.policy)
          (record {
            on_prohibited = λ r e. ap grants (note_policy env _ w);
            on_undeclared = λ e f. ap grants (note_policy env _ w);
            on_unknown = λ p k. ap grants (note_policy env _ w);
            on_unlogged = λ t m p k e. ap grants (write_policy env _ w);
            on_safe =
                λ r p k e. ap grants ((run_safe-Same r (admitted safe)).0 ∙ write_policy env _ w);
            on_contained = λ r p k e.
                ap grants ((run_contained-Same r (admitted contained)).0 ∙ write_policy env _ w);
            on_consequential = λ r p k e.
                run_consequential_grants d now r (admitted consequential)
                  (subst (λ x. Good x a) (sym (write_policy env _ w)) good)
                ∙ ap grants (write_policy env _ w);
          })
      where
        admitted : Tier → World S
        admitted t = (write env (entry env a t "pending" "admitted" []) w).1
