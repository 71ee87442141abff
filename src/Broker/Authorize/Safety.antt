-- ===== src/Broker/Authorize/Safety.antt =====
-- When `authorize` of src/broker/authorize.js may act, and that it keeps the ledger sound.
use nvidia_omoda.Prelude.{
  ℕ, true, false, Option, none, some, ◌≡◌, refl, [], ◌⊎◌, inl, inr, Bool-cases, Option-cases, arith,
  ◌∙◌,
}
use nvidia_omoda.Domain.Taxonomy.{Tier, safe, contained, consequential}
use nvidia_omoda.Domain.Action.{Action}
use nvidia_omoda.Domain.Prohibited.{prohibited_reason}
use nvidia_omoda.Ledger.{Record, done}
use nvidia_omoda.Broker.Decision.{Decision, verify_decision}
use nvidia_omoda.Broker.Decision.Accepts.{Unlocks, verify_decision_iff}
use nvidia_omoda.Broker.World.{World, Env, write}
use nvidia_omoda.Broker.World.Writes.{effects, write_cases, effects-write, effects-note}
use nvidia_omoda.Broker.Authorize.{
  Outcome, entry, run_contained, run_consequential, authorize, lacks_inverse,
}
use nvidia_omoda.Broker.Authorize.Cases.{tier_of, Passed, authorize_cases}

module _ {S : Type 0} (env : Env S) (a : Action) (d : Option Decision) (now : ℕ) (w : World S) where
  -- What has to hold for the Broker to do anything: the action is declared and not prohibited, the
  -- ledger is not halted, and by tier there is an inverse where one is due and a decision that unlocks
  -- the action.
  abbrev pub Grounds : Type 0
  Grounds =
      (prohibited_reason env.hf_home a ≡ none)
      × (a.declared ≡ true)
      × (w.ledger.broken ≡ false)
      × ((tier_of a ≡ safe)
          ⊎ ((tier_of a ≡ contained) × (lacks_inverse env a ≡ false))
          ⊎ ((tier_of a ≡ consequential)
              × (lacks_inverse env a ≡ false)
              × ((c : Decision) × (d ≡ some c) × Unlocks c a.action_id now)))

  abbrev Lawful : Outcome × World S → Type 0
  Lawful p = Grounds ⊎ (effects p.1.trace ≡ effects w.trace)

  halted :
      (t : Tier) (r : Record)
      → (write env (entry env a t "pending" "admitted" []) w).0 ≡ done r
      → w.ledger.broken ≡ false
  halted t r e = elim (write_cases env (entry env a t "pending" "admitted" []) w) [
    | inl (_, _, _, _, b) ↦ b
    | inr (m, bad, _, _) ↦ absurd (ground (arith, e, bad))
  ]

  contained_Lawful :
      (r : Record)
      → Passed env a d now w Lawful
      → tier_of a ≡ contained
      → (write env (entry env a contained "pending" "admitted" []) w).0 ≡ done r
      → Lawful
          (run_contained env a r (write env (entry env a contained "pending" "admitted" []) w).1)
  unfolding run_contained
  contained_Lawful r p k e = elim (Bool-cases (lacks_inverse env a)) [
    | inl l ↦ inr (rw (l, run_contained) (effects-write env _ w))
    | inr l ↦ inl (p.0, p.1, halted contained r e, inr (inl (k, l)))
  ]

  consequential_Lawful :
      (r : Record) (o : Option Decision)
      → d ≡ o
      → Passed env a d now w Lawful
      → tier_of a ≡ consequential
      → (write env (entry env a consequential "pending" "admitted" []) w).0 ≡ done r
      → Lawful (
          run_consequential env a o now r
            (write env (entry env a consequential "pending" "admitted" []) w).1)
  unfolding run_consequential
  consequential_Lawful r none f p k e = inr (effects-write env _ w)
  consequential_Lawful r (some c) f p k e =
      elim (Option-cases (verify_decision (some c) a.action_id now)) [
        | inr (why, v) ↦
            inr (rw (v, run_consequential) (effects-note env _ _ ∙ effects-write env _ w))
        | inl v ↦ elim (Bool-cases (lacks_inverse env a)) [
          | inl l ↦ inr (rw (v, l, run_consequential) (effects-write env _ w))
          | inr l ↦ inl (
            p.0,
            p.1,
            halted consequential r e,
            inr (inr (k, l, (c, f, (verify_decision_iff c a.action_id now).0 v))),
          )
        ]
      ]

  -- The Broker opens a delta, runs the action or closes a delta only on these grounds: the action is
  -- not prohibited, it is declared, the ledger is not halted, and the action is either safe, or
  -- contained with an inverse where its verb needs one, or consequential with such an inverse and a
  -- decision that unlocks it at this time. In every other case nothing is done besides recording.
  pub authorize-Lawful : Grounds ⊎ (effects (authorize env a d now w).1.trace ≡ effects w.trace)
  authorize-Lawful = authorize_cases env a d now w Lawful (record {
    on_prohibited = λ r e. inr (effects-note env _ w);
    on_undeclared = λ e f. inr (effects-note env _ w);
    on_unknown = λ p k. inr (effects-note env _ w);
    on_unlogged = λ t m p k e. inr (effects-write env _ w);
    on_safe = λ r p k e. inl (p.0, p.1, halted safe r e, inl k);
    on_contained = contained_Lawful;
    on_consequential = λ r p k e. consequential_Lawful r d refl p k e;
  })
