-- ===== src/Broker/Authorize/Cases.antt =====
-- The branches of `authorize`, as one rule that every property of it goes through.
use nvidia_omoda.Prelude.{
  ℕ, String, true, false, Option, none, some, [], ◌∷◌, ◌≡◌, refl, ◌≢◌, inl, inr, sym, subst,
  Bool-cases, Option-cases, arith,
}
use nvidia_omoda.Json.{str}
use nvidia_omoda.Domain.Taxonomy.{
  Tier, safe, contained, consequential, undeclared, prohibited, classify,
}
use nvidia_omoda.Domain.Action.{Action}
use nvidia_omoda.Domain.Prohibited.{Rule, prohibited_reason}
use nvidia_omoda.Ledger.{Record, Appended, done, write_error}
use nvidia_omoda.Broker.Decision.{Decision}
use nvidia_omoda.Broker.World.{World, Env, write, note}
use nvidia_omoda.Broker.Authorize.{
  Outcome, refused, rule, not_in_manifest, unknown_verb, unlogged, rule_name, entry, run_safe,
  run_contained, run_consequential, dispatch, admit, govern, authorize,
}

classify-ne-prohibited : (a : Action) → classify a.verb a.impact true false ≢ prohibited
unfolding classify
classify-ne-prohibited a = ground arith

abbrev pub tier_of : Action → Tier
tier_of a = classify a.verb a.impact true false

module _ {ℓ} {S : Type 0} (env : Env S) (a : Action) (d : Option Decision) (now : ℕ) (w : World S)
    (P : Outcome × World S → Type ℓ) where
  -- Both early checks are passed.
  abbrev pub Passed : Type 0
  Passed = (prohibited_reason env.hf_home a ≡ none) × (a.declared ≡ true)

  -- What has to be shown, branch by branch.
  pub record Branches : Type ℓ where
    pub on_prohibited :
        (r : Rule)
        → prohibited_reason env.hf_home a ≡ some r
        → P (
          refused prohibited (rule r),
          note env
              (entry env a prohibited "prohibited" "refused" (("rule", str (rule_name r)) ∷ []))
              w,
        )
    pub on_undeclared :
        prohibited_reason env.hf_home a ≡ none
        → a.declared ≡ false
        → P (
          refused undeclared not_in_manifest,
          note env (entry env a undeclared "denied" "refused" []) w,
        )
    pub on_unknown :
        Passed
        → tier_of a ≡ undeclared
        → P (
          refused undeclared unknown_verb,
          note env (entry env a undeclared "denied" "refused" []) w,
        )
    pub on_unlogged :
        (t : Tier) (m : String)
        → Passed
        → tier_of a ≡ t
        → (write env (entry env a t "pending" "admitted" []) w).0 ≡ write_error m
        → P (refused t (unlogged m), (write env (entry env a t "pending" "admitted" []) w).1)
    pub on_safe :
        (r : Record)
        → Passed
        → tier_of a ≡ safe
        → (write env (entry env a safe "pending" "admitted" []) w).0 ≡ done r
        → P (run_safe env a r (write env (entry env a safe "pending" "admitted" []) w).1)
    pub on_contained :
        (r : Record)
        → Passed
        → tier_of a ≡ contained
        → (write env (entry env a contained "pending" "admitted" []) w).0 ≡ done r
        → P (run_contained env a r (write env (entry env a contained "pending" "admitted" []) w).1)
    pub on_consequential :
        (r : Record)
        → Passed
        → tier_of a ≡ consequential
        → (write env (entry env a consequential "pending" "admitted" []) w).0 ≡ done r
        → P (
            run_consequential env a d now r
              (write env (entry env a consequential "pending" "admitted" []) w).1)

  module _ (c : Branches) where
    admitted :
        (t : Tier)
        → Passed
        → tier_of a ≡ t
        → ((r : Record)
            → (write env (entry env a t "pending" "admitted" []) w).0 ≡ done r
            → P (dispatch env a t d now r (write env (entry env a t "pending" "admitted" []) w).1))
        → P (admit env a t d now w)
    unfolding admit
    admitted t p k on_done = go (write env (entry env a t "pending" "admitted" []) w).0 refl
      where
        go :
            (answer : Appended)
            → (write env (entry env a t "pending" "admitted" []) w).0 ≡ answer
            → P (admit env a t d now w)
        go (write_error m) e = rw (e, admit) (c.on_unlogged t m p k e)
        go (done r) e = rw (e, admit) (on_done r e)

    governed : (t : Tier) → Passed → tier_of a ≡ t → P (govern env a t d now w)
    unfolding govern dispatch
    governed safe p k = admitted safe p k (λ r e. c.on_safe r p k e)
    governed contained p k = admitted contained p k (λ r e. c.on_contained r p k e)
    governed consequential p k = admitted consequential p k (λ r e. c.on_consequential r p k e)
    governed undeclared p k = c.on_unknown p k
    governed prohibited p k = absurd (classify-ne-prohibited a k)

    pub authorize_cases : P (authorize env a d now w)
    unfolding authorize
    authorize_cases = elim (Option-cases (prohibited_reason env.hf_home a)) [
      | inr (r, e) ↦ rw (e, authorize) (c.on_prohibited r e)
      | inl clean ↦ elim (Bool-cases a.declared) [
        | inr undecl ↦ subst P (sym (undeclared_eq clean undecl)) (c.on_undeclared clean undecl)
        | inl decl ↦
            subst P (sym (declared_eq clean decl)) (governed (tier_of a) (clean, decl) refl)
      ]
    ]
      where
        undeclared_eq :
            prohibited_reason env.hf_home a ≡ none
            → a.declared ≡ false
            → authorize env a d now w ≡ (
              refused undeclared not_in_manifest,
              note env (entry env a undeclared "denied" "refused" []) w,
            )
        undeclared_eq clean e = ground arith

        declared_eq :
            prohibited_reason env.hf_home a ≡ none
            → a.declared ≡ true
            → authorize env a d now w ≡ govern env a (tier_of a) d now w
        declared_eq clean e = ground arith
