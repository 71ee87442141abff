-- ===== src/Api/Intents/Final.antt =====
-- A settled decision of src/api/intents.js is the last one on its action.
use nvidia_omoda.Prelude.{
  ℕ, String, Bool, true, false, Option, none, some, List, [], ◌∷◌, ◌++◌, ◌≡◌, ◌⊎◌, inl, inr, refl,
  sym, ap, ◌∙◌, subst, includes, length, leb, Bool-cases, Option-cases, ◌≢◌, arith,
}
use nvidia_omoda.Prelude.Dict.{get}
use nvidia_omoda.Broker.Decision.{Decision, same_text}
use nvidia_omoda.Api.Intents.{Intent, Intents, propose, update, await_consent}
use nvidia_omoda.Api.Intents.Decide.{
  Ballot, Decided, turned_down, recorded, key_of, approvers_of, key, deny, approve, decide_open,
  approve_refusal, decide_refusal, decide, quorum_for, kind_of,
}
use nvidia_omoda.Api.Intents.Quorum.{includes_last, includes_snoc}
use nvidia_omoda.Api.Intents.Steps.{Call, proposing, updating, awaiting, deciding, step, steps}

abbrev pub IsFinal : String → Intents → Type 0
IsFinal k store = includes store.final_actions k ≡ true

abbrev pub is_turned_down : Decided → Bool
is_turned_down (turned_down n why) = true
is_turned_down (recorded d) = false

module _ (single : Bool) (did : String) (now : ℕ) (b : Ballot) (store : Intents) where
  needed_of : Intent → ℕ
  needed_of i = quorum_for (kind_of i.actions b.action_id)

  -- The caller is turned down and the store stays.
  abbrev pub Declines : Decided × Intents → Type 0
  Declines p = (is_turned_down p.0 ≡ true) × (p.1 ≡ store)

  -- What `decide` may do on an intent: turn the caller down, deny or approve.
  open_answers :
      (i : Intent)
      → Declines (decide_open single did now b i store)
        ⊎ (decide_open single did now b i store ≡ deny single did now b (needed_of i) i store)
        ⊎ (decide_open single did now b i store ≡ approve single did now b (needed_of i) i store)
  unfolding decide_open needed_of
  open_answers i = elim (Bool-cases (same_text b.verdict (some "approve"))) [
    | inr v ↦ inr (inl (rw (v, decide_open) refl))
    | inl v ↦
        elim (Option-cases
          (approve_refusal single did now b (kind_of i.actions b.action_id) store)) [
            | inl f ↦ inr (inr (rw (v, decide_open) (rw (f, decide_open) refl)))
            | inr (p, f) ↦ inl (rw (v, decide_open) (rw (f, decide_open) (refl, refl)))
          ]
  ]

  found_answers :
      (i : Intent)
      → get b.intent_id store.by_id ≡ some i
      → Declines (decide single did now b store)
        ⊎ (decide single did now b store ≡ decide_open single did now b i store)
  unfolding decide
  found_answers i e = elim (Option-cases (decide_refusal single did now b i store)) [
    | inl f ↦ inr (rw (e, decide) (rw (f, decide) refl))
    | inr (p, f) ↦ inl (rw (e, decide) (rw (f, decide) (refl, refl)))
  ]

  decide_answers :
      Declines (decide single did now b store)
      ⊎ ((i : Intent) × (decide single did now b store ≡ decide_open single did now b i store))
  unfolding decide
  decide_answers = go (get b.intent_id store.by_id) refl
    where
      go :
          (o : Option Intent)
          → get b.intent_id store.by_id ≡ o
          → Declines (decide single did now b store)
            ⊎ ((i : Intent) × (decide single did now b store
                  ≡ decide_open single did now b i store))
      go none e = inl (rw (e, decide) (refl, refl))
      go (some i) e = elim (found_answers i e) [ inl d ↦ inl d | inr f ↦ inr (i, f) ]

  decide_refusal-some :
      (i : Intent)
      → IsFinal (key_of b.intent_id b.action_id) store
      → decide_refusal single did now b i store ≢ none
  unfolding decide_refusal
  decide_refusal-some i f n = ground (arith, f, n)

  -- An action that is final is not decided again.
  decide_final :
      IsFinal (key_of b.intent_id b.action_id) store → Declines (decide single did now b store)
  unfolding decide
  decide_final f = go (get b.intent_id store.by_id) refl
    where
      found :
          (i : Intent)
          → get b.intent_id store.by_id ≡ some i
          → (o : Option (ℕ × String)) → decide_refusal single did now b i store ≡ o
          → Declines (decide single did now b store)
      found i e none g = absurd (decide_refusal-some i f g)
      found i e (some (n, why)) g = rw (e, decide) (rw (g, decide) (refl, refl))

      go :
          (o : Option Intent)
          → get b.intent_id store.by_id ≡ o
          → Declines (decide single did now b store)
      go none e = rw (e, decide) (refl, refl)
      go (some i) e = found i e (decide_refusal single did now b i store) refl

  -- A recorded decision that is settled makes its action final.
  deny-IsFinal :
      (needed : ℕ) (i : Intent)
      → IsFinal (key_of b.intent_id b.action_id) (deny single did now b needed i store).1
  unfolding deny
  deny-IsFinal needed i = includes_last store.final_actions (key_of b.intent_id b.action_id)

  approve-IsFinal :
      (needed : ℕ) (i : Intent) (d : Decision)
      → (approve single did now b needed i store).0 ≡ recorded d
      → d.settled ≡ some true
      → IsFinal (key_of b.intent_id b.action_id) (approve single did now b needed i store).1
  unfolding approve
  approve-IsFinal needed i d e s =
      elim (Bool-cases (
        leb needed
          (length (approvers_of (key_of b.intent_id b.action_id) store ++ b.caller.id ∷ [])))) [
            | inl enough ↦
                rw enough (includes_last store.final_actions (key_of b.intent_id b.action_id))
            | inr short ↦ absurd (ground (arith, e, s, short))
          ]

  decide-IsFinal :
      (d : Decision)
      → (decide single did now b store).0 ≡ recorded d
      → d.settled ≡ some true
      → IsFinal (key_of b.intent_id b.action_id) (decide single did now b store).1
  decide-IsFinal d e s = elim decide_answers [
    | inl (down, same) ↦ absurd (ground (arith, e, down))
    | inr (i, f) ↦ elim (open_answers i) [
      | inl (down, same) ↦ absurd (ground (arith, sym (ap (λ p. p.0) f) ∙ e, down))
      | inr (inl g) ↦
          subst (λ p. IsFinal (key_of b.intent_id b.action_id) p.1) (sym (f ∙ g))
            (deny-IsFinal (needed_of i) i)
      | inr (inr g) ↦
          subst (λ p. IsFinal (key_of b.intent_id b.action_id) p.1) (sym (f ∙ g))
            (approve-IsFinal (needed_of i) i d (sym (ap (λ p. p.0) (f ∙ g)) ∙ e) s)
    ]
  ]

  deny_keeps :
      (needed : ℕ) (i : Intent) (k : String)
      → IsFinal k store
      → IsFinal k (deny single did now b needed i store).1
  unfolding deny
  deny_keeps needed i k h = includes_snoc store.final_actions (key_of b.intent_id b.action_id) k h

  approve_keeps :
      (needed : ℕ) (i : Intent) (k : String)
      → IsFinal k store
      → IsFinal k (approve single did now b needed i store).1
  unfolding approve
  approve_keeps needed i k h =
      elim (Bool-cases (
        leb needed
          (length (approvers_of (key_of b.intent_id b.action_id) store ++ b.caller.id ∷ [])))) [
            | inl enough ↦
                rw enough (includes_snoc store.final_actions (key_of b.intent_id b.action_id) k h)
            | inr short ↦ rw short h
          ]

  decide_keeps : (k : String) → IsFinal k store → IsFinal k (decide single did now b store).1
  decide_keeps k h = elim decide_answers [
    | inl (down, same) ↦ subst (IsFinal k) (sym same) h
    | inr (i, f) ↦ elim (open_answers i) [
      | inl (down, same) ↦ subst (IsFinal k) (sym (ap (λ p. p.1) f ∙ same)) h
      | inr (inl g) ↦ subst (λ p. IsFinal k p.1) (sym (f ∙ g)) (deny_keeps (needed_of i) i k h)
      | inr (inr g) ↦ subst (λ p. IsFinal k p.1) (sym (f ∙ g)) (approve_keeps (needed_of i) i k h)
    ]
  ]

step_keeps :
    (single : Bool) (c : Call) (store : Intents) (k : String)
    → IsFinal k store
    → IsFinal k (step single c store)
unfolding propose update await_consent
step_keeps single (proposing id now key body caller envelope) store k h = ground (arith, h)
step_keeps single (updating now id body caller) store k h = ground (arith, h)
step_keeps single (awaiting id a) store k h = ground (arith, h)
step_keeps single (deciding id now b) store k h = decide_keeps single id now b store k h

steps_keep :
    (single : Bool) (cs : List Call) (store : Intents) (k : String)
    → IsFinal k store
    → IsFinal k (steps single cs store)
steps_keep single [] store k h = h
steps_keep single (c ∷ cs) store k h =
    steps_keep single cs (step single c store) k (step_keeps single c store k h)

-- Once a settled decision is recorded on an action, by quorum or by a denial, every later decision on
-- that action of that intent is turned down and leaves the store as it is, whatever happened in
-- between.
pub settled_last :
    (single : Bool) (did did' : String) (now now' : ℕ) (b b' : Ballot) (store : Intents)
    (d : Decision) (between : List Call)
    → (decide single did now b store).0 ≡ recorded d
    → d.settled ≡ some true
    → key_of b'.intent_id b'.action_id ≡ key_of b.intent_id b.action_id
    → let mid = steps single between (decide single did now b store).1 in
      (is_turned_down (decide single did' now' b' mid).0 ≡ true)
      × ((decide single did' now' b' mid).1 ≡ mid)
settled_last single did did' now now' b b' store d between e s same =
    decide_final single did' now' b' (steps single between (decide single did now b store).1) (
      subst (λ k. IsFinal k (steps single between (decide single did now b store).1)) (sym same)
        (steps_keep single between (decide single did now b store).1
          (key_of b.intent_id b.action_id) (decide-IsFinal single did now b store d e s)))
