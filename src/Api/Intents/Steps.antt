-- ===== src/Api/Intents/Steps.antt =====
-- Any sequence of operations on the store of src/api/intents.js, and what holds behind it.
use nvidia_omoda.Prelude.{
  Bool-cases, Option-cases, ℕ, ◌≤◌, String, Bool, true, false, Option, none, some, List, [], ◌∷◌,
  ◌++◌, ◌==◌, ◌≡◌, ◌≢◌, ◌⊎◌, inl, inr, refl, sym, subst, includes, length, leb, All, All-append,
  Memᴰ, arith, if-both, eq_iff,
}
use nvidia_omoda.Prelude.Dict.{get, put}
use nvidia_omoda.Json.{Value, Fields}
use nvidia_omoda.Domain.Action.{Action}
use nvidia_omoda.Broker.Decision.{Quorum, Decision, same_text, verify_decision}
use nvidia_omoda.Broker.Decision.Accepts.{Unlocks, verify_decision_iff}
use nvidia_omoda.Api.Intents.{
  State, proposed, awaiting_consent, Caller, Intent, Intents, no_intents, propose, update,
  await_consent, new_intent, patched, patch_of, update_refusal, known_key,
}
use nvidia_omoda.Api.Intents.Decide.{
  Ballot, key_of, make_decision, approvers_of, key, deny, approve, decide_open, approve_refusal,
  decide_refusal, decide, quorum_for, kind_of,
}
use nvidia_omoda.Api.Intents.Quorum.{
  Approvers, join, who_joined, who, Distinct, Backed, Trusted, includes_last, Trusted-join,
  Trusted-put, All-Backed-join,
}

-- One call of an operation that changes the store, with the id and the time that it reads.
pub data Call : Type 0 where
  proposing : String → String → Option String → Fields → Caller → Value → Call
  updating : String → String → Fields → Caller → Call
  awaiting : String → Action → Call
  deciding : String → ℕ → Ballot → Call

abbrev pub step : Bool → Call → Intents → Intents
step single (proposing id now key body caller envelope) store =
    (propose id now key body caller envelope store).store
step single (updating now id body caller) store = (update now id body caller store).1
step single (awaiting id action) store = await_consent id action store
step single (deciding id now b) store = (decide single id now b store).1

abbrev pub steps : Bool → List Call → Intents → Intents
steps single [] store = store
steps single (c ∷ cs) store = steps single cs (step single c store)

abbrev IsTrusted : Intents → Type 0
IsTrusted store = Trusted store.approvers_by_action store.by_id

propose-IsTrusted :
    (id now : String) (key : Option String) (body : Fields) (caller : Caller) (envelope : Value)
    (store : Intents)
    → IsTrusted store
    → IsTrusted (propose id now key body caller envelope store).store
unfolding propose new_intent
propose-IsTrusted id now key body caller envelope store t = go (known_key key store) refl
  where
    go :
        (o : Option String)
        → known_key key store ≡ o
        → IsTrusted (propose id now key body caller envelope store).store
    go (some old) e = rw (e, propose) t
    go none e = rw (e, propose) (Trusted-put store.approvers_by_action store.by_id id _ t tt)

-- An operation that puts an intent back with its proposer and its decisions.
module _ (store : Intents) (t : IsTrusted store) (id : String) (i new : Intent)
    (e : get id store.by_id ≡ some i) where
  put_back :
      new.proposed_by ≡ i.proposed_by
      → new.decisions ≡ i.decisions
      → Trusted store.approvers_by_action (put id new store.by_id)
  put_back p d = Trusted-put store.approvers_by_action store.by_id id new t (
      subst (λ l. All (Backed store.approvers_by_action id new.proposed_by) l) (sym d)
        (subst (λ x. All (Backed store.approvers_by_action id x) i.decisions) (sym p)
          (t.backed id i e)))

await_consent-IsTrusted :
    (id : String) (a : Action) (store : Intents)
    → IsTrusted store
    → IsTrusted (await_consent id a store)
unfolding await_consent
await_consent-IsTrusted id a store t = go (get id store.by_id) refl
  where
    go : (o : Option Intent) → get id store.by_id ≡ o → IsTrusted (await_consent id a store)
    go none e = rw (e, await_consent) t
    go (some i) e = rw (e, await_consent) (put_back store t id i _ e refl refl)

module _ (now id : String) (body : Fields) (caller : Caller) (store : Intents)
    (t : IsTrusted store) where
  update_cases :
      (i : Intent)
      → get id store.by_id ≡ some i
      → ((update now id body caller store).1 ≡ store)
        ⊎ ((update now id body caller store).1
            ≡ record store { by_id = put id (patched now caller (patch_of i body) i) store.by_id })
  unfolding update
  update_cases i e = go (update_refusal i body caller) refl
    where
      go :
          (o : Option (ℕ × String))
          → update_refusal i body caller ≡ o
          → ((update now id body caller store).1 ≡ store)
            ⊎ ((update now id body caller store).1 ≡ record store {
              by_id = put id (patched now caller (patch_of i body) i) store.by_id;
            })
      go (some (n, why)) f = inl (rw (e, update) (rw (f, update) refl))
      go none f = inr (rw (e, update) (rw (f, update) refl))

  update_found :
      (i : Intent) → get id store.by_id ≡ some i → IsTrusted (update now id body caller store).1
  unfolding patched
  update_found i e =
      let new : Intent = patched now caller (patch_of i body) i in
      let back : IsTrusted (record store { by_id = put id new store.by_id }) =
        put_back store t id i new e refl refl in
      elim (update_cases i e) [
        | inl same ↦ subst IsTrusted (sym same) t
        | inr changed ↦ subst IsTrusted (sym changed) back
      ]

  update-IsTrusted : IsTrusted (update now id body caller store).1
  unfolding update
  update-IsTrusted = go (get id store.by_id) refl
    where
      go :
          (o : Option Intent)
          → get id store.by_id ≡ o
          → IsTrusted (update now id body caller store).1
      go none e = rw (e, update) t
      go (some i) e = update_found i e

same_text_approve : (v : Option String) → v ≡ some "approve" → same_text v (some "approve") ≡ true
same_text_approve v e = rw e refl

-- A decision recorded on an intent that is there.
module _ (single : Bool) (did : String) (now : ℕ) (b : Ballot) (store : Intents)
    (t : IsTrusted store) where
  module _ (i : Intent) (e : get b.intent_id store.by_id ≡ some i)
      (n : b.caller.id ≢ i.proposed_by) where
    deny-IsTrusted :
        (needed : ℕ)
        → same_text b.verdict (some "approve") ≡ false
        → IsTrusted (deny single did now b needed i store).1
    unfolding deny
    deny-IsTrusted needed v = Trusted-put store.approvers_by_action store.by_id b.intent_id _ t (
        All-append (Backed store.approvers_by_action b.intent_id i.proposed_by) i.decisions _
          (t.backed b.intent_id i e)
          (
            record {
              decider = b.caller.id;
              decided = refl;
              apart = n;
              counted = λ yes. absurd (ground (arith, v, yes, same_text_approve b.verdict));
            },
            tt,
          ))

    approve-IsTrusted :
        (needed : ℕ)
        → includes (approvers_of (key single did now b) store) b.caller.id ≡ false
        → IsTrusted (approve single did now b needed i store).1
    unfolding approve
    approve-IsTrusted needed f =
        if-both IsTrusted (leb needed (length (approvers ++ b.caller.id ∷ []))) _ _
          (put_new proposed) (put_new awaiting_consent)
      where
        k : String
        k = key_of b.intent_id b.action_id

        approvers : List String
        approvers = who k store.approvers_by_action

        counts : Approvers
        counts = join k b.caller.id store.approvers_by_action

        decision : Decision
        decision =
            make_decision did now b i (leb needed (length (approvers ++ b.caller.id ∷ []))) needed
              (length (approvers ++ b.caller.id ∷ []))

        decision_backed : Backed counts b.intent_id i.proposed_by decision
        decision_backed = record {
          decider = b.caller.id;
          decided = refl;
          apart = n;
          counted = λ v. (
            record { needed = needed; have = length (approvers ++ b.caller.id ∷ []) },
            refl,
            rw (who_joined k b.caller.id store.approvers_by_action)
                (includes_last approvers b.caller.id),
            refl,
            rw (who_joined k b.caller.id store.approvers_by_action) (omega arith),
          );
        }

        put_new :
            (s : State)
            → Trusted counts (
                put b.intent_id
                  (record i { decisions = i.decisions ++ decision ∷ []; state = s })
                  store.by_id)
        put_new s =
            Trusted-put counts store.by_id b.intent_id _
              (Trusted-join k b.caller.id store.approvers_by_action store.by_id f t)
              (All-append (Backed counts b.intent_id i.proposed_by) i.decisions (decision ∷ [])
                (All-Backed-join k b.caller.id store.approvers_by_action b.intent_id i.proposed_by
                  i.decisions (t.backed b.intent_id i e))
                (decision_backed, tt))

    approve_refusal-none :
        (o : Option (ℕ × String))
        → approve_refusal single did now b (kind_of i.actions b.action_id) store ≡ o
        → o ≡ none
        → includes (approvers_of (key single did now b) store) b.caller.id ≡ false
    unfolding approve_refusal
    approve_refusal-none o f n = ground (arith, f, n)

    decide_open_cases :
        ((decide_open single did now b i store).1 ≡ store)
        ⊎ ((same_text b.verdict (some "approve") ≡ false)
            × ((decide_open single did now b i store).1
                ≡ (deny single did now b (quorum_for (kind_of i.actions b.action_id)) i store).1))
        ⊎ ((includes (approvers_of (key single did now b) store) b.caller.id ≡ false)
            × ((decide_open single did now b i store).1
                ≡ (approve single did now b
                    (quorum_for (kind_of i.actions b.action_id))
                    i
                    store).1))
    unfolding decide_open
    decide_open_cases = elim (Bool-cases (same_text b.verdict (some "approve"))) [
      | inr v ↦ inr (inl (v, rw (v, decide_open) refl))
      | inl v ↦
          elim (Option-cases
            (approve_refusal single did now b (kind_of i.actions b.action_id) store)) [
              | inl f ↦ inr (
                  inr
                    (approve_refusal-none _ refl f, rw (v, decide_open) (rw (f, decide_open) refl)))
              | inr (p, f) ↦ inl (rw (v, decide_open) (rw (f, decide_open) refl))
            ]
    ]

    decide_open-IsTrusted : IsTrusted (decide_open single did now b i store).1
    decide_open-IsTrusted = elim decide_open_cases [
      | inl same ↦ subst IsTrusted (sym same) t
      | inr (inl (v, f)) ↦ subst IsTrusted (sym f) (deny-IsTrusted _ v)
      | inr (inr (v, f)) ↦ subst IsTrusted (sym f) (approve-IsTrusted _ v)
    ]

  decide_refusal-none :
      (i : Intent)
      → decide_refusal single did now b i store ≡ none
      → (b.caller.id == i.proposed_by ≡ false)
        × (includes store.final_actions (key single did now b) ≡ false)
  unfolding decide_refusal
  decide_refusal-none i f = (ground (arith, f), ground (arith, f))

  decide_cases :
      (i : Intent)
      → get b.intent_id store.by_id ≡ some i
      → ((decide single did now b store).1 ≡ store)
        ⊎ ((b.caller.id == i.proposed_by ≡ false)
            × ((decide single did now b store).1 ≡ (decide_open single did now b i store).1))
  unfolding decide
  decide_cases i e = elim (Option-cases (decide_refusal single did now b i store)) [
    | inl f ↦ inr ((decide_refusal-none i f).0, rw (e, decide) (rw (f, decide) refl))
    | inr (p, f) ↦ inl (rw (e, decide) (rw (f, decide) refl))
  ]

  decide_found :
      (i : Intent)
      → get b.intent_id store.by_id ≡ some i
      → IsTrusted (decide single did now b store).1
  decide_found i e = elim (decide_cases i e) [
    | inl same ↦ subst IsTrusted (sym same) t
    | inr (other, goes_on) ↦ subst IsTrusted (sym goes_on) (
        decide_open-IsTrusted i e
          (λ same. ground (arith, eq_iff b.caller.id i.proposed_by, other, same)))
  ]

  decide-IsTrusted : IsTrusted (decide single did now b store).1
  unfolding decide
  decide-IsTrusted = go (get b.intent_id store.by_id) refl
    where
      go :
          (o : Option Intent)
          → get b.intent_id store.by_id ≡ o
          → IsTrusted (decide single did now b store).1
      go none e = rw (e, decide) t
      go (some i) e = decide_found i e

step-IsTrusted :
    (single : Bool) (c : Call) (store : Intents) → IsTrusted store → IsTrusted (step single c store)
step-IsTrusted single (proposing id now key body caller envelope) store t =
    propose-IsTrusted id now key body caller envelope store t
step-IsTrusted single (updating now id body caller) store t =
    update-IsTrusted now id body caller store t
step-IsTrusted single (awaiting id a) store t = await_consent-IsTrusted id a store t
step-IsTrusted single (deciding id now b) store t = decide-IsTrusted single id now b store t

steps-IsTrusted :
    (single : Bool) (cs : List Call) (store : Intents)
    → IsTrusted store
    → IsTrusted (steps single cs store)
steps-IsTrusted single [] store t = t
steps-IsTrusted single (c ∷ cs) store t =
    steps-IsTrusted single cs (step single c store) (step-IsTrusted single c store t)

empty_IsTrusted : IsTrusted no_intents
unfolding get
empty_IsTrusted = record { distinct = λ k. tt; backed = λ id i e. absurd (ground arith) }

All-Mem_at : (P : Decision → Type 0) (l : List Decision) (d : Decision) → All P l → Memᴰ d l → P d
All-Mem_at P [] d h m = elim m [ ]
All-Mem_at P (x ∷ l) d h (Memᴰ.head e) = subst P (sym e) h.0
All-Mem_at P (x ∷ l) d h (Memᴰ.tail m) = All-Mem_at P l d h.1 m

-- A decision with its quorum: the approvers are different people, the decider is one of them and is
-- not the proposer, and there are as many as the decision says are needed.
abbrev pub HasQuorum : Intents → String → Intent → Decision → Type 0
HasQuorum store id i d =
    (p : String) × (q : Quorum) × (d.decided_by ≡ some p)
    × (p ≢ i.proposed_by)
    × (d.quorum ≡ some q)
    × Distinct (approvers_of (key_of id d.action_id) store)
    × (includes (approvers_of (key_of id d.action_id) store) p ≡ true)
    × (q.needed ≤ length (approvers_of (key_of id d.action_id) store))

-- Whatever was proposed, updated, put up for consent and decided before: a decision of an intent that
-- the Broker accepts has its quorum of different people behind it, and was made by one of them who is
-- not the proposer.
pub accepted-HasQuorum :
    (single : Bool) (cs : List Call) (id : String) (i : Intent) (d : Decision)
    (action_id : Option String) (now : ℕ)
    → get id (steps single cs no_intents).by_id ≡ some i
    → Memᴰ d i.decisions
    → verify_decision (some d) action_id now ≡ none
    → HasQuorum (steps single cs no_intents) id i d
accepted-HasQuorum single cs id i d action_id now e m ok =
    let store : Intents = steps single cs no_intents in
    let t : IsTrusted store = steps-IsTrusted single cs no_intents empty_IsTrusted in
    let backed : Backed store.approvers_by_action id i.proposed_by d =
      All-Mem_at (Backed store.approvers_by_action id i.proposed_by) i.decisions d (t.backed id i e)
        m in
    let u : Unlocks d action_id now = (verify_decision_iff d action_id now).0 ok in
    let (q, f, in_list, settles, enough) = backed.counted u.approves in
    (
      backed.decider,
      q,
      backed.decided,
      backed.apart,
      f,
      t.distinct _,
      in_list,
      met q.needed q.have (length (who (key_of id d.action_id) store.approvers_by_action)) d.settled
          settles u.settled enough,
    )
  where
    met :
        (needed have all : ℕ) (s : Option Bool)
        → s ≡ some (leb needed have)
        → s ≢ some false
        → have ≤ all
        → needed ≤ all
    met needed have all s e n le = ground (arith, e, n, le)
