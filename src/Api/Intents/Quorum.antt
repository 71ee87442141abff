-- ===== src/Api/Intents/Quorum.antt =====
-- Whatever happens to the store of src/api/intents.js, a decision that src/broker/decision.js accepts
-- has its quorum of distinct approvers behind it.
use nvidia_omoda.Prelude.{
  ◌≤◌, String, true, false, some, List, [], ◌∷◌, ◌++◌, ◌==◌, ◌≡◌, ◌≢◌, inl, inr, refl, subst,
  if◌then◌else◌, get_or, includes, length, length-append, leb, All, Bool-cases, arith, eq_iff,
  eq_refl,
}
use nvidia_omoda.Prelude.Dict.{get, put, get-put, get-put_self}
use nvidia_omoda.Broker.Decision.{Quorum, Decision}
use nvidia_omoda.Api.Intents.{Intent}
use nvidia_omoda.Api.Intents.Decide.{key_of}

abbrev pub Approvers : Type 0
Approvers = List (String × List String)

abbrev pub who : String → Approvers → List String
who k m = get_or (get k m) []

-- No text stands twice in the list.
abbrev pub Distinct : List String → Type 0
Distinct [] = Unit
Distinct (x ∷ xs) = (includes xs x ≡ false) × Distinct xs

-- What every decision of an intent keeps: who decided is not who proposed, and an approval counts
-- people who did approve.
pub record Backed (m : Approvers) (intent_id proposer : String) (d : Decision) : Type 0 where
  pub decider : String
  pub decided : d.decided_by ≡ some decider
  pub apart : decider ≢ proposer
  pub counted :
      d.verdict ≡ some "approve"
      → (q : Quorum) × (d.quorum ≡ some q)
        × (includes (who (key_of intent_id d.action_id) m) decider ≡ true)
        × (d.settled ≡ some (leb q.needed q.have))
        × (q.have ≤ length (who (key_of intent_id d.action_id) m))

pub record Trusted (m : Approvers) (by_id : List (String × Intent)) : Type 0 where
  pub distinct : (k : String) → Distinct (who k m)
  pub backed :
      (id : String) (i : Intent)
      → get id by_id ≡ some i
      → All (Backed m id i.proposed_by) i.decisions

pub includes_snoc :
    (l : List String) (x y : String) → includes l y ≡ true → includes (l ++ x ∷ []) y ≡ true
includes_snoc [] x y h = cc
includes_snoc (z ∷ l) x y h = ground (arith, includes_snoc l x y)

pub includes_last : (l : List String) (x : String) → includes (l ++ x ∷ []) x ≡ true
includes_last [] x = ground (arith, eq_refl x)
includes_last (z ∷ l) x = ground (arith, includes_last l x)

includes_snoc_other :
    (l : List String) (x y : String)
    → includes l y ≡ false
    → x == y ≡ false
    → includes (l ++ x ∷ []) y ≡ false
includes_snoc_other [] x y h n = ground (arith, n)
includes_snoc_other (z ∷ l) x y h n = ground (arith, includes_snoc_other l x y)

Distinct-snoc :
    (l : List String) (x : String) → Distinct l → includes l x ≡ false → Distinct (l ++ x ∷ [])
Distinct-snoc [] x h n = (refl, tt)
Distinct-snoc (z ∷ l) x h n = (
  includes_snoc_other l x z h.0 (ground (arith, eq_iff x z, eq_iff z x)),
  Distinct-snoc l x h.1 (ground arith),
)

-- A caller who joins the approvers of an action.
abbrev pub join : String → String → Approvers → Approvers
join k p m = put k (who k m ++ p ∷ []) m

module _ (k p : String) (m : Approvers) where
  who-join : (j : String) → who j (join k p m) ≡ (if k == j then who k m ++ p ∷ [] else who j m)
  who-join j = elim (Bool-cases (k == j)) [
    | inl e ↦ rw (get-put k j (who k m ++ p ∷ []) m, e) refl
    | inr e ↦ rw (get-put k j (who k m ++ p ∷ []) m, e) refl
  ]

  pub who_joined : who k (join k p m) ≡ who k m ++ p ∷ []
  who_joined = rw (get-put_self k (who k m ++ p ∷ []) m) refl

  join-includes :
      (j q : String) → includes (who j m) q ≡ true → includes (who j (join k p m)) q ≡ true
  join-includes j q h = elim (Bool-cases (k == j)) [
    | inl e ↦ rw (who-join j, e) (rw ((eq_iff k j).0 e) (includes_snoc (who j m) p q h))
    | inr e ↦ rw (who-join j, e) h
  ]

  length-join : (j : String) → length (who j m) ≤ length (who j (join k p m))
  length-join j = elim (Bool-cases (k == j)) [
    | inl e ↦
        rw (who-join j, e) (rw ((eq_iff k j).0 e) (omega (arith, length-append (who j m) (p ∷ []))))
    | inr e ↦ rw (who-join j, e) (omega arith)
  ]

  Backed-join :
      (id proposer : String) (d : Decision)
      → Backed m id proposer d
      → Backed (join k p m) id proposer d
  Backed-join id proposer d b = record {
    decider = b.decider;
    decided = b.decided;
    apart = b.apart;
    counted = λ v.
        let (q, e, i, s, n) = b.counted v in
        (
          q,
          e,
          join-includes (key_of id d.action_id) b.decider i,
          s,
          omega (arith, n, length-join (key_of id d.action_id)),
        );
  }

  pub All-Backed-join :
      (id proposer : String) (l : List Decision)
      → All (Backed m id proposer) l
      → All (Backed (join k p m) id proposer) l
  All-Backed-join id proposer [] h = tt
  All-Backed-join id proposer (d ∷ l) h =
      (Backed-join id proposer d h.0, All-Backed-join id proposer l h.1)

  pub Trusted-join :
      (by_id : List (String × Intent))
      → includes (who k m) p ≡ false
      → Trusted m by_id
      → Trusted (join k p m) by_id
  Trusted-join by_id n t = record {
    distinct = λ j. elim (Bool-cases (k == j)) [
      | inl e ↦ rw (who-join j, e) (Distinct-snoc (who k m) p (t.distinct k) n)
      | inr e ↦ rw (who-join j, e) (t.distinct j)
    ];
    backed = λ id i e. All-Backed-join id i.proposed_by i.decisions (t.backed id i e);
  }

-- An intent that is put back with decisions that are backed.
pub Trusted-put :
    (m : Approvers) (by_id : List (String × Intent)) (id : String) (new : Intent)
    → Trusted m by_id
    → All (Backed m id new.proposed_by) new.decisions
    → Trusted m (put id new by_id)
Trusted-put m by_id id new t h = record { distinct = t.distinct; backed = backed }
  where
    backed :
        (j : String) (i : Intent)
        → get j (put id new by_id) ≡ some i
        → All (Backed m j i.proposed_by) i.decisions
    backed j i e = elim (Bool-cases (id == j)) [
      | inl same ↦
          let new_i : new ≡ i = ground (arith, get-put id j new by_id, e, same) in
          subst (λ x. All (Backed m j x.proposed_by) x.decisions) new_i
            (subst (λ x. All (Backed m x new.proposed_by) new.decisions) ((eq_iff id j).0 same) h)
      | inr other ↦ t.backed j i (ground (arith, get-put id j new by_id, e, other))
    ]
