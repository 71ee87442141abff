-- ===== src/Broker/Decision/Accepts.antt =====
-- When src/broker/decision.js accepts a decision, condition by condition.
use nvidia_omoda.Prelude.{
  ℕ, String, Bool, true, false, not, ◌&&◌, Option, none, some, List, ◌≡◌, refl, ◌↔◌, ◌<◌, ◌≢◌,
  eq_iff, arith, includes, if◌then◌else◌, subst,
}
use nvidia_omoda.Broker.Decision.{
  not_approve, other_action, replay, not_settled, expired, self_approval, no_scope, no_reason,
  Decision, decision_scope, truthy_text, same_text, blank, is_past, lacks_scope, is_unsettled,
  check_decision, verify_decision,
}

-- What a decision has to satisfy to unlock the action with this id at this time.
pub record Unlocks (d : Decision) (action_id : Option String) (now : ℕ) : Type 0 where
  pub approves : d.verdict ≡ some "approve"
  pub bound : (s : String) → action_id ≡ some s → s ≢ "" → d.action_id ≡ some s
  pub fresh : d.spent ≡ false
  pub settled : d.settled ≢ some false
  pub timely : (t : ℕ) → d.expires_at ≡ some t → now < t
  pub separate : (s : String) → d.decided_by ≡ some s → s ≢ "" → d.proposed_by ≢ some s
  pub scoped : (l : List String) → d.scopes ≡ some l → includes l decision_scope ≡ true
  pub explained : blank d.reason ≡ false

same_text-eq : (o p : Option String) → same_text o p ≡ true → o ≡ p
same_text-eq none none h = refl
same_text-eq none (some t) h = cc
same_text-eq (some s) none h = cc
same_text-eq (some s) (some t) h = ground (arith, eq_iff s t)

same_text_refl : (o : Option String) → same_text o o ≡ true
same_text_refl none = refl
same_text_refl (some s) = (eq_iff s s).1 refl

-- No test of the ladder of early returns passes exactly when no denial is given.
no_denial :
    (a b c d e f g h : Bool)
    → ((if a
          then some not_approve
          else if b
          then some other_action
          else if c
          then some replay
          else if d
          then some not_settled
          else if e
          then some expired
          else if f
          then some self_approval
          else if g
          then some no_scope
          else if h
          then some no_reason
          else none)
        ≡ none)
      ↔ ((a ≡ false)
          × (b ≡ false)
          × (c ≡ false)
          × (d ≡ false)
          × (e ≡ false)
          × (f ≡ false)
          × (g ≡ false)
          × (h ≡ false))
no_denial a b c d e f g h = ground arith

verdict_iff :
    (o : Option String) → (not (same_text o (some "approve")) ≡ false) ↔ (o ≡ some "approve")
verdict_iff none = ground arith
verdict_iff (some s) = ground (arith, eq_iff s "approve")

bound_iff :
    (o a : Option String)
    → ((truthy_text a && not (same_text o a)) ≡ false)
      ↔ ((s : String) → a ≡ some s → s ≢ "" → o ≡ some s)
bound_iff o none = (λ h s e n. cc, λ u. refl)
bound_iff none (some t) =
    (λ h s e n. ground (arith, eq_iff t ""), λ u. ground (arith, eq_iff t "", u t refl))
bound_iff (some v) (some t) = (
  λ h s e n. ground (arith, eq_iff t "", eq_iff v t),
  λ u. ground (arith, eq_iff t "", eq_iff v t, u t refl),
)

settled_iff : (o : Option Bool) → (is_unsettled o ≡ false) ↔ (o ≢ some false)
settled_iff none = ground arith
settled_iff (some b) = ground arith

timely_iff : (o : Option ℕ) (now : ℕ) → (is_past o now ≡ false) ↔ ((t : ℕ) → o ≡ some t → now < t)
timely_iff none now = (λ h t e. cc, λ u. refl)
timely_iff (some v) now = (λ h t e. ground arith, λ u. ground (arith, u v refl))

separate_iff :
    (d p : Option String)
    → ((truthy_text d && truthy_text p && same_text d p) ≡ false)
      ↔ ((s : String) → d ≡ some s → s ≢ "" → p ≢ some s)
separate_iff none p = (λ h s e n k. cc, λ u. refl)
separate_iff (some v) none = (λ h s e n k. cc, λ u. ground arith)
separate_iff (some v) (some w) = (
  λ h s e n k. ground (arith, eq_iff v "", eq_iff w "", eq_iff v w),
  λ u. ground (arith, eq_iff v "", eq_iff v w, u v refl),
)

scoped_iff :
    (o : Option (List String))
    → (lacks_scope o ≡ false) ↔ ((l : List String) → o ≡ some l → includes l decision_scope ≡ true)
scoped_iff none = (λ h l e. cc, λ u. refl)
scoped_iff (some v) = (λ h l e. scoped_of v l h e, λ u. ground (arith, u v refl))
  where
    scoped_of :
        (v l : List String)
        → not (includes v decision_scope) ≡ false
        → some v ≡ some l
        → includes l decision_scope ≡ true
    scoped_of v l h e =
        let q : v ≡ l = cc in subst (λ k. includes k decision_scope ≡ true) q (ground arith)

-- A decision is accepted exactly when it approves, is bound to the action, is not spent, is not short
-- of its quorum, has not expired, was not decided by its proposer, carries the deciding scope where
-- it lists scopes, and gives a reason that is not blank.
pub verify_decision_iff :
    (d : Decision) (action_id : Option String) (now : ℕ)
    → (verify_decision (some d) action_id now ≡ none) ↔ Unlocks d action_id now
unfolding verify_decision
verify_decision_iff d action_id now = (sound, complete)
  where
    sound : check_decision d action_id now ≡ none → Unlocks d action_id now
    sound h =
        let (va, bo, sp, se, ti, sa, sc, re) =
          (no_denial (not (same_text d.verdict (some "approve")))
              (truthy_text action_id && not (same_text d.action_id action_id)) d.spent
              (is_unsettled d.settled) (is_past d.expires_at now)
              (truthy_text d.decided_by
                && truthy_text d.proposed_by
                && same_text d.decided_by d.proposed_by)
              (lacks_scope d.scopes) (blank d.reason)).0
            h in
        record {
          approves = (verdict_iff d.verdict).0 va;
          bound = (bound_iff d.action_id action_id).0 bo;
          fresh = sp;
          settled = (settled_iff d.settled).0 se;
          timely = (timely_iff d.expires_at now).0 ti;
          separate = (separate_iff d.decided_by d.proposed_by).0 sa;
          scoped = (scoped_iff d.scopes).0 sc;
          explained = re;
        }

    complete : Unlocks d action_id now → check_decision d action_id now ≡ none
    complete u =
        (no_denial (not (same_text d.verdict (some "approve")))
            (truthy_text action_id && not (same_text d.action_id action_id)) d.spent
            (is_unsettled d.settled) (is_past d.expires_at now)
            (truthy_text d.decided_by
              && truthy_text d.proposed_by
              && same_text d.decided_by d.proposed_by)
            (lacks_scope d.scopes) (blank d.reason)).1
          (
            (verdict_iff d.verdict).1 u.approves,
            (bound_iff d.action_id action_id).1 u.bound,
            u.fresh,
            (settled_iff d.settled).1 u.settled,
            (timely_iff d.expires_at now).1 u.timely,
            (separate_iff d.decided_by d.proposed_by).1 u.separate,
            (scoped_iff d.scopes).1 u.scoped,
            u.explained,
          )
