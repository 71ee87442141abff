-- ===== src/Broker/World/Writes.antt =====
-- What one write to the ledger does to the world of the Broker.
use nvidia_omoda.Prelude.{
  String, false, List, [], ◌∷◌, ◌++◌, true, ◌≡◌, refl, ap, sym, ◌∙◌, ◌⊎◌, inl, inr, subst,
}
use mathlib.Core.List.{append-nil}
use nvidia_omoda.Json.{Fields}
use nvidia_omoda.Ledger.{Record, Ledger, Appended, done, write_error, append}
use nvidia_omoda.Ledger.Chain.{IsSound, hashless, append-IsSound, append_cases}
use nvidia_omoda.Broker.World.{
  Event, logged, ran, opened, closed, stuck, World, Env, after_append, write, note,
}

-- The events other than records in the ledger.
abbrev pub effects : List Event → List Event
effects [] = []
effects (logged e ∷ t) = effects t
effects (ran a ∷ t) = ran a ∷ effects t
effects (opened ∷ t) = opened ∷ effects t
effects (closed ∷ t) = closed ∷ effects t
effects (stuck ∷ t) = stuck ∷ effects t

pub effects-append : (s t : List Event) → effects (s ++ t) ≡ effects s ++ effects t
effects-append [] t = refl
effects-append (logged e ∷ s) t = effects-append s t
effects-append (ran a ∷ s) t = ap (λ l. ran a ∷ l) (effects-append s t)
effects-append (opened ∷ s) t = ap (λ l. opened ∷ l) (effects-append s t)
effects-append (closed ∷ s) t = ap (λ l. closed ∷ l) (effects-append s t)
effects-append (stuck ∷ s) t = ap (λ l. stuck ∷ l) (effects-append s t)

module _ {S : Type 0} (env : Env S) (entry : Fields) (w : World S) where
  abbrev answer : Appended × Ledger
  answer = append env.sha256 w.ledger entry (env.stamp w.writes) (env.disk w.writes)

  after_policy : (p : Appended) (l : Ledger) → (after_append env entry p l w).policy ≡ w.policy
  unfolding after_append
  after_policy (done r) l = refl
  after_policy (write_error m) l = refl

  after_undo : (p : Appended) (l : Ledger) → (after_append env entry p l w).undo ≡ w.undo
  unfolding after_append
  after_undo (done r) l = refl
  after_undo (write_error m) l = refl

  after_ledger : (p : Appended) (l : Ledger) → (after_append env entry p l w).ledger ≡ l
  unfolding after_append
  after_ledger (done r) l = refl
  after_ledger (write_error m) l = refl

  after_effects :
      (p : Appended) (l : Ledger) → effects (after_append env entry p l w).trace ≡ effects w.trace
  unfolding after_append
  after_effects (done r) l = effects-append w.trace (logged entry ∷ []) ∙ append-nil _
  after_effects (write_error m) l = refl

  after_done :
      (r : Record) (p : Appended) (l : Ledger)
      → p ≡ done r
      → (after_append env entry p l w).trace ≡ w.trace ++ logged entry ∷ []
  unfolding after_append
  after_done r (done s) l e = refl
  after_done r (write_error m) l e = cc

  after_error :
      (m : String) (p : Appended) (l : Ledger)
      → p ≡ write_error m
      → (after_append env entry p l w).trace ≡ w.trace
  unfolding after_append
  after_error m (done s) l e = cc
  after_error m (write_error k) l e = refl

  pub write_policy : (write env entry w).1.policy ≡ w.policy
  unfolding write
  write_policy = after_policy answer.0 answer.1

  pub write_undo : (write env entry w).1.undo ≡ w.undo
  unfolding write
  write_undo = after_undo answer.0 answer.1

  pub effects-write : effects (write env entry w).1.trace ≡ effects w.trace
  unfolding write
  effects-write = after_effects answer.0 answer.1

  pub write-IsSound :
      hashless entry ≡ true
      → IsSound env.sha256 w.ledger
      → IsSound env.sha256 (write env entry w).1.ledger
  unfolding write
  write-IsSound own v =
      subst (IsSound env.sha256) (sym (after_ledger answer.0 answer.1))
        (append-IsSound env.sha256 w.ledger entry (env.stamp w.writes) (env.disk w.writes) own v)

  -- The trace grows by the record, or not at all; the memory of the ledger likewise.
  pub write_cases :
      ((r : Record) × ((write env entry w).0 ≡ done r)
        × ((write env entry w).1.trace ≡ w.trace ++ logged entry ∷ [])
        × ((write env entry w).1.ledger.memory ≡ w.ledger.memory ++ r ∷ [])
        × (w.ledger.broken ≡ false))
      ⊎ ((m : String) × ((write env entry w).0 ≡ write_error m)
          × ((write env entry w).1.trace ≡ w.trace)
          × ((write env entry w).1.ledger.memory ≡ w.ledger.memory))
  unfolding write
  write_cases =
      elim (append_cases env.sha256 w.ledger entry (env.stamp w.writes) (env.disk w.writes)) [
        | inl (b, s, (r, e, grown, n)) ↦ inl (
          r,
          e,
          after_done r answer.0 answer.1 e,
          ap (λ l. l.memory) (after_ledger answer.0 answer.1) ∙ grown,
          b,
        )
        | inr (why, (m, e), same, k, h) ↦ inr (
          m,
          e,
          after_error m answer.0 answer.1 e,
          ap (λ l. l.memory) (after_ledger answer.0 answer.1) ∙ same,
        )
      ]

  pub note_policy : (note env entry w).policy ≡ w.policy
  unfolding note
  note_policy = write_policy

  pub note_undo : (note env entry w).undo ≡ w.undo
  unfolding note
  note_undo = write_undo

  pub effects-note : effects (note env entry w).trace ≡ effects w.trace
  unfolding note
  effects-note = effects-write

  pub note-IsSound :
      hashless entry ≡ true
      → IsSound env.sha256 w.ledger
      → IsSound env.sha256 (note env entry w).ledger
  unfolding note
  note-IsSound = write-IsSound
