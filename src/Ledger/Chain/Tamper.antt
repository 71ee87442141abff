-- ===== src/Ledger/Chain/Tamper.antt =====
-- Tamper evidence: two intact ledgers that end in one hash hold the same content, or a collision of
-- the digest is at hand.
use nvidia_omoda.Prelude.{
  ℕ, String, List, [], ◌∷◌, ◌++◌, ◌≡◌, refl, sym, ap, ◌∙◌, ◌≢◌, ◌⊎◌, inl, inr, arith, length,
}
use nvidia_omoda.Prelude.Rx.{codes, codes-injective}
use nvidia_omoda.Json.{Fields, obj, canonical}
use nvidia_omoda.Json.Norm.{norm, ArePlainFields}
use nvidia_omoda.Json.Read.{canonical-injective}
use nvidia_omoda.Ledger.{Record, Ledger, genesis, hash_entry}
use nvidia_omoda.Ledger.Chain.{Chained, last_hash, IsSound}
use native.Mathlib.Decide.{ℕ_discrete}

text-discrete : Discrete (List ℕ)
text-discrete = hlevel ℕ_discrete

-- Two texts with one digest.
abbrev pub Collision : (List ℕ → String) → Type 0
Collision sha256 = (x : List ℕ) × (y : List ℕ) × (x ≢ y) × (sha256 x ≡ sha256 y)

-- No record has an undefined value, or a number that is not natural.
abbrev pub ArePlain : List Record → Type 0
ArePlain [] = Unit
ArePlain (r ∷ rs) = ArePlainFields r.body × ArePlain rs

-- The same content, record by record: one hash, and the same value under every key, up to the order of the keys.
abbrev pub SameContent : List Record → List Record → Type 0
SameContent [] [] = Unit
SameContent (r ∷ rs) (s ∷ ss) =
    (norm (obj r.body) ≡ norm (obj s.body)) × (r.hash ≡ s.hash) × SameContent rs ss
SameContent _ _ = ⊥

split_same : (a b x y : List ℕ) → length a ≡ length b → a ++ x ≡ b ++ y → (a ≡ b) × (x ≡ y)
split_same [] [] x y e h = (refl, h)
split_same [] (d ∷ b) x y e h = absurd (omega arith)
split_same (c ∷ a) [] x y e h = absurd (omega arith)
split_same (c ∷ a) (d ∷ b) x y e h =
    let (p, q) = split_same a b x y (omega arith) (ground arith) in (ground (arith, p), q)

module _ (sha256 : List ℕ → String)
    (length-digest : (x : List ℕ) → length (codes (sha256 x)) ≡ 64) where
  -- One link: equal digests come from equal hashes before and equal content, or collide.
  same_link :
      (p q : String) (b c : Fields)
      → length (codes p) ≡ length (codes q)
      → hash_entry sha256 p b ≡ hash_entry sha256 q c
      → ((p ≡ q) × (canonical (obj b) ≡ canonical (obj c))) ⊎ Collision sha256
  unfolding hash_entry
  same_link p q b c e h =
      let x = codes p ++ canonical (obj b) in
      let y = codes q ++ canonical (obj c) in
      elim (text-discrete x y) [
        | yes same ↦
            let (s, t) =
              split_same (codes p) (codes q) (canonical (obj b)) (canonical (obj c)) e same in
            inl (codes-injective p q s, t)
        | no differ ↦ inr (x, y, differ, h)
      ]

  same_chain :
      (p q : String) (rs ss : List Record)
      → length (codes p) ≡ length (codes q)
      → length rs ≡ length ss
      → Chained sha256 p rs
      → Chained sha256 q ss
      → ArePlain rs
      → ArePlain ss
      → last_hash p rs ≡ last_hash q ss
      → ((p ≡ q) × SameContent rs ss) ⊎ Collision sha256
  unfolding hash_entry
  same_chain p q [] [] e n c d a b h = inl (h, tt)
  same_chain p q [] (s ∷ ss) e n c d a b h = absurd (omega arith)
  same_chain p q (r ∷ rs) [] e n c d a b h = absurd (omega arith)
  same_chain p q (r ∷ rs) (s ∷ ss) e n (c0, c1, c2) (d0, d1, d2) a b h =
      elim (same_chain r.hash s.hash rs ss lengths (omega arith) c2 d2 a.1 b.1 h) [
        | inr found ↦ inr found
        | inl (same, rest) ↦ elim (same_link p q r.body s.body e (sym c1 ∙ same ∙ d1)) [
          | inr found ↦ inr found
          | inl (before, content) ↦
              inl (
                before,
                (canonical-injective (obj r.body) (obj s.body) a.0 b.0 content, same, rest),
              )
        ]
      ]
    where
      lengths : length (codes r.hash) ≡ length (codes s.hash)
      lengths =
          ap (λ k. length (codes k)) c1
          ∙ length-digest _
          ∙ sym (ap (λ k. length (codes k)) d1 ∙ length-digest _)

  -- Two sound ledgers of one length whose last hashes agree hold in every record the same hash and the same value
  -- under every key, up to the order of the keys, or two different texts with one digest are at hand. The records have
  -- no undefined value and no number that is not natural; the digests have 64 characters.
  pub tamper_evident :
      (l m : Ledger)
      → IsSound sha256 l
      → IsSound sha256 m
      → ArePlain l.memory
      → ArePlain m.memory
      → l.seq ≡ m.seq
      → l.prev_hash ≡ m.prev_hash
      → SameContent l.memory m.memory ⊎ Collision sha256
  tamper_evident l m v w a b n h =
      elim (same_chain genesis genesis l.memory m.memory refl (omega (arith, v.counted, w.counted))
        v.chained w.chained a b (v.latest ∙ h ∙ sym w.latest)) [
          | inl (_, same) ↦ inl same
          | inr found ↦ inr found
        ]
