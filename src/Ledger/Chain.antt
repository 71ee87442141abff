-- ===== src/Ledger/Chain.antt =====
-- The hash chain of src/ledger/ledger.js: what `verify` accepts, and that appending keeps it.
pub mod Tamper
pub mod Restart
use nvidia_omoda.Prelude.{
  ℕ, zero, suc, ◌+◌, String, Bool, true, false, not, ◌&&◌, ◌||◌, Option, List, [], ◌∷◌, ◌++◌, map,
  ◌==◌, ◌≡◌, refl, sym, ap, ◌∙◌, ◌≢◌, ◌↔◌, ◌⊎◌, inl, inr, eq_iff, eq_refl, arith, if◌then◌else◌,
  length, length-append, Bool-cases, subst,
}
use nvidia_omoda.Json.{Value, Fields, undef, null, num, str, end, field, prop}
use nvidia_omoda.Ledger.{
  is_absent, Record, Line, parsed, Ledger, Disk, synced, unwritten, unsynced, Appended, done,
  write_error, Verdict, intact, bad_chain, bad_content, genesis, set_field, is_text, body_of,
  without_field, stored, hash_entry, next_record, push_record, append, verify_from, verify,
}

pub prop-set_field :
    (j k : String) (v : Value) (fs : Fields)
    → prop j (set_field k v fs) ≡ (if k == j then v else prop j fs)
unfolding prop set_field
prop-set_field j k v end = refl
prop-set_field j k v (field i w fs) =
    ground (arith, eq_iff k j, eq_iff i k, eq_iff i j, prop-set_field j k v fs)

pub body_of_prev :
    (entry : Fields) (seq : ℕ) (prev now : String)
    → prop "prevHash" (body_of entry seq prev now) ≡ str prev
unfolding body_of
body_of_prev entry seq prev now = simp prop-set_field

pub body_of_seq :
    (entry : Fields) (seq : ℕ) (prev now : String)
    → prop "seq" (body_of entry seq prev now) ≡ num seq
unfolding body_of
body_of_seq entry seq prev now = simp prop-set_field

-- The object has no field `hash` of its own.
abbrev pub hashless : Fields → Bool
hashless end = true
hashless (field k v fs) = not (k == "hash") && hashless fs

without_field_same : (fs : Fields) → hashless fs ≡ true → without_field "hash" fs ≡ fs
unfolding without_field
without_field_same end h = refl
without_field_same (field k v fs) h =
    rw (without_field_same fs (ground (arith, h))) (ground (arith, h))

prop-without_field :
    (j k : String) (fs : Fields) → (j == k) ≡ false → prop j (without_field k fs) ≡ prop j fs
unfolding prop without_field
prop-without_field j k end h = refl
prop-without_field j k (field i v fs) h =
    ground (arith, eq_iff j k, eq_iff i k, eq_iff i j, prop-without_field j k fs h, h)

hashless-set_field :
    (k : String) (v : Value) (fs : Fields)
    → (k == "hash") ≡ false
    → hashless fs ≡ true
    → hashless (set_field k v fs) ≡ true
unfolding set_field
hashless-set_field k v end n h = ground (arith, n)
hashless-set_field k v (field j w fs) n h =
    ground (arith, n, h, hashless-set_field k v fs n (ground (arith, h)))

hashless-body_of :
    (entry : Fields) (seq : ℕ) (prev now : String)
    → hashless entry ≡ true
    → hashless (body_of entry seq prev now) ≡ true
unfolding body_of
hashless-body_of entry seq prev now h =
    let numbered = set_field "seq" (num seq) entry in
    let linked = set_field "prevHash" (str prev) numbered in
    hashless-set_field "at" (if is_absent (prop "at" entry) then str now else prop "at" entry)
      linked refl
      (hashless-set_field "prevHash" (str prev) numbered refl
        (hashless-set_field "seq" (num seq) entry refl h))

is_text_iff : (v : Value) (t : String) → (is_text v t ≡ true) ↔ (v ≡ str t)
is_text_iff (str s) t = ground (arith, eq_iff s t)
is_text_iff v t = ground arith

-- The hash of the last record.
abbrev pub last_hash : String → List Record → String
last_hash prev [] = prev
last_hash prev (r ∷ rs) = last_hash r.hash rs

pub last_hash-append :
    (prev : String) (rs : List Record) (r : Record) → last_hash prev (rs ++ r ∷ []) ≡ r.hash
last_hash-append prev [] r = refl
last_hash-append prev (x ∷ rs) r = last_hash-append x.hash rs r

-- The records bear the numbers that follow n.
abbrev pub Numbered : ℕ → List Record → Type 0
Numbered n [] = Unit
Numbered n (r ∷ rs) = (prop "seq" r.body ≡ num (suc n)) × Numbered (suc n) rs

Numbered-append :
    (n : ℕ) (rs : List Record) (r : Record)
    → Numbered n rs
    → prop "seq" r.body ≡ num (suc (n + length rs))
    → Numbered n (rs ++ r ∷ [])
Numbered-append n [] r h e = (ground arith, tt)
Numbered-append n (x ∷ rs) r h e = (h.0, Numbered-append (suc n) rs r h.1 (ground arith))

-- What an append that went through has done.
abbrev pub Added : Ledger → Disk → Appended × Ledger → Type 0
Added l disk (answer, after) =
    (l.broken ≡ false)
    × (disk ≡ synced)
    × ((r : Record) × (answer ≡ done r)
        × (after.memory ≡ l.memory ++ r ∷ [])
        × (prop "seq" r.body ≡ num (l.seq + 1)))

-- What an append that failed has left alone.
abbrev pub Declined : Ledger → Disk → Appended × Ledger → Type 0
Declined l disk (answer, after) =
    ((l.broken ≡ true) ⊎ (disk ≢ synced))
    × ((m : String) × (answer ≡ write_error m))
    × (after.memory ≡ l.memory)
    × (after.seq ≡ l.seq)
    × (after.prev_hash ≡ l.prev_hash)

module _ (sha256 : List ℕ → String) where
  -- Each record names the hash before it, and bears the digest of that hash and its own body.
  abbrev pub Chained : String → List Record → Type 0
  Chained prev [] = Unit
  Chained prev (r ∷ rs) =
      (prop "prevHash" r.body ≡ str prev)
      × (r.hash ≡ hash_entry sha256 prev r.body)
      × Chained r.hash rs

  pub Chained-append :
      (prev : String) (rs : List Record) (r : Record)
      → Chained prev rs
      → prop "prevHash" r.body ≡ str (last_hash prev rs)
      → r.hash ≡ hash_entry sha256 (last_hash prev rs) r.body
      → Chained prev (rs ++ r ∷ [])
  Chained-append prev [] r h e d = (e, d, tt)
  Chained-append prev (x ∷ rs) r h e d = (h.0, h.1, Chained-append x.hash rs r h.2 e d)

  verify_from_iff :
      (prev : String) (n : ℕ) (rs : List Record)
      → (verify_from sha256 prev n rs ≡ intact (n + length rs)) ↔ Chained prev rs
  unfolding verify_from
  verify_from_iff prev n [] = (λ h. tt, λ h. ground arith)
  verify_from_iff prev n (r ∷ rs) =
      let ih = verify_from_iff r.hash (suc n) rs in
      let chain = is_text_iff (prop "prevHash" r.body) prev in
      let content = eq_iff (hash_entry sha256 prev r.body) r.hash in
      (λ h. ground (arith, chain.0, content.0, ih.0), λ h. ground (arith, chain.1, content.1, ih.1))

  -- What holds of a ledger that nobody tampered with.
  pub record IsSound (l : Ledger) : Type 0 where
    pub chained : Chained genesis l.memory
    pub latest : last_hash genesis l.memory ≡ l.prev_hash
    pub counted : length l.memory ≡ l.seq
    pub numbered : Numbered 0 l.memory

  -- An entry without a field `hash` is stored as it is hashed.
  pub next_record-body :
      (l : Ledger) (entry : Fields) (now : String)
      → hashless entry ≡ true
      → (next_record sha256 l entry now).body ≡ body_of entry (l.seq + 1) l.prev_hash now
  unfolding next_record
  next_record-body l entry now h =
      without_field_same _ (hashless-body_of entry (l.seq + 1) l.prev_hash now h)

  pub next_record-hash :
      (l : Ledger) (entry : Fields) (now : String)
      → hashless entry ≡ true
      → (next_record sha256 l entry now).hash
        ≡ hash_entry sha256 l.prev_hash (next_record sha256 l entry now).body
  unfolding next_record
  next_record-hash l entry now h =
      ap (hash_entry sha256 l.prev_hash) (sym (next_record-body l entry now h))

  pub next_record_prev :
      (l : Ledger) (entry : Fields) (now : String)
      → prop "prevHash" (next_record sha256 l entry now).body ≡ str l.prev_hash
  unfolding next_record
  next_record_prev l entry now =
      prop-without_field "prevHash" "hash" (body_of entry (l.seq + 1) l.prev_hash now) refl
      ∙ body_of_prev entry (l.seq + 1) l.prev_hash now

  pub next_record_seq :
      (l : Ledger) (entry : Fields) (now : String)
      → prop "seq" (next_record sha256 l entry now).body ≡ num (l.seq + 1)
  unfolding next_record
  next_record_seq l entry now =
      prop-without_field "seq" "hash" (body_of entry (l.seq + 1) l.prev_hash now) refl
      ∙ body_of_seq entry (l.seq + 1) l.prev_hash now

  push_record-IsSound :
      (l : Ledger) (entry : Fields) (now : String)
      → hashless entry ≡ true
      → IsSound l
      → IsSound (push_record sha256 l (next_record sha256 l entry now))
  unfolding push_record
  push_record-IsSound l entry now own v = record {
    chained =
        Chained-append genesis l.memory _ v.chained
          (next_record_prev l entry now ∙ ap str (sym v.latest))
          (next_record-hash l entry now own
            ∙ ap (λ p. hash_entry sha256 p (next_record sha256 l entry now).body) (sym v.latest));
    latest = last_hash-append genesis l.memory _;
    counted =
        omega (arith, length-append l.memory (next_record sha256 l entry now ∷ []), v.counted);
    numbered =
        Numbered-append 0 l.memory _ v.numbered
          (next_record_seq l entry now ∙ ap num (omega (arith, v.counted)));
  }

  module _ (l : Ledger) (entry : Fields) (now : String) where
    append_broken :
        (disk : Disk)
        → l.broken ≡ true
        → append sha256 l entry now disk ≡ (write_error "ledger unavailable", l)
    unfolding append
    append_broken disk b = ground arith

    append_synced :
        l.broken ≡ false
        → append sha256 l entry now synced ≡ (
          done (next_record sha256 l entry now),
          push_record sha256 l (next_record sha256 l entry now),
        )
    unfolding append
    append_synced b = ground arith

    append_unwritten :
        (message : String)
        → l.broken ≡ false
        → append sha256 l entry now (unwritten message) ≡ (write_error message, l)
    unfolding append
    append_unwritten message b = ground arith

    append_unsynced :
        (message : String)
        → l.broken ≡ false
        → append sha256 l entry now (unsynced message) ≡ (
          write_error message,
          record l { file = l.file ++ stored (next_record sha256 l entry now) ∷ [] },
        )
    unfolding append
    append_unsynced message b = ground arith

    -- The chain, the numbering and the counters stay sound whatever the disk does, if the entry has no
    -- field `hash` of its own.
    pub append-IsSound :
        (disk : Disk)
        → hashless entry ≡ true
        → IsSound l
        → IsSound (append sha256 l entry now disk).1
    append-IsSound disk own v = elim (Bool-cases l.broken) [
      | inl b ↦ subst (λ p. IsSound p.1) (sym (append_broken disk b)) v
      | inr b ↦ of_disk disk b
    ]
      where
        of_disk : (d : Disk) → l.broken ≡ false → IsSound (append sha256 l entry now d).1
        of_disk synced b =
            subst (λ p. IsSound p.1) (sym (append_synced b)) (push_record-IsSound l entry now own v)
        of_disk (unwritten m) b = subst (λ p. IsSound p.1) (sym (append_unwritten m b)) v
        of_disk (unsynced m) b =
            subst (λ p. IsSound p.1) (sym (append_unsynced m b))
              (record {
                chained = v.chained;
                latest = v.latest;
                counted = v.counted;
                numbered = v.numbered;
              })

    -- A ledger that is not broken, on a write that is synced, gains one record, which bears the next
    -- number and is answered; otherwise the answer is an error, and the records, the number and the
    -- last hash stay as they were.
    pub append_cases :
        (disk : Disk)
        → Added l disk (append sha256 l entry now disk)
          ⊎ Declined l disk (append sha256 l entry now disk)
    unfolding push_record
    append_cases disk = elim (Bool-cases l.broken) [
      | inl b ↦
          subst (λ p. Added l disk p ⊎ Declined l disk p) (sym (append_broken disk b))
            (inr (inl b, ("ledger unavailable", refl), refl, refl, refl))
      | inr b ↦ of_disk disk b
    ]
      where
        of_disk :
            (d : Disk)
            → l.broken ≡ false
            → Added l d (append sha256 l entry now d) ⊎ Declined l d (append sha256 l entry now d)
        of_disk synced b =
            subst (λ p. Added l synced p ⊎ Declined l synced p) (sym (append_synced b))
              (inl (
                b,
                refl,
                (next_record sha256 l entry now, refl, refl, next_record_seq l entry now),
              ))
        of_disk (unwritten m) b =
            subst (λ p. Added l (unwritten m) p ⊎ Declined l (unwritten m) p)
              (sym (append_unwritten m b)) (inr (inr (λ q. cc), (m, refl), refl, refl, refl))
        of_disk (unsynced m) b =
            subst (λ p. Added l (unsynced m) p ⊎ Declined l (unsynced m) p)
              (sym (append_unsynced m b)) (inr (inr (λ q. cc), (m, refl), refl, refl, refl))

  -- `verify` answers that the ledger is intact exactly when its records form a chain from genesis:
  -- each names the hash of the one before and bears the digest of that hash and its own content.
  pub verify_iff :
      (l : Ledger) → (verify sha256 l ≡ intact (length l.memory)) ↔ Chained genesis l.memory
  unfolding verify
  verify_iff l =
      let zero_add : 0 + length l.memory ≡ length l.memory = omega arith in
      rw (zero_add, verify) at (verify_from_iff genesis 0 l.memory)
