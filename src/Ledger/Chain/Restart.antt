-- ===== src/Ledger/Chain/Restart.antt =====
-- What a restart of src/ledger/ledger.js reads back from the file.
use nvidia_omoda.Prelude.{
  ℕ, suc, ◌+◌, String, true, false, All, List, [], ◌∷◌, ◌++◌, map, ◌≡◌, refl, sym, ap, ◌∙◌, ◌≢◌,
  arith, length, eq_iff, eq_refl, Bool-cases, subst, inl, inr, if◌then◌else◌, ◌==◌,
}
use mathlib.Core.List.{append_assoc, append-nil, map-append}
use nvidia_omoda.Json.{Value, Fields, end, field, num, str, prop}
use nvidia_omoda.Ledger.Reload.{IsDefined, AreFieldsDefined, reload_fields_same}
use nvidia_omoda.Ledger.{
  is_absent, Record, Line, parsed, Ledger, synced, unsynced, intact, bad_chain, genesis, number_of,
  stored, hash_entry, next_record, push_record, append, verify_from, verify, load_lines,
  create_ledger, body_of, set_field,
}
use nvidia_omoda.Ledger.Chain.{
  last_hash, Numbered, IsSound, Chained, verify_iff, next_record_prev, next_record_seq,
  next_record-body, next_record-hash, hashless, append-IsSound, append_synced,
}

-- The number of the last record.
last_seq : ℕ → List Record → ℕ
last_seq n [] = n
last_seq n (r ∷ rs) = last_seq (number_of (prop "seq" r.body)) rs

last_seq-length : (n : ℕ) (rs : List Record) → Numbered n rs → last_seq n rs ≡ n + length rs
unfolding last_seq
last_seq-length n [] h = omega arith
last_seq-length n (r ∷ rs) h = rw h.0 (last_seq-length (suc n) rs h.1 ∙ omega arith)

load_lines-parsed :
    (l : Ledger) (rs : List Record)
    → load_lines l (map parsed rs) ≡ record l {
      seq = last_seq l.seq rs;
      prev_hash = last_hash l.prev_hash rs;
      memory = l.memory ++ rs;
    }
unfolding load_lines last_seq
load_lines-parsed l [] = rw (append-nil l.memory)
load_lines-parsed l (r ∷ rs) =
    load_lines-parsed
      (record l {
        seq = number_of (prop "seq" r.body);
        prev_hash = r.hash;
        memory = l.memory ++ r ∷ [];
      })
      rs
    ∙ ap
        (λ ms. record l {
          seq = last_seq (number_of (prop "seq" r.body)) rs;
          prev_hash = last_hash r.hash rs;
          memory = ms;
        })
        (append_assoc l.memory (r ∷ []) rs)

AreFieldsDefined-set_field :
    (k : String) (v : Value) (fs : Fields)
    → IsDefined v
    → AreFieldsDefined fs
    → AreFieldsDefined (set_field k v fs)
unfolding set_field
AreFieldsDefined-set_field k v end h d = (h, tt)
AreFieldsDefined-set_field k v (field j w fs) h d = elim (Bool-cases (j == k)) [
  | inl e ↦ rw e (h, d.1)
  | inr e ↦ rw e (d.0, AreFieldsDefined-set_field k v fs h d.1)
]

IsDefined-prop :
    (k : String) (fs : Fields)
    → AreFieldsDefined fs
    → is_absent (prop k fs) ≡ false
    → IsDefined (prop k fs)
unfolding prop
IsDefined-prop k end d h = cc
IsDefined-prop k (field j w fs) d h = elim (Bool-cases (j == k)) [
  | inl e ↦ rw e d.0
  | inr e ↦ rw e (IsDefined-prop k fs d.1 (rw e at h))
]

AreFieldsDefined-body_of :
    (entry : Fields) (seq : ℕ) (prev now : String)
    → AreFieldsDefined entry
    → AreFieldsDefined (body_of entry seq prev now)
unfolding body_of
AreFieldsDefined-body_of entry seq prev now d = AreFieldsDefined-set_field "at" _ _ at (
    AreFieldsDefined-set_field "prevHash" (str prev) _ tt
      (AreFieldsDefined-set_field "seq" (num seq) entry tt d))
  where
    at : IsDefined (if is_absent (prop "at" entry) then str now else prop "at" entry)
    at = elim (Bool-cases (is_absent (prop "at" entry))) [
      | inl e ↦ rw e tt
      | inr e ↦ rw e (IsDefined-prop "at" entry d e)
    ]

-- The entry has no undefined field, and none that is named `hash`.
abbrev pub IsPlain : Fields → Type 0
IsPlain entry = AreFieldsDefined entry × (hashless entry ≡ true)

module _ (sha256 : List ℕ → String) where
  -- The file holds the records of the memory, and nothing else.
  abbrev pub IsOnDisk : Ledger → Type 0
  IsOnDisk l = l.file ≡ map parsed l.memory

  -- A sound ledger that is on disk and not broken comes back from its file as it was.
  pub create_ledger-file :
      (l : Ledger)
      → IsSound sha256 l
      → l.broken ≡ false
      → IsOnDisk l
      → create_ledger false l.file ≡ l
  unfolding create_ledger
  create_ledger-file l v b d =
      let fresh : Ledger = record {
        broken = false;
        seq = 0;
        prev_hash = genesis;
        memory = [];
        file = l.file;
      } in
      ap (load_lines fresh) d
      ∙ load_lines-parsed fresh l.memory
      ∙ ground (arith, last_seq-length 0 l.memory v.numbered, v.latest, v.counted, b)

  AreFieldsDefined-next_record :
      (l : Ledger) (entry : Fields) (now : String)
      → IsPlain entry
      → AreFieldsDefined (next_record sha256 l entry now).body
  AreFieldsDefined-next_record l entry now (k, own) =
      subst AreFieldsDefined (sym (next_record-body sha256 l entry now own))
        (AreFieldsDefined-body_of entry (l.seq + 1) l.prev_hash now k)

  -- An append of a plain entry that is synced keeps the memory on disk.
  pub append-IsOnDisk :
      (l : Ledger) (entry : Fields) (now : String)
      → l.broken ≡ false
      → IsPlain entry
      → IsOnDisk l
      → IsOnDisk (append sha256 l entry now synced).1
  unfolding push_record stored
  append-IsOnDisk l entry now b k d =
      subst (λ p. IsOnDisk p.1) (sym (append_synced sha256 l entry now b))
        (cc (
          d,
          map-append parsed l.memory (next_record sha256 l entry now ∷ []),
          reload_fields_same _ (AreFieldsDefined-next_record l entry now k),
        ))

  -- A history of appends that all reach the disk.
  pub append_all : Ledger → List (Fields × String) → Ledger
  append_all l [] = l
  append_all l ((entry, now) ∷ es) = append_all (append sha256 l entry now synced).1 es

  append_all-keeps :
      (l : Ledger) (es : List (Fields × String))
      → IsSound sha256 l
      → l.broken ≡ false
      → IsOnDisk l
      → All (λ e. IsPlain e.0) es
      → IsSound sha256 (append_all l es)
        × ((append_all l es).broken ≡ false)
        × IsOnDisk (append_all l es)
  unfolding append_all push_record
  append_all-keeps l [] v b d k = (v, b, d)
  append_all-keeps l ((entry, now) ∷ es) v b d k =
      append_all-keeps (append sha256 l entry now synced).1 es
        (append-IsSound sha256 l entry now synced k.0.1 v)
        (ap (λ p. p.1.broken) (append_synced sha256 l entry now b) ∙ still)
        (append-IsOnDisk l entry now b k.0 d) k.1
    where
      still : (push_record sha256 l (next_record sha256 l entry now)).broken ≡ false
      still = b

  -- A ledger that starts on an empty file and is given any entries without undefined fields and
  -- without a field `hash` comes back from its file exactly as it was, and verifies.
  pub restart :
      (es : List (Fields × String))
      → All (λ e. IsPlain e.0) es
      → let l = append_all (create_ledger false []) es in
        (create_ledger false l.file ≡ l)
        × (verify sha256 (create_ledger false l.file) ≡ intact (length l.memory))
  unfolding create_ledger
  restart es k =
      let l = append_all (create_ledger false []) es in
      let (v, b, d) = append_all-keeps (create_ledger false []) es empty refl refl k in
      let same = create_ledger-file l v b d in (same, rw same ((verify_iff sha256 l).1 v.chained))
    where
      empty : IsSound sha256 (create_ledger false [])
      empty = record { chained = tt; latest = refl; counted = refl; numbered = tt }

  verify_from-append :
      (prev : String) (n : ℕ) (rs ss : List Record)
      → Chained sha256 prev rs
      → (m : ℕ) × (verify_from sha256 prev n (rs ++ ss)
          ≡ verify_from sha256 (last_hash prev rs) m ss)
  unfolding verify_from
  verify_from-append prev n [] ss c = (n, refl)
  verify_from-append prev n (r ∷ rs) ss (c0, c1, c2) =
      let (m, e) = verify_from-append r.hash (suc n) rs ss c2 in
      (m, rw (c0, ← c1) (ground (arith, e, eq_refl prev, eq_refl r.hash)))

  -- Two records that both name the hash p break the chain at the second.
  fork-breaks :
      (p : String) (n : ℕ) (r s : Record)
      → prop "prevHash" r.body ≡ str p
      → r.hash ≡ hash_entry sha256 p r.body
      → prop "prevHash" s.body ≡ str p
      → r.hash ≢ p
      → verify_from sha256 p n (r ∷ s ∷ []) ≡ bad_chain (prop "seq" s.body)
  unfolding verify_from
  fork-breaks p n r s e h f differ =
      ground (arith, e, f, eq_refl p, eq_iff (hash_entry sha256 p r.body) r.hash, eq_iff p r.hash)

  reopened-memory :
      (file : List Line) (rs : List Record)
      → file ≡ map parsed rs
      → (create_ledger false file).memory ≡ rs
  unfolding create_ledger
  reopened-memory file rs e =
      let fresh : Ledger = record {
        broken = false;
        seq = 0;
        prev_hash = genesis;
        memory = [];
        file = file;
      } in
      ap (λ ls. (load_lines fresh ls).memory) e ∙ ap (λ l. l.memory) (load_lines-parsed fresh rs)

  -- The state after an unsynced write of one entry and a synced write of another.
  pub torn : Ledger → Fields → Fields → String → String → String → Ledger
  torn l first second now later message =
      (append sha256 (append sha256 l first now (unsynced message)).1 second later synced).1

  torn-eq :
      (l : Ledger) (first second : Fields) (now later message : String)
      → l.broken ≡ false
      → torn l first second now later message
        ≡ push_record sha256
            (record l { file = l.file ++ stored (next_record sha256 l first now) ∷ [] })
            (next_record sha256 l second later)
  unfolding torn append
  torn-eq l first second now later message b = ground arith

  -- A line that was written but not synced stays in the file and not in the memory. After the next
  -- append, of entries without undefined fields and without a field `hash`, the ledger in memory is sound, but the one that a restart reads from the file does not verify: its chain is
  -- broken at the record that was appended last, unless the digest happens to repeat the hash that
  -- stood before.
  pub unsynced-breaks :
      (l : Ledger) (first second : Fields) (now later message : String)
      → IsSound sha256 l
      → l.broken ≡ false
      → IsOnDisk l
      → IsPlain first
      → IsPlain second
      → (next_record sha256 l first now).hash ≢ l.prev_hash
      → let m = torn l first second now later message in
        IsSound sha256 m
        × (verify sha256 (create_ledger false m.file) ≡ bad_chain (num (l.seq + 1)))
  unfolding torn verify push_record stored
  unsynced-breaks l first second now later message v b d k k' differ = (
    append-IsSound sha256 _ second later synced k'.1
        (append-IsSound sha256 l first now (unsynced message) k.1 v),
    broken_at,
  )
    where
      r : Record
      r = next_record sha256 l first now

      s : Record
      s = next_record sha256 l second later

      stored_parsed :
          (entry : Fields) (t : String)
          → IsPlain entry
          → stored (next_record sha256 l entry t) ≡ parsed (next_record sha256 l entry t)
      stored_parsed entry t h =
          ap (λ f. parsed (record { body = f; hash = (next_record sha256 l entry t).hash }))
            (reload_fields_same _ (AreFieldsDefined-next_record l entry t h))

      on_disk : (l.file ++ stored r ∷ []) ++ stored s ∷ [] ≡ map parsed (l.memory ++ r ∷ s ∷ [])
      on_disk = cc (
        d,
        stored_parsed first now k,
        stored_parsed second later k',
        append_assoc l.file (stored r ∷ []) (stored s ∷ []),
        map-append parsed l.memory (r ∷ s ∷ []),
      )

      broken_at :
          verify sha256 (create_ledger false (torn l first second now later message).file)
          ≡ bad_chain (num (l.seq + 1))
      broken_at =
          let (m, e) = verify_from-append genesis 0 l.memory (r ∷ s ∷ []) v.chained in
          ap (λ q. verify_from sha256 genesis 0 (create_ledger false q.file).memory)
            (torn-eq l first second now later message b)
          ∙ ap (verify_from sha256 genesis 0) (reopened-memory _ (l.memory ++ r ∷ s ∷ []) on_disk)
          ∙ e
          ∙ ap (λ p. verify_from sha256 p m (r ∷ s ∷ [])) v.latest
          ∙ fork-breaks l.prev_hash m r s (next_record_prev sha256 l first now)
              (next_record-hash sha256 l first now k.1) (next_record_prev sha256 l second later)
              differ
          ∙ ap bad_chain (next_record_seq sha256 l second later)
