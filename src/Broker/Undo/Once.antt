-- ===== src/Broker/Undo/Once.antt =====
-- A reversal of src/broker/undo.js runs at most once.
use nvidia_omoda.Prelude.{
  ℕ, String, Bool, true, false, Option, none, some, List, [], ◌∷◌, ◌≡◌, ◌≢◌, ◌==◌, ◌⊎◌, inl, inr,
  refl, sym, subst, Bool-cases, arith, if◌then◌else◌, eq_iff, All,
}
use nvidia_omoda.Prelude.Dict.{get, put, get-put, get-put_self}
use nvidia_omoda.Domain.Action.{Action}
use nvidia_omoda.Ledger.{Ledger, Disk, Appended, done, write_error}
use nvidia_omoda.Policy.Port.{Reply, returned, threw}
use nvidia_omoda.Broker.Undo.{
  Reversal, Store, register, Undone, reversed, no_reversal, already_run, unlogged, mark, log_undone,
  reverse_with, run,
}

-- The reversal of this token has run.
abbrev pub IsSpent : String → Store → Type 0
IsSpent token store = (r : Reversal) × (get token store ≡ some r) × (r.spent ≡ true)

put_other :
    (k j : String) (r : Reversal) (store : Store)
    → k ≢ j
    → IsSpent j store
    → IsSpent j (put k r store)
put_other k j r store n (q, e, s) = (q, simp get-put (ground (arith, eq_iff k j, n, e)), s)

module _ (sha256 : List ℕ → String) (replay : Action → String → Reply) where
  log_undone_store :
      (p : Appended × Ledger) (store : Store) → (log_undone sha256 replay p store).1 ≡ store
  unfolding log_undone
  log_undone_store (done r, l) store = refl
  log_undone_store (write_error m, l) store = refl

  -- The outcomes after which the reversal has run.
  abbrev pub HasRun : Undone → Type 0
  HasRun u = (u ≡ reversed) ⊎ ((m : String) × (u ≡ unlogged m))

  log_undone_iff :
      (p : Appended × Ledger) (store : Store) → HasRun (log_undone sha256 replay p store).0
  unfolding log_undone
  log_undone_iff (done r, l) store = inl refl
  log_undone_iff (write_error m, l) store = inr (m, refl)

  mark-IsSpent :
      (token : String) (r : Reversal) (store : Store) → IsSpent token (mark token true r store)
  mark-IsSpent token r store =
      (record r { spent = true }, get-put_self token (record r { spent = true }) store, refl)

  put_twice_other :
      (k j : String) (r q : Reversal) (store : Store)
      → k ≢ j
      → IsSpent j store
      → IsSpent j (put k q (put k r store))
  put_twice_other k j r q store n s = put_other k j q (put k r store) n (put_other k j r store n s)

  reverse_with_other :
      (reply : Reply) (token j operator : String) (r : Reversal) (now : String) (disk : Disk)
      (store : Store) (l : Ledger)
      → token ≢ j
      → IsSpent j store
      → IsSpent j (reverse_with sha256 replay reply token operator r now disk store l).1
  unfolding reverse_with
  reverse_with_other returned token j operator r now disk store l n s =
      subst (IsSpent j) (sym (log_undone_store _ (mark token true r store)))
        (put_other token j _ store n s)
  reverse_with_other (threw m) token j operator r now disk store l n s =
      put_twice_other token j _ _ store n s

  reverse_with-IsSpent :
      (reply : Reply) (token operator : String) (r : Reversal) (now : String) (disk : Disk)
      (store : Store) (l : Ledger)
      → HasRun (reverse_with sha256 replay reply token operator r now disk store l).0
      → IsSpent token (reverse_with sha256 replay reply token operator r now disk store l).1
  unfolding reverse_with
  reverse_with-IsSpent returned token operator r now disk store l h =
      subst (IsSpent token) (sym (log_undone_store _ (mark token true r store)))
        (mark-IsSpent token r store)
  reverse_with-IsSpent (threw m) token operator r now disk store l (inl h) = cc
  reverse_with-IsSpent (threw m) token operator r now disk store l (inr (k, h)) = cc

  module _ (operator now : String) (disk : Disk) (store : Store) (l : Ledger) where
    -- A token whose reversal has run is turned away, and nothing changes.
    run_spent :
        (token : String)
        → IsSpent token store
        → run sha256 replay token operator now disk store l ≡ (already_run, store, l)
    unfolding run
    run_spent token (r, e, s) = rw (e, run) (rw (s, run) refl)

    abbrev reversing : Reversal → String → Undone × Store × Ledger
    reversing r token =
        reverse_with sha256 replay (if r.replays then replay r.action r.inverse else returned) token
          operator r now disk store l

    run_live :
        (token : String) (r : Reversal)
        → get token store ≡ some r
        → r.spent ≡ false
        → run sha256 replay token operator now disk store l ≡ reversing r token
    unfolding run
    run_live token r e s = rw (e, run) (simp s)

    run-IsSpent :
        (token : String)
        → HasRun (run sha256 replay token operator now disk store l).0
        → IsSpent token (run sha256 replay token operator now disk store l).1
    unfolding run
    run-IsSpent token = go (get token store) refl
      where
        go :
            (o : Option Reversal)
            → get token store ≡ o
            → HasRun (run sha256 replay token operator now disk store l).0
            → IsSpent token (run sha256 replay token operator now disk store l).1
        go none e = rw (e, run) never
          where
            never : HasRun no_reversal → IsSpent token store
            never (inl h) = cc
            never (inr (m, h)) = cc
        go (some r) e = elim (Bool-cases r.spent) [
          | inl s ↦ rw (e, s, run) (λ h. (r, e, s))
          | inr s ↦
              subst (λ p. HasRun p.0 → IsSpent token p.1) (sym (run_live token r e s))
                (reverse_with-IsSpent _ token operator r now disk store l)
        ]

    run_keeps :
        (token j : String)
        → IsSpent j store
        → IsSpent j (run sha256 replay token operator now disk store l).1
    unfolding run
    run_keeps token j (q, f, t) = go (get token store) refl
      where
        go :
            (o : Option Reversal)
            → get token store ≡ o
            → IsSpent j (run sha256 replay token operator now disk store l).1
        go none e = rw (e, run) (q, f, t)
        go (some r) e = elim (Bool-cases r.spent) [
          | inl s ↦ rw (e, s, run) (q, f, t)
          | inr s ↦
              subst (λ p. IsSpent j p.1) (sym (run_live token r e s))
                (reverse_with_other _ token j operator r now disk store l (apart r e s) (q, f, t))
        ]
          where
            apart : (r : Reversal) → get token store ≡ some r → r.spent ≡ false → token ≢ j
            apart r e s same = ground (arith, e, f, s, t, same)

-- What may happen to the registry: an undo, or the registration of an action under a token.
pub data Call : Type 0 where
  undoing : (Action → String → Reply) → String → String → String → Disk → Call
  registering : String → Action → String → Bool → Call

module _ (sha256 : List ℕ → String) where
  abbrev pub step : Call → Store × Ledger → Store × Ledger
  step (undoing replay token operator now disk) (store, l) =
      let (u, store', l') = run sha256 replay token operator now disk store l in (store', l')
  step (registering token a inverse replays) (store, l) =
      (register token a inverse replays store, l)

  abbrev pub steps : List Call → Store × Ledger → Store × Ledger
  steps [] p = p
  steps (c ∷ cs) p = steps cs (step c p)

  -- A registration under another token.
  abbrev pub Spares : String → Call → Type 0
  Spares token (undoing replay t operator now disk) = token ≡ token
  Spares token (registering t a inverse replays) = t ≢ token

  register_keeps :
      (t token : String) (a : Action) (inverse : String) (replays : Bool) (store : Store)
      → t ≢ token
      → IsSpent token store
      → IsSpent token (register t a inverse replays store)
  unfolding register
  register_keeps t token a inverse replays store n s = elim (Bool-cases (t == "")) [
    | inl e ↦ rw (e, register) s
    | inr e ↦ rw (e, register) (put_other t token _ store n s)
  ]

  steps_keep :
      (token : String) (cs : List Call) (p : Store × Ledger)
      → All (Spares token) cs
      → IsSpent token p.0
      → IsSpent token (steps cs p).0
  steps_keep token [] p h s = s
  steps_keep token (undoing replay t operator now disk ∷ cs) (store, l) h s =
      steps_keep token cs _ h.1 (run_keeps sha256 replay operator now disk store l t token s)
  steps_keep token (registering t a inverse replays ∷ cs) (store, l) h s =
      steps_keep token cs _ h.1 (register_keeps t token a inverse replays store h.0 s)

  module _ (token : String) (first second : Action → String → Reply) (by now by' now' : String)
      (disk disk' : Disk) where
    -- Once the reversal of a token has run, logged or not, no later undo of that token runs it again,
    -- changes the registry or writes a record, whatever was undone or registered under other tokens
    -- in between.
    pub undo_once :
        (store : Store) (l : Ledger) (between : List Call)
        → HasRun sha256 first (run sha256 first token by now disk store l).0
        → All (Spares token) between
        → let mid = steps between (step (undoing first token by now disk) (store, l)) in
          run sha256 second token by' now' disk' mid.0 mid.1 ≡ (already_run, mid.0, mid.1)
    undo_once store l between h spare =
        let mid : Store × Ledger =
          steps between (step (undoing first token by now disk) (store, l)) in
        run_spent sha256 second by' now' disk' mid.0 mid.1 token
          (steps_keep token between _ spare (run-IsSpent sha256 first by now disk store l token h))
