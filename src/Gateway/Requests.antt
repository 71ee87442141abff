-- ===== src/Gateway/Requests.antt =====
-- That every request of a client of src/gateway/openclaw.js is settled, once.
use nvidia_omoda.Prelude.{
  String, true, false, none, some, List, [], ◌∷◌, ◌≡◌, ◌⊎◌, sym, ◌∙◌, includes, Bool-cases,
  Option-cases, inl, inr, arith, ◌==◌, subst,
}
use text.Mathlib.TextEquality.{eq_iff}
use text.Mathlib.TextPositions.{eq_refl}
use nvidia_omoda.Prelude.Dict.{get, get-put, get-put_self}
use nvidia_omoda.Gateway.{
  Client, Settled, event, answer, unread, outcome, Step, request, timed_out, received, closed,
  without, settle, settle_all, handle, fail_all, step,
}

unfoldable pub run : List Step → Client → Client
unfolding step
run [] c = c
run (s ∷ l) c = run l (step s c)

-- A promise that is settled keeps its outcome.
settle-keeps :
    (id j : String) (x r : Settled) (m : List (String × Settled))
    → get j m ≡ some r
    → get j (settle id x m) ≡ some r
unfolding settle
settle-keeps id j x r m h = elim (Option-cases (get id m)) [
  | inr (old, there) ↦ rw (settle, there) h
  | inl new ↦
      rw (settle, new)
        (get-put id j x m ∙ elim (Bool-cases (id == j)) [
          | inl same ↦
              absurd
                (ground (arith, h, new, subst (λ k. get k m ≡ none) ((eq_iff id j).0 same) new))
          | inr differs ↦ rw differs h
        ])
]

settle_all-keeps :
    (j : String) (x r : Settled) (l : List String) (m : List (String × Settled))
    → get j m ≡ some r
    → get j (settle_all x l m) ≡ some r
unfolding settle_all
settle_all-keeps j x r [] m h = h
settle_all-keeps j x r (id ∷ l) m h =
    settle_all-keeps j x r l (settle id x m) (settle-keeps id j x r m h)

step-keeps :
    (s : Step) (j : String) (r : Settled) (c : Client)
    → get j c.settled ≡ some r
    → get j (step s c).settled ≡ some r
unfolding step handle fail_all
step-keeps (request id) j r c h = h
step-keeps (timed_out id message) j r c h =
    settle-keeps id j (Settled.rejected message) r c.settled h
step-keeps (closed message) j r c h =
    settle_all-keeps j (Settled.rejected message) r c.pending c.settled h
step-keeps (received (event name text)) j r c h = h
step-keeps (received unread) j r c h = h
step-keeps (received (answer id ok payload result message)) j r c h =
    elim (Bool-cases (includes c.pending id)) [
      | inl there ↦ rw there (settle-keeps id j (outcome ok payload result message) r c.settled h)
      | inr gone ↦ rw gone h
    ]

-- What a caller was told of a request stays, whatever comes afterwards: a late answer, the end of its time, or the end of the socket.
settled_stays :
    (l : List Step) (j : String) (r : Settled) (c : Client)
    → get j c.settled ≡ some r
    → get j (run l c).settled ≡ some r
unfolding run
settled_stays [] j r c h = h
settled_stays (s ∷ l) j r c h = settled_stays l j r (step s c) (step-keeps s j r c h)

-- A request that waits for its answer, or is settled.
abbrev IsSettled : String → List (String × Settled) → Type 0
IsSettled id m = (r : Settled) × (get id m ≡ some r)

abbrev IsKnown : String → Client → Type 0
IsKnown id c = (includes c.pending id ≡ true) ⊎ IsSettled id c.settled

settle-IsSettled :
    (id : String) (x : Settled) (m : List (String × Settled)) → IsSettled id (settle id x m)
unfolding settle
settle-IsSettled id x m = elim (Option-cases (get id m)) [
  | inr (old, there) ↦ rw (settle, there) (old, there)
  | inl new ↦ rw (settle, new) (x, get-put_self id x m)
]

settle_all-IsSettled :
    (x : Settled) (id : String) (l : List String) (m : List (String × Settled))
    → includes l id ≡ true
    → IsSettled id (settle_all x l m)
unfolding settle_all
settle_all-IsSettled x id [] m h = absurd (ground (arith, h))
settle_all-IsSettled x id (i ∷ l) m h = elim (Bool-cases (i == id)) [
  | inr differs ↦ settle_all-IsSettled x id l (settle i x m) (ground (arith, h, differs))
  | inl same ↦
      let (r, there) =
        subst (λ k. IsSettled id (settle k x m)) (sym ((eq_iff i id).0 same))
          (settle-IsSettled id x m) in
      (r, settle_all-keeps id x r l (settle i x m) there)
]

without-includes :
    (a id : String) (l : List String)
    → (a == id) ≡ false
    → includes l id ≡ true
    → includes (without a l) id ≡ true
without-includes a id [] differs h = absurd (ground (arith, h))
without-includes a id (x ∷ l) differs h = elim (Bool-cases (x == a)) [
  | inl gone ↦ rw gone (without-includes a id l differs (behind gone))
  | inr stays ↦ rw stays (elim (Bool-cases (x == id)) [
    | inl here ↦ ground (arith, here)
    | inr later ↦ ground (arith, later, without-includes a id l differs (ground (arith, h, later)))
  ])
]
  where
    behind : (x == a) ≡ true → includes l id ≡ true
    behind gone =
        ground (arith, h, subst (λ k. (k == id) ≡ false) (sym ((eq_iff x a).0 gone)) differs)

step-IsKnown : (s : Step) (id : String) (c : Client) → IsKnown id c → IsKnown id (step s c)
unfolding step handle fail_all
step-IsKnown s id c (inr (r, there)) = inr (r, step-keeps s id r c there)
step-IsKnown (request i) id c (inl waits) = inl (ground (arith, waits))
step-IsKnown (timed_out i message) id c (inl waits) = inl waits
step-IsKnown (closed message) id c (inl waits) =
    inr (settle_all-IsSettled (Settled.rejected message) id c.pending c.settled waits)
step-IsKnown (received (event name text)) id c (inl waits) = inl waits
step-IsKnown (received unread) id c (inl waits) = inl waits
step-IsKnown (received (answer a ok payload result message)) id c (inl waits) =
    elim (Bool-cases (includes c.pending a)) [
      | inr gone ↦ rw gone (inl waits)
      | inl there ↦ elim (Bool-cases (a == id)) [
        | inr differs ↦ rw there (inl (without-includes a id c.pending differs waits))
        | inl same ↦ rw there (
            inr (
              subst (λ k. IsSettled id (settle k (outcome ok payload result message) c.settled))
                (sym ((eq_iff a id).0 same))
                (settle-IsSettled id (outcome ok payload result message) c.settled)))
      ]
    ]

run-IsKnown : (l : List Step) (id : String) (c : Client) → IsKnown id c → IsKnown id (run l c)
unfolding run
run-IsKnown [] id c h = h
run-IsKnown (s ∷ l) id c h = run-IsKnown l id (step s c) (step-IsKnown s id c h)

requested : (id : String) (c : Client) → IsKnown id (step (request id) c)
unfolding step
requested id c = inl (ground (arith, eq_refl id))

closes :
    (id message : String) (c : Client)
    → IsKnown id c
    → IsSettled id (step (closed message) c).settled
unfolding step fail_all
closes id message c (inl waits) =
    settle_all-IsSettled (Settled.rejected message) id c.pending c.settled waits
closes id message c (inr (r, there)) =
    (r, settle_all-keeps id (Settled.rejected message) r c.pending c.settled there)

-- Whatever comes between, a request that was sent is settled once the socket has closed.
pub closed_settles :
    (id message : String) (between : List Step) (c : Client)
    → IsSettled id (step (closed message) (run between (step (request id) c))).settled
closed_settles id message between c =
    closes id message (run between (step (request id) c))
      (run-IsKnown between id (step (request id) c) (requested id c))
