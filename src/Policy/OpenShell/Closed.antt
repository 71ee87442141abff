-- ===== src/Policy/OpenShell/Closed.antt =====
-- Reverting in src/policy/openshell.js closes what was open, and checks that it did.
use nvidia_omoda.Prelude.{
  ℕ, String, Bool, true, false, Option, none, some, List, [], ◌∷◌, ◌==◌, ◌≡◌, refl, sym, subst,
  includes, map, All, Bool-cases, inl, inr, arith, eq_iff, eq_refl,
}
use nvidia_omoda.Prelude.Dict.{get, del}
use nvidia_omoda.Policy.Envelope.{Group, Answer, allowed, check, clean_group}
use nvidia_omoda.Policy.Port.{Reply, returned, threw}
use nvidia_omoda.Policy.OpenShell.{
  Read, live, failed, Delta, Open, write_policy, check_live, verify_gone, revert_read, revert_key,
  revert_keys, keys, revert_all,
}

module _ {W : Type 0} (read_live : W → Read × W) (write_live : List Group → W → Option String × W)
    (ttl : ℕ) where
  -- The last thing done was to read the live policy, which does not allow the request.
  abbrev pub IsGone : Delta → Reply × Open × W → Type 0
  IsGone d p =
      (v : W) × (gs : List Group) × (a : Answer) × ((read_live v).0 ≡ live gs)
      × ((read_live v).1 ≡ p.2)
      × (check (record { policies = gs; deltas = [] }) d.request ≡ some a)
      × (allowed a ≡ false)

  verify_gone-IsGone :
      (d : Delta) (open_deltas : Open) (w : W)
      → (verify_gone read_live write_live false ttl d open_deltas w).0 ≡ returned
      → IsGone d (verify_gone read_live write_live false ttl d open_deltas w)
  unfolding verify_gone check_live
  verify_gone-IsGone d open_deltas w h = of_read (read_live w).0 refl
    where
      of_check :
          (gs : List Group)
          → (read_live w).0 ≡ live gs
          → (o : Option Answer) → check (record { policies = gs; deltas = [] }) d.request ≡ o
          → IsGone d (verify_gone read_live write_live false ttl d open_deltas w)
      of_check gs e none f = absurd (ground (arith, h, e, f))
      of_check gs e (some a) f = elim (Bool-cases (allowed a)) [
        | inl still ↦ absurd (ground (arith, h, e, f, still))
        | inr no_more ↦ (w, gs, a, e, ground (arith, e, f, no_more), f, no_more)
      ]

      of_read :
          (r : Read)
          → (read_live w).0 ≡ r
          → IsGone d (verify_gone read_live write_live false ttl d open_deltas w)
      of_read (failed m) e = absurd (ground (arith, h, e))
      of_read (live gs) e =
          of_check gs e (check (record { policies = gs; deltas = [] }) d.request) refl

  module _ (dry_run : Bool) where
    verify_gone_open :
        (d : Delta) (open_deltas : Open) (w : W)
        → (verify_gone read_live write_live dry_run ttl d open_deltas w).1 ≡ open_deltas
    unfolding verify_gone
    verify_gone_open d open_deltas w = ground arith

    revert_read_open :
        (key : String) (d : Delta) (gs : List Group) (open_deltas : Open) (w : W)
        → (revert_read read_live write_live dry_run ttl key d gs open_deltas w).0 ≡ returned
        → (revert_read read_live write_live dry_run ttl key d gs open_deltas w).1
          ≡ del key open_deltas
    unfolding revert_read
    revert_read_open key d gs open_deltas w h =
        go (write_policy read_live write_live dry_run ttl (map (clean_group d.id) gs) w).0 refl
      where
        go :
            (o : Option String)
            → (write_policy read_live write_live dry_run ttl (map (clean_group d.id) gs) w).0 ≡ o
            → (revert_read read_live write_live dry_run ttl key d gs open_deltas w).1
              ≡ del key open_deltas
        go (some m) e = absurd (ground (arith, h, e))
        go none e =
            rw (e, revert_read)
              (verify_gone_open d (del key open_deltas)
                (write_policy read_live write_live dry_run ttl (map (clean_group d.id) gs) w).1)

    -- The keys of the open deltas are all in the list.
    abbrev Within : List String → Open → Type 0
    Within ks m = All (λ e. includes ks e.0 ≡ true) m

    Within-del :
        (k : String) (ks : List String) (m : Open) → Within (k ∷ ks) m → Within ks (del k m)
    unfolding del
    Within-del k ks [] h = tt
    Within-del k ks ((j, d) ∷ m) h = elim (Bool-cases (j == k)) [
      | inl hit ↦ rw hit (Within-del k ks m h.1)
      | inr miss ↦
          rw miss (ground (arith, h.0, miss, eq_iff j k, eq_iff k j), Within-del k ks m h.1)
    ]

    Within-missing :
        (k : String) (ks : List String) (m : Open)
        → get k m ≡ none
        → Within (k ∷ ks) m
        → Within ks m
    unfolding get
    Within-missing k ks [] e h = tt
    Within-missing k ks ((j, d) ∷ m) e h = elim (Bool-cases (j == k)) [
      | inl hit ↦ absurd (ground (arith, e, hit))
      | inr miss ↦ (
        ground (arith, h.0, miss, eq_iff j k, eq_iff k j),
        Within-missing k ks m (ground (arith, e, miss)) h.1,
      )
    ]

    revert_key-Within :
        (k : String) (ks : List String) (open_deltas : Open) (w : W)
        → (revert_key read_live write_live dry_run ttl k open_deltas w).0 ≡ returned
        → Within (k ∷ ks) open_deltas
        → Within ks (revert_key read_live write_live dry_run ttl k open_deltas w).1
    unfolding revert_key
    revert_key-Within k ks open_deltas w h within = go (get k open_deltas) refl
      where
        of_read :
            (d : Delta)
            → get k open_deltas ≡ some d
            → (r : Read) → (read_live w).0 ≡ r
            → Within ks (revert_key read_live write_live dry_run ttl k open_deltas w).1
        of_read d e (failed m) f = absurd (ground (arith, h, e, f))
        of_read d e (live gs) f =
            let ok : (revert_read read_live write_live dry_run ttl k d gs open_deltas
                  (read_live w).1).0
                ≡ returned =
              ground (arith, h, e, f) in
            rw (e, revert_key)
              (rw (f, revert_key)
                (subst (Within ks) (sym (revert_read_open k d gs open_deltas (read_live w).1 ok))
                  (Within-del k ks open_deltas within)))

        go :
            (o : Option Delta)
            → get k open_deltas ≡ o
            → Within ks (revert_key read_live write_live dry_run ttl k open_deltas w).1
        go none e = rw (e, revert_key) (Within-missing k ks open_deltas e within)
        go (some d) e = of_read d e (read_live w).0 refl

    Within-nothing : (m : Open) → Within [] m → m ≡ []
    Within-nothing [] h = refl
    Within-nothing ((k, d) ∷ m) h = cc (h.0)

    revert_keys_open :
        (ks : List String) (open_deltas : Open) (w : W)
        → (revert_keys read_live write_live dry_run ttl ks open_deltas w).0 ≡ returned
        → Within ks open_deltas
        → (revert_keys read_live write_live dry_run ttl ks open_deltas w).1 ≡ []
    unfolding revert_keys
    revert_keys_open [] open_deltas w h within = Within-nothing open_deltas within
    revert_keys_open (k ∷ ks) open_deltas w h within =
        let p : Reply × Open × W = revert_key read_live write_live dry_run ttl k open_deltas w in
        go p.0 refl (λ ok rest.
          revert_keys_open ks p.1 p.2 rest (revert_key-Within k ks open_deltas w ok within))
      where
        go :
            (r : Reply)
            → (revert_key read_live write_live dry_run ttl k open_deltas w).0 ≡ r
            → ((revert_key read_live write_live dry_run ttl k open_deltas w).0 ≡ returned
                → (revert_keys read_live write_live dry_run ttl ks
                    (revert_key read_live write_live dry_run ttl k open_deltas w).1
                    (revert_key read_live write_live dry_run ttl k open_deltas w).2).0
                  ≡ returned
                → (revert_keys read_live write_live dry_run ttl ks
                    (revert_key read_live write_live dry_run ttl k open_deltas w).1
                    (revert_key read_live write_live dry_run ttl k open_deltas w).2).1
                  ≡ [])
            → (revert_keys read_live write_live dry_run ttl (k ∷ ks) open_deltas w).1 ≡ []
        go (threw m) e next = absurd (ground (arith, h, e))
        go returned e next = rw (e, revert_keys) (next e (ground (arith, h, e)))

    Within-more : (k : String) (ks : List String) (m : Open) → Within ks m → Within (k ∷ ks) m
    Within-more k ks [] h = tt
    Within-more k ks ((j, d) ∷ m) h = (ground (arith, h.0), Within-more k ks m h.1)

    Within-keys : (m : Open) → Within (keys read_live write_live dry_run ttl m) m
    Within-keys [] = tt
    Within-keys ((k, d) ∷ m) = (
      ground (arith, eq_refl k),
      Within-more k (keys read_live write_live dry_run ttl m) m (Within-keys m),
    )

    -- If reverting everything succeeds, then no delta is left open.
    pub revert_all_closes :
        (open_deltas : Open) (w : W)
        → (revert_all read_live write_live dry_run ttl open_deltas w).0 ≡ returned
        → (revert_all read_live write_live dry_run ttl open_deltas w).1 ≡ []
    revert_all_closes open_deltas w h =
        revert_keys_open (keys read_live write_live dry_run ttl open_deltas) open_deltas w h
          (Within-keys open_deltas)

  -- If reverting an open delta succeeds, outside of a dry run, then the live policy that was read last
  -- does not allow the request of the delta.
  pub revert_key-IsGone :
      (key : String) (d : Delta) (open_deltas : Open) (w : W)
      → get key open_deltas ≡ some d
      → (revert_key read_live write_live false ttl key open_deltas w).0 ≡ returned
      → IsGone d (revert_key read_live write_live false ttl key open_deltas w)
  unfolding revert_key revert_read
  revert_key-IsGone key d open_deltas w e h = of_read (read_live w).0 refl
    where
      of_write :
          (gs : List Group)
          → (read_live w).0 ≡ live gs
          → (o : Option String)
          → (write_policy read_live write_live false ttl
              (map (clean_group d.id) gs)
              (read_live w).1).0
            ≡ o
          → IsGone d (revert_key read_live write_live false ttl key open_deltas w)
      of_write gs f (some m) g = absurd (ground (arith, h, e, f, g))
      of_write gs f none g =
          let v : W =
            (write_policy read_live write_live false ttl (map (clean_group d.id) gs)
              (read_live w).1).1 in
          let ok : (verify_gone read_live write_live false ttl d (del key open_deltas) v).0
              ≡ returned =
            ground (arith, h, e, f, g) in
          rw (e, revert_key)
            (rw (f, revert_key)
              (rw (g, revert_read) (verify_gone-IsGone d (del key open_deltas) v ok)))

      of_read :
          (r : Read)
          → (read_live w).0 ≡ r
          → IsGone d (revert_key read_live write_live false ttl key open_deltas w)
      of_read (failed m) f = absurd (ground (arith, h, e, f))
      of_read (live gs) f =
          of_write gs f
            (write_policy read_live write_live false ttl (map (clean_group d.id) gs)
              (read_live w).1).0
            refl
