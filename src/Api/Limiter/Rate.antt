-- ===== src/Api/Limiter/Rate.antt =====
-- How often the rate limiter of src/api/auth.js serves a caller.
use nvidia_omoda.Prelude.{
  ℕ, suc, ◌+◌, ◌-◌, ◌*◌, ◌≤◌, String, Bool, false, Option, none, some, List, [], ◌∷◌, ◌==◌, ◌≡◌,
  refl, sym, ap, subst, ◌∙◌, if-both, if◌then◌else◌, ltb, Bool-cases, inl, inr, arith, eq_iff,
  eq_refl,
}
use nvidia_omoda.Prelude.Dict.{get, get-put}
use nvidia_omoda.Api.Limiter.{Bucket, Buckets, full, bucket_of, refilled, take_token}

-- The calls of `take` come in the order of their times, between two times.
abbrev Ascending : ℕ → List (String × ℕ) → ℕ → Type 0
Ascending from [] until = from ≤ until
Ascending from ((id, now) ∷ l) until = (from ≤ now) × Ascending now l until

Ascending-le :
    (from : ℕ) (l : List (String × ℕ)) (until : ℕ) → Ascending from l until → from ≤ until
Ascending-le from [] until a = a
Ascending-le from ((id, now) ∷ l) until (h, a) = omega (arith, h, Ascending-le now l until a)

elapsed_split : (a b c r : ℕ) → a ≤ b → b ≤ c → (c - a) * r ≡ (b - a) * r + (c - b) * r
elapsed_split a b c r h k = grind arith

module _ (capacity refill : ℕ) (who : String) where
  -- How often the caller is served.
  abbrev pub served : List (String × ℕ) → Buckets → ℕ
  served [] m = 0
  served ((id, now) ∷ l) m =
      let rest = served l (take_token capacity refill id now m).1 in
      if (id == who)
      then (if (take_token capacity refill id now m).0 then suc rest else rest)
      else rest

  -- What the caller's bucket holds at a time.
  abbrev level : ℕ → Buckets → ℕ
  level now m = refilled capacity refill now (bucket_of capacity refill who now m)

  -- The bucket was not touched after this time.
  abbrev Settled : ℕ → Option Bucket → Type 0
  Settled now none = Unit {0}
  Settled now (some b) = b.last ≤ now

  later-Settled : (from now : ℕ) (o : Option Bucket) → from ≤ now → Settled from o → Settled now o
  later-Settled from now none h s = tt
  later-Settled from now (some b) h s = omega arith

  level_grows :
      (from now : ℕ) (m : Buckets)
      → from ≤ now
      → Settled from (get who m)
      → level now m ≤ level from m + (now - from) * refill
  unfolding refilled bucket_of
  level_grows from now m h s = go (get who m) refl s
    where
      go :
          (o : Option Bucket)
          → get who m ≡ o
          → Settled from o
          → level now m ≤ level from m + (now - from) * refill
      go none e s = rw e (ground arith)
      go (some b) e s = rw e (ground (arith, elapsed_split b.last from now refill s h))

  now_level :
      (now : ℕ) (b : Bucket)
      → b.last ≡ now
      → b.tokens ≤ full capacity refill
      → refilled capacity refill now b ≡ b.tokens
  unfolding refilled
  now_level now b e h =
      let none_yet : (now - b.last) * refill ≡ 0 = grind arith in ground (arith, none_yet)

  level_full : (now : ℕ) (m : Buckets) → level now m ≤ full capacity refill
  unfolding refilled
  level_full now m = ground arith

  -- A call at a time: what the caller's bucket holds after it, and whether it was served.
  abbrev Paid : ℕ → Buckets → Bool × Buckets → Type 0
  Paid now m p = (if p.0 then 1000 else 0) + level now p.1 ≤ level now m

  take_own : (now : ℕ) (m : Buckets) → Paid now m (take_token capacity refill who now m)
  unfolding take_token bucket_of
  take_own now m =
      let found = get-put who who (record { tokens = left; last = now }) m in
      let same = now_level now (record { tokens = left; last = now }) refl small in
      rw found (rw (eq_refl who) (rw same (ground arith)))
    where
      left : ℕ
      left = if ltb (level now m) 1000 then level now m else level now m - 1000

      small : left ≤ full capacity refill
      small = ground (arith, level_full now m)

  get_after :
      (id : String) (now : ℕ) (m : Buckets)
      → (b : Bucket) × (b.last ≡ now)
        × (get who (take_token capacity refill id now m).1
            ≡ (if id == who then some b else get who m))
  unfolding take_token
  get_after id now m = (record { tokens = left; last = now }, refl, get-put id who _ m)
    where
      tokens : ℕ
      tokens = refilled capacity refill now (bucket_of capacity refill id now m)

      left : ℕ
      left = if ltb tokens 1000 then tokens else tokens - 1000

  take_other :
      (id : String) (now : ℕ) (m : Buckets)
      → (id == who) ≡ false
      → level now (take_token capacity refill id now m).1 ≡ level now m
  unfolding bucket_of
  take_other id now m ne =
      let (b, e, f) = get_after id now m in
      let same : get who (take_token capacity refill id now m).1 ≡ get who m =
        f ∙ ap (λ x. if x then some b else get who m) ne in
      rw same refl

  after-Settled :
      (id : String) (now : ℕ) (m : Buckets)
      → Settled now (get who m)
      → Settled now (get who (take_token capacity refill id now m).1)
  after-Settled id now m s =
      let (b, e, f) = get_after id now m in
      subst (Settled now) (sym f)
        (if-both (Settled now) (id == who) (some b) (get who m) (omega arith) s)

  -- The thousandths that are served and left never exceed what was there and what came in.
  served_level :
      (from until : ℕ) (l : List (String × ℕ)) (m : Buckets)
      → Ascending from l until
      → Settled from (get who m)
      → 1000 * served l m ≤ level from m + (until - from) * refill
  served_level from until [] m a s = omega arith
  served_level from until ((id, now) ∷ l) m (h, a) s =
      let grows = level_grows from now m h s in
      let ih =
        served_level now until l (take_token capacity refill id now m).1 a
          (after-Settled id now m (later-Settled from now (get who m) h s)) in
      let split = elapsed_split from now until refill h (Ascending-le now l until a) in
      elim (Bool-cases (id == who)) [
        | inl own ↦
            let same : id ≡ who = (eq_iff id who).0 own in
            let paid : Paid now m (take_token capacity refill id now m) =
              subst (λ x. Paid now m (take_token capacity refill x now m)) (sym same)
                (take_own now m) in
            rw own (ground (arith, grows, ih, split, paid))
        | inr other ↦ rw other (omega (arith, grows, ih, split, take_other id now m other))
      ]

  -- Over any calls of all callers in the order of their times, a caller with no bucket yet is served
  -- at most as often as the capacity and the refill of the time that passed allow.
  pub rate_bounded :
      (from until : ℕ) (l : List (String × ℕ)) (m : Buckets)
      → Ascending from l until
      → get who m ≡ none
      → 1000 * served l m ≤ capacity * 1000 + (until - from) * refill
  rate_bounded from until l m a e =
      omega
        (arith, served_level from until l m a (subst (Settled from) (sym e) tt), level_full from m)
