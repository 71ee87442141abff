-- ===== src/Api/Auth/Nonces.antt =====
-- The nonce cache of src/api/auth.js accepts a signature once in its window, and stays bounded.
use nvidia_omoda.Prelude.{
  ℕ, ◌+◌, ◌≤◌, ◌<◌, String, true, false, some, List, [], ◌∷◌, ◌≡◌, length, All, arith, eq_iff,
}
use nvidia_omoda.Prelude.Dict.{get, put, get-put, get-put_self}
use nvidia_omoda.Api.Auth.{Nonces, purge, check_nonce}

-- The signature is in the cache, and stays there up to this time.
abbrev pub Holds : String → ℕ → Nonces → Type 0
Holds sig until seen = get sig seen ≡ some until

pub purge-Holds :
    (now until : ℕ) (sig : String) (seen : Nonces)
    → now < until
    → Holds sig until seen
    → Holds sig until (purge now seen)
unfolding purge get
purge-Holds now until sig [] l h = h
purge-Holds now until sig ((k, exp) ∷ m) l h = ground (arith, purge-Holds now until sig m l)

module _ (ttl max : ℕ) where
  pub check-Holds :
      (sig other : String) (now until : ℕ) (seen : Nonces)
      → now < until
      → Holds sig until seen
      → Holds sig until (check_nonce ttl max other now seen).1
  unfolding check_nonce
  check-Holds sig other now until seen l h = ground (
    arith,
    purge-Holds now until sig seen l h,
    get-put other sig (now + ttl) (purge now seen),
    eq_iff other sig,
  )

  pub check_again :
      (sig : String) (now until : ℕ) (seen : Nonces)
      → now < until
      → Holds sig until seen
      → (check_nonce ttl max sig now seen).0 ≡ false
  unfolding check_nonce
  check_again sig now until seen l h = ground (arith, purge-Holds now until sig seen l h)

  pub check_first :
      (sig : String) (now : ℕ) (seen : Nonces)
      → (check_nonce ttl max sig now seen).0 ≡ true
      → Holds sig (now + ttl) (check_nonce ttl max sig now seen).1
  unfolding check_nonce
  check_first sig now seen h = ground (arith, h, get-put_self sig (now + ttl) (purge now seen))

  -- The calls of `check`, each with its signature and its time.
  abbrev pub checks : List (String × ℕ) → Nonces → Nonces
  checks [] seen = seen
  checks ((sig, now) ∷ l) seen = checks l (check_nonce ttl max sig now seen).1

  checks_hold :
      (l : List (String × ℕ)) (sig : String) (until : ℕ) (seen : Nonces)
      → All (λ c. c.1 < until) l
      → Holds sig until seen
      → Holds sig until (checks l seen)
  checks_hold [] sig until seen b h = h
  checks_hold ((s, now) ∷ l) sig until seen b h =
      checks_hold l sig until _ b.1 (check-Holds sig s now until seen b.0 h)

  -- A signature that was accepted is not accepted again while its window lasts, whatever else is
  -- checked in between.
  pub nonce_once :
      (sig : String) (now later : ℕ) (seen : Nonces) (between : List (String × ℕ))
      → (check_nonce ttl max sig now seen).0 ≡ true
      → All (λ c. c.1 < now + ttl) between
      → later < now + ttl
      → (check_nonce ttl max sig later (checks between (check_nonce ttl max sig now seen).1)).0
        ≡ false
  nonce_once sig now later seen between h b l =
      check_again sig later (now + ttl) (checks between (check_nonce ttl max sig now seen).1) l (
        checks_hold between sig (now + ttl) (check_nonce ttl max sig now seen).1 b
          (check_first sig now seen h))

  pub length-purge : (now : ℕ) (seen : Nonces) → length (purge now seen) ≤ length seen
  unfolding purge
  length-purge now [] = omega arith
  length-purge now ((k, exp) ∷ m) = ground (arith, length-purge now m)

  pub length-put :
      (sig : String) (t : ℕ) (seen : Nonces) → length (put sig t seen) ≤ length seen + 1
  unfolding put
  length-put sig t [] = omega arith
  length-put sig t ((k, exp) ∷ m) = ground (arith, length-put sig t m)

  -- The cache never grows beyond its bound.
  pub nonces_bounded :
      (sig : String) (now : ℕ) (seen : Nonces)
      → length seen ≤ max
      → length (check_nonce ttl max sig now seen).1 ≤ max
  unfolding check_nonce
  nonces_bounded sig now seen b =
      ground (arith, b, length-purge now seen, length-put sig (now + ttl) (purge now seen))
