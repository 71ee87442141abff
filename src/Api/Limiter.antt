-- ===== src/Api/Limiter.antt =====
-- `createRateLimiter` of src/api/auth.js: a token bucket for each caller. Tokens are counted in
-- thousandths, so that a bucket refilled by milliseconds holds a whole number of them; `refill` is a
-- whole number of tokens per second.
pub mod Rate
use nvidia_omoda.Prelude.{
  ℕ, ◌+◌, ◌-◌, ◌*◌, String, Bool, true, false, not, Option, List, [], ◌∷◌, if◌then◌else◌, get_or,
  leb, ltb,
}
use nvidia_omoda.Prelude.Dict.{get, put}

pub record Bucket : Type 0 where
  pub tokens : ℕ
  pub last : ℕ

abbrev pub Buckets : Type 0
Buckets = List (String × Bucket)

-- `Math.min(a, b)`.
abbrev pub min : ℕ → ℕ → ℕ
min a b = if leb a b then a else b

module _ (capacity refill : ℕ) where
  abbrev pub full : ℕ
  full = capacity * 1000

  -- The bucket of a caller; one that has none starts full.
  unfoldable pub bucket_of : String → ℕ → Buckets → Bucket
  unfolding get
  bucket_of id now m = get_or (get id m) (record { tokens = full; last = now })

  -- What the bucket holds now. The clock does not go back.
  unfoldable pub refilled : ℕ → Bucket → ℕ
  refilled now b = min full (b.tokens + (now - b.last) * refill)

  -- `take`: whether the caller is served.
  unfoldable pub take_token : String → ℕ → Buckets → Bool × Buckets
  unfolding bucket_of refilled put
  take_token id now m =
      let tokens = refilled now (bucket_of id now m) in
      let left = if ltb tokens 1000 then tokens else tokens - 1000 in
      (not (ltb tokens 1000), put id (record { tokens = left; last = now }) m)
