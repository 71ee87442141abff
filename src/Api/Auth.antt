-- ===== src/Api/Auth.antt =====
-- src/api/auth.js: the bearer token, its scope, the signature and its replay window. `hmac` stands for
-- node:crypto, and the rate limiter's answer is an argument.
pub mod Nonces
pub mod Accepts
use nvidia_omoda.Prelude.{
  ℕ, zero, suc, ◌+◌, ◌-◌, ◌*◌, String, Bool, true, false, not, ◌&&◌, ◌||◌, Option, none, some, List,
  [], ◌∷◌, ◌++◌, ◌==◌, if◌then◌else◌, get_or, is_some, includes, length, leb, ltb,
}
use Prim.Native.String
use nvidia_omoda.Prelude.Dict.{get, put}
use nvidia_omoda.Prelude.Print.{print_number}
use nvidia_omoda.Prelude.Rx.{codes, starts_with, trim_left, trim_right}
use nvidia_omoda.Json.{Value, num}
use nvidia_omoda.Domain.Prohibited.{port_min, port_max}

abbrev pub signature_window : ℕ
signature_window = 300000

pub record Token : Type 0 where
  pub id : String
  pub token : String
  pub secret : String
  pub scopes : List String

-- `createTokenStore`: the tokens by their text.
abbrev pub Tokens : Type 0
Tokens = List (String × Token)

unfoldable token_store : List Token → Tokens → Tokens
unfolding put
token_store [] m = m
token_store (t ∷ ts) m = token_store ts (put t.token t m)

-- `issue`, with the random part of the token given.
unfoldable issue : String → List String → String → String → Tokens → Token × Tokens
unfolding put
issue id scopes secret random tokens =
    let token = String.◌++◌ "omoda_" random in
    let rec : Token = record { id = id; token = token; secret = secret; scopes = scopes } in
    (rec, put token rec tokens)

-- A signature and the time until which it counts as seen.
abbrev pub Nonces : Type 0
Nonces = List (String × ℕ)

-- Expired entries are dropped from the oldest on, up to the first that has not expired.
unfoldable pub purge : ℕ → Nonces → Nonces
purge now [] = []
purge now ((k, exp) ∷ m) = let rest = purge now m in if leb exp now then rest else (k, exp) ∷ m

module _ (ttl max : ℕ) where
  unfoldable pub check_nonce : String → ℕ → Nonces → Bool × Nonces
  unfolding purge get put
  check_nonce sig now seen =
      let seen' = purge now seen in
      if is_some (get sig seen')
      then (false, seen')
      else if leb max (length seen')
      then (false, seen')
      else (true, put sig (now + ttl) seen')

-- A header that is missing is `none`; the timestamp is the header read by `Number`, `none` where that
-- is not finite.
pub record Headers : Type 0 where
  pub authorization : Option String
  pub timestamp : Option ℕ
  pub signature : Option String

pub data AuthError : Type 0 where
  no_token bad_token scope rate_limit unsigned stale bad_signature : AuthError

abbrev pub status : AuthError → ℕ
status scope = 403
status rate_limit = 429
status _ = 401

-- `auth.slice(7)`.
unfoldable pub skip : ℕ → String → String
skip zero s = s
skip (suc n) String.[] = String.[]
skip (suc n) (String.◌∷◌ c s) = skip n s

unfoldable pub bearer : Option String → String
unfolding starts_with skip trim_left trim_right
bearer auth =
    let a = get_or auth "" in
    if starts_with (codes a) (codes "Bearer ") then trim_right (trim_left (skip 7 a)) else ""

-- `Math.abs(a - b)`.
abbrev pub distance : ℕ → ℕ → ℕ
distance a b = if leb a b then b - a else a - b

module _ (hmac : String → String → String) where
  unfoldable pub sign_body : String → ℕ → String → String
  unfolding print_number
  sign_body secret timestamp body =
      String.◌++◌ "sha256="
        (hmac secret (String.◌++◌ (print_number (timestamp + 1) timestamp) (String.◌++◌ "." body)))

  unfoldable pub check_signature : Token → Headers → String → ℕ → Option AuthError
  unfolding sign_body
  check_signature caller headers body now = elim headers.timestamp [
    | none ↦ some unsigned
    | some ts ↦ elim headers.signature [
      | none ↦ some unsigned
      | some sig ↦
          if sig == ""
          then some unsigned
          else if ltb signature_window (distance now (ts * 1000))
          then some stale
          else if sig == sign_body caller.secret ts body
          then none
          else some bad_signature
    ]
  ]

  module _ (limiter : String → ℕ → Bool) (require_signature : Bool) where
    unfoldable pub check_caller : Token → String → Headers → String → ℕ → Option AuthError
    unfolding check_signature
    check_caller caller required headers body now =
        if not (required == "") && not (includes caller.scopes required)
        then some scope
        else if not (limiter caller.id now)
        then some rate_limit
        else if require_signature
        then check_signature caller headers body now
        else none

    -- The caller, or the error thrown.
    unfoldable pub authenticate :
        Tokens → String → Headers → String → ℕ → Option AuthError × Option Token
    unfolding bearer get check_caller
    authenticate tokens required headers body now =
        let token = bearer headers.authorization in
        if token == "" then (some no_token, none) else elim (get token tokens) [
          | none ↦ (some bad_token, none)
          | some caller ↦ elim (check_caller caller required headers body now) [
            | some e ↦ (some e, none)
            | none ↦ (none, some caller)
          ]
        ]

-- `assertBindable`: `true` where the source does not throw.
unfoldable bindable : Value → String → Bool
bindable (num p) host =
    leb port_min p && leb p port_max && not ((host == "0.0.0.0") || (host == "::"))
bindable _ host = false

-- `checkReplay`: whether it does not throw, and the cache after it. A request with no signature passes.
unfoldable pub check_replay : ℕ → ℕ → Option String → ℕ → Nonces → Bool × Nonces
unfolding check_nonce
check_replay ttl max signature now nonces =
    let sig = get_or signature "" in
    if sig == "" then (true, nonces) else check_nonce ttl max sig now nonces
