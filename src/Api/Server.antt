-- ===== src/Api/Server.antt =====
-- `handle` of src/api/server.js for a path that is not below /ui: routing, authorization, and the calls of the
-- intent store and the ledger. The body's JSON and its schema are read by parameters.
pub mod Path
pub mod Serve
pub mod Rule
pub mod Same
pub mod DecidedId
pub mod Decides
pub mod Replay
pub mod Recorded
use nvidia_omoda.Prelude.{
  ℕ, ◌+◌, String, Bool, true, false, not, ◌&&◌, ◌||◌, Option, none, some, List, [], ◌∷◌, ◌==◌,
  if◌then◌else◌, includes, ltb, get_or,
}
use Prim.Native.String
use nvidia_omoda.Prelude.Dict.{get}
use nvidia_omoda.Json.{Fields, str}
use nvidia_omoda.Ledger.{Ledger}
use nvidia_omoda.Api.Auth.{
  Token, Tokens, Nonces, Headers, AuthError, no_token, bad_token, scope, rate_limit, unsigned,
  stale, bad_signature, status, bearer, signature_window, check_replay, authenticate,
}
use nvidia_omoda.Api.Limiter.{Buckets, take_token}
use Path.{under_intents, ends_with}
use Serve.{Env, App, Request, Response, problem, live, log, entry, serve}

abbrev pub is_post : Request → Bool
is_post req = req.method == "POST"

abbrev is_put : Request → Bool
is_put req = req.method == "PUT"

-- A request whose body is read and must be signed.
abbrev pub sends : Request → Bool
sends req = is_post req || is_put req

-- `scopeFor`.
unfoldable pub scope_for : Request → Option String
unfolding under_intents ends_with
scope_for req =
    if (req.path == "/v1/intents") && is_post req
    then some "intent:propose"
    else if under_intents req.path && ends_with req.path "/decisions"
    then some "intent:decide"
    else if under_intents req.path && is_put req
    then some "intent:propose"
    else if under_intents req.path
    then some "intent:read"
    else if req.path == "/v1/ledger"
    then some "ledger:read"
    else if req.path == "/v1/halt"
    then some "control:halt"
    else none

abbrev pub code : AuthError → String
code no_token = "no_token"
code bad_token = "bad_token"
code scope = "scope"
code rate_limit = "rate_limit"
code unsigned = "unsigned"
code stale = "stale"
code bad_signature = "bad_signature"

-- The limits of `createRateLimiter` and `createNonceCache`, and of `readBody`.
abbrev rate_capacity : ℕ
rate_capacity = 60

abbrev rate_refill : ℕ
rate_refill = 1

abbrev pub nonce_max : ℕ
nonce_max = 10000

abbrev pub body_limit : ℕ
body_limit = 262144

-- The answer of the rate limiter while a request is authorized.
abbrev pub allows : App → String → ℕ → Bool
allows app id now = (take_token rate_capacity rate_refill id now app.buckets).0

-- The buckets after it: a token is taken once the caller is known and has the scope.
unfoldable pub charged : Env → Request → String → App → App
unfolding bearer get take_token
charged env req required app =
    let token = bearer req.headers.authorization in
    if token == "" then app else elim (get token app.tokens) [
      | none ↦ app
      | some caller ↦
          if includes caller.scopes required
          then record app {
            buckets = (take_token rate_capacity rate_refill caller.id env.now app.buckets).1;
          }
          else app
    ]

-- The body that is signed: nothing is read from a request that sends none.
abbrev pub raw : Request → String
raw req = if sends req then req.body else ""

-- A proposal is checked for a replay once it is known not to be a retry; all else that is sent at once.
abbrev pub replay_now : Request → Bool
replay_now req = (is_post req && not (req.path == "/v1/intents")) || is_put req

abbrev pub received_entry : Request → Token → Fields
received_entry req caller = entry caller (
    ("tool", str (String.◌++◌ req.method (String.◌++◌ " " req.path)))
    ∷ ("verb", str "read")
    ∷ ("outcome", str "received")
    ∷ [])

-- The record that the call was received, and then the endpoint.
unfoldable pub recorded : Env → Request → Token → App → Response × App
unfolding log serve
recorded env req caller app =
    let (ok, app') = log env env.received (received_entry req caller) app in
    if ok then serve env req caller app' else (problem 503 "ledger_unavailable", app')

unfoldable pub admit : Env → Request → Token → App → Response × App
unfolding check_replay recorded
admit env req caller app =
    if replay_now req
    then (let (fresh, nonces) =
          check_replay signature_window nonce_max req.headers.signature env.now app.nonces in
        let app' : App = record app { nonces = nonces } in
        if fresh then recorded env req caller app' else (problem 409 "replay", app'))
    else recorded env req caller app

unfoldable pub authorized : Env → Request → String → App → Response × App
unfolding authenticate charged admit
authorized env req required app =
    let (error, caller) =
      authenticate env.hmac (allows app) (sends req) app.tokens required req.headers (raw req)
        env.now in
    let app' = charged env req required app in
    elim caller [
      | some c ↦ admit env req c app'
      | none ↦ elim error [
        | some e ↦ (problem (status e) (code e), app')
        | none ↦ (problem 500 "internal", app')
      ]
    ]

unfoldable pub handle : Env → Request → App → Response × App
unfolding scope_for authorized
handle env req app =
    if (req.path == "/healthz") && (req.method == "GET")
    then (live, app)
    else if sends req && ltb body_limit req.size
    then (problem 413 "too_large", app)
    else elim (scope_for req) [
      | none ↦ (problem 404 "not_found", app)
      | some required ↦ authorized env req required app
    ]
