-- ===== src/Api/Server/Replay.antt =====
-- A signed decision is taken once by src/api/server.js, whatever it answers in between.
use nvidia_omoda.Prelude.{
  ℕ, ◌+◌, ◌<◌, String, Bool, true, false, ◌&&◌, Option, none, some, List, [], ◌∷◌, ◌==◌, ◌≡◌, ◌≢◌,
  ◌⊎◌, inl, inr, refl, sym, ap, subst, ◌∙◌, get_or, if-both, Bool-cases, All, ltb, arith, eq_iff,
}
use Prim.Native.String
use nvidia_omoda.Json.{Fields}
use nvidia_omoda.Api.Auth.{
  Token, Nonces, AuthError, signature_window, sign_body, check_nonce, check_replay, authenticate,
}
use nvidia_omoda.Api.Auth.Accepts.{IsSigned}
use nvidia_omoda.Api.Auth.Nonces.{Holds, check-Holds, check_again, check_first}
use nvidia_omoda.Api.Server.Serve.{
  Env, App, Request, Response, problem, live, caller_of, log, post_proposal, serve_proposal,
  serve_update, serve_decision, serve_halt, serve, nonce_limit,
}
use nvidia_omoda.Api.Stream.{transport_envelope}
use nvidia_omoda.Api.Intents.{propose}
use nvidia_omoda.Api.Server.Rule.{serve_rule}
use nvidia_omoda.Api.Server.{
  sends, scope_for, allows, charged, raw, replay_now, body_limit, nonce_max, recorded, admit,
  authorized, handle,
}
use nvidia_omoda.Api.Server.Decides.{Decides, handle-Settles, charged_same}
use nvidia_omoda.Api.Server.Same.{Same}

post_nonces :
    (env : Env) (req : Request) (caller : Token) (key : String) (body : Fields) (app : App)
    → ((post_proposal env req caller key body app).1.nonces ≡ app.nonces)
      ⊎ ((post_proposal env req caller key body app).1.nonces
          ≡ (check_replay signature_window nonce_limit req.headers.signature env.now app.nonces).1)
unfolding post_proposal
post_nonces env req caller key body app = elim (Bool-cases again) [
  | inl old ↦ inl (rw (old, post_proposal) refl)
  | inr new ↦
      elim (Bool-cases
        (check_replay signature_window nonce_limit req.headers.signature env.now app.nonces).0) [
          | inl fresh ↦ inr (rw (new, post_proposal) (rw (fresh, post_proposal) refl))
          | inr used ↦ inr (rw (new, post_proposal) (rw (used, post_proposal) refl))
        ]
]
  where
    again : Bool
    again =
        (propose env.random_id env.time (some key) body (caller_of caller)
          (transport_envelope "api" "inbound" "json" key env.time) app.intents).duplicate

update_nonces :
    (env : Env) (req : Request) (caller : Token) (id : String) (app : App)
    → (serve_update env req caller id app).1.nonces ≡ app.nonces
unfolding serve_update log
update_nonces env req caller id app = ground arith

decision_nonces :
    (env : Env) (req : Request) (caller : Token) (id : String) (app : App)
    → (serve_decision env req caller id app).1.nonces ≡ app.nonces
unfolding serve_decision
decision_nonces env req caller id app = ground arith

-- Requests, each with what it meets.
abbrev pub requests : List (Env × Request) → App → App
requests [] app = app
requests ((env, req) ∷ l) app = requests l (handle env req app).1

module _ (sig : String) (until : ℕ) where
  replay-Holds :
      (signature : Option String) (now : ℕ) (nonces : Nonces)
      → now < until
      → Holds sig until nonces
      → Holds sig until (check_replay signature_window nonce_max signature now nonces).1
  unfolding check_replay
  replay-Holds signature now nonces l h =
      if-both (λ p. Holds sig until p.1) (get_or signature "" == "") (true, nonces)
        (check_nonce signature_window nonce_max (get_or signature "") now nonces) h
        (check-Holds signature_window nonce_max sig (get_or signature "") now until nonces l h)

  abbrev Kept : Response × App → Type 0
  Kept p = Holds sig until p.1.nonces

  module _ (env : Env) (req : Request) (soon : env.now < until) where
    post-Kept :
        (caller : Token) (key : String) (body : Fields) (app : App)
        → Holds sig until app.nonces
        → Kept (post_proposal env req caller key body app)
    post-Kept caller key body app h = elim (post_nonces env req caller key body app) [
      | inl same ↦ subst (Holds sig until) (sym same) h
      | inr checked ↦
          subst (Holds sig until) (sym checked)
            (replay-Holds req.headers.signature env.now app.nonces soon h)
    ]

    proposal-Kept :
        (caller : Token) (app : App)
        → Holds sig until app.nonces
        → Kept (serve_proposal env req caller app)
    unfolding serve_proposal
    proposal-Kept caller app h = go (env.read_proposal req.body) refl
      where
        go :
            (o : Option Fields)
            → env.read_proposal req.body ≡ o
            → Kept (serve_proposal env req caller app)
        go none e =
            rw (e, serve_proposal) (if-both Kept (get_or req.idempotency_key "" == "") _ _ h h)
        go (some body) e =
            rw (e, serve_proposal)
              (if-both Kept (get_or req.idempotency_key "" == "")
                (problem 400 "idempotency_required", app)
                (post_proposal env req caller (get_or req.idempotency_key "") body app) h
                (post-Kept caller (get_or req.idempotency_key "") body app h))

    serve-Kept :
        (caller : Token) (app : App) → Holds sig until app.nonces → Kept (serve env req caller app)
    unfolding serve_halt log
    serve-Kept caller app h = serve_rule env req caller app Kept (record {
      on_proposal = proposal-Kept caller app h;
      on_update = λ id. subst (Holds sig until) (sym (update_nonces env req caller id app)) h;
      on_decision =
          λ id post path. subst (Holds sig until) (sym (decision_nonces env req caller id app)) h;
      on_read = λ r. h;
      on_halt = h;
    })

    recorded-Kept :
        (caller : Token) (app : App)
        → Holds sig until app.nonces
        → Kept (recorded env req caller app)
    unfolding recorded log
    recorded-Kept caller app h = if-both Kept _ _ _ (serve-Kept caller _ h) h

    admit-Kept :
        (caller : Token) (app : App) → Holds sig until app.nonces → Kept (admit env req caller app)
    unfolding admit
    admit-Kept caller app h =
        let h' = replay-Holds req.headers.signature env.now app.nonces soon h in
        if-both Kept (replay_now req) _ (recorded env req caller app)
          (if-both Kept
            (check_replay signature_window nonce_max req.headers.signature env.now app.nonces).0
            (recorded env req caller noted) (problem 409 "replay", noted)
            (recorded-Kept caller noted h') h')
          (recorded-Kept caller app h)
      where
        noted : App
        noted = record app {
          nonces =
              (check_replay signature_window nonce_max req.headers.signature env.now app.nonces).1;
        }

    authorized-Kept :
        (required : String) (app : App)
        → Holds sig until app.nonces
        → Kept (authorized env req required app)
    unfolding authorized
    authorized-Kept required app h = go login.1 login.0 refl refl
      where
        login : Option AuthError × Option Token
        login =
            authenticate env.hmac (allows app) (sends req) app.tokens required req.headers (raw req)
              env.now

        h' : Holds sig until (charged env req required app).nonces
        h' = subst (Holds sig until) (sym (charged_same env req required app).1) h

        go :
            (c : Option Token) (o : Option AuthError)
            → login.1 ≡ c
            → login.0 ≡ o
            → Kept (authorized env req required app)
        go none none e f = rw (e, authorized) (rw (f, authorized) h')
        go none (some err) e f = rw (e, authorized) (rw (f, authorized) h')
        go (some c) o e f = rw (e, authorized) (admit-Kept c (charged env req required app) h')

    handle-Holds : (app : App) → Holds sig until app.nonces → Kept (handle env req app)
    unfolding handle
    handle-Holds app h = go (scope_for req) refl
      where
        go : (o : Option String) → scope_for req ≡ o → Kept (handle env req app)
        go none e =
            rw (e, handle)
              (if-both Kept ((req.path == "/healthz") && (req.method == "GET")) _ _ h
                (if-both Kept (sends req && ltb body_limit req.size) _ _ h h))
        go (some required) e =
            rw (e, handle)
              (if-both Kept ((req.path == "/healthz") && (req.method == "GET")) (live, app) _ h
                (if-both Kept (sends req && ltb body_limit req.size) (problem 413 "too_large", app)
                  (authorized env req required app) h (authorized-Kept required app h)))

  requests-Holds :
      (l : List (Env × Request)) (app : App)
      → All (λ c. c.0.now < until) l
      → Holds sig until app.nonces
      → Holds sig until (requests l app).nonces
  requests-Holds [] app a h = h
  requests-Holds ((env, req) ∷ l) app a h =
      requests-Holds l (handle env req app).1 a.1 (handle-Holds env req a.0 app h)

-- A text that starts with something is not empty.
is_empty : String → Bool
is_empty String.[] = true
is_empty (String.◌∷◌ c s) = false

append_full :
    (c : Prim.Native.Char.Char) (s t : String) → is_empty (String.◌++◌ (String.◌∷◌ c s) t) ≡ false
unfolding is_empty
append_full c s t = λ i. is_empty (String.append.cons c s t i)

signed_text :
    (hmac : String → String → String) (secret : String) (ts : ℕ) (body : String)
    → sign_body hmac secret ts body ≢ ""
unfolding sign_body is_empty
signed_text hmac secret ts body e =
    let full : is_empty (sign_body hmac secret ts body) ≡ false = append_full "s" "ha256=" _ in
    let gone : is_empty (sign_body hmac secret ts body) ≡ true = ap is_empty e in
    absurd (ground (arith, full, gone))

check_replay_text :
    (s : String) (now : ℕ) (nonces : Nonces) (signature : Option String)
    → signature ≡ some s
    → s ≢ ""
    → check_replay signature_window nonce_max signature now nonces
      ≡ check_nonce signature_window nonce_max s now nonces
unfolding check_replay
check_replay_text s now nonces signature e full = rw e (elim (Bool-cases (s == "")) [
  | inl empty ↦ absurd (full ((eq_iff s "").0 empty))
  | inr other ↦ rw other refl
])

-- The signature of a request that decided is held up to the end of its window.
decided-Holds :
    (env : Env) (req : Request) (app new : App) (d : Decides env req app new)
    → (s : String) × (req.headers.signature ≡ some s)
      × (s ≢ "")
      × Holds s (env.now + signature_window) new.nonces
unfolding check_replay
decided-Holds env req app new d =
    let signed : IsSigned env.hmac d.caller req.headers req.body env.now =
      d.authentic.signed refl in
    let s : String = sign_body env.hmac d.caller.secret signed.seconds req.body in
    let full : s ≢ "" = signed_text env.hmac d.caller.secret signed.seconds req.body in
    let checked : check_replay signature_window nonce_max req.headers.signature env.now app.nonces
        ≡ check_nonce signature_window nonce_max s env.now app.nonces =
      check_replay_text s env.now app.nonces req.headers.signature signed.signed full in
    (
      s,
      signed.signed,
      full,
      subst (Holds s (env.now + signature_window)) (sym d.used ∙ refl) (
          subst (λ p. Holds s (env.now + signature_window) p.1) (sym checked)
            (check_first signature_window nonce_max s env.now app.nonces
              (sym (ap (λ p. p.0) checked) ∙ d.fresh))),
    )

-- Once a request has decided, no request with its signature decides again while the window lasts,
-- whatever is asked in between.
pub decided_once :
    (env env' : Env) (req req' : Request) (app : App) (between : List (Env × Request))
    → Decides env req app (handle env req app).1
    → req'.headers.signature ≡ req.headers.signature
    → All (λ c. c.0.now < env.now + signature_window) between
    → env'.now < env.now + signature_window
    → let mid = requests between (handle env req app).1 in Same mid (handle env' req' mid)
decided_once env env' req req' app between d same a soon =
    let (s, signed, full, held) = decided-Holds env req app (handle env req app).1 d in
    let mid : App = requests between (handle env req app).1 in
    let still : Holds s (env.now + signature_window) mid.nonces =
      requests-Holds s (env.now + signature_window) between (handle env req app).1 a held in
    elim (handle-Settles env' req' mid) [
      | inl kept ↦ kept
      | inr d' ↦
          let checked =
            check_replay_text s env'.now mid.nonces req'.headers.signature (same ∙ signed) full in
          let again =
            check_again signature_window nonce_max s env'.now (env.now + signature_window)
              mid.nonces soon still in
          let fresh : (check_nonce signature_window nonce_max s env'.now mid.nonces).0 ≡ true =
            sym (ap (λ p. p.0) checked) ∙ d'.fresh in
          absurd (ground (arith, again, fresh))
    ]
