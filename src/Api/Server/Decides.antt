-- ===== src/Api/Server/Decides.antt =====
-- Which requests to src/api/server.js decide something.
use nvidia_omoda.Prelude.{
  String, Bool, true, false, ◌&&◌, Option, none, some, [], ◌∷◌, ◌==◌, ◌≡◌, ◌⊎◌, inl, inr, refl, sym,
  subst, if◌then◌else◌, Bool-cases, ltb, arith, eq_iff,
}
use Prim.Native.String
use nvidia_omoda.Json.{Fields, str}
use nvidia_omoda.Api.Auth.{Token, AuthError, signature_window, check_replay, authenticate}
use nvidia_omoda.Api.Auth.Accepts.{Authentic, authenticate-Authentic}
use nvidia_omoda.Api.Intents.Decide.{decide}
use nvidia_omoda.Api.Server.Path.{decided_id}
use nvidia_omoda.Api.Server.Serve.{Env, App, Request, Vote, Response, log, entry, ballot_of}
use nvidia_omoda.Api.Server.{
  sends, scope_for, allows, charged, raw, replay_now, body_limit, nonce_max, recorded, admit,
  authorized, handle,
}
use nvidia_omoda.Api.Server.Same.{SameDecisions, Same, Answered, serve_cases}
use nvidia_omoda.Api.Server.DecidedId.{decided_id_lem, not_root, decided_id-needs}

-- The grounds on which a request records a decision.
pub record Decides (env : Env) (req : Request) (app new : App) : Type 0 where
  pub caller : Token
  pub vote : Vote
  pub intent : String
  pub authentic :
      Authentic env.hmac
        (allows app)
        true
        app.tokens
        "intent:decide"
        req.headers
        req.body
        env.now
        caller
  pub fresh :
      (check_replay signature_window nonce_max req.headers.signature env.now app.nonces).0 ≡ true
  pub used :
      new.nonces
      ≡ (check_replay signature_window nonce_max req.headers.signature env.now app.nonces).1
  pub decided :
      new.intents
      ≡ (decide env.single_operator env.random_id env.now
          (ballot_of caller intent vote)
          app.intents).1

abbrev pub Settles : Env → Request → App → Response × App → Type 0
Settles env req app p = Same app p ⊎ Decides env req app p.1

recorded_cases :
    (env : Env) (req : Request) (caller : Token) (app : App)
    → Answered env req caller app (recorded env req caller app)
unfolding recorded log
recorded_cases env req caller app = go (log env env.received fields app).0 refl
  where
    fields : Fields
    fields = entry caller (
        ("tool", str (String.◌++◌ req.method (String.◌++◌ " " req.path)))
        ∷ ("verb", str "read")
        ∷ ("outcome", str "received")
        ∷ [])

    go :
        (b : Bool)
        → (log env env.received fields app).0 ≡ b
        → Answered env req caller app (recorded env req caller app)
    go true e = rw (e, recorded) (serve_cases env req caller (log env env.received fields app).1)
    go false e = inl (rw (e, recorded) (refl, refl))

-- A call that is let in decides only with a signature that was not used before.
pub record Admits (env : Env) (req : Request) (caller : Token) (app new : App) : Type 0 where
  pub vote : Vote
  pub intent : String
  posts : req.method ≡ "POST"
  pub target : decided_id req.path ≡ some intent
  pub fresh :
      (check_replay signature_window nonce_max req.headers.signature env.now app.nonces).0 ≡ true
  pub used :
      new.nonces
      ≡ (check_replay signature_window nonce_max req.headers.signature env.now app.nonces).1
  pub decided :
      new.intents
      ≡ (decide env.single_operator env.random_id env.now
          (ballot_of caller intent vote)
          app.intents).1

posts_replay :
    (req : Request) (id : String)
    → req.method ≡ "POST"
    → decided_id req.path ≡ some id
    → replay_now req ≡ true
posts_replay req id post e =
    let (rest, below, split) = decided_id_lem req.path id e in
    ground (arith, eq_iff req.method "POST", post, not_root req.path rest below)

admit_cases :
    (env : Env) (req : Request) (caller : Token) (app : App)
    → Same app (admit env req caller app) ⊎ Admits env req caller app (admit env req caller app).1
unfolding admit
admit_cases env req caller app = elim (Bool-cases (replay_now req)) [
  | inl now ↦
      elim (Bool-cases
        (check_replay signature_window nonce_max req.headers.signature env.now app.nonces).0) [
          | inl fresh ↦
              rw (now, admit)
                (rw (fresh, admit)
                  (elim (recorded_cases env req caller noted) [
                    | inl same ↦ inl same
                    | inr (v, id, post, path, decided, used) ↦ inr (record {
                      vote = v;
                      intent = id;
                      posts = post;
                      target = path;
                      fresh = fresh;
                      used = used;
                      decided = decided;
                    })
                  ]))
          | inr old ↦ inl (rw (now, admit) (rw (old, admit) (refl, refl)))
        ]
  | inr later ↦
      rw (later, admit)
        (elim (recorded_cases env req caller app) [
          | inl same ↦ inl same
          | inr (v, id, post, path, decided, used) ↦
              absurd (ground (arith, later, posts_replay req id post path))
        ])
]
  where
    noted : App
    noted = record app {
      nonces = (check_replay signature_window nonce_max req.headers.signature env.now app.nonces).1;
    }

pub charged_same :
    (env : Env) (req : Request) (required : String) (app : App)
    → ((charged env req required app).intents ≡ app.intents)
      × ((charged env req required app).nonces ≡ app.nonces)
unfolding charged
charged_same env req required app = (ground arith, ground arith)

-- Who is let in, by the authentication and the scope of the request.
module _ (env : Env) (req : Request) (required : String) (app : App) where
  abbrev login : Option AuthError × Option Token
  login =
      authenticate env.hmac (allows app) (sends req) app.tokens required req.headers (raw req)
        env.now

  charged_app : App
  charged_app = charged env req required app

  admitted_cases :
      (c : Token)
      → scope_for req ≡ some required
      → login.1 ≡ some c
      → Settles env req app (admit env req c charged_app)
  unfolding charged_app
  admitted_cases c s e =
      let (intents, nonces) = charged_same env req required app in
      elim (admit_cases env req c charged_app) [
        | inl same ↦
            inl (subst (λ i. SameDecisions i (admit env req c charged_app).1.intents) intents same)
        | inr a ↦
            let signs : sends req ≡ true = ground (arith, a.posts, eq_iff req.method "POST") in
            let needs : required ≡ "intent:decide" =
              ground (arith, s, decided_id-needs req a.intent a.target) in
            let passed : (authenticate env.hmac (allows app) true app.tokens "intent:decide"
                  req.headers req.body env.now).1
                ≡ some c =
              subst
                (λ r.
                  (authenticate env.hmac (allows app) true app.tokens r req.headers req.body
                    env.now).1
                  ≡ some c)
                needs
                (subst
                  (λ b.
                    (authenticate env.hmac (allows app) b app.tokens required req.headers
                      (if b then req.body else "") env.now).1
                    ≡ some c)
                  signs e) in
            inr (record {
              caller = c;
              vote = a.vote;
              intent = a.intent;
              authentic =
                  authenticate-Authentic env.hmac (allows app) true app.tokens "intent:decide"
                    req.headers req.body env.now c passed;
              fresh =
                  subst
                    (λ n.
                      (check_replay signature_window nonce_max req.headers.signature env.now n).0
                      ≡ true)
                    nonces a.fresh;
              used =
                  subst
                    (λ n.
                      (admit env req c charged_app).1.nonces
                      ≡ (check_replay signature_window nonce_max req.headers.signature env.now n).1)
                    nonces a.used;
              decided =
                  subst
                    (λ i.
                      (admit env req c charged_app).1.intents
                      ≡ (decide env.single_operator env.random_id env.now
                          (ballot_of c a.intent a.vote) i).1)
                    intents a.decided;
            })
      ]

  authorized_cases :
      scope_for req ≡ some required → Settles env req app (authorized env req required app)
  unfolding authorized charged_app
  authorized_cases s = go login.1 refl
    where
      kept : SameDecisions app.intents charged_app.intents
      kept =
          let same = (charged_same env req required app).0 in
          subst (λ i. SameDecisions app.intents i) (sym same) (refl, refl)

      turned_away :
          (o : Option AuthError)
          → login.0 ≡ o
          → login.1 ≡ none
          → Same app (authorized env req required app)
      turned_away none f e = rw (e, authorized) (rw (f, authorized) kept)
      turned_away (some err) f e = rw (e, authorized) (rw (f, authorized) kept)

      go : (o : Option Token) → login.1 ≡ o → Settles env req app (authorized env req required app)
      go none e = inl (turned_away login.0 refl e)
      go (some c) e = rw (e, authorized) (admitted_cases c s e)

-- A request changes what is decided only by one call of the store, for a caller whose token is known and
-- may decide, who is within the rate limit and signed this body in the replay window, with a signature
-- that was not used before; every other request leaves the final actions and the approvals as they were.
pub handle-Settles :
    (env : Env) (req : Request) (app : App) → Settles env req app (handle env req app)
unfolding handle
handle-Settles env req app = go (scope_for req) refl
  where
    go : (o : Option String) → scope_for req ≡ o → Settles env req app (handle env req app)
    go none e = inl (ground (arith, e), ground (arith, e))
    go (some required) e =
        let p = authorized_cases env req required app e in
        elim (Bool-cases ((req.path == "/healthz") && (req.method == "GET"))) [
          | inl well ↦ inl (rw (well, handle) (refl, refl))
          | inr other ↦ elim (Bool-cases (sends req && ltb body_limit req.size)) [
            | inl large ↦ inl (rw (other, handle) (rw (large, handle) (refl, refl)))
            | inr small ↦ rw (other, handle) (rw (small, handle) (rw (e, handle) p))
          ]
        ]
