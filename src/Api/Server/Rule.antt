-- ===== src/Api/Server/Rule.antt =====
-- The branches of the endpoints of src/api/server.js, as one rule.
use nvidia_omoda.Prelude.{
  String, true, ◌&&◌, Option, none, some, ◌==◌, ◌≡◌, refl, get_or, is_some, if-both, if-cases,
  &&-eq-true, arith, eq_iff,
}
use nvidia_omoda.Prelude.Dict.{get}
use nvidia_omoda.Ledger.{query, verify}
use nvidia_omoda.Api.Auth.{Token}
use nvidia_omoda.Api.Server.Path.{intent_id, decided_id}
use nvidia_omoda.Api.Server.Serve.{
  Env, App, Request, Response, problem, listed, serve_proposal, serve_update, serve_decision,
  serve_intent, serve_halt, serve,
}

path_decided : (o : Option String) → is_some o ≡ true → o ≡ some (get_or o "")
path_decided o h = ground (arith, h)

module _ (env : Env) (req : Request) (caller : Token) (app : App) where
  pub record Endpoints {ℓ} (Q : Response × App → Type ℓ) : Type ℓ where
    pub on_proposal : Q (serve_proposal env req caller app)
    pub on_update : (id : String) → Q (serve_update env req caller id app)
    pub on_decision :
        (id : String)
        → req.method ≡ "POST"
        → decided_id req.path ≡ some id
        → Q (serve_decision env req caller id app)
    pub on_read : (r : Response) → Q (r, app)
    pub on_halt : Q (serve_halt env caller app)

  intent_read {ℓ} :
      (Q : Response × App → Type ℓ) (id : String)
      → ((r : Response) → Q (r, app))
      → Q (serve_intent id app)
  unfolding serve_intent
  intent_read Q id h = go (get id app.intents.by_id) refl
    where
      go :
          (o : Option nvidia_omoda.Api.Intents.Intent)
          → get id app.intents.by_id ≡ o
          → Q (serve_intent id app)
      go none e = rw (e, serve_intent) (h _)
      go (some i) e = rw (e, serve_intent) (h _)

  -- Posting to the decisions of an intent is its own case; the other endpoints come as they are.
  pub serve_rule {ℓ} : (Q : Response × App → Type ℓ) → Endpoints Q → Q (serve env req caller app)
  unfolding serve
  serve_rule Q c = if-both Q _ _ _ c.on_proposal (
      if-both Q _ _ _ (c.on_update _) (
        if-cases Q _ _ _
          (λ h.
            let (post, path) =
              &&-eq-true (req.method == "POST") (is_some (decided_id req.path)) h in
            c.on_decision _ ((eq_iff req.method "POST").0 post)
              (path_decided (decided_id req.path) path))
          (λ h.
            if-both Q ((req.method == "GET") && is_some (intent_id req.path))
              (serve_intent (get_or (intent_id req.path) "") app) _ (intent_read Q _ c.on_read)
              (if-both Q ((req.path == "/v1/ledger") && (req.method == "GET"))
                (listed (query app.ledger req.query) (verify env.sha256 app.ledger), app) _
                (c.on_read _)
                (if-both Q ((req.path == "/v1/halt") && (req.method == "POST"))
                  (serve_halt env caller app) (problem 405 "method_not_allowed", app) c.on_halt
                  (c.on_read _))))))
