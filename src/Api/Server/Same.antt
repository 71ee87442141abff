-- ===== src/Api/Server/Same.antt =====
-- What each endpoint of src/api/server.js leaves alone: votes, approvals and the nonces that were seen.
use nvidia_omoda.Prelude.{String, Option, none, some, ◌≡◌, ◌⊎◌, inl, inr, refl, get_or, arith}
use nvidia_omoda.Json.{Fields, str}
use nvidia_omoda.Ledger.{Disk}
use nvidia_omoda.Api.Auth.{Token}
use nvidia_omoda.Api.Intents.{Intents, propose, update, known_key}
use nvidia_omoda.Api.Intents.Decide.{decide}
use nvidia_omoda.Api.Server.Path.{decided_id}
use nvidia_omoda.Api.Server.Serve.{
  Env, App, Request, Vote, Response, log, caller_of, ballot_of, post_proposal, serve_proposal,
  serve_update, serve_decision, serve_intent, serve_halt, serve,
}
use nvidia_omoda.Api.Server.Rule.{serve_rule}

-- No action became final and nobody's approval was added.
abbrev pub SameDecisions : Intents → Intents → Type 0
SameDecisions old new =
    (new.final_actions ≡ old.final_actions) × (new.approvers_by_action ≡ old.approvers_by_action)

propose_same :
    (id now : String) (key : Option String) (body : Fields)
    (caller : nvidia_omoda.Api.Intents.Caller) (envelope : nvidia_omoda.Json.Value)
    (store : Intents)
    → SameDecisions store (propose id now key body caller envelope store).store
unfolding propose
propose_same id now key body caller envelope store = (ground arith, ground arith)

update_same :
    (now id : String) (body : Fields) (caller : nvidia_omoda.Api.Intents.Caller) (store : Intents)
    → SameDecisions store (update now id body caller store).1
unfolding update
update_same now id body caller store = (ground arith, ground arith)

log_intents :
    (env : Env) (disk : Disk) (fs : Fields) (app : App)
    → (log env disk fs app).1.intents ≡ app.intents
unfolding log
log_intents env disk fs app = refl

log_nonces :
    (env : Env) (disk : Disk) (fs : Fields) (app : App)
    → (log env disk fs app).1.nonces ≡ app.nonces
unfolding log
log_nonces env disk fs app = refl

-- What an endpoint does to the intents of the application.
abbrev pub Same : App → Response × App → Type 0
Same app p = SameDecisions app.intents p.1.intents

post-Same :
    (env : Env) (req : Request) (caller : Token) (key : String) (body : Fields) (app : App)
    → Same app (post_proposal env req caller key body app)
unfolding post_proposal
post-Same env req caller key body app = (ground arith, ground arith)

proposal-Same :
    (env : Env) (req : Request) (caller : Token) (app : App)
    → Same app (serve_proposal env req caller app)
unfolding serve_proposal
proposal-Same env req caller app = go (env.read_proposal req.body) refl
  where
    go :
        (o : Option Fields)
        → env.read_proposal req.body ≡ o
        → Same app (serve_proposal env req caller app)
    go none e = (ground (arith, e), ground (arith, e))
    go (some body) e =
        let kept = post-Same env req caller (get_or req.idempotency_key "") body app in
        (ground (arith, e, kept.0), ground (arith, e, kept.1))

serve_update-Same :
    (env : Env) (req : Request) (caller : Token) (id : String) (app : App)
    → Same app (serve_update env req caller id app)
unfolding serve_update log
serve_update-Same env req caller id app = go (env.read_update req.body) refl
  where
    go :
        (o : Option Fields)
        → env.read_update req.body ≡ o
        → Same app (serve_update env req caller id app)
    go none e = rw (e, serve_update) (refl, refl)
    go (some body) e =
        let kept = update_same env.time id body (caller_of caller) app.intents in
        (ground (arith, e, kept.0), ground (arith, e, kept.1))

-- The one decision that a request may record.
abbrev Voted : Env → Request → Token → App → App → Type 0
Voted env req caller app new =
    (v : Vote) × (id : String) × (req.method ≡ "POST")
    × (decided_id req.path ≡ some id)
    × (new.intents
        ≡ (decide env.single_operator env.random_id env.now (ballot_of caller id v) app.intents).1)
    × (new.nonces ≡ app.nonces)

abbrev pub Answered : Env → Request → Token → App → Response × App → Type 0
Answered env req caller app p = Same app p ⊎ Voted env req caller app p.1

decision-Answered :
    (env : Env) (req : Request) (caller : Token) (id : String) (app : App)
    → req.method ≡ "POST"
    → decided_id req.path ≡ some id
    → Answered env req caller app (serve_decision env req caller id app)
unfolding serve_decision
decision-Answered env req caller id app post path = go (env.read_vote req.body) refl
  where
    go :
        (o : Option Vote)
        → env.read_vote req.body ≡ o
        → Answered env req caller app (serve_decision env req caller id app)
    go none e = inl (rw (e, serve_decision) (refl, refl))
    go (some v) e =
        inr (v, id, post, path, rw (e, serve_decision) refl, rw (e, serve_decision) refl)

pub serve_cases :
    (env : Env) (req : Request) (caller : Token) (app : App)
    → Answered env req caller app (serve env req caller app)
unfolding serve_intent serve_halt log
serve_cases env req caller app =
    serve_rule env req caller app (λ p. Answered env req caller app p)
      (record {
        on_proposal = inl (proposal-Same env req caller app);
        on_update = λ id. inl (serve_update-Same env req caller id app);
        on_decision = λ id post path. decision-Answered env req caller id app post path;
        on_read = λ r. inl (refl, refl);
        on_halt = inl (refl, refl);
      })
