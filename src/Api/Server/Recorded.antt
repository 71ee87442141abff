-- ===== src/Api/Server/Recorded.antt =====
-- What src/api/server.js serves below /v1, it has recorded before.
use nvidia_omoda.Prelude.{
  String, true, false, ◌&&◌, Option, none, some, List, [], ◌∷◌, ◌++◌, ◌==◌, ◌≡◌, ◌⊎◌, inl, inr,
  refl, sym, ap, subst, ◌∙◌, get_or, if-both, Bool-cases, ltb, arith,
}
use mathlib.Core.List.{append-nil, append_assoc}
use nvidia_omoda.Prelude.Dict.{get}
use Prim.Native.String
use nvidia_omoda.Json.{Fields, str, prop}
use nvidia_omoda.Ledger.{
  Ledger, Record, Disk, synced, unwritten, unsynced, append, next_record, push_record, body_of,
  without_field, set_field,
}
use nvidia_omoda.Api.Auth.Accepts.{authenticate-Authentic}
use nvidia_omoda.Api.Auth.{bearer, Token, AuthError, signature_window, check_replay, authenticate}
use nvidia_omoda.Api.Intents.{update}
use nvidia_omoda.Api.Server.Serve.{
  Env, App, Request, Response, problem, caller_of, update_log, update_answer, halt_log, log,
  post_proposal, serve_proposal, serve_update, serve_decision, serve_halt, serve,
}
use nvidia_omoda.Api.Server.Rule.{serve_rule}
use nvidia_omoda.Api.Server.{
  sends, scope_for, allows, charged, raw, replay_now, body_limit, nonce_max, received_entry,
  recorded, admit, authorized, handle,
}

-- The records that were there stay at the front.
abbrev Extends : Ledger → Ledger → Type 0
Extends old new = (rest : List Record) × (new.memory ≡ old.memory ++ rest)

same-Extends : (l : Ledger) → Extends l l
same-Extends l = ([], sym (append-nil l.memory))

-- A record written without an error is the last of the ledger.
log_record :
    (env : Env) (disk : Disk) (fs : Fields) (app : App)
    → (((log env disk fs app).0 ≡ true)
        × ((log env disk fs app).1.ledger.memory
            ≡ app.ledger.memory ++ next_record env.sha256 app.ledger fs env.time ∷ []))
      ⊎ (((log env disk fs app).0 ≡ false)
          × ((log env disk fs app).1.ledger.memory ≡ app.ledger.memory))
unfolding log append push_record
log_record env disk fs app = elim (Bool-cases app.ledger.broken) [
  | inl broken ↦ inr (ground (arith, broken), ground (arith, broken))
  | inr sound ↦ go sound disk refl
]
  where
    go :
        app.ledger.broken ≡ false
        → (d : Disk) → disk ≡ d
        → (((log env disk fs app).0 ≡ true)
            × ((log env disk fs app).1.ledger.memory
                ≡ app.ledger.memory ++ next_record env.sha256 app.ledger fs env.time ∷ []))
          ⊎ (((log env disk fs app).0 ≡ false)
              × ((log env disk fs app).1.ledger.memory ≡ app.ledger.memory))
    go sound synced e = inl (ground (arith, sound, e), ground (arith, sound, e))
    go sound (unwritten m) e = inr (ground (arith, sound, e), ground (arith, sound, e))
    go sound (unsynced m) e = inr (ground (arith, sound, e), ground (arith, sound, e))

log-Extends :
    (env : Env) (disk : Disk) (fs : Fields) (app : App)
    → Extends app.ledger (log env disk fs app).1.ledger
log-Extends env disk fs app = elim (log_record env disk fs app) [
  | inl (done, e) ↦ (next_record env.sha256 app.ledger fs env.time ∷ [], e)
  | inr (lost, e) ↦ ([], e ∙ sym (append-nil app.ledger.memory))
]

post_ledger :
    (env : Env) (req : Request) (caller : Token) (key : String) (body : Fields) (app : App)
    → (post_proposal env req caller key body app).1.ledger ≡ app.ledger
unfolding post_proposal
post_ledger env req caller key body app = ground arith

proposal_ledger :
    (env : Env) (req : Request) (caller : Token) (app : App)
    → (serve_proposal env req caller app).1.ledger ≡ app.ledger
unfolding serve_proposal
proposal_ledger env req caller app = go (env.read_proposal req.body) refl
  where
    go :
        (o : Option Fields)
        → env.read_proposal req.body ≡ o
        → (serve_proposal env req caller app).1.ledger ≡ app.ledger
    go none e = ground (arith, e)
    go (some body) e =
        ground (arith, e, post_ledger env req caller (get_or req.idempotency_key "") body app)

decision_ledger :
    (env : Env) (req : Request) (caller : Token) (id : String) (app : App)
    → (serve_decision env req caller id app).1.ledger ≡ app.ledger
unfolding serve_decision
decision_ledger env req caller id app = ground arith

-- What an endpoint adds to the ledger, it adds at the end.
abbrev More : App → Response × App → Type 0
More app p = Extends app.ledger p.1.ledger

update-More :
    (env : Env) (req : Request) (caller : Token) (id : String) (app : App)
    → More app (serve_update env req caller id app)
unfolding serve_update
update-More env req caller id app = go (env.read_update req.body) refl
  where
    go :
        (o : Option Fields)
        → env.read_update req.body ≡ o
        → More app (serve_update env req caller id app)
    go none e = rw (e, serve_update) (same-Extends app.ledger)
    go (some body) e =
        let p = update env.time id body (caller_of caller) app.intents in
        let new : App = record app { intents = p.1 } in
        let more : Extends app.ledger
            (log env env.written (update_log caller id p.0) new).1.ledger =
          log-Extends env env.written (update_log caller id p.0) new in
        rw (e, serve_update)
          (if-both (More app) (log env env.written (update_log caller id p.0) new).0
            (update_answer p.0, (log env env.written (update_log caller id p.0) new).1)
            (
              problem 503 "ledger_unavailable",
              (log env env.written (update_log caller id p.0) new).1,
            )
            more more)

halt-More : (env : Env) (caller : Token) (app : App) → More app (serve_halt env caller app)
unfolding serve_halt
halt-More env caller app = log-Extends env env.written (halt_log caller) app

serve-More :
    (env : Env) (req : Request) (caller : Token) (app : App) → More app (serve env req caller app)
serve-More env req caller app =
    serve_rule env req caller app (λ p. More app p)
      (record {
        on_proposal =
            subst (Extends app.ledger) (sym (proposal_ledger env req caller app))
              (same-Extends app.ledger);
        on_update = λ id. update-More env req caller id app;
        on_decision = λ id post path.
            subst (Extends app.ledger) (sym (decision_ledger env req caller id app))
              (same-Extends app.ledger);
        on_read = λ r. same-Extends app.ledger;
        on_halt = halt-More env caller app;
      })

-- Either the intents stay, or the call is in the ledger, before all that it adds itself.
abbrev Witnessed : Env → Request → Token → App → Response × App → Type 0
Witnessed env req c app p =
    (p.1.intents ≡ app.intents)
    ⊎ ((rest : List Record) × (p.1.ledger.memory
          ≡ app.ledger.memory
            ++ (next_record env.sha256 app.ledger (received_entry req c) env.time ∷ rest)))

recorded-Witnessed :
    (env : Env) (req : Request) (c : Token) (app : App)
    → Witnessed env req c app (recorded env req c app)
unfolding recorded
recorded-Witnessed env req c app = elim (log_record env env.received (received_entry req c) app) [
  | inl (done, e) ↦
      let (rest, f) = serve-More env req c (log env env.received (received_entry req c) app).1 in
      rw (done, recorded)
        (inr (rest, f ∙ ap (λ m. m ++ rest) e ∙ append_assoc app.ledger.memory _ rest))
  | inr (lost, e) ↦
      rw (lost, recorded) (inl (log_keeps env env.received (received_entry req c) app))
]
  where
    log_keeps :
        (env : Env) (disk : Disk) (fs : Fields) (app : App)
        → (log env disk fs app).1.intents ≡ app.intents
    log_keeps env disk fs app = refl

admit-Witnessed :
    (env : Env) (req : Request) (c : Token) (app : App)
    → Witnessed env req c app (admit env req c app)
unfolding admit
admit-Witnessed env req c app = elim (Bool-cases (replay_now req)) [
  | inl now ↦
      elim (Bool-cases
        (check_replay signature_window nonce_max req.headers.signature env.now app.nonces).0) [
          | inl fresh ↦ rw (now, admit) (rw (fresh, admit) (recorded-Witnessed env req c noted))
          | inr old ↦ rw (now, admit) (rw (old, admit) (inl refl))
        ]
  | inr later ↦ rw (later, admit) (recorded-Witnessed env req c app)
]
  where
    noted : App
    noted = record app {
      nonces = (check_replay signature_window nonce_max req.headers.signature env.now app.nonces).1;
    }

charged_keeps :
    (env : Env) (req : Request) (required : String) (app : App)
    → ((charged env req required app).intents ≡ app.intents)
      × ((charged env req required app).ledger ≡ app.ledger)
unfolding charged
charged_keeps env req required app = (ground arith, ground arith)

-- The record of a call: its caller is the one whose token it bore, and it names the method and the path.
pub record Recorded (env : Env) (req : Request) (app new : App) : Type 0 where
  pub caller : Token
  pub known : get (bearer req.headers.authorization) app.tokens ≡ some caller
  pub received : Record
  pub rest : List Record
  pub grown : new.ledger.memory ≡ app.ledger.memory ++ received ∷ rest
  pub kind : prop "kind" received.body ≡ str "api"
  pub agent : prop "agent" received.body ≡ str caller.id
  pub tool : prop "tool" received.body ≡ str (String.◌++◌ req.method (String.◌++◌ " " req.path))
  pub outcome : prop "outcome" received.body ≡ str "received"

received-Recorded :
    (env : Env) (req : Request) (app new : App) (c : Token) (rest : List Record)
    → get (bearer req.headers.authorization) app.tokens ≡ some c
    → new.ledger.memory
      ≡ app.ledger.memory
        ++ (next_record env.sha256 app.ledger (received_entry req c) env.time ∷ rest)
    → Recorded env req app new
unfolding next_record body_of without_field set_field prop
received-Recorded env req app new c rest known grown = record {
  caller = c;
  known = known;
  received = next_record env.sha256 app.ledger (received_entry req c) env.time;
  rest = rest;
  grown = grown;
  kind = refl;
  agent = refl;
  tool = refl;
  outcome = refl;
}

abbrev pub Logged : Env → Request → App → Response × App → Type 0
Logged env req app p = (p.1.intents ≡ app.intents) ⊎ Recorded env req app p.1

authorized-Logged :
    (env : Env) (req : Request) (required : String) (app : App)
    → Logged env req app (authorized env req required app)
unfolding authorized
authorized-Logged env req required app = go login.1 login.0 refl refl
  where
    login : Option AuthError × Option Token
    login =
        authenticate env.hmac (allows app) (sends req) app.tokens required req.headers (raw req)
          env.now

    paid : App
    paid = charged env req required app

    back :
        (c : Token) (p : Response × App)
        → login.1 ≡ some c
        → Witnessed env req c paid p
        → Logged env req app p
    back c p e (inl same) = inl (same ∙ (charged_keeps env req required app).0)
    back c p e (inr (rest, grown)) =
        let who =
          authenticate-Authentic env.hmac (allows app) (sends req) app.tokens required req.headers
            (raw req) env.now c e in
        inr (
          received-Recorded env req app p.1 c rest who.known (
            subst
              (λ l.
                p.1.ledger.memory
                ≡ l.memory ++ (next_record env.sha256 l (received_entry req c) env.time ∷ rest))
              (charged_keeps env req required app).1 grown))

    go :
        (c : Option Token) (o : Option AuthError)
        → login.1 ≡ c
        → login.0 ≡ o
        → Logged env req app (authorized env req required app)
    go none none e f =
        rw (e, authorized) (rw (f, authorized) (inl (charged_keeps env req required app).0))
    go none (some err) e f =
        rw (e, authorized) (rw (f, authorized) (inl (charged_keeps env req required app).0))
    go (some c) o e f =
        rw (e, authorized) (back c (admit env req c paid) e (admit-Witnessed env req c paid))

-- Nothing that is not for the portal is served unlogged.
pub handle-Logged :
    (env : Env) (req : Request) (app : App) → Logged env req app (handle env req app)
unfolding handle
handle-Logged env req app = go (scope_for req) refl
  where
    go : (o : Option String) → scope_for req ≡ o → Logged env req app (handle env req app)
    go none e = inl (ground (arith, e))
    go (some required) e =
        let p = authorized-Logged env req required app in
        elim (Bool-cases ((req.path == "/healthz") && (req.method == "GET"))) [
          | inl well ↦ inl (rw (well, handle) refl)
          | inr other ↦ elim (Bool-cases (sends req && ltb body_limit req.size)) [
            | inl large ↦ inl (rw (other, handle) (rw (large, handle) refl))
            | inr small ↦ rw (other, handle) (rw (small, handle) (rw (e, handle) p))
          ]
        ]
