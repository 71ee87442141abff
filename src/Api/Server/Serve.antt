-- ===== src/Api/Server/Serve.antt =====
-- The endpoints of src/api/server.js, for a caller that is authorized and recorded.
use nvidia_omoda.Prelude.{
  ℕ, String, Bool, true, false, ◌&&◌, Option, none, some, List, [], ◌∷◌, ◌++◌, ◌==◌, if◌then◌else◌,
  get_or, is_some, length,
}
use nvidia_omoda.Prelude.Dict.{get}
use nvidia_omoda.Json.{Value, Fields, str, object, undef}
use nvidia_omoda.Ledger.{
  Ledger, Disk, Record, Verdict, Query, Appended, done, write_error, append, verify, query,
}
use nvidia_omoda.Api.Auth.{Token, Tokens, Nonces, Headers, signature_window, check_replay}
use nvidia_omoda.Api.Limiter.{Buckets}
use nvidia_omoda.Api.Stream.{transport_envelope}
use nvidia_omoda.Broker.Decision.{Decision}
use nvidia_omoda.Api.Intents.{State, proposed, Caller, Intent, Intents, Updated, propose, update}
use nvidia_omoda.Api.Intents.Decide.{Ballot, Decided, decide}
use nvidia_omoda.Api.Server.Path.{intent_id, decided_id}

pub record Request : Type 0 where
  pub method : String
  pub path : String
  pub headers : Headers
  pub idempotency_key : Option String
  pub body : String
  pub size : ℕ
  pub query : Query

pub record Vote : Type 0 where
  pub action_id : String
  pub verdict : String
  pub reason : String

-- What one request meets: the clock, a random id, how its writes of the ledger go, and the schemas, which
-- give `none` for a body that does not parse or does not fit.
pub record Env : Type 0 where
  pub hmac : String → String → String
  pub sha256 : List ℕ → String
  pub read_proposal : String → Option Fields
  pub read_update : String → Option Fields
  pub read_vote : String → Option Vote
  pub single_operator : Bool
  pub now : ℕ
  pub time : String
  pub random_id : String
  pub received : Disk
  pub written : Disk

pub record App : Type 0 where
  pub tokens : Tokens
  pub ledger : Ledger
  pub intents : Intents
  pub nonces : Nonces
  pub buckets : Buckets

pub data Response : Type 0 where
  problem : ℕ → String → Response
  accepted : String → State → Bool → Response
  changed : String → State → ℕ → Response
  decided : Decision → Response
  found : Intent → Response
  listed : List Record → Verdict → Response
  redirected : String → Response
  halted live : Response

abbrev is_done : Appended → Bool
is_done (done r) = true
is_done (write_error m) = false

-- `ledger.append` in a try block: whether it does not throw.
unfoldable pub log : Env → Disk → Fields → App → Bool × App
unfolding append
log env disk fields app =
    let (out, ledger) = append env.sha256 app.ledger fields env.time disk in
    (is_done out, record app { ledger = ledger })

abbrev pub entry : Token → List (String × Value) → Fields
entry caller l = object (("kind", str "api") ∷ ("agent", str caller.id) ∷ l)

abbrev pub caller_of : Token → Caller
caller_of t = record { id = t.id; scopes = some t.scopes }

abbrev pub nonce_limit : ℕ
nonce_limit = 10000

abbrev state_of : String → Intents → State
state_of id store = elim (get id store.by_id) [ none ↦ proposed | some i ↦ i.state ]

-- POST /v1/intents, with the key and the body read.
unfoldable pub post_proposal : Env → Request → Token → String → Fields → App → Response × App
unfolding propose check_replay get
post_proposal env req caller key body app =
    let p =
      propose env.random_id env.time (some key) body (caller_of caller)
        (transport_envelope "api" "inbound" "json" key env.time) app.intents in
    let app' : App = record app { intents = p.store } in
    let answer = accepted p.intent (state_of p.intent p.store) p.duplicate in
    let (fresh, nonces) =
      check_replay signature_window nonce_limit req.headers.signature env.now app.nonces in
    let app'' : App = record app' { nonces = nonces } in
    if p.duplicate
    then (answer, app')
    else if fresh
    then (answer, app'')
    else (problem 409 "replay", app'')

unfoldable pub serve_proposal : Env → Request → Token → App → Response × App
unfolding post_proposal
serve_proposal env req caller app =
    let key = get_or req.idempotency_key "" in
    if key == ""
    then (problem 400 "idempotency_required", app)
    else elim (env.read_proposal req.body) [
      | none ↦ (problem 422 "schema", app)
      | some body ↦ post_proposal env req caller key body app
    ]

-- What is recorded of an update, and what is answered.
abbrev update_entry : Updated → List (String × Value)
update_entry (Updated.turned_down n why) = ("outcome", str "refused") ∷ ("reason", str why) ∷ []
update_entry (Updated.updated i) = ("outcome", str "updated") ∷ ("reason", undef) ∷ []

abbrev pub update_answer : Updated → Response
update_answer (Updated.turned_down n why) = problem n "update_refused"
update_answer (Updated.updated i) = changed i.id i.state (length i.updates)

abbrev pub update_log : Token → String → Updated → Fields
update_log caller id out = entry caller (
    ("tool", str "intents.update") ∷ ("verb", str "update") ∷ update_entry out
    ++ ("intentId", str id) ∷ [])

-- PUT /v1/intents/{id}.
unfoldable pub serve_update : Env → Request → Token → String → App → Response × App
unfolding update log
serve_update env req caller id app = elim (env.read_update req.body) [
  | none ↦ (problem 422 "schema", app)
  | some body ↦
      let (out, store) = update env.time id body (caller_of caller) app.intents in
      let (ok, app') =
        log env env.written (update_log caller id out) (record app { intents = store }) in
      if ok then (update_answer out, app') else (problem 503 "ledger_unavailable", app')
]

abbrev pub ballot_of : Token → String → Vote → Ballot
ballot_of caller id v = record {
  intent_id = id;
  action_id = some v.action_id;
  verdict = some v.verdict;
  reason = some v.reason;
  caller = caller_of caller;
}

abbrev decision_answer : Decided → Response
decision_answer (Decided.turned_down n why) = problem n "decision_refused"
decision_answer (Decided.recorded d) = decided d

-- POST /v1/intents/{id}/decisions.
unfoldable pub serve_decision : Env → Request → Token → String → App → Response × App
unfolding decide
serve_decision env req caller id app = elim (env.read_vote req.body) [
  | none ↦ (problem 422 "schema", app)
  | some v ↦
      let (out, store) =
        decide env.single_operator env.random_id env.now (ballot_of caller id v) app.intents in
      (decision_answer out, record app { intents = store })
]

-- GET /v1/intents/{id}.
unfoldable pub serve_intent : String → App → Response × App
unfolding get
serve_intent id app = elim (get id app.intents.by_id) [
  | none ↦ (problem 404 "not_found", app)
  | some i ↦ (found i, app)
]

abbrev pub halt_log : Token → Fields
halt_log caller = object (
    ("kind", str "control")
    ∷ ("agent", str caller.id)
    ∷ ("tool", str "HALT")
    ∷ ("verb", str "update")
    ∷ ("outcome", str "halted")
    ∷ [])

-- POST /v1/halt; an append that throws here is answered by the handler of unexpected errors.
unfoldable pub serve_halt : Env → Token → App → Response × App
unfolding log
serve_halt env caller app =
    let (ok, app') = log env env.written (halt_log caller) app in
    (if ok then halted else problem 500 "internal", app')

unfoldable pub serve : Env → Request → Token → App → Response × App
unfolding serve_proposal serve_update serve_decision serve_intent serve_halt intent_id decided_id
    verify query
serve env req caller app =
    if (req.path == "/v1/intents") && (req.method == "POST")
    then serve_proposal env req caller app
    else if (req.method == "PUT") && is_some (intent_id req.path)
    then serve_update env req caller (get_or (intent_id req.path) "") app
    else if (req.method == "POST") && is_some (decided_id req.path)
    then serve_decision env req caller (get_or (decided_id req.path) "") app
    else if (req.method == "GET") && is_some (intent_id req.path)
    then serve_intent (get_or (intent_id req.path) "") app
    else if (req.path == "/v1/ledger") && (req.method == "GET")
    then (listed (query app.ledger req.query) (verify env.sha256 app.ledger), app)
    else if (req.path == "/v1/halt") && (req.method == "POST")
    then serve_halt env caller app
    else (problem 405 "method_not_allowed", app)
