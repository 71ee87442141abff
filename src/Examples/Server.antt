-- ===== src/Examples/Server.antt =====
-- The server of src/api/server.js and its rate limiter at concrete requests.
use nvidia_omoda.Prelude.{
  ℕ, ◌+◌, ◌-◌, ◌*◌, ◌≤◌, false, none, some, [], ◌∷◌, ◌≡◌, inl, inr, refl, arith,
}
use nvidia_omoda.Prelude.Dict.{get, put}
use nvidia_omoda.Json.{null, end}
use nvidia_omoda.Ledger.{Ledger, Query, synced, genesis}
use nvidia_omoda.Api.Auth.{Token}
use nvidia_omoda.Api.Dialer.{Event, start, stop, opened, closed, due, step, new_dialer}
use nvidia_omoda.Api.Dialer.Connected.{IsSingle, started-IsSingle}
use nvidia_omoda.Api.Limiter.Rate.{served, rate_bounded}
use nvidia_omoda.Api.Intents.{Caller, no_intents, propose}
use nvidia_omoda.Api.Server.Serve.{Env, App, Request, Vote, problem}
use nvidia_omoda.Api.Server.{handle}
use nvidia_omoda.Api.Server.Decides.{Decides, handle-Settles}
use nvidia_omoda.Api.Server.Same.{Same}
use nvidia_omoda.Api.Server.Replay.{requests, decided_once}
use nvidia_omoda.Api.Server.Recorded.{Logged}
use nvidia_omoda.Api.Portal.{Portal}
use nvidia_omoda.Api.Portal.Settles.{Decided, is_page, request-Settles, handle-Witnessed}
use nvidia_omoda.Prelude.Rx.{codes}

none_yet : get {V = nvidia_omoda.Api.Limiter.Bucket} "boss" [] ≡ none
unfolding get
none_yet = refl

rate_bounded_example :
    1000 * served 1 1 "boss" (("boss", 5) ∷ ("boss", 6) ∷ ("boss", 2005) ∷ []) []
    ≤ 1 * 1000 + (2005 - 5) * 1
rate_bounded_example =
    rate_bounded 1 1 "boss" 5 2005 (("boss", 5) ∷ ("boss", 6) ∷ ("boss", 2005) ∷ []) []
      (omega arith) none_yet

abbrev boss : Token
boss = record {
  id = "boss";
  token = "omoda_boss";
  secret = "s3cret";
  scopes = "intent:decide" ∷ [];
}

abbrev vote : Vote
vote = record { action_id = "act-1"; verdict = "approve"; reason = "checked" }

abbrev env_at : ℕ → Env
env_at now = record {
  hmac = λ secret text. secret;
  sha256 = λ l. "0123";
  read_proposal = λ s. some end;
  read_update = λ s. none;
  read_vote = λ s. some vote;
  single_operator = false;
  now = now;
  time = "t0";
  random_id = "id-1";
  received = synced;
  written = synced;
}

abbrev everything : Query
everything = record {
  since = none;
  tier = none;
  agent = none;
  verb = none;
  impact = none;
  intent_id = none;
  outcome = none;
  kind = none;
  limit = 100;
}

abbrev deciding : Request
deciding = record {
  method = "POST";
  path = "/v1/intents/int-1/decisions";
  headers = record {
    authorization = some "Bearer omoda_boss";
    timestamp = some 100;
    signature = some "sha256=s3cret";
  };
  idempotency_key = none;
  body = "{}";
  size = 2;
  query = everything;
}

abbrev worker : Caller
worker = record { id = "worker"; scopes = some ("intent:propose" ∷ []) }

abbrev empty_ledger : Ledger
empty_ledger = record { broken = false; seq = 0; prev_hash = genesis; memory = []; file = [] }

abbrev app : App
app = record {
  tokens = ("omoda_boss", boss) ∷ [];
  ledger = empty_ledger;
  intents = (propose "int-1" "t0" none end worker null no_intents).store;
  nonces = [];
  buckets = [];
}

-- The portal of an operator, and a decision that is sent to it.
abbrev operator_portal : Portal
operator_portal = record {
  decode = codes;
  user = codes "admin";
  password = codes "pw";
  csrf = "c1";
  operator = some (record { id = "op"; scopes = some ("intent:decide" ∷ []) });
  read_form = λ s. record {
    csrf = some "c1";
    intent_id = some "int-1";
    action_id = some "act-1";
    verdict = some "deny";
    reason = some "checked";
  };
  page = λ req app. (problem 404 "not_found", app);
}

abbrev denying : Request
denying = record deciding {
  path = "/ui/decide";
  headers = record { authorization = some "Basic admin:pw"; timestamp = none; signature = none };
}

denied_there :
    (nvidia_omoda.Api.Portal.handle
      (env_at 100000)
      operator_portal
      denying
      app).1.intents.final_actions
    ≡ "int-1:act-1" ∷ []
unfolding nvidia_omoda.Api.Portal.handle propose get put
denied_there = refl

no_page : is_page denying ≡ false
unfolding nvidia_omoda.Api.Portal.in_portal
no_page = refl

request-Settles_example :
    Decided
      (env_at 100000)
      operator_portal
      denying
      app
      (nvidia_omoda.Api.Portal.handle (env_at 100000) operator_portal denying app)
request-Settles_example = request-Settles (env_at 100000) operator_portal denying app no_page

not_there : nvidia_omoda.Api.Portal.in_portal deciding.path ≡ false
unfolding nvidia_omoda.Api.Portal.in_portal
not_there = refl

handle-Witnessed_example :
    Logged
      (env_at 100000)
      deciding
      app
      (nvidia_omoda.Api.Portal.handle (env_at 100000) operator_portal deciding app)
handle-Witnessed_example = handle-Witnessed (env_at 100000) operator_portal deciding app not_there

now_final : (handle (env_at 100000) deciding app).1.intents.final_actions ≡ "int-1:act-1" ∷ []
unfolding handle propose get put
now_final = refl

took : Decides (env_at 100000) deciding app (handle (env_at 100000) deciding app).1
unfolding propose
took = elim (handle-Settles (env_at 100000) deciding app) [
  | inr d ↦ d
  | inl same ↦ absurd (ground (arith, same.0, now_final))
]

decided_once_example :
    let mid = requests [] (handle (env_at 100000) deciding app).1 in
    Same mid (handle (env_at 100500) deciding mid)
decided_once_example =
    decided_once (env_at 100000) (env_at 100500) deciding deciding app [] took refl tt (omega arith)

started-IsSingle_example : IsSingle 5 60 (
    nvidia_omoda.Api.Dialer.Connected.run 5 60
      (closed ∷ due ∷ closed ∷ [])
      (step 5 60 start (new_dialer 5)))
started-IsSingle_example =
    started-IsSingle 5 60 (closed ∷ due ∷ closed ∷ []) (omega arith) (tt, (tt, (tt, tt)))

-- Stopped and started again before the first socket has closed.
two_connections :
    (nvidia_omoda.Api.Dialer.Connected.run 5 60
      (start ∷ stop ∷ start ∷ closed ∷ due ∷ [])
      (new_dialer 5)).live
    ≡ 2
unfolding nvidia_omoda.Api.Dialer.Connected.run
two_connections = refl
