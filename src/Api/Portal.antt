-- ===== src/Api/Portal.antt =====
-- `handle` of src/api/server.js with its portal below /ui: who is let in, and the decision that the operator records
-- there. The other pages are an argument, and so are the parsing of a form and the decoding of base64.
pub mod Settles
use nvidia_omoda.Prelude.{
  ℕ, String, Bool, true, false, not, ◌&&◌, ◌||◌, Option, none, some, List, [], ◌∷◌, ◌++◌, ◌==◌,
  if◌then◌else◌, is_some, get_or, ltb,
}
use nvidia_omoda.Prelude.Rx.{codes}
use nvidia_omoda.Json.{Value, Fields, str, object, or_null}
use nvidia_omoda.Api.Admin.{check_admin_auth}
use nvidia_omoda.Api.Intents.{Caller, Intents}
use nvidia_omoda.Api.Intents.Decide.{Ballot, Decided, decide}
use nvidia_omoda.Api.Server.Path.{rest_after}
use nvidia_omoda.Api.Server.Serve.{Env, App, Request, Response, problem, redirected, log}
use nvidia_omoda.Api.Server.{is_post, body_limit}

-- The fields of the form, where they were sent.
pub record Form : Type 0 where
  pub csrf : Option String
  pub intent_id : Option String
  pub action_id : Option String
  pub verdict : Option String
  pub reason : Option String

pub record Portal : Type 0 where
  pub decode : String → List ℕ
  pub user : List ℕ
  pub password : List ℕ
  pub csrf : String
  pub operator : Option Caller
  pub read_form : String → Form
  pub page : Request → App → Response × App

unfoldable pub in_portal : String → Bool
unfolding rest_after
in_portal path = (path == "/ui") || is_some (rest_after (codes "/ui/") path)

abbrev pub is_decision : Request → Bool
is_decision req = (req.path == "/ui/decide") && is_post req

abbrev pub is_text : Option String → String → Bool
is_text none t = false
is_text (some s) t = s == t

abbrev pub ballot_from : Form → String → Caller → Ballot
ballot_from form id caller = record {
  intent_id = id;
  action_id = form.action_id;
  verdict = form.verdict;
  reason = form.reason;
  caller = caller;
}

-- The call of `intents.decide`; without an id no intent is found.
unfoldable pub cast : Env → Form → Caller → Intents → Decided × Intents
unfolding decide
cast env form caller intents = elim form.intent_id [
  | none ↦ (Decided.turned_down 404 "unknown intent", intents)
  | some id ↦ decide env.single_operator env.random_id env.now (ballot_from form id caller) intents
]

abbrev outcome_fields : Form → Decided → List (String × Value)
outcome_fields form (Decided.turned_down n why) =
    ("outcome", str "refused") ∷ ("reason", str why) ∷ []
outcome_fields form (Decided.recorded d) =
    ("outcome", str "recorded") ∷ ("reason", or_null form.verdict) ∷ []

abbrev pub portal_log : Caller → Form → Decided → Fields
portal_log caller form out = object (
    ("kind", str "ui")
    ∷ ("agent", str caller.id)
    ∷ ("tool", str "ui.decide")
    ∷ ("verb", str "update")
    ∷ outcome_fields form out)

-- POST /ui/decide. The decision stands also where its record is not written.
unfoldable pub portal_decide : Env → Portal → Request → App → Response × App
unfolding cast log
portal_decide env portal req app =
    let form = portal.read_form req.body in
    if ltb body_limit req.size
    then (problem 500 "internal", app)
    else if not (is_text form.csrf portal.csrf)
    then (problem 403 "csrf", app)
    else elim portal.operator [
      | none ↦ (problem 503 "no_operator", app)
      | some caller ↦
          let (out, intents) = cast env form caller app.intents in
          let new : App = record app { intents = intents } in
          let (ok, app') = log env env.written (portal_log caller form out) new in
          (if ok then redirected "/ui/intents" else problem 500 "internal", app')
    ]

unfoldable pub serve_portal : Env → Portal → Request → App → Response × App
unfolding check_admin_auth portal_decide
serve_portal env portal req app =
    elim (check_admin_auth portal.decode portal.user portal.password req.headers.authorization) [
      | none ↦ (problem 401 "unauthorized", app)
      | some user ↦
          if is_decision req then portal_decide env portal req app else portal.page req app
    ]

unfoldable pub handle : Env → Portal → Request → App → Response × App
unfolding in_portal serve_portal nvidia_omoda.Api.Server.handle
handle env portal req app =
    if in_portal req.path
    then serve_portal env portal req app
    else nvidia_omoda.Api.Server.handle env req app
