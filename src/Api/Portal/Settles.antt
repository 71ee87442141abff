-- ===== src/Api/Portal/Settles.antt =====
-- Which requests to src/api/server.js decide something, by token or by the portal, and which are recorded first.
use nvidia_omoda.Prelude.{
  ℕ, String, Bool, true, false, not, ◌&&◌, Option, none, some, List, ◌∷◌, ◌++◌, ◌≡◌, ◌⊎◌, inl, inr,
  refl, ap, get_or, Bool-cases, ltb, arith, eq_iff,
}
use nvidia_omoda.Prelude.Rx.{trim_left, trim_right}
use nvidia_omoda.Api.Admin.{check_admin_auth, admin_credentials}
use nvidia_omoda.Api.Auth.{skip}
use nvidia_omoda.Api.Intents.{Caller}
use nvidia_omoda.Api.Intents.Decide.{decide}
use nvidia_omoda.Api.Server.Serve.{Env, App, Request, Response, log}
use nvidia_omoda.Api.Server.{body_limit}
use nvidia_omoda.Api.Server.Same.{Same}
use nvidia_omoda.Api.Server.Decides.{Decides, handle-Settles}
use nvidia_omoda.Api.Server.Recorded.{Logged, handle-Logged}
use nvidia_omoda.Api.Portal.{
  Portal, Form, in_portal, is_decision, is_text, ballot_from, cast, portal_decide, serve_portal,
  handle,
}

-- A page of the portal other than the decision.
abbrev pub is_page : Request → Bool
is_page req = in_portal req.path && not (is_decision req)

-- The grounds on which the portal records a decision: the user's name and password, the token of the form, and the
-- operator that is configured, as the voter.
pub record ByOperator (env : Env) (portal : Portal) (req : Request) (app new : App) : Type 0 where
  pub caller : Caller
  pub configured : portal.operator ≡ some caller
  pub signed_in :
      portal.decode (trim_right (trim_left (skip 6 (get_or req.headers.authorization ""))))
      ≡ portal.user ++ b':' ∷ portal.password
  pub guarded : (portal.read_form req.body).csrf ≡ some portal.csrf
  pub intent : String
  pub named : (portal.read_form req.body).intent_id ≡ some intent
  pub decided :
      new.intents
      ≡ (decide env.single_operator env.random_id env.now
          (ballot_from (portal.read_form req.body) intent caller)
          app.intents).1

abbrev pub Decided : Env → Portal → Request → App → Response × App → Type 0
Decided env portal req app p =
    Same app p ⊎ (Decides env req app p.1 ⊎ ByOperator env portal req app p.1)

is_text-eq : (o : Option String) (t : String) → is_text o t ≡ true → o ≡ some t
is_text-eq none t h = cc
is_text-eq (some s) t h = ap some ((eq_iff s t).0 h)

module _ (env : Env) (portal : Portal) (req : Request) (app : App) where
  abbrev form : Form
  form = portal.read_form req.body

  -- The decision of a user who is signed in, with the token of the form and an operator.
  voted_cases :
      (user : List ℕ) (caller : Caller)
      → check_admin_auth portal.decode portal.user portal.password req.headers.authorization
        ≡ some user
      → ltb body_limit req.size ≡ false
      → is_text form.csrf portal.csrf ≡ true
      → portal.operator ≡ some caller
      → Decided env portal req app (portal_decide env portal req app)
  unfolding portal_decide log cast
  voted_cases user caller signed small token set = go form.intent_id refl
    where
      go :
          (o : Option String)
          → form.intent_id ≡ o
          → Decided env portal req app (portal_decide env portal req app)
      go none e = inl (rw (small, portal_decide) (rw (token, set, cast) (rw e (refl, refl))))
      go (some id) e = inr (
          inr (record {
            caller = caller;
            configured = set;
            signed_in =
                (admin_credentials portal.decode portal.user portal.password
                  req.headers.authorization user signed).1;
            guarded = is_text-eq form.csrf portal.csrf token;
            intent = id;
            named = e;
            decided = ground (arith, small, token, set, e);
          }))

  decide_cases :
      (user : List ℕ)
      → check_admin_auth portal.decode portal.user portal.password req.headers.authorization
        ≡ some user
      → Decided env portal req app (portal_decide env portal req app)
  unfolding portal_decide
  decide_cases user signed = elim (Bool-cases (ltb body_limit req.size)) [
    | inl large ↦ inl (rw (large, portal_decide) (refl, refl))
    | inr small ↦ elim (Bool-cases (is_text form.csrf portal.csrf)) [
      | inr wrong ↦ inl (rw (small, portal_decide) (rw (wrong, portal_decide) (refl, refl)))
      | inl token ↦ go small token portal.operator refl
    ]
  ]
    where
      go :
          ltb body_limit req.size ≡ false
          → is_text form.csrf portal.csrf ≡ true
          → (o : Option Caller) → portal.operator ≡ o
          → Decided env portal req app (portal_decide env portal req app)
      go small token none e = inl (
          rw (small, portal_decide)
            (rw (token, portal_decide) (rw (e, portal_decide) (refl, refl))))
      go small token (some caller) e = voted_cases user caller signed small token e

  portal_cases :
      is_decision req ≡ true → Decided env portal req app (serve_portal env portal req app)
  unfolding serve_portal
  portal_cases decides =
      go (check_admin_auth portal.decode portal.user portal.password req.headers.authorization) refl
    where
      go :
          (o : Option (List ℕ))
          → check_admin_auth portal.decode portal.user portal.password req.headers.authorization ≡ o
          → Decided env portal req app (serve_portal env portal req app)
      go none e = inl (rw (e, serve_portal) (refl, refl))
      go (some user) e = rw (e, serve_portal) (rw (decides, serve_portal) (decide_cases user e))

-- A request that is not for another page of the portal changes what is decided only by one call of the store: for a
-- caller whose token is known and may decide, who is within the rate limit and signed this body in the replay window,
-- with a signature that was not used before; or at /ui/decide for the operator, with the portal's user and password
-- and the token of the form. Every other such request leaves the final actions and the approvals as they were.
pub request-Settles :
    (env : Env) (portal : Portal) (req : Request) (app : App)
    → is_page req ≡ false
    → Decided env portal req app (handle env portal req app)
unfolding handle serve_portal
request-Settles env portal req app other = elim (Bool-cases (in_portal req.path)) [
  | inl inside ↦
      rw (inside, handle) (portal_cases env portal req app (ground (arith, other, inside)))
  | inr out ↦
      rw (out, handle)
        (elim (handle-Settles env req app) [ inl same ↦ inl same | inr d ↦ inr (inl d) ])
]

-- Outside the portal nothing is served unlogged: a request that changes the intents has its record in the ledger right
-- behind what was there, with the caller whose token it bore, its method and its path.
pub handle-Witnessed :
    (env : Env) (portal : Portal) (req : Request) (app : App)
    → in_portal req.path ≡ false
    → Logged env req app (handle env portal req app)
unfolding handle
handle-Witnessed env portal req app out = rw (out, handle) (handle-Logged env req app)
