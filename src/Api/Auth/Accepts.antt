-- ===== src/Api/Auth/Accepts.antt =====
-- Who passes `authenticate` of src/api/auth.js, condition by condition.
use nvidia_omoda.Prelude.{
  ℕ, ◌*◌, ◌≤◌, String, Bool, true, Option, none, some, ◌≡◌, ◌≢◌, refl, ap, ◌∙◌, subst, includes,
  arith, eq_iff,
}
use nvidia_omoda.Prelude.Dict.{get}
use nvidia_omoda.Api.Auth.{
  Token, Tokens, Headers, AuthError, bearer, distance, sign_body, check_signature, check_caller,
  authenticate, signature_window,
}

module _ (hmac : String → String → String) where
  -- A signature over the timestamp and the body with the caller's secret, in the replay window.
  pub record IsSigned (caller : Token) (headers : Headers) (body : String) (now : ℕ) : Type 0 where
    pub seconds : ℕ
    pub sent : headers.timestamp ≡ some seconds
    pub recent : distance now (seconds * 1000) ≤ signature_window
    pub signed : headers.signature ≡ some (sign_body hmac caller.secret seconds body)

  signature_sound :
      (caller : Token) (headers : Headers) (body : String) (now : ℕ)
      → check_signature hmac caller headers body now ≡ none
      → IsSigned caller headers body now
  unfolding check_signature
  signature_sound caller headers body now h = go headers.timestamp headers.signature refl refl
    where
      go :
          (t : Option ℕ) (s : Option String)
          → headers.timestamp ≡ t
          → headers.signature ≡ s
          → IsSigned caller headers body now
      go none s e f = absurd (ground (arith, h, e))
      go (some ts) none e f = absurd (ground (arith, h, e, f))
      go (some ts) (some sig) e f = record {
        seconds = ts;
        sent = e;
        recent = ground (arith, h, e, f);
        signed = ground (arith, h, e, f, eq_iff sig (sign_body hmac caller.secret ts body));
      }

  module _ (limiter : String → ℕ → Bool) (require_signature : Bool) where
    -- The grounds of a request for a scope.
    pub record Authentic (tokens : Tokens) (required : String) (headers : Headers) (body : String)
        (now : ℕ) (caller : Token) : Type 0 where
      pub known : get (bearer headers.authorization) tokens ≡ some caller
      pub scoped : required ≢ "" → includes caller.scopes required ≡ true
      pub within : limiter caller.id now ≡ true
      pub signed : require_signature ≡ true → IsSigned caller headers body now

    check_caller-none :
        (caller : Token) (required : String) (headers : Headers) (body : String) (now : ℕ)
        → check_caller hmac limiter require_signature caller required headers body now ≡ none
        → (required ≢ "" → includes caller.scopes required ≡ true)
          × (limiter caller.id now ≡ true)
          × (require_signature ≡ true → check_signature hmac caller headers body now ≡ none)
    unfolding check_caller
    check_caller-none caller required headers body now h = (
      λ n. ground (arith, h, n, eq_iff required ""),
      ground (arith, h),
      λ r. ground (arith, h, r),
    )

    authenticate-some :
        (tokens : Tokens) (required : String) (headers : Headers) (body : String) (now : ℕ)
        (caller : Token)
        → (authenticate hmac limiter require_signature tokens required headers body now).1
          ≡ some caller
        → (get (bearer headers.authorization) tokens ≡ some caller)
          × (check_caller hmac limiter require_signature caller required headers body now ≡ none)
    unfolding authenticate
    authenticate-some tokens required headers body now caller h =
        go (get (bearer headers.authorization) tokens) refl
      where
        found :
            (c : Token)
            → get (bearer headers.authorization) tokens ≡ some c
            → (o : Option AuthError)
            → check_caller hmac limiter require_signature c required headers body now ≡ o
            → (get (bearer headers.authorization) tokens ≡ some caller)
              × (check_caller hmac limiter require_signature caller required headers body now
                  ≡ none)
        found c e none f =
            let same : c ≡ caller = ground (arith, h, e, f) in
            (
              e ∙ ap some same,
              subst
                  (λ x.
                    check_caller hmac limiter require_signature x required headers body now ≡ none)
                  same f,
            )
        found c e (some err) f = absurd (ground (arith, h, e, f))

        go :
            (o : Option Token)
            → get (bearer headers.authorization) tokens ≡ o
            → (get (bearer headers.authorization) tokens ≡ some caller)
              × (check_caller hmac limiter require_signature caller required headers body now
                  ≡ none)
        go none e = absurd (ground (arith, h, e))
        go (some c) e =
            found c e (check_caller hmac limiter require_signature c required headers body now) refl

    -- A request is answered as the caller only if its token is known and has the required scope, the
    -- caller is within the rate limit, and, where signatures are required, the request bears the
    -- caller's signature over its timestamp and body and is inside of the replay window.
    pub authenticate-Authentic :
        (tokens : Tokens) (required : String) (headers : Headers) (body : String) (now : ℕ)
        (caller : Token)
        → (authenticate hmac limiter require_signature tokens required headers body now).1
          ≡ some caller
        → Authentic tokens required headers body now caller
    authenticate-Authentic tokens required headers body now caller h =
        let (known, passed) = authenticate-some tokens required headers body now caller h in
        let (scoped, within, signed) = check_caller-none caller required headers body now passed in
        record {
          known = known;
          scoped = scoped;
          within = within;
          signed = λ r. signature_sound caller headers body now (signed r);
        }
