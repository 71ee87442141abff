-- ===== src/Api/Stream/Once.antt =====
-- An event of src/api/stream.js is accepted once in the window of its signature.
use nvidia_omoda.Prelude.{
  ℕ, ◌+◌, ◌≤◌, ◌<◌, String, Bool, true, false, none, some, List, ◌≡◌, ◌≢◌, refl, sym, ap, ◌∙◌,
  subst, length, arith,
}
use nvidia_omoda.Prelude.Dict.{get, put, get-put_self}
use nvidia_omoda.Api.Auth.{Token, Nonces, signature_window}
use nvidia_omoda.Api.Auth.Nonces.{Holds, purge-Holds, length-purge, length-put}
use nvidia_omoda.Api.Intents.{Intents}
use nvidia_omoda.Api.Stream.{
  Payload, Event, Ingest, Outcome, accepted, duplicate, rejected, debounced, shed, refusal, swept,
  repeated, bounded, remember_event, admit, ingest,
}
use nvidia_omoda.Api.Stream.Bounded.{ingest_rule}

abbrev pub is_accepted : Outcome → Bool
is_accepted (accepted i) = true
is_accepted (duplicate m) = false
is_accepted (rejected m) = false
is_accepted (debounced i n) = false
is_accepted shed = false

bounded-small : (max : ℕ) (seen : Nonces) → length seen ≤ max → bounded max seen ≡ seen
bounded-small max seen h = ground (arith, h)

module _ (hmac : String → String → String) (sha256 : List ℕ → String)
    (payload_text : Payload → String) (iso : ℕ → String) where
  refusal-is_accepted :
      (e : Event) (caller : Token) (now : ℕ) (o : Outcome)
      → refusal hmac sha256 payload_text iso e caller now ≡ some o
      → is_accepted o ≡ false
  unfolding refusal
  refusal-is_accepted e caller now o h = ground (arith, h)

  repeated-is_accepted :
      (e : Event) (st : Ingest) (o : Outcome)
      → repeated hmac sha256 payload_text iso e st ≡ some o
      → is_accepted o ≡ false
  unfolding repeated
  repeated-is_accepted e st o h = ground (arith, h)

  repeated-Holds :
      (e : Event) (st : Ingest) (until : ℕ)
      → Holds e.event_id until st.seen_events
      → repeated hmac sha256 payload_text iso e st ≢ none
  unfolding repeated
  repeated-Holds e st until h n = ground (arith, h, n)

  swept-Holds :
      (sig : String) (now until : ℕ) (st : Ingest)
      → now < until
      → Holds sig until st.seen_events
      → Holds sig until (swept hmac sha256 payload_text iso now st).seen_events
  unfolding swept
  swept-Holds sig now until st l h = purge-Holds now until sig st.seen_events l h

  length-swept :
      (now : ℕ) (st : Ingest)
      → length (swept hmac sha256 payload_text iso now st).seen_events ≤ length st.seen_events
  unfolding swept
  length-swept now st = length-purge 0 0 now st.seen_events

  module _ (debounce dedupe_max max_in_flight : ℕ) (e : Event) where
    admitted-Holds :
        (id : String) (caller : Token) (now : ℕ) (st : Ingest) (intents : Intents)
        → length st.seen_events < dedupe_max
        → Holds e.event_id
            (now + signature_window)
            (admit hmac sha256 payload_text iso debounce id e caller now
              (remember_event hmac sha256 payload_text iso debounce dedupe_max e now st)
              intents).1.seen_events
    unfolding admit remember_event
    admitted-Holds id caller now st intents small =
        let put_small =
          bounded-small dedupe_max (put e.event_id (now + signature_window) st.seen_events) (
            omega
              (arith, small, length-put 0 0 e.event_id (now + signature_window) st.seen_events)) in
        ap (get e.event_id) put_small
        ∙ get-put_self e.event_id (now + signature_window) st.seen_events

    ingest-Holds :
        (id : String) (caller : Token) (now : ℕ) (st : Ingest) (intents : Intents)
        → length st.seen_events < dedupe_max
        → is_accepted
            (ingest hmac sha256 payload_text iso debounce dedupe_max max_in_flight id e caller now
              st intents).0
          ≡ true
        → Holds e.event_id
            (now + signature_window)
            (ingest hmac sha256 payload_text iso debounce dedupe_max max_in_flight id e caller now
              st intents).1.seen_events
    ingest-Holds id caller now st intents small =
        ingest_rule hmac sha256 payload_text iso debounce dedupe_max max_in_flight id e caller now
          st intents
          (λ p. is_accepted p.0 ≡ true → Holds e.event_id (now + signature_window) p.1.seen_events)
          (record {
            on_refused = λ o f h. absurd (ground (arith, refusal-is_accepted e caller now o f, h));
            on_repeated = λ o f h. absurd (
                ground (
                  arith,
                  repeated-is_accepted e (swept hmac sha256 payload_text iso now st) o f,
                  h,
                ));
            on_recent = λ l h. cc;
            on_full = λ h. cc;
            on_new = λ r f h.
                admitted-Holds id caller now (swept hmac sha256 payload_text iso now st) intents
                  (omega (arith, small, length-swept now st));
          })

    -- An event that was accepted is not accepted again in the window of its signature: neither from
    -- another caller nor with another payload, if it comes next and the list of seen events was not full.
    pub event_once :
        (id id' : String) (caller caller' : Token) (now later : ℕ) (e' : Event) (st : Ingest)
        (intents intents' : Intents)
        → length st.seen_events < dedupe_max
        → is_accepted
            (ingest hmac sha256 payload_text iso debounce dedupe_max max_in_flight id e caller now
              st intents).0
          ≡ true
        → e'.event_id ≡ e.event_id
        → later < now + signature_window
        → is_accepted
            (ingest hmac sha256 payload_text iso debounce dedupe_max max_in_flight id' e' caller'
              later
              (ingest hmac sha256 payload_text iso debounce dedupe_max max_in_flight id e caller now
                st intents).1
              intents').0
          ≡ false
    event_once id id' caller caller' now later e' st intents intents' small ok same soon =
        let st' : Ingest =
          (ingest hmac sha256 payload_text iso debounce dedupe_max max_in_flight id e caller now st
            intents).1 in
        let held : Holds e'.event_id (now + signature_window)
            (swept hmac sha256 payload_text iso later st').seen_events =
          swept-Holds e'.event_id later (now + signature_window) st' soon (
            subst (λ x. Holds x (now + signature_window) st'.seen_events) (sym same)
              (ingest-Holds id caller now st intents small ok)) in
        ingest_rule hmac sha256 payload_text iso debounce dedupe_max max_in_flight id' e' caller'
          later st' intents' (λ p. is_accepted p.0 ≡ false)
          (record {
            on_refused = λ o f. refusal-is_accepted e' caller' later o f;
            on_repeated =
                λ o f. repeated-is_accepted e' (swept hmac sha256 payload_text iso later st') o f;
            on_recent = λ l. refl;
            on_full = refl;
            on_new = λ r f. absurd (
                repeated-Holds e' (swept hmac sha256 payload_text iso later st')
                  (now + signature_window) held f);
          })
