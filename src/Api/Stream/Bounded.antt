-- ===== src/Api/Stream/Bounded.antt =====
-- The queue of src/api/stream.js is bounded, and a feed proposes and does nothing else.
use nvidia_omoda.Prelude.{
  ℕ, ◌+◌, ◌≤◌, ◌<◌, String, true, false, Option, none, some, List, ◌≡◌, refl, leb, includes,
  Bool-cases, inl, inr, arith,
}
use nvidia_omoda.Prelude.Dict.{get}
use nvidia_omoda.Api.Auth.{Token, Tokens, bearer}
use nvidia_omoda.Api.Intents.{Intents, propose, known_key}
use nvidia_omoda.Api.Stream.{
  Payload, Event, Last, Ingest, Outcome, debounced, shed, entered, accept, refusal, swept, repeated,
  recent, count_repeat, remember_event, admit, ingest_new, ingest,
}

module _ (hmac : String → String → String) (sha256 : List ℕ → String)
    (payload_text : Payload → String) (iso : ℕ → String) (debounce dedupe_max max_in_flight : ℕ)
    (id : String) (e : Event) (caller : Token) (now : ℕ) (st : Ingest) (intents : Intents) where
  abbrev clean : Ingest
  clean = swept hmac sha256 payload_text iso now st

  abbrev admitted : Outcome × Ingest × Intents
  admitted =
      admit hmac sha256 payload_text iso debounce id e caller now
        (remember_event hmac sha256 payload_text iso debounce dedupe_max e now clean) intents

  abbrev ingested : Outcome × Ingest × Intents
  ingested =
      ingest hmac sha256 payload_text iso debounce dedupe_max max_in_flight id e caller now st
        intents

  -- The branches of `ingest`.
  pub record Branches {ℓ} (P : Outcome × Ingest × Intents → Type ℓ) : Type ℓ where
    pub on_refused :
        (o : Outcome)
        → refusal hmac sha256 payload_text iso e caller now ≡ some o
        → P (o, st, intents)
    pub on_repeated :
        (o : Outcome)
        → repeated hmac sha256 payload_text iso e clean ≡ some o
        → P (o, clean, intents)
    pub on_recent :
        (l : Last)
        → P (
          debounced l.intent_id (l.occurrences + 1),
          count_repeat hmac sha256 payload_text iso e l now clean,
          intents,
        )
    pub on_full : P (shed, clean, intents)
    pub on_new :
        clean.in_flight < max_in_flight
        → repeated hmac sha256 payload_text iso e clean ≡ none
        → P admitted

  pub ingest_rule {ℓ} : (P : Outcome × Ingest × Intents → Type ℓ) → Branches P → P ingested
  unfolding ingest ingest_new
  ingest_rule P c = of_refusal (refusal hmac sha256 payload_text iso e caller now) refl
    where
      of_recent :
          refusal hmac sha256 payload_text iso e caller now ≡ none
          → repeated hmac sha256 payload_text iso e clean ≡ none
          → (o : Option Last) → recent hmac sha256 payload_text iso debounce e.payload now clean ≡ o
          → P ingested
      of_recent f g (some l) h =
          rw (f, ingest) (rw (g, ingest) (rw (h, ingest_new) (c.on_recent l)))
      of_recent f g none h = elim (Bool-cases (leb max_in_flight clean.in_flight)) [
        | inl full ↦ rw (f, ingest) (rw (g, ingest) (rw (h, ingest_new) (rw full c.on_full)))
        | inr room ↦
            rw (f, ingest)
              (rw (g, ingest) (rw (h, ingest_new) (rw room (c.on_new (ground (arith, room)) g))))
      ]

      of_repeated :
          refusal hmac sha256 payload_text iso e caller now ≡ none
          → (o : Option Outcome) → repeated hmac sha256 payload_text iso e clean ≡ o
          → P ingested
      of_repeated f (some o) g = rw (f, ingest) (rw (g, ingest) (c.on_repeated o g))
      of_repeated f none g =
          of_recent f g (recent hmac sha256 payload_text iso debounce e.payload now clean) refl

      of_refusal :
          (o : Option Outcome) → refusal hmac sha256 payload_text iso e caller now ≡ o → P ingested
      of_refusal (some o) f = rw (f, ingest) (c.on_refused o f)
      of_refusal none f = of_repeated f (repeated hmac sha256 payload_text iso e clean) refl

  clean-in_flight : clean.in_flight ≡ st.in_flight
  unfolding swept
  clean-in_flight = refl

  count_repeat-in_flight :
      (l : Last)
      → (count_repeat hmac sha256 payload_text iso e l now clean).in_flight ≡ clean.in_flight
  unfolding count_repeat
  count_repeat-in_flight l = refl

  admitted-in_flight : admitted.1.in_flight ≡ clean.in_flight + 1
  unfolding admit remember_event
  admitted-in_flight = refl

  -- The number of events in flight never exceeds its bound.
  pub in_flight_bounded : st.in_flight ≤ max_in_flight → ingested.1.in_flight ≤ max_in_flight
  in_flight_bounded b =
      ingest_rule (λ p. p.1.in_flight ≤ max_in_flight)
        (record {
          on_refused = λ o f. b;
          on_repeated = λ o f. omega (arith, b, clean-in_flight);
          on_recent = λ l. omega (arith, b, clean-in_flight, count_repeat-in_flight l);
          on_full = omega (arith, b, clean-in_flight);
          on_new = λ r f. omega (arith, r, admitted-in_flight);
        })

  -- What decisions have done to the store of intents.
  abbrev pub SameDecisions : Intents → Type 0
  SameDecisions new =
      (new.final_actions ≡ intents.final_actions)
      × (new.approvers_by_action ≡ intents.approvers_by_action)

  admitted-SameDecisions : SameDecisions admitted.2
  unfolding admit propose
  admitted-SameDecisions = go (known_key (some e.event_id) intents) refl
    where
      go : (o : Option String) → known_key (some e.event_id) intents ≡ o → SameDecisions admitted.2
      go (some old) f = rw (f, propose) (refl, refl)
      go none f = rw (f, propose) (refl, refl)

  -- A feed makes no action final and adds no approver, whatever it sends.
  pub feed-SameDecisions : SameDecisions ingested.2
  feed-SameDecisions =
      ingest_rule (λ p. SameDecisions p.2)
        (record {
          on_refused = λ o f. (refl, refl);
          on_repeated = λ o f. (refl, refl);
          on_recent = λ l. (refl, refl);
          on_full = (refl, refl);
          on_new = λ r f. admitted-SameDecisions;
        })

-- Who enters with a feed has a token that is known, may propose, and may not decide.
pub accept_entered :
    (tokens : Tokens) (authorization : Option String) (caller : Token)
    → accept tokens authorization ≡ entered caller
    → (get (bearer authorization) tokens ≡ some caller)
      × (includes caller.scopes "intent:propose" ≡ true)
      × (includes caller.scopes "intent:decide" ≡ false)
unfolding accept
accept_entered tokens authorization caller h = go (get (bearer authorization) tokens) refl
  where
    go :
        (o : Option Token)
        → get (bearer authorization) tokens ≡ o
        → (get (bearer authorization) tokens ≡ some caller)
          × (includes caller.scopes "intent:propose" ≡ true)
          × (includes caller.scopes "intent:decide" ≡ false)
    go none f = absurd (ground (arith, h, f))
    go (some c) f =
        let same : c ≡ caller = ground (arith, h, f) in
        (rw (← same) f, rw (← same) (ground (arith, h, f)), rw (← same) (ground (arith, h, f)))
