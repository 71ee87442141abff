-- ===== src/Bus.antt =====
-- src/bus.js: the event bus. A subscriber is named by a text and called by `call`, which gives the new
-- state of the world and whether it returned; `at` is the printed time.
use nvidia_omoda.Prelude.{
  ℕ, ◌+◌, String, Bool, Option, none, some, List, [], ◌∷◌, ◌++◌, ◌≡◌, sym, ap, ◌∙◌, if◌then◌else◌,
  includes, map, length,
}
use mathlib.Core.List.{append_assoc, append-nil}
use nvidia_omoda.Prelude.Dict.{get, put}
use nvidia_omoda.Json.{Fields, field, end, str, object}
use nvidia_omoda.Ledger.{set_field}

abbrev pub topics : List String
topics = "frame" ∷ "observation" ∷ "agent" ∷ "agentic" ∷ "audit" ∷ []

pub record Bus : Type 0 where
  pub subs : List (String × List String)
  pub published : ℕ

abbrev pub create_bus : Bus
create_bus = record { subs = map (λ t. (t, [])) topics; published = 0 }

unfoldable pub assign : Fields → Fields → Fields
unfolding set_field
assign target end = target
assign target (field key v fs) = assign (set_field key v target) fs

abbrev pub enveloped : String → String → Fields → Fields
enveloped topic at event = assign (object (("topic", str topic) ∷ ("at", str at) ∷ [])) event

module _ {W : Type 0} (call : String → Fields → W → Bool × W) where
  -- The loop over the subscribers: one that throws is passed over.
  unfoldable pub deliver : List String → Fields → W → W
  deliver [] e w = w
  deliver (f ∷ fs) e w = deliver fs e (call f e w).1

  -- `publish`, which throws on a topic that it does not know.
  unfoldable pub publish : String → String → Fields → Bus → W → Option (Fields × Bus × W)
  unfolding get deliver assign
  publish topic at event bus w = elim (get topic bus.subs) [
    | none ↦ none
    | some set ↦ some (
      enveloped topic at event,
      record bus { published = bus.published + 1 },
      deliver set (enveloped topic at event) w,
    )
  ]

-- `subscribe`: a set holds a subscriber once.
unfoldable pub subscribe : String → String → Bus → Option Bus
unfolding get put
subscribe topic f bus = elim (get topic bus.subs) [
  | none ↦ none
  | some set ↦
      some
        (record bus { subs = put topic (if includes set f then set else set ++ f ∷ []) bus.subs })
]

-- The sizes that `stats` reports.
unfoldable pub stats : Bus → ℕ × List (String × ℕ)
stats bus = (bus.published, map (λ e. (e.0, length e.1)) bus.subs)

-- A world that keeps who was called with what; `fails` says who throws.
abbrev pub noted :
    (String → Bool) → String → Fields → List (String × Fields) → Bool × List (String × Fields)
noted fails f e calls = (fails f, calls ++ (f, e) ∷ [])

deliver-noted :
    (fails : String → Bool) (fs : List String) (e : Fields) (calls : List (String × Fields))
    → deliver (noted fails) fs e calls ≡ calls ++ map (λ f. (f, e)) fs
unfolding deliver
deliver-noted fails [] e calls = sym (append-nil calls)
deliver-noted fails (f ∷ fs) e calls =
    deliver-noted fails fs e (calls ++ (f, e) ∷ [])
    ∙ append_assoc calls ((f, e) ∷ []) (map (λ g. (g, e)) fs)

-- Publishing calls every subscriber of the topic once, in the order of their subscriptions and with the
-- same event, whichever of them throw.
pub publish_reaches_all :
    (fails : String → Bool) (topic at : String) (event : Fields) (bus : Bus) (set : List String)
    (calls : List (String × Fields))
    → get topic bus.subs ≡ some set
    → publish (noted fails) topic at event bus calls
      ≡ some (
        enveloped topic at event,
        record bus { published = bus.published + 1 },
        calls ++ map (λ f. (f, enveloped topic at event)) set,
      )
unfolding publish
publish_reaches_all fails topic at event bus set calls h =
    rw (h, publish)
      (ap (λ l. some (enveloped topic at event, record bus { published = bus.published + 1 }, l))
        (deliver-noted fails set (enveloped topic at event) calls))
