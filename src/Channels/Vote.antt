-- ===== src/Channels/Vote.antt =====
-- A tap of the operator in src/channels/telegram-loop.js: the vote, its record, and the run of what is approved.
use nvidia_omoda.Prelude.{
  String, Bool, true, false, not, ◌&&◌, Option, none, some, List, [], ◌∷◌, ◌++◌, ◌==◌,
  if◌then◌else◌, get_or, is_some, find, map,
}
use Prim.Native.String
use nvidia_omoda.Prelude.Dict.{get}
use nvidia_omoda.Json.{Value, Fields, undef, null, str, arr, obj, object, prop, texts, or_null}
use nvidia_omoda.Domain.Taxonomy.{Verb}
use nvidia_omoda.Domain.Action.{Action}
use nvidia_omoda.Broker.Decision.{Decision, same_text, is_unsettled}
use nvidia_omoda.Api.Intents.{Intent, Intents, Caller, propose, nullish}
use nvidia_omoda.Api.Intents.Decide.{Ballot, Decided, turned_down, recorded}
use nvidia_omoda.Api.Intents.Decide
use nvidia_omoda.Models.Plan.{verb_name, impact_name}
use nvidia_omoda.Channels.Telegram.{Tap}
use nvidia_omoda.Channels.World.{Env, World, Handled, append_to, tell, handled}

abbrev pub ballot_of : Env → String → Option String → Option String → Ballot
ballot_of env verdict intent_id action_id = record {
  intent_id = get_or intent_id "undefined";
  action_id = action_id;
  verdict = some verdict;
  reason = some (String.◌++◌ "decided from Telegram by " env.operator.id);
  caller = env.operator;
}

abbrev pub vote_on : Env → Ballot → Intents → Decided × Intents
vote_on env b store =
    nvidia_omoda.Api.Intents.Decide.decide env.single_operator env.random_id env.now b store

-- The action that was decided on.
abbrev pub actions_of : Option Intent → List Action
actions_of none = []
actions_of (some i) = i.actions

unfoldable pub decided_action : Decided → Ballot → Intents → Option Action
unfolding get
decided_action (turned_down status why) b store = none
decided_action (recorded d) b store =
    find (λ a. same_text a.action_id b.action_id) (actions_of (get b.intent_id store.by_id))

abbrev pub outcome_of : String → Decided → String
outcome_of verdict (turned_down status why) = "refused"
outcome_of verdict (recorded d) =
    if is_unsettled d.settled
    then "approved-partial"
    else if verdict == "approve"
    then "approved"
    else "denied"

abbrev pub reason_of : String → Decided → String
reason_of verdict (turned_down status why) = why
reason_of verdict (recorded d) =
    String.◌++◌ "operator "
      (String.◌++◌ verdict (if is_unsettled d.settled then " (1 of 2)" else ""))

-- `decided.verb ?? "update"`.
abbrev pub verb_or_update : Verb → String
verb_or_update (Verb.unknown none) = "update"
verb_or_update v = verb_name v

abbrev pub decision_entry : Env → String → Ballot → Decided → Option Action → Fields
decision_entry env verdict b out decided = object (
    ("verb", str (elim decided [ none ↦ "update" | some a ↦ verb_or_update a.verb ]))
    ∷ ("kind", str "decision")
    ∷ ("agent", str env.operator.id)
    ∷ (
      "tool",
      str (elim decided [ none ↦ "telegram.decide" | some a ↦ get_or a.tool "telegram.decide" ]),
    )
    ∷ (
      "impact",
      arr (texts (elim decided [ none ↦ [] | some a ↦ map impact_name (get_or a.impact []) ])),
    )
    ∷ ("authority", str (String.◌++◌ "operator:" env.operator.id))
    ∷ ("decidedBy", str env.operator.id)
    ∷ ("outcome", str (outcome_of verdict out))
    ∷ ("reason", str (reason_of verdict out))
    ∷ ("intentId", str b.intent_id)
    ∷ [])

unfoldable pub incident_type : Option Intent → Value
unfolding prop
incident_type none = null
incident_type (some i) = elim i.evidence [
  | obj fs ↦ nullish (prop "incident_type" fs) null
  | _ ↦ null
]

abbrev pub text_or_undef : Option String → Value
text_or_undef none = undef
text_or_undef (some s) = str s

unfoldable pub publish_decision : Env → String → Ballot → Decided → Action → World → World
unfolding incident_type get
publish_decision env verdict b out a w =
    if env.has_bus
    then record w {
      published =
          w.published
          ++ object (
              ("agentRoutedTo", or_null a.agent)
              ∷ ("incident", incident_type (get b.intent_id w.intents.by_id))
              ∷ ("action", text_or_undef a.tool)
              ∷ ("decision", str (outcome_of verdict out))
              ∷ ("by", str env.operator.id)
              ∷ ("intentId", str b.intent_id)
              ∷ [])
            ∷ [];
    }
    else w

-- A settled approval is run.
abbrev pub runs : Env → Decision → Bool
runs env d =
    env.runs_approved && (same_text d.verdict (some "approve") && not (is_unsettled d.settled))

unfoldable pub run_approved : Env → Ballot → Decided → Option Action → World → World
unfolding get
run_approved env b (recorded d) (some a) w =
    if runs env d
    then record w {
      approved =
          w.approved
          ++ record { intent = get b.intent_id w.intents.by_id; action = a; decision = d } ∷ [];
    }
    else w
run_approved env b out decided w = w

abbrev pub is_recorded : Decided → Bool
is_recorded (recorded d) = true
is_recorded (turned_down status why) = false

-- What follows when the buttons are gone: the record, the message on the agents' stream, and the run.
unfoldable pub follow_vote : Env → String → Ballot → Decided → Option Action → World → World
unfolding append_to publish_decision run_approved
follow_vote env verdict b out none w =
    run_approved env b out none (append_to env (decision_entry env verdict b out none) w)
follow_vote env verdict b out (some a) w = run_approved env b out (some a) (
    publish_decision env verdict b out a
      (append_to env (decision_entry env verdict b out (some a)) w))

unfoldable pub after_vote : Env → String → Ballot → Decided → World → Handled × World
unfolding decided_action follow_vote
after_vote env verdict b out w =
    (handled (is_recorded out), follow_vote env verdict b out (decided_action out b w.intents) w)

-- The vote is cast, then it is acknowledged and the buttons are taken away.
unfoldable pub on_decide :
    Env → String → Option String → Option String → Tap → World → Handled × World
unfolding after_vote
on_decide env verdict intent_id action_id cq w =
    let b = ballot_of env verdict intent_id action_id in
    let (out, store) = vote_on env b w.intents in
    let voted : World = record w { intents = store } in
    tell (env.lost 0)
      (tell (if is_some cq.chat_id && is_some cq.message_id then env.lost 1 else none)
        (after_vote env verdict b out voted) voted)
      voted
