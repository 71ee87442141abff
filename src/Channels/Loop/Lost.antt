-- ===== src/Channels/Loop/Lost.antt =====
-- A vote of src/channels/telegram-loop.js whose acknowledgement fails.
use nvidia_omoda.Prelude.{
  String, true, Option, some, List, [], ◌≡◌, refl, sym, ap, ◌∙◌, subst, inl, inr, arith,
}
use nvidia_omoda.Broker.Decision.{Decision}
use nvidia_omoda.Api.Intents.Decide.{Decided, turned_down, recorded}
use nvidia_omoda.Api.Intents.Decide
use nvidia_omoda.Api.Intents.Final.{is_turned_down, settled_last}
use nvidia_omoda.Channels.Telegram.{Tap, decide}
use nvidia_omoda.Channels.World.{Env, World, Approval, threw}
use nvidia_omoda.Channels.Loop.{act}
use nvidia_omoda.Channels.Vote.{on_decide, ballot_of, vote_on}
use nvidia_omoda.Channels.Loop.Approved.{RunsFor, act-RunsSettled}

lost_vote :
    (env : Env) (verdict : String) (intent_id action_id : Option String) (cq : Tap) (w : World)
    (message : String)
    → env.lost 0 ≡ some message
    → act env (decide verdict intent_id action_id cq) w ≡ (
      threw message,
      record w { intents = (vote_on env (ballot_of env verdict intent_id action_id) w.intents).1 },
    )
unfolding act on_decide
lost_vote env verdict intent_id action_id cq w message lost = rw lost refl

runs_nothing :
    (out : Decided) (old new : List Approval)
    → is_turned_down out ≡ true
    → RunsFor out old new
    → new ≡ old
runs_nothing (turned_down status why) old new h (inl e) = e
runs_nothing (turned_down status why) old new h (inr (p, r)) = absurd (ground (arith, r.1.0))
runs_nothing (recorded d) old new h r = absurd (ground (arith, h))

-- When the acknowledgement of a settled vote fails, the vote is neither recorded in the ledger nor
-- run, and a next tap on its action, under the same number of operators, lets nothing run either.
pub lost_vote_never_runs :
    (env env' : Env) (verdict verdict' : String) (intent_id action_id : Option String)
    (cq cq' : Tap) (w : World) (message : String) (d : Decision)
    → env.lost 0 ≡ some message
    → (vote_on env (ballot_of env verdict intent_id action_id) w.intents).0 ≡ recorded d
    → d.settled ≡ some true
    → env'.single_operator ≡ env.single_operator
    → let w' = (act env (decide verdict intent_id action_id cq) w).1 in
      (w'.ledger ≡ w.ledger)
      × ((w'.approved ≡ w.approved)
          × ((act env' (decide verdict' intent_id action_id cq') w').1.approved ≡ w.approved))
lost_vote_never_runs env env' verdict verdict' intent_id action_id cq cq' w message d lost took
      settled same =
    let b = ballot_of env verdict intent_id action_id in
    let b' = ballot_of env' verdict' intent_id action_id in
    let voted : World = record w { intents = (vote_on env b w.intents).1 } in
    let again = decide verdict' intent_id action_id cq' in
    let e = lost_vote env verdict intent_id action_id cq w message lost in
    let turned =
      (settled_last env.single_operator env.random_id env'.random_id env.now env'.now b b' w.intents
        d [] took settled refl).0 in
    (
      ap (λ x. x.1.ledger) e,
      (
        ap (λ x. x.1.approved) e,
        ap (λ x. (act env' again x.1).1.approved) e
            ∙ runs_nothing (vote_on env' b' voted.intents).0 w.approved
                (act env' again voted).1.approved
                (subst
                  (λ s.
                    is_turned_down
                      (nvidia_omoda.Api.Intents.Decide.decide s env'.random_id env'.now b'
                        voted.intents).0
                    ≡ true)
                  (sym same) turned)
                (act-RunsSettled env' again voted),
      ),
    )
