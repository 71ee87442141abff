-- ===== src/Channels/Loop/Approved.antt =====
-- What src/channels/telegram-loop.js runs after an operator's tap.
use nvidia_omoda.Prelude.{
  String, true, false, Option, none, some, List, [], ◌∷◌, ◌++◌, ◌≡◌, ◌⊎◌, refl, subst, Bool-cases,
  Option-cases, inl, inr, arith, get_or,
}
use nvidia_omoda.Prelude.Dict.{get}
use nvidia_omoda.Domain.Action.{Action}
use nvidia_omoda.Broker.Decision.{same_text, is_unsettled}
use nvidia_omoda.Api.Intents.Decide.{Ballot, Decided, turned_down, recorded}
use nvidia_omoda.Channels.Telegram.{
  Command, Update, Media, Message, Modality, inert, ignored, decide, media, halt, resume, unknown,
  undo, audit, parse_update,
}
use nvidia_omoda.Channels.World.{
  Heard, heard, not_heard, Reverted, reverted, revert_failed, Env, World, Approval, Handled, tell,
  append_to,
}
use nvidia_omoda.Channels.Loop.{handle, act, on_media, on_halt, on_undo, refuse_media}
use nvidia_omoda.Channels.Vote.{
  on_decide, after_vote, run_approved, ballot_of, vote_on, runs, decided_action, publish_decision,
  decision_entry, follow_vote,
}

-- Nothing more is run, or one approval that the intents have just recorded and that is settled.
abbrev pub RunsFor : Decided → List Approval → List Approval → Type 0
RunsFor out old new =
    (new ≡ old)
    ⊎ ((p : Approval) × ((new ≡ old ++ p ∷ [])
          × ((out ≡ recorded p.decision)
              × ((same_text p.decision.verdict (some "approve") ≡ true)
                  × (is_unsettled p.decision.settled ≡ false)))))

run_approved-RunsFor :
    (env : Env) (b : Ballot) (out : Decided) (decided : Option Action) (w : World)
    → RunsFor out w.approved (run_approved env b out decided w).approved
unfolding run_approved
run_approved-RunsFor env b (turned_down status why) decided w = inl refl
run_approved-RunsFor env b (recorded d) none w = inl refl
run_approved-RunsFor env b (recorded d) (some a) w = elim (Bool-cases (runs env d)) [
  | inr stays ↦ inl (rw stays refl)
  | inl goes ↦ inr (
    record { intent = get b.intent_id w.intents.by_id; action = a; decision = d },
    (rw goes refl, (refl, (ground (arith, goes), ground (arith, goes)))),
  )
]

publish-approved :
    (env : Env) (verdict : String) (b : Ballot) (out : Decided) (a : Action) (w : World)
    → (publish_decision env verdict b out a w).approved ≡ w.approved
unfolding publish_decision
publish-approved env verdict b out a w = elim (Bool-cases env.has_bus) [
  | inl there ↦ rw there refl
  | inr gone ↦ rw gone refl
]

follow_vote-RunsFor :
    (env : Env) (verdict : String) (b : Ballot) (out : Decided) (decided : Option Action)
    (w : World)
    → RunsFor out w.approved (follow_vote env verdict b out decided w).approved
unfolding follow_vote append_to
follow_vote-RunsFor env verdict b out none w =
    run_approved-RunsFor env b out none (append_to env (decision_entry env verdict b out none) w)
follow_vote-RunsFor env verdict b out (some a) w =
    let logged : World = append_to env (decision_entry env verdict b out (some a)) w in
    subst
      (λ l.
        RunsFor out l
          (run_approved env b out (some a) (publish_decision env verdict b out a logged)).approved)
      (publish-approved env verdict b out a logged)
      (run_approved-RunsFor env b out (some a) (publish_decision env verdict b out a logged))

tell-RunsFor :
    (out : Decided) (old : List Approval) (lost : Option String) (next : Handled × World)
    (w : World)
    → w.approved ≡ old
    → RunsFor out old next.1.approved
    → RunsFor out old (tell lost next w).1.approved
tell-RunsFor out old none next w same h = h
tell-RunsFor out old (some message) next w same h = inl same

-- What a command lets run: an approval, if the command is a tap that the intents took.
abbrev pub RunsSettled : Env → Command → World → List Approval → Type 0
RunsSettled env (decide verdict intent_id action_id cq) w new =
    RunsFor (vote_on env (ballot_of env verdict intent_id action_id) w.intents).0 w.approved new
RunsSettled env command w new = new ≡ w.approved

tell-same :
    (old : List Approval) (lost : Option String) (next : Handled × World) (w : World)
    → w.approved ≡ old
    → next.1.approved ≡ old
    → (tell lost next w).1.approved ≡ old
tell-same old none next w same h = h
tell-same old (some message) next w same h = same

media-same :
    (env : Env) (m : Modality) (x : Media) (msg : Message) (w : World)
    → (on_media env m x msg w).1.approved ≡ w.approved
unfolding on_media append_to refuse_media
media-same env m x msg w = elim (Option-cases env.transform) [
  | inl off ↦ rw (on_media, off) (tell-same w.approved (env.lost 0) _ _ refl refl)
  | inr (transform, on) ↦ go transform on (transform m x) refl
]
  where
    go :
        (transform : Modality → Media → Heard)
        → env.transform ≡ some transform
        → (h : Heard) → transform m x ≡ h
        → (on_media env m x msg w).1.approved ≡ w.approved
    go transform on (not_heard message) e =
        rw (on_media, on, e) (tell-same w.approved (env.lost 0) _ _ refl refl)
    go transform on (heard t) e = elim (Option-cases (env.lost 0)) [
      | inl told ↦ rw (on_media, on, e, told) refl
      | inr (message, lost) ↦
          rw (on_media, on, e, lost) (tell-same w.approved (env.lost 1) _ _ refl refl)
    ]

halt-same : (env : Env) (w : World) → (on_halt env w).1.approved ≡ w.approved
unfolding on_halt append_to
halt-same env w = go (get_or env.revert (reverted 0)) refl
  where
    go :
        (r : Reverted)
        → get_or env.revert (reverted 0) ≡ r
        → (on_halt env w).1.approved ≡ w.approved
    go (reverted n) e = rw (on_halt, e) (tell-same w.approved (env.lost 0) _ _ refl refl)
    go (revert_failed message) e = rw (on_halt, e) (tell-same w.approved (env.lost 0) _ _ refl refl)

undo-same : (env : Env) (token : String) (w : World) → (on_undo env token w).1.approved ≡ w.approved
unfolding on_undo append_to
undo-same env token w = elim (Option-cases env.replay) [
  | inl off ↦ rw (on_undo, off) (tell-same w.approved (env.lost 0) _ _ refl refl)
  | inr (replay, on) ↦ rw (on_undo, on) (tell-same w.approved (env.lost 0) _ _ refl refl)
]

pub act-RunsSettled :
    (env : Env) (c : Command) (w : World) → RunsSettled env c w (act env c w).1.approved
unfolding act on_decide append_to after_vote
act-RunsSettled env inert w = refl
act-RunsSettled env (ignored why from) w = refl
act-RunsSettled env (decide verdict intent_id action_id cq) w =
    let b = ballot_of env verdict intent_id action_id in
    let out = (vote_on env b w.intents).0 in
    let voted : World = record w { intents = (vote_on env b w.intents).1 } in
    tell-RunsFor out w.approved (env.lost 0) _ voted refl (
      tell-RunsFor out w.approved _ (after_vote env verdict b out voted) voted refl
        (follow_vote-RunsFor env verdict b out (decided_action out b voted.intents) voted))
act-RunsSettled env (media m x msg) w = media-same env m x msg w
act-RunsSettled env halt w = halt-same env w
act-RunsSettled env resume w = tell-same w.approved (env.lost 0) _ _ refl refl
act-RunsSettled env (undo token) w = undo-same env token w
act-RunsSettled env (audit query) w = tell-same w.approved (env.lost 0) _ _ refl refl
act-RunsSettled env unknown w = tell-same w.approved (env.lost 0) _ _ refl refl

-- An update lets nothing run, or it is read as a vote, and then at most one action is run: with the
-- decision that the intents have just recorded for this vote, an approval that is settled.
pub handle-RunsSettled :
    (env : Env) (u : Update) (w : World)
    → RunsSettled env (parse_update env.print env.allowed u) w (handle env u w).1.approved
unfolding handle
handle-RunsSettled env u w = act-RunsSettled env (parse_update env.print env.allowed u) w
