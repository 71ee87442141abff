-- ===== src/Examples/Live.antt =====
-- The live policy, the loaded skills and the triggers at concrete inputs.
use nvidia_omoda.Prelude.{String, true, false, Option, none, some, List, [], ◌∷◌, ◌≡◌, refl}
use nvidia_omoda.Prelude.Dict.{get, del}
use nvidia_omoda.Policy.Envelope.{Rule, Group}
use nvidia_omoda.Policy.Compile.{Manifest, Network, level_problems}
use nvidia_omoda.Policy.Port.{returned}
use nvidia_omoda.Policy.OpenShell.{Read, live, Delta, Open, revert_key, revert_keys, revert_all}
use nvidia_omoda.Policy.OpenShell.Closed.{IsGone, revert_key-IsGone}
use nvidia_omoda.Transport.Triggers.{Trigger, match_text}

abbrev get_rule : Rule
get_rule = record { method = "GET"; path = "/pay"; delta = none }

abbrev post_rule : Rule
post_rule = record { method = "POST"; path = "/pay"; delta = some "omoda-delta-act-1" }

abbrev bank : List Rule → Group
bank rules = record {
  key = "bank_example";
  endpoints = record { host = "bank.example"; protocol = "rest"; rules = rules } ∷ [];
}

abbrev read_box : List Group → Read × List Group
read_box gs = (live gs, gs)

abbrev write_box : List Group → List Group → Option String × List Group
write_box new old = (none, new)

abbrev delta : Delta
delta = record {
  id = "omoda-delta-act-1";
  request = record { host = "bank.example"; method = "POST"; path = "/pay" };
  expires_at = 120;
  decision_id = some "dec-1";
}

abbrev open_deltas : Open
open_deltas = ("act-1", delta) ∷ []

abbrev box : List Group
box = bank (get_rule ∷ post_rule ∷ []) ∷ []

found : get "act-1" open_deltas ≡ some delta
unfolding get
found = refl

reverts : (revert_key read_box write_box false 120 "act-1" open_deltas box).0 ≡ returned
unfolding revert_key get del
reverts = refl

reverts_all : (revert_all read_box write_box false 120 open_deltas box).0 ≡ returned
unfolding revert_key get del revert_keys
reverts_all = refl

revert_key-IsGone_example :
    IsGone read_box write_box 120 delta
      (revert_key read_box write_box false 120 "act-1" open_deltas box)
revert_key-IsGone_example =
    revert_key-IsGone read_box write_box 120 "act-1" delta open_deltas box found reverts

abbrev thinker : Manifest
thinker = record {
  skill = "plan";
  agent = "planner";
  description = none;
  level = 0;
  inference = true;
  capabilities = [];
  read_paths = [];
  write_paths = [];
  binaries = [];
}

no_problem : level_problems thinker ≡ []
unfolding level_problems
no_problem = refl

abbrev network : Network
network = record { group = bank (get_rule ∷ []); port = 443; binaries = [] }

abbrev burning : Trigger
burning = record {
  id = "trg_1";
  phrases = "fire" ∷ [];
  incident_type = "fire";
  l1 = "emergency";
  action = "dispatch";
}

sees_fire : match_text (burning ∷ []) "Fire ahead" ≡ some (burning, "fire")
unfolding match_text
sees_fire = refl

-- A negated phrase is passed over.
sees_none : match_text (burning ∷ []) "no fire here" ≡ none
unfolding match_text
sees_none = refl
