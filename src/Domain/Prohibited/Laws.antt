-- ===== src/Domain/Prohibited/Laws.antt =====
-- What an action is free of when src/domain/prohibited.js finds no rule.
use nvidia_omoda.Prelude.{
  ℕ, ◌≤◌, String, Bool, true, false, Option, none, some, List, [], ◌∷◌, ◌≡◌, ◌≢◌, ◌⊎◌, inl, inr,
  refl, get_or, any, if◌then◌else◌, All, arith, subst, all, is_some, &&-eq-true,
}
use nvidia_omoda.Prelude.Rx.{codes, starts_with}
use nvidia_omoda.Json.{
  Value, undef, null, bool, num, frac, arr, obj, end, prop, truthy, to_text, str,
}
use nvidia_omoda.Domain.Action.{Action}
use nvidia_omoda.Domain.Prohibited.{
  Rule, ◌or_else◌, when, port_min, port_max, port_allowed, port_rule, absent, shared_paths, under,
  path_rule_one, path_rule, tool_rule, command_rule, delta_rule, gateway_rule, prohibited_reason,
}

or_else_none : (a b : Option Rule) → (a or_else b) ≡ none → (a ≡ none) × (b ≡ none)
or_else_none none b h = (refl, h)
or_else_none (some r) b h = cc

when-none : (b : Bool) (r : Rule) → when b r ≡ none → b ≡ false
when-none true r h = cc
when-none false r h = refl

-- A port that is named lies in the block.
abbrev pub InBlock : Value → Type 0
InBlock v = (absent v ≡ true) ⊎ ((p : ℕ) × (v ≡ num p) × (port_min ≤ p) × (p ≤ port_max))

port_rule-none : (v : Value) → port_rule v ≡ none → InBlock v
unfolding port_rule port_allowed
port_rule-none undef h = inl refl
port_rule-none null h = inl refl
port_rule-none (num p) h = inr (p, refl, ground (arith, h), ground (arith, h))
port_rule-none (bool b) h = absurd (ground (arith, h))
port_rule-none (frac s) h = absurd (ground (arith, h))
port_rule-none (str s) h = absurd (ground (arith, h))
port_rule-none (arr l) h = absurd (ground (arith, h))
port_rule-none (obj o) h = absurd (ground (arith, h))

-- A path that is named is not in the model cache and under no shared path.
abbrev pub IsPrivate : String → Value → Type 0
IsPrivate hf_home v =
    truthy v ≡ true
    → (starts_with (to_text v) (codes hf_home) ≡ false)
      × (any (under (to_text v)) shared_paths ≡ false)

path_rule_one-none :
    (hf_home : String) (v : Value)
    → path_rule_one hf_home (to_text v) ≡ none
    → (starts_with (to_text v) (codes hf_home) ≡ false)
      × (any (under (to_text v)) shared_paths ≡ false)
unfolding path_rule_one
path_rule_one-none hf_home v h =
    let (a, b) = or_else_none (when (starts_with (to_text v) (codes hf_home)) _) _ h in
    (when-none _ _ a, when-none _ _ b)

path_rule-none :
    (hf_home : String) (l : List Value) → path_rule hf_home l ≡ none → All (IsPrivate hf_home) l
unfolding path_rule
path_rule-none hf_home [] h = tt
path_rule-none hf_home (v ∷ l) h =
    let (a, b) =
      or_else_none (if truthy v then path_rule_one hf_home (to_text v) else none)
        (path_rule hf_home l) h in
    (λ t. path_rule_one-none hf_home v (ground (arith, a, t)), path_rule-none hf_home l b)

-- The tools that no decision allows.
abbrev pub banned_tools : List String
banned_tools =
    "dispatch.mass_broadcast" ∷ "dispatch.city_alert" ∷ "comms.mass_broadcast" ∷ "comms.city_alert"
    ∷ "utility.grid.blackout" ∷ "utility.city_blackout" ∷ "camera.facial_recognition"
    ∷ "camera.biometric_match" ∷ "evidence.public_release" ∷ "camera.public_stream" ∷ []

-- The methods of the gateway's own control plane, by their tool names.
abbrev pub gateway_tools : List String
gateway_tools =
    "openclaw.exec.approvals.set" ∷ "openclaw.exec.approvals.node.set" ∷ "openclaw.config.set"
    ∷ "openclaw.config.apply" ∷ "openclaw.config.patch" ∷ "openclaw.device.token.rotate"
    ∷ "openclaw.device.token.revoke" ∷ "openclaw.device.pair.approve"
    ∷ "openclaw.device.pair.remove" ∷ "openclaw.node.pair.approve" ∷ "openclaw.node.pair.remove"
    ∷ []

gateway_tools_refused : all (λ t. is_some (gateway_rule (codes t))) gateway_tools ≡ true
unfolding gateway_rule
gateway_tools_refused = refl

banned_tools_refused : all (λ t. is_some (tool_rule t)) banned_tools ≡ true
unfolding tool_rule
banned_tools_refused = refl

-- A tool for which the rule is silent is none of those that it refuses.
all_apart :
    (f : String → Option Rule) (tool : String) (l : List String)
    → all (λ t. is_some (f t)) l ≡ true
    → f tool ≡ none
    → All (λ t. tool ≢ t) l
all_apart f tool [] h p = tt
all_apart f tool (t ∷ l) h p =
    let (first, rest) = &&-eq-true (is_some (f t)) _ h in
    (λ e. refused (f t) first (subst (λ x. f x ≡ none) e p), all_apart f tool l rest p)
  where
    refused : (o : Option Rule) → is_some o ≡ true → o ≢ none
    refused none e k = cc
    refused (some r) e k = cc

-- What the rules on ports, paths, tools and the gateway promise of an action that none of them stops.
pub record IsClean (hf_home : String) (a : Action) : Type 0 where
  pub in_block : InBlock a.port
  pub in_private : All (IsPrivate hf_home) (
      a.path
      ∷ prop "path" (get_or a.args end)
      ∷ prop "cwd" (get_or a.args end)
      ∷ prop "file" (get_or a.args end)
      ∷ [])
  pub not_gateway : All (λ t. get_or a.tool "" ≢ t) gateway_tools
  pub not_banned : All (λ t. get_or a.tool "" ≢ t) banned_tools

-- An action that no rule prohibits names no port outside of the block, no path in the model cache or
-- under a shared path, no method of the gateway's control plane and no banned tool.
pub unprohibited-IsClean :
    (hf_home : String) (a : Action) → prohibited_reason hf_home a ≡ none → IsClean hf_home a
unfolding prohibited_reason
unprohibited-IsClean hf_home a h =
    let args = get_or a.args end in
    let tool = get_or a.tool "" in
    let (port, h1) = or_else_none (port_rule a.port) _ h in
    let (paths, h2) =
      or_else_none
        (path_rule hf_home (a.path ∷ prop "path" args ∷ prop "cwd" args ∷ prop "file" args ∷ [])) _
        h1 in
    let (cmd, h3) = or_else_none (command_rule (prop "cmd" args)) _ h2 in
    let (delta, h4) = or_else_none (delta_rule a.policy_delta) _ h3 in
    let (gateway, h5) = or_else_none (gateway_rule (codes tool)) _ h4 in
    let (banned, git) = or_else_none (tool_rule tool) _ h5 in
    record {
      in_block = port_rule-none a.port port;
      in_private =
          path_rule-none hf_home
            (a.path ∷ prop "path" args ∷ prop "cwd" args ∷ prop "file" args ∷ []) paths;
      not_gateway =
          all_apart (λ t. gateway_rule (codes t)) tool gateway_tools gateway_tools_refused gateway;
      not_banned = all_apart tool_rule tool banned_tools banned_tools_refused banned;
    }
