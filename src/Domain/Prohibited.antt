-- ===== src/Domain/Prohibited.antt =====
-- src/domain/prohibited.js: the rules that no decision can lift.
pub mod Laws
use nvidia_omoda.Prelude.{
  ℕ, String, Bool, true, false, not, ◌&&◌, ◌||◌, Option, none, some, List, [], ◌∷◌, ◌++◌, map, ◌==◌,
  leb, eqb, if◌then◌else◌, get_or, any, keep, includes,
}
use nvidia_omoda.Prelude.Rx.{
  Item, one, many, codes, accepts, occurs, lit, dot, space, anything, starts_with, contains, lower,
}
use nvidia_omoda.Json.{
  Value, Fields, undef, null, num, str, end, prop, truthy, or_value, to_text, stringify,
}
use nvidia_omoda.Domain.Action.{Action}

pub data Rule : Type 0 where
  shared_service_port port_outside_block model_cache shared_path credential_exfiltration : Rule
  policy_weakening inference_host_direct gateway_self_protection no_mass_broadcast : Rule
  no_grid_blackout no_biometric_surveillance no_surveillance_public_release : Rule
  force_push_shared_ref delete_foreign_branch : Rule

abbrev pub port_min : ℕ
port_min = 3100

abbrev pub port_max : ℕ
port_max = 3199

abbrev pub shared_ports : List ℕ
shared_ports = 8000 ∷ 8080 ∷ 11000 ∷ 11002 ∷ 18789 ∷ 18790 ∷ []

abbrev pub shared_paths : List String
shared_paths = "/home/acer01" ∷ "/var/run/docker.sock" ∷ "/run/docker.sock" ∷ []

abbrev pub policy_weakeners : List String
policy_weakeners =
    "managed_inference" ∷ "personal-open-internet" ∷ "disable-device-auth" ∷ "device_auth_disabled"
    ∷ []

abbrev pub gateway_control_plane : List String
gateway_control_plane =
    "exec.approvals.set" ∷ "exec.approvals.node.set" ∷ "config.set" ∷ "config.apply"
    ∷ "config.patch" ∷ "device.token.rotate" ∷ "device.token.revoke" ∷ "device.pair.approve"
    ∷ "device.pair.remove" ∷ "node.pair.approve" ∷ "node.pair.remove" ∷ []

abbrev pub inference_hosts : List String
inference_hosts = "integrate.api.nvidia.com" ∷ "api.openai.com" ∷ "api.anthropic.com" ∷ []

unfoldable pub port_allowed : Value → Bool
port_allowed (num p) = leb port_min p && leb p port_max
port_allowed _ = false

abbrev pub is_shared_port : Value → Bool
is_shared_port (num p) = any (λ q. eqb q p) shared_ports
is_shared_port _ = false

abbrev pub absent : Value → Bool
absent undef = true
absent null = true
absent _ = false

-- The first rule that fires, in the order of the early returns.
infixr 20 ◌or_else◌
abbrev pub ◌or_else◌ : Option Rule → Option Rule → Option Rule
none or_else b = b
some r or_else b = some r

abbrev pub when : Bool → Rule → Option Rule
when true r = some r
when false r = none

unfoldable pub port_rule : Value → Option Rule
unfolding port_allowed
port_rule port =
    if absent port
    then none
    else if port_allowed port
    then none
    else if is_shared_port port
    then some shared_service_port
    else some port_outside_block

-- `s === shared || s.startsWith(shared + "/")`; a text equals another when each begins the other.
unfoldable pub under : List ℕ → String → Bool
unfolding starts_with
under s shared =
    (starts_with s (codes shared) && starts_with (codes shared) s)
    || starts_with s (codes shared ++ b'/' ∷ [])

module _ (hf_home : String) where
  unfoldable pub path_rule_one : List ℕ → Option Rule
  unfolding under starts_with
  path_rule_one s =
      when (starts_with s (codes hf_home)) model_cache
      or_else when (any (under s) shared_paths) shared_path

  -- The loop over the paths that are there.
  unfoldable pub path_rule : List Value → Option Rule
  path_rule [] = none
  path_rule (v ∷ l) = (if truthy v then path_rule_one (to_text v) else none) or_else path_rule l

-- /gateway.*(config|secret)|env\s*\|\s*curl|printenv.*http/i, over lower case.
abbrev pub exfiltration : List (List Item)
exfiltration =
    (lit (codes "gateway") ++ many dot ∷ lit (codes "config"))
    ∷ (lit (codes "gateway") ++ many dot ∷ lit (codes "secret"))
    ∷ (lit (codes "env") ++ many space ∷ one (λ c. eqb c b'|') ∷ many space ∷ lit (codes "curl"))
    ∷ (lit (codes "printenv") ++ many dot ∷ lit (codes "http"))
    ∷ []

unfoldable pub command_rule : Value → Option Rule
unfolding occurs lower to_text
command_rule cmd =
    when (any (λ re. occurs re (map lower (to_text (or_value cmd (str ""))))) exfiltration)
      credential_exfiltration

unfoldable pub delta_rule : Value → Option Rule
unfolding contains lower stringify
delta_rule delta =
    let blob = map lower (stringify delta) in
    if not (truthy delta)
    then none
    else when (any (λ w. contains blob (codes w)) policy_weakeners) policy_weakening
      or_else when (any (λ h. contains blob (codes h)) inference_hosts) inference_host_direct

-- `tool.startsWith("openclaw.")` with the rest in the list.
unfoldable pub gateway_rule : List ℕ → Option Rule
unfolding starts_with
gateway_rule tool =
    when
      (any
        (λ m.
          let full = codes "openclaw." ++ codes m in starts_with tool full && starts_with full tool)
        gateway_control_plane)
      gateway_self_protection

unfoldable pub tool_rule : String → Option Rule
tool_rule tool =
    when
      (includes
        ("dispatch.mass_broadcast" ∷ "dispatch.city_alert" ∷ "comms.mass_broadcast"
          ∷ "comms.city_alert" ∷ [])
        tool)
      no_mass_broadcast
    or_else when (includes ("utility.grid.blackout" ∷ "utility.city_blackout" ∷ []) tool)
        no_grid_blackout
    or_else when (includes ("camera.facial_recognition" ∷ "camera.biometric_match" ∷ []) tool)
        no_biometric_surveillance
    or_else when (includes ("evidence.public_release" ∷ "camera.public_stream" ∷ []) tool)
        no_surveillance_public_release

-- /(^|\/)(main|master)$/.
abbrev pub shared_ref : List ℕ → Bool
shared_ref ref =
    accepts (lit (codes "main")) ref
    || accepts (lit (codes "master")) ref
    || accepts (many anything ∷ lit (codes "/main")) ref
    || accepts (many anything ∷ lit (codes "/master")) ref

unfoldable pub git_rule : String → Fields → Option Rule
unfolding accepts starts_with prop to_text
git_rule tool args =
    let ref = to_text (or_value (prop "ref" args) (or_value (prop "branch" args) (str ""))) in
    if includes ("git.push" ∷ "git.branch" ∷ []) tool
    then when (truthy (prop "force" args) && shared_ref ref) force_push_shared_ref
      or_else when
          (truthy (prop "delete" args)
            && not (starts_with ref (codes "omoda/"))
            && not (starts_with ref (codes "arif/")))
          delete_foreign_branch
    else none

-- `hf_home` is `process.env.HF_HOME`, or its default.
unfoldable pub prohibited_reason : String → Action → Option Rule
unfolding port_rule path_rule path_rule_one command_rule delta_rule gateway_rule tool_rule git_rule
    prop
prohibited_reason hf_home action =
    let args = get_or action.args end in
    let tool = get_or action.tool "" in
    port_rule action.port
    or_else path_rule hf_home
        (action.path ∷ prop "path" args ∷ prop "cwd" args ∷ prop "file" args ∷ [])
    or_else command_rule (prop "cmd" args)
    or_else delta_rule action.policy_delta
    or_else gateway_rule (codes tool)
    or_else tool_rule tool
    or_else git_rule tool args
