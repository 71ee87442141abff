-- ===== src/Policy/Compile.antt =====
-- src/policy/compile.js: from a parsed manifest (src/schema/manifest.js) to the policy fragment, the
-- consent plan and the registry. `le` stands for `localeCompare`, with which the rules are sorted.
pub mod Keys
pub mod Grants
pub mod Checks
use nvidia_omoda.Prelude.{
  ℕ, suc, ◌+◌, String, Bool, true, false, not, ◌&&◌, ◌||◌, Option, none, some, List, [], ◌∷◌, ◌++◌,
  ◌==◌, if◌then◌else◌, get_or, is_some, includes, leb, eqb, map, keep,
}
use Prim.Native.String
use Prim.Native.Char.{Char, code}
use nvidia_omoda.Prelude.Dict.{get, put}
use nvidia_omoda.Prelude.Print.{print_number}
use nvidia_omoda.Json.{le_key, le_codes}
use nvidia_omoda.Domain.Taxonomy.{
  Verb, Impact, Stage, is_write, requires_inverse, requires_consent, consent_kind, methods_for,
  nonempty,
}
use nvidia_omoda.Policy.Envelope.{Rule, Endpoint, Group, Envelope}

pub record Egress : Type 0 where
  pub host : String
  pub port : ℕ
  pub path : String

pub record Capability : Type 0 where
  pub tool : String
  pub verb : Verb
  pub resource : Option String
  pub impact : List Impact
  pub egress : Option Egress

-- A manifest as the schema gives it back, defaults filled in.
pub record Manifest : Type 0 where
  pub skill : String
  pub agent : String
  pub description : Option String
  pub level : ℕ
  pub inference : Bool
  pub capabilities : List Capability
  pub read_paths : List String
  pub write_paths : List String
  pub binaries : List String

-- The problems of the schema's last check.
pub data Problem : Type 0 where
  inference_held tools_held no_tools local_tool file_writes : Problem

abbrev pub when : Bool → Problem → List Problem
when true p = p ∷ []
when false p = []

abbrev pub local_tools : List Capability → List Problem
local_tools [] = []
local_tools (c ∷ cs) = when (not (is_some c.egress)) local_tool ++ local_tools cs

-- `superRefine` on the level.
unfoldable pub level_problems : Manifest → List Problem
level_problems m =
    when (m.inference && leb 2 m.level) inference_held
    ++ (when (leb m.level 1 && nonempty m.capabilities) tools_held
        ++ (when (leb 2 m.level && not (nonempty m.capabilities)) no_tools
            ++ (if eqb m.level 3
                then local_tools m.capabilities ++ when (nonempty m.write_paths) file_writes
                else [])))

-- The capabilities of one `host:port`.
pub record Site : Type 0 where
  pub host : String
  pub port : ℕ
  pub caps : List Capability

abbrev pub site_key : String → ℕ → String
site_key host port = String.◌++◌ host (String.◌++◌ ":" (print_number (port + 1) port))

unfoldable pub add_cap : Capability → List (String × Site) → List (String × Site)
unfolding get put print_number
add_cap c sites = elim c.egress [
  | none ↦ sites
  | some e ↦
      let key = site_key e.host e.port in
      elim (get key sites) [
        | none ↦ put key (record { host = e.host; port = e.port; caps = c ∷ [] }) sites
        | some s ↦ put key (record s { caps = s.caps ++ c ∷ [] }) sites
      ]
]

unfoldable pub group_by_endpoint : List Capability → List (String × Site) → List (String × Site)
unfolding add_cap
group_by_endpoint [] sites = sites
group_by_endpoint (c ∷ cs) sites = group_by_endpoint cs (add_cap c sites)

-- The loop over the methods of one capability: `seen` holds the signatures so far.
unfoldable pub add_methods :
    String → List String → List String × List Rule → List String × List Rule
add_methods path [] p = p
add_methods path (method ∷ ms) (seen, rules) =
    let sig = String.◌++◌ method (String.◌++◌ " " path) in
    add_methods path ms (
      if includes seen sig
      then (seen, rules)
      else (sig ∷ seen, rules ++ record { method = method; path = path; delta = none } ∷ []))

unfoldable pub add_cap_rules : Capability → List String × List Rule → List String × List Rule
unfolding add_methods methods_for
add_cap_rules c p = elim c.egress [
  | none ↦ p
  | some e ↦ add_methods e.path (methods_for c.verb (some c.impact)) p
]

unfoldable pub add_rules : List Capability → List String × List Rule → List String × List Rule
unfolding add_cap_rules
add_rules [] p = p
add_rules (c ∷ cs) p = add_rules cs (add_cap_rules c p)

module _ (le : String → String → Bool) where
  abbrev pub sort_key : Rule → String
  sort_key r = String.◌++◌ r.method r.path

  unfoldable pub insert_rule : Rule → List Rule → List Rule
  insert_rule r [] = r ∷ []
  insert_rule r (s ∷ rs) =
      let rest = insert_rule r rs in if le (sort_key r) (sort_key s) then r ∷ s ∷ rs else s ∷ rest

  -- `rules.sort(...)`, stable.
  unfoldable pub sort_rules : List Rule → List Rule
  unfolding insert_rule
  sort_rules [] = []
  sort_rules (r ∷ rs) = insert_rule r (sort_rules rs)

-- The letter at the same place of the second text.
abbrev pub translate : String → String → Char → Char
translate String.[] _ c = c
translate _ String.[] c = c
translate (String.◌∷◌ u us) (String.◌∷◌ l ls) c =
    if eqb (code u) (code c) then l else translate us ls c

abbrev pub lower_char : Char → Char
lower_char = translate "ABCDEFGHIJKLMNOPQRSTUVWXYZ" "abcdefghijklmnopqrstuvwxyz"

abbrev pub is_alnum : ℕ → Bool
is_alnum c = (leb b'a' c && leb c b'z') || (leb b'A' c && leb c b'Z') || (leb b'0' c && leb c b'9')

-- `host.replace(/[^a-z0-9]+/gi, "_").toLowerCase()`; the flag says that the last character was replaced.
unfoldable pub host_key : Bool → String → String
host_key gap String.[] = String.[]
host_key gap (String.◌∷◌ c s) =
    let rest = host_key (not (is_alnum (code c))) s in
    if is_alnum (code c)
    then String.◌∷◌ (lower_char c) rest
    else if gap
    then rest
    else String.◌++◌ "_" rest

pub record Network : Type 0 where
  pub group : Group
  pub port : ℕ
  pub binaries : List String

module _ (le : String → String → Bool) (binaries : List String) where
  unfoldable pub network_of : Site → Network
  unfolding host_key add_rules sort_rules
  network_of s =
      let key = host_key false s.host in
      record {
        group = record {
          key = key;
          endpoints =
              record {
                host = s.host;
                protocol = "rest";
                rules = sort_rules le (add_rules s.caps ([], [])).1;
              }
              ∷ [];
        };
        port = s.port;
        binaries = binaries;
      }

  -- The loop over the groups; a key that is there is overwritten.
  unfoldable pub networks : List (String × Site) → List (String × Network) → List (String × Network)
  unfolding network_of put
  networks [] m = m
  networks ((k, s) ∷ l) m = networks l (put (host_key false s.host) (network_of s) m)

pub record Fragment : Type 0 where
  pub name : String
  pub description : String
  pub network_policies : List (String × Network)
  pub read_only : List String
  pub read_write : List String

-- `[...paths].sort()`, by the characters' codes.
unfoldable pub insert_text : String → List String → List String
unfolding le_codes
insert_text s [] = s ∷ []
insert_text s (t ∷ ts) = let rest = insert_text s ts in if le_key s t then s ∷ t ∷ ts else t ∷ rest

unfoldable pub sort_texts : List String → List String
unfolding insert_text
sort_texts [] = []
sort_texts (s ∷ ss) = insert_text s (sort_texts ss)

-- An empty list stands for a part of the filesystem policy that is left out.
unfoldable pub compile_fragment : (String → String → Bool) → Manifest → Fragment
unfolding networks group_by_endpoint sort_texts
compile_fragment le m = record {
  name = String.◌++◌ "omoda-" m.skill;
  description = get_or m.description (String.◌++◌ "OMODA compiled envelope for skill " m.skill);
  network_policies = networks le m.binaries (group_by_endpoint m.capabilities []) [];
  read_only = sort_texts m.read_paths;
  read_write = sort_texts m.write_paths;
}

-- `createEnvelope(fragment)`: the groups of the fragment, no delta open.
abbrev pub groups_of : List (String × Network) → List Group
groups_of [] = []
groups_of ((k, n) ∷ l) = n.group ∷ groups_of l

abbrev pub envelope_of : Fragment → Envelope
envelope_of f = record { policies = groups_of f.network_policies; deltas = [] }

pub record Consent : Type 0 where
  pub tool : String
  pub verb : Verb
  pub impact : List Impact
  pub stage : Option Stage
  pub inverse_required : Bool

unfoldable pub consent_plan : List Capability → List Consent
unfolding requires_consent consent_kind
consent_plan [] = []
consent_plan (c ∷ cs) =
    let rest = consent_plan cs in
    if requires_consent c.verb (some c.impact)
    then record {
      tool = c.tool;
      verb = c.verb;
      impact = c.impact;
      stage = consent_kind c.verb (some c.impact);
      inverse_required = requires_inverse c.verb;
    }
      ∷ rest
    else rest
