-- ===== src/Models/Router.antt =====
-- src/models/router.js: where a task may be sent, by its payload and by what is available.
pub mod Egress
use nvidia_omoda.Prelude.{
  ℕ, zero, suc, String, Bool, true, false, not, ◌&&◌, ◌||◌, Option, none, some, List, [], ◌∷◌, ◌++◌,
  ◌==◌, if◌then◌else◌, any, map, leb, eqb,
}
use nvidia_omoda.Prelude.Rx.{
  Item, one, maybe, many, codes, accepts, occurs, lit, anything, space, lower,
}
use nvidia_omoda.Json.{Value, undef, null, str, stringify}

abbrev pub times : ℕ → (ℕ → Bool) → List Item
times zero p = []
times (suc n) p = one p ∷ times n p

abbrev pub is_digit : ℕ → Bool
is_digit c = leb b'0' c && leb c b'9'

abbrev pub is_upper : ℕ → Bool
is_upper c = leb b'A' c && leb c b'Z'

abbrev pub is_lower : ℕ → Bool
is_lower c = leb b'a' c && leb c b'z'

abbrev pub is_alnum : ℕ → Bool
is_alnum c = is_digit c || (is_upper c || is_lower c)

-- `\w`.
abbrev pub is_word : ℕ → Bool
is_word c = is_alnum c || eqb c b'_'

abbrev pub is_no_word : ℕ → Bool
is_no_word c = not (is_word c)

-- `\b` before a word character, and then the pattern up to the end of the text.
abbrev pub bounded : List Item → List ℕ → Bool
bounded r s = accepts r s || accepts (many anything ∷ one is_no_word ∷ r) s

-- Behind a word character, `\b` is the end of the text or a character that is in no word.
abbrev pub edge : List Item → List (List Item)
edge r = r ∷ (r ++ one is_no_word ∷ many anything ∷ []) ∷ []

-- /-----BEGIN [A-Z ]*PRIVATE KEY-----/.
abbrev pub private_key : List Item
private_key =
    lit (codes "-----BEGIN ")
    ++ many (λ c. is_upper c || eqb c b' ') ∷ lit (codes "PRIVATE KEY-----")

abbrev pub is_key_char : ℕ → Bool
is_key_char c = is_word c || eqb c b'-'

-- /\b(?:sk|omoda|ghp|gho)_[A-Za-z0-9_-]{16,}/.
abbrev pub key_of : String → List Item
key_of prefix = lit (codes prefix) ++ (times 16 is_key_char ++ many anything ∷ [])

abbrev pub is_bearer_char : ℕ → Bool
is_bearer_char c = is_word c || (eqb c b'.' || eqb c b'-')

-- /\bBearer\s+[A-Za-z0-9._-]{20,}/i, over lower case.
abbrev pub bearer : List Item
bearer =
    lit (codes "bearer") ++ one space ∷ many space ∷ times 20 is_bearer_char ++ many anything ∷ []

abbrev pub is_symbol : ℕ → Bool
is_symbol c = eqb c b'/' || (eqb c b'+' || eqb c b'=')

abbrev pub is_secret_char : ℕ → Bool
is_secret_char c = is_alnum c || is_symbol c

abbrev pub is_id_char : ℕ → Bool
is_id_char c = is_upper c || is_digit c

abbrev pub pair_start : List Item
pair_start = times 20 is_id_char ++ one (λ c. eqb c b':') ∷ times 39 is_secret_char

-- /\b[A-Z0-9]{20}:[A-Za-z0-9/+=]{40}\b/: behind a symbol, `\b` is a word character.
abbrev pub key_pairs : List (List Item)
key_pairs =
    (pair_start ++ one is_symbol ∷ one is_word ∷ many anything ∷ [])
    ∷ edge (pair_start ++ one is_alnum ∷ [])

abbrev pub dash : Item
dash = one (λ c. eqb c b'-')

-- /\b\d{3}-\d{2}-\d{4}\b/.
abbrev pub social : List (List Item)
social = edge (times 3 is_digit ++ dash ∷ times 2 is_digit ++ dash ∷ times 4 is_digit)

unfoldable pub has_pattern : List ℕ → Bool
unfolding accepts occurs lower
has_pattern s =
    occurs private_key s
    || any (λ p. bounded (key_of p) s) ("sk_" ∷ "omoda_" ∷ "ghp_" ∷ "gho_" ∷ [])
    || bounded bearer (map lower s)
    || any (λ r. bounded r s) key_pairs
    || occurs (lit (codes "/home/arif/")) s
    || occurs (lit (codes "/home/acer01/")) s
    || any (λ r. bounded r s) social

unfoldable pub blob : Value → List ℕ
unfolding stringify
blob (str s) = codes s
blob undef = stringify (str "")
blob null = stringify (str "")
blob v = stringify v

unfoldable pub is_sensitive : Value → Bool → Bool
unfolding has_pattern blob
is_sensitive payload declared = if declared then true else has_pattern (blob payload)

pub data Task : Type 0 where
  plan classify perceive : Task
  other : String → Task

pub data Way : Type 0 where
  on_box hosted nowhere : Way

-- The route's way out of the box, and whether it is degraded; or `RoutingRefused`.
pub data Route : Type 0 where
  routed : Way → Bool → Route
  refused : String → Route

pub record Ask : Type 0 where
  pub task : Task
  pub payload : Value
  pub multimodal : Bool
  pub hosted_available : Bool
  pub local_available : Bool
  pub declared_sensitive : Bool

abbrev pub is_perceive : Task → Bool
is_perceive perceive = true
is_perceive _ = false

abbrev pub is_classify : Task → Bool
is_classify classify = true
is_classify _ = false

unfoldable pub route : Ask → Route
unfolding is_sensitive
route a =
    if a.multimodal || is_perceive a.task
    then (if not a.local_available
        then refused "perception requires the local model; refusing to send media off-box"
        else routed on_box false)
    else if is_sensitive a.payload a.declared_sensitive
    then (if not a.local_available
        then refused
            "sensitive payload and the local model is unavailable; refusing to route it off-box"
        else routed on_box false)
    else if is_classify a.task
    then (if not a.local_available then routed nowhere true else routed on_box false)
    else if not a.hosted_available
    then (if not a.local_available
        then refused "neither the hosted planner nor the local model is available"
        else routed on_box true)
    else routed hosted false

-- `assertMayLeaveBox`: `true` where it does not throw.
unfoldable pub may_leave_box : Value → Bool → Bool
unfolding is_sensitive
may_leave_box payload declared = not (is_sensitive payload declared)
