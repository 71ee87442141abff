-- ===== src/Gateway/Signed.antt =====
-- The text that a device of src/gateway/openclaw.js signs.
use nvidia_omoda.Prelude.{ℕ, zero, suc, String, true, List, [], ◌∷◌, ◌≡◌, All, get_or}
use nvidia_omoda.Prelude.Split.{free_of}
use nvidia_omoda.Gateway.{Device, payload_fields}

abbrev tail : List String → List String
tail [] = []
tail (s ∷ l) = l

abbrev nth : ℕ → List String → String
nth n [] = ""
nth zero (s ∷ l) = s
nth (suc n) (s ∷ l) = nth n l

-- There are scopes, and none has a comma.
abbrev IsListed : List String → Type 0
IsListed [] = ⊥
IsListed (s ∷ l) = All (λ t. free_of "," t ≡ true) (s ∷ l)

-- No field has the separator of the fields, and no scope that of the scopes.
abbrev pub IsPlain : Device → Type 0
IsPlain d = All (λ s. free_of "|" s ≡ true) (payload_fields d) × IsListed d.scopes

-- The two devices agree; a token that is missing counts as an empty one.
pub record SameDevice (d e : Device) : Type 0 where
  pub device_id : d.device_id ≡ e.device_id
  pub client_id : d.client_id ≡ e.client_id
  pub client_mode : d.client_mode ≡ e.client_mode
  pub role : d.role ≡ e.role
  pub scopes : d.scopes ≡ e.scopes
  pub signed_at : d.signed_at ≡ e.signed_at
  pub token : get_or d.token "" ≡ get_or e.token ""
  pub nonce : d.nonce ≡ e.nonce
  pub platform : d.platform ≡ e.platform
  pub family : d.family ≡ e.family
