-- ===== src/Examples/Domain.antt =====
-- The taxonomy and the prohibited rules of src/domain at concrete calls.
use nvidia_omoda.Prelude.{true, false, none, some, [], ◌∷◌, ◌≡◌, ◌≢◌, refl, ◌↔◌}
use nvidia_omoda.Json.{null, str, num}
use nvidia_omoda.Domain.Taxonomy.{
  read, delete, legal, safe, contained, consequential, classify, is_verb,
}
use nvidia_omoda.Domain.Taxonomy.Laws.{carries}
use nvidia_omoda.Domain.Taxonomy.Consent.{classify_iff}
use nvidia_omoda.Domain.Action.{Action}
use nvidia_omoda.Domain.Prohibited.{prohibited_reason}
use nvidia_omoda.Domain.Prohibited.Laws.{IsClean, unprohibited-IsClean}

abbrev serve : Action
serve = record {
  tool = some "fs.read";
  verb = read;
  impact = none;
  declared = true;
  action_id = some "act-1";
  intent_id = none;
  resource = none;
  agent = some "worker";
  port = num 3150;
  path = str "/srv/data";
  args = none;
  policy_delta = null;
  inverse = none;
  request = none;
}

unprohibited-IsClean_example : IsClean "/models" serve
unfolding prohibited_reason
unprohibited-IsClean_example = unprohibited-IsClean "/models" serve refl

classify_iff_example :
    ((classify delete (some (legal ∷ [])) true false ≡ consequential) ↔ (
      (false ≡ false)
      × (true ≡ true)
      × (is_verb delete ≡ true)
      × (delete ≢ read)
      × (carries (some (legal ∷ [])) ≡ true)))
    × ((classify delete (some (legal ∷ [])) true false ≡ contained) ↔ (
        (false ≡ false)
        × (true ≡ true)
        × (is_verb delete ≡ true)
        × (delete ≢ read)
        × (carries (some (legal ∷ [])) ≡ false)))
    × ((classify delete (some (legal ∷ [])) true false ≡ safe)
        ↔ ((false ≡ false) × (true ≡ true) × (delete ≡ read)))
classify_iff_example = classify_iff delete (some (legal ∷ [])) true false
