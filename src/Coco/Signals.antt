-- ===== src/Coco/Signals.antt =====
-- `candidateSignals` of src/coco/judge.js: which fields of an observation make it a candidate. A text field
-- that is missing is `none`; a flag says whether the field is `true`, or truthy where the source asks for that.
use nvidia_omoda.Prelude.{
  ℕ, String, Bool, true, false, not, ◌&&◌, ◌||◌, Option, some, List, [], ◌∷◌, ◌++◌, ◌==◌,
  if◌then◌else◌, map, any, includes, get_or, ltb, eqb, keep,
}
use nvidia_omoda.Prelude.Rx.{codes, lower, contains}
use nvidia_omoda.Json.{Value}
use nvidia_omoda.Prelude.Search.{Part, texts, edge, found}

pub record Vehicle : Type 0 where
  pub motion_state : Option String
  pub location : Option String
  pub visible_damage : Option String
  pub smoke_visible : Bool
  pub fire_visible : Bool

pub record Sign : Type 0 where
  pub mounting_state : Option String
  pub road_area_occupied : Option String

pub record Pedestrian : Type 0 where
  pub fallen_or_prone : Bool
  pub posture : Option String

-- `changes_from_previous`: a list, or an object whose keys stand with the length of their values.
pub data Changes : Type 0 where
  listed : List String → Changes
  keyed : List (String × ℕ) → Changes

pub record Observation : Type 0 where
  pub observation_id : String
  pub camera_id : String
  pub contacts : List Bool
  pub changes : Changes
  pub vehicles : List Vehicle
  pub signs : List Sign
  pub pedestrians : List Pedestrian
  pub occupied_by_objects : List (Option String)
  pub intersection_condition : Option String
  pub traffic_flow_state : Option String
  pub road_damage : Bool
  pub pothole : Bool
  pub damaged_surface : Bool
  pub flooding : Bool
  pub danger_signal : Bool
  pub scene_description : Option String
  pub confidence : Value
  pub captured_at : Value
  pub evidence_ref : Value

-- `String(v ?? "").toLowerCase()`.
abbrev lc : Option String → List ℕ
lc o = map lower (codes (get_or o ""))

abbrev pub has : List ℕ → String → Bool
has s word = contains s (codes word)

unfoldable pub same_codes : List ℕ → List ℕ → Bool
same_codes [] [] = true
same_codes [] (d ∷ t) = false
same_codes (c ∷ s) [] = false
same_codes (c ∷ s) (d ∷ t) = eqb c d && same_codes s t

abbrev pub is_word : Option String → String → Bool
is_word o word = same_codes (lc o) (codes word)

-- A text that is there and not empty, and is none of these words.
abbrev says_else : Option String → List String → Bool
says_else o words = not (get_or o "" == "") && not (any (is_word o) words)

abbrev change_keys : Changes → List (List ℕ)
change_keys (listed l) = map (λ s. lc (some s)) l
change_keys (keyed l) = map (λ e. lc (some e.0)) l

abbrev new_contact : Changes → Bool
new_contact (listed l) = false
new_contact (keyed l) = any (λ e. (e.0 == "new_vehicle_contact") && ltb 0 e.1) l

abbrev is_stopped : Vehicle → Bool
is_stopped v = is_word v.motion_state "stopped" && has (lc v.location) "intersection"

abbrev obstructed : Observation → Bool
obstructed o =
    any (λ c. has c "obstructed") (change_keys o.changes)
    || (has (lc o.intersection_condition) "obstructed"
        || has (lc o.traffic_flow_state) "obstructed")

abbrev one_if : Bool → String → List String
one_if b s = if b then s ∷ [] else []

unfoldable vehicle_signals : List Vehicle → List String
vehicle_signals [] = []
vehicle_signals (v ∷ vs) =
    one_if (says_else v.visible_damage ("none" ∷ "unknown" ∷ [])) "vehicle:visible_damage"
    ++ (one_if (v.smoke_visible || v.fire_visible) "vehicle:smoke_or_fire" ++ vehicle_signals vs)

unfoldable sign_signals : List Sign → List String
sign_signals [] = []
sign_signals (s ∷ ss) =
    one_if (any (is_word s.mounting_state) ("fallen" ∷ "detached" ∷ "tilted" ∷ [])) "sign:down"
    ++ (one_if (says_else s.road_area_occupied ("none" ∷ [])) "sign:occupying_road"
        ++ sign_signals ss)

unfoldable pedestrian_signals : List Pedestrian → List String
pedestrian_signals [] = []
pedestrian_signals (p ∷ ps) =
    one_if (p.fallen_or_prone || is_word p.posture "lying_down") "pedestrian:down"
    ++ pedestrian_signals ps

-- The words of a hazard in a description. They are tried in this order.
abbrev pub danger_lexicon : List Part
danger_lexicon =
    edge
    ∷ texts (
        map codes (
          "fire" ∷ "smoke" ∷ "smoking" ∷ "collision" ∷ "collid" ∷ "crash" ∷ "overturn" ∷ "injur"
          ∷ "explosion" ∷ "ambulance" ∷ "firefighter" ∷ "fire truck" ∷ "wreck" ∷ []))
    ∷ edge
    ∷ []

unfoldable pub fired : Observation → List String
unfolding contains lower same_codes vehicle_signals sign_signals pedestrian_signals
fired o =
    map (λ b. "interaction:contact_visible") (keep (λ b. b) o.contacts)
    ++ (one_if (any (λ c. has c "contact" || has c "collision") (change_keys o.changes))
          "changes:new_vehicle_contact"
        ++ (one_if (new_contact o.changes) "changes:new_vehicle_contact"
            ++ (one_if (any is_stopped o.vehicles && obstructed o)
                  "vehicles:stopped_in_obstructed_intersection"
                ++ (vehicle_signals o.vehicles
                    ++ (sign_signals o.signs
                        ++ (pedestrian_signals o.pedestrians
                            ++ (map (λ b. "object:occupying_road")
                                  (keep (λ p. says_else p ("none" ∷ [])) o.occupied_by_objects)
                                ++ (one_if
                                      (o.road_damage
                                        || (o.pothole || (o.damaged_surface || o.flooding)))
                                      "road:damage_or_flooding"
                                    ++ (one_if o.danger_signal "followup:danger_true"
                                        ++ one_if (found danger_lexicon (lc o.scene_description))
                                            "description:danger_lexicon")))))))))

-- `[...new Set(signals)]`.
unfoldable distinct_from : List String → List String → List String
distinct_from seen [] = []
distinct_from seen (s ∷ ss) =
    let rest = distinct_from (seen ++ s ∷ []) ss in
    let skipped = distinct_from seen ss in if includes seen s then skipped else s ∷ rest

unfoldable pub candidate_signals : Observation → List String
unfolding fired distinct_from
candidate_signals o = distinct_from [] (fired o)
