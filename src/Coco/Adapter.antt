-- ===== src/Coco/Adapter.antt =====
-- src/coco/adapter.js: the messages of the vision service, and the observations that are kept for each camera. The schemas
-- have read the frame.
pub mod Recent
use nvidia_omoda.Prelude.{
  ℕ, suc, ◌+◌, String, Bool, true, false, Option, none, some, List, [], ◌∷◌, ◌++◌, ◌==◌,
  if◌then◌else◌, get_or, leb, length, drop,
}
use Prim.Native.String
use nvidia_omoda.Prelude.Dict.{get, put}
use nvidia_omoda.Prelude.Rx.{clip}
use nvidia_omoda.Json.{Value, str, object}
use nvidia_omoda.Ledger.{Ledger, append}
use nvidia_omoda.Coco.Signals.{Observation}
use nvidia_omoda.Coco.World.{World, Env, Verdict}
use nvidia_omoda.Coco.Judge.{on_observation}

-- A frame by its type: what its schema makes of it, or the message of the first issue.
pub data Frame : Type 0 where
  no_json : Frame
  status : Option (String × String × Option String) → Frame
  failure : Option (String × String) → Frame
  seen : Observation → Frame
  misfit : String → Frame
  unknown : String → Frame

pub data Handled : Type 0 where
  rejected : String → Handled
  status_of failure_of : String → String → Handled
  judged : String → String → Verdict → Handled

pub record Adapter : Type 0 where
  pub contexts : List (String × List Observation)
  pub world : World

-- `contextFor`.
unfoldable pub context_for : String → Adapter → List Observation
unfolding get
context_for camera a = get_or (get camera a.contexts) []

-- The window, with one observation more.
abbrev pub pushed : ℕ → List Observation → Observation → List Observation
pushed size l o = if leb (length (l ++ o ∷ [])) size then l ++ o ∷ [] else drop 1 (l ++ o ∷ [])

-- `record`: whether the ledger takes it or not.
unfoldable pub note : Env → String → String → String → List (String × Value) → Adapter → Adapter
unfolding append
note env tool outcome reason camera a = record a {
  world = record a.world {
    ledger =
        (append env.sha256 a.world.ledger
          (object (
            ("kind", str "coco")
            ∷ ("verb", str "read")
            ∷ ("tool", str tool)
            ∷ ("outcome", str outcome)
            ∷ ("reason", str reason)
            ∷ camera))
          env.time env.disk).1;
  };
}

-- An observation joins the window of its camera and goes to the judge.
unfoldable pub observe : ℕ → ℕ → Env → Observation → Adapter → Handled × Adapter
unfolding context_for put on_observation
observe size clear_after env o a =
    let (verdict, world) = on_observation clear_after env o a.world in
    (
      judged o.observation_id o.camera_id verdict,
      record {
        contexts = put o.camera_id (pushed size (context_for o.camera_id a) o) a.contexts;
        world = world;
      },
    )

-- `handleMessage`.
unfoldable pub handle_message : ℕ → ℕ → Env → Frame → Adapter → Handled × Adapter
unfolding note observe clip
handle_message size clear_after env no_json a = (rejected "frame is not JSON", a)
handle_message size clear_after env (status none) a = (rejected "malformed stream_status", a)
handle_message size clear_after env (status (some (state, camera, detail))) a = (
  status_of state camera,
  note env "coco.stream_status" state (get_or detail "") (("camera", str camera) ∷ []) a,
)
handle_message size clear_after env (failure none) a = (rejected "malformed observation_error", a)
handle_message size clear_after env (failure (some (code, camera))) a = (
  failure_of code camera,
  note env "coco.observation_error" "recorded" code (("camera", str camera) ∷ []) a,
)
handle_message size clear_after env (seen o) a = observe size clear_after env o a
handle_message size clear_after env (misfit message) a = (
  rejected (String.◌++◌ "schema: " message),
  note env "coco.observation" "rejected" (clip 120 message) [] a,
)
handle_message size clear_after env (unknown t) a =
    (rejected (String.◌++◌ "unknown message type \"" (String.◌++◌ (clip 40 t) "\"")), a)
