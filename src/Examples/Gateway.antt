-- ===== src/Examples/Gateway.antt =====
-- The client of src/gateway/openclaw.js at concrete requests.
use nvidia_omoda.Prelude.{String, true, none, some, List, [], ◌∷◌, ◌≡◌}
use nvidia_omoda.Prelude.Dict.{get}
use nvidia_omoda.Gateway.{Device, Settled, request, closed, new_client, step}
use nvidia_omoda.Gateway.Requests.{run, closed_settles}

closed_settles_example :
    (r : Settled) × (get "r1"
        (step (closed "gone") (run (request "r2" ∷ []) (step (request "r1") new_client))).settled
      ≡ some r)
closed_settles_example = closed_settles "r1" "gone" (request "r2" ∷ []) new_client

abbrev device : Device
device = record {
  device_id = "d1";
  client_id = "gateway-client";
  client_mode = "backend";
  role = "operator";
  scopes = "operator.admin" ∷ [];
  signed_at = 7;
  token = none;
  nonce = "n1";
  platform = "linux";
  family = "";
}

-- The same device with an empty token in place of none.
abbrev tokened : Device
tokened = record device { token = some "" }
