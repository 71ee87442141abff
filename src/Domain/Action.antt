-- ===== src/Domain/Action.antt =====
-- The action that src/broker/authorize.js governs, with every field that the source reads.
use nvidia_omoda.Prelude.{String, Bool, Option, List}
use nvidia_omoda.Json.{Value, Fields}
use nvidia_omoda.Domain.Taxonomy.{Verb, Impact}

-- `action.request`.
pub record Request : Type 0 where
  pub host : String
  pub method : String
  pub path : String

-- A field that may be left out is an `Option`, or a value that may be undefined. The inverse is an
-- object of the caller's, which the source only tests for and passes on: a text names it.
pub record Action : Type 0 where
  pub tool : Option String
  pub verb : Verb
  pub impact : Option (List Impact)
  pub declared : Bool
  pub action_id : Option String
  pub intent_id : Option String
  pub resource : Option String
  pub agent : Option String
  pub port : Value
  pub path : Value
  pub args : Option Fields
  pub policy_delta : Value
  pub inverse : Option String
  pub request : Option Request
