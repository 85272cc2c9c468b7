-- ===== src/Actuator/Types.antt =====
-- internal/actuator/interface.go: the data of an actuation. An `error` is `none` or its text.
use optipilot_ai.Prelude.{Bool, String, List, ℕ, ℤ, Option}

-- ServiceRef
pub record ServiceRef : Type 0 where
  pub namespace : String
  pub name : String
  pub api_version : String
  pub kind : String

-- ActuationOptions
pub record ActuationOptions (F : Type 0) : Type 0 where
  pub dry_run : Bool
  pub canary : Bool
  pub max_change : F
  pub cooldown_seconds : ℤ

-- ChangeRecord
pub record ChangeRecord : Type 0 where
  pub resource : String
  pub field : String
  pub old_value : String
  pub new_value : String
  pub timestamp : ℕ

-- ActuationResult
pub record ActuationResult : Type 0 where
  pub applied : Bool
  pub previous_state : String
  pub changes : List ChangeRecord
  pub error : Option String
