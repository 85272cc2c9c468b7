-- ===== src/Tuning/Types.antt =====
-- api/tuning/v1alpha1/applicationtuning_types.go: what the optimizer reads of an ApplicationTuning, and
-- what it takes from strconv and math. Times are nanoseconds.
use optipilot_ai.Prelude.{Bool, String, List, Option, Map, ℕ, ℤ}

-- strconv and math: ParseFloat (`none` for an error), FormatFloat, FormatInt, not NaN and not infinite,
-- Abs, the sign change, Inf(-1).
pub record Numerals (F : Type 0) : Type 0 where
  pub parse_float : String → Option F
  pub format_float : F → String
  pub format_int : ℤ → String
  pub is_finite : F → Bool
  pub abs : F → F
  pub neg : F → F
  pub neg_inf : F

-- ParameterType; the source compares with these texts only.
pub data ParameterType : Type 0 where
  integer_type float_type string_type : ParameterType
  other_type : String → ParameterType

-- ParameterSource
pub data ParameterSource : Type 0 where
  source_config_map source_env : ParameterSource
  other_source : String → ParameterSource

-- ConfigMapRef
pub record ConfigMapRef : Type 0 where
  pub name : String
  pub namespace : String
  pub key : String

-- TunableParameter
pub record TunableParameter : Type 0 where
  pub name : String
  pub type : ParameterType
  pub source : ParameterSource
  pub config_map_ref : Option ConfigMapRef
  pub env_var_name : String
  pub min : String
  pub max : String
  pub step : String
  pub allowed_values : List String
  pub default : String

-- OptimizationTarget
pub record OptimizationTarget : Type 0 where
  pub metric_name : String
  pub promql_expr : String
  pub objective : String

-- TuningSafetyPolicy
pub record TuningSafetyPolicy (F : Type 0) : Type 0 where
  pub max_change_percent : ℤ
  pub cooldown_minutes : ℤ
  pub rollback_on_slo_violation : Bool
  pub slo_threshold_percent : F

-- TuningTargetRef
pub record TuningTargetRef : Type 0 where
  pub api_version : String
  pub kind : String
  pub name : String
  pub namespace : String

-- ParameterObservation
pub record ParameterObservation (F : Type 0) : Type 0 where
  pub parameter_name : String
  pub value : String
  pub slo_value : F
  pub observed_at : ℕ

-- ApplicationTuningSpec
pub record ApplicationTuningSpec (F : Type 0) : Type 0 where
  pub target_ref : TuningTargetRef
  pub parameters : List TunableParameter
  pub optimization_target : OptimizationTarget
  pub safety_policy : Option (TuningSafetyPolicy F)
  pub optimization_interval_minutes : ℤ
  pub max_observations : ℤ
  pub paused : Bool

-- TuningPhase
pub data TuningPhase : Type 0 where
  idle exploring observing converged rolled_back paused_phase error_phase : TuningPhase

-- ApplicationTuningStatus, without its conditions and generation.
pub record ApplicationTuningStatus (F : Type 0) : Type 0 where
  pub phase : TuningPhase
  pub current_values : Map String
  pub best_values : Map String
  pub best_slo_value : F
  pub active_parameter : String
  pub observations : List (ParameterObservation F)
  pub last_optimization_time : Option ℕ
  pub next_optimization_time : Option ℕ
  pub cooldown_until : Option ℤ
  pub message : String

-- ApplicationTuning
pub record ApplicationTuning (F : Type 0) : Type 0 where
  pub namespace : String
  pub spec : ApplicationTuningSpec F
  pub status : ApplicationTuningStatus F
