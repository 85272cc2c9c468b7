-- ===== src/Engine/Types.antt =====
-- The data of one optimisation cycle: internal/cel/types.go, internal/engine/types.go and the parts of
-- api/policy/v1alpha1/optimizationpolicy_types.go that the solver reads. `F` stands for float64, `int64`
-- and `int32` are integers, a map is an association list, a nil pointer is `none`.
use optipilot_ai.Prelude.{ℕ, ℤ, Bool, Option, List, String, Map}

-- cel.CandidatePlan
pub record CandidatePlan (F : Type 0) : Type 0 where
  pub replicas : ℤ
  pub cpu_request : F
  pub memory_request : F
  pub spot_ratio : F
  pub spot_count : ℤ
  pub on_demand_count : ℤ
  pub instance_types : List String
  pub estimated_cost : F
  pub estimated_carbon : F

-- cel.CurrentState
pub record CurrentState (F : Type 0) : Type 0 where
  pub replicas : ℤ
  pub cpu_request : F
  pub memory_request : F
  pub cpu_usage : F
  pub memory_usage : F
  pub spot_ratio : F
  pub hourly_cost : F

-- cel.SLOStatus
pub record SloStatus (F : Type 0) : Type 0 where
  pub compliant : Bool
  pub burn_rate : F
  pub budget_remaining : F
  pub latency_p99 : F
  pub error_rate : F
  pub availability : F
  pub throughput : F

-- cel.TenantStatus
pub record TenantStatus (F : Type 0) : Type 0 where
  pub name : String
  pub tier : String
  pub weight : ℤ
  pub current_cores : F
  pub guaranteed_cores : F
  pub max_cores : F
  pub budget_used_percent : F
  pub fairness_score : F

-- cel.ForecastResult
pub record ForecastResult (F : Type 0) : Type 0 where
  pub predicted_rps : F
  pub predicted_latency : F
  pub change_percent : F
  pub confidence : F
  pub spot_risk_score : F

-- cel.ClusterState
pub record ClusterState (F : Type 0) : Type 0 where
  pub total_cores : F
  pub used_cores : F
  pub total_memory_gib : F
  pub used_memory_gib : F
  pub node_count : ℤ
  pub spot_node_count : ℤ
  pub region : String
  pub provider : String

-- policyv1alpha1.PolicyObjective
pub record PolicyObjective (F : Type 0) : Type 0 where
  pub name : String
  pub weight : F
  pub direction : String

-- policyv1alpha1.PolicyConstraint
pub record PolicyConstraint : Type 0 where
  pub expr : String
  pub reason : String
  pub hard : Bool

-- What engine and cel read of policyv1alpha1.OptimizationPolicy.
pub record OptimizationPolicy (F : Type 0) : Type 0 where
  pub name : String
  pub uid : String
  pub generation : ℤ
  pub objectives : List (PolicyObjective F)
  pub constraints : List PolicyConstraint
  pub dry_run : Bool
  pub priority : ℤ

-- engine.MatchedPolicy
pub record MatchedPolicy (F : Type 0) : Type 0 where
  pub policy : OptimizationPolicy F
  pub key : String

-- engine.SolverInput
pub record SolverInput (F : Type 0) : Type 0 where
  pub namespace : String
  pub service : String
  pub current : CurrentState F
  pub slo : SloStatus F
  pub policies : List (MatchedPolicy F)
  pub tenant : Option (TenantStatus F)
  pub forecast : Option (ForecastResult F)
  pub metrics : Map F
  pub cluster : ClusterState F
  pub instance_types : List String
  pub region : String
  pub right_sized_cpu : Option F
  pub right_sized_memory : Option F
  pub trigger : String

-- engine.ActionType
pub data ActionType : Type 0 where
  scale_up scale_down tune no_action : ActionType

-- engine.ScalingAction, whose Reason text has a constructor for each message.
pub data Reason (F : Type 0) : Type 0 where
  text : String → Reason F
  scale_up_reason scale_down_reason : ℤ → ℤ → F → Reason F
  tune_reason tune_spot_reason : CandidatePlan F → CurrentState F → F → Reason F

pub record ScalingAction (F : Type 0) : Type 0 where
  pub type : ActionType
  pub target_replica : ℤ
  pub cpu_request : F
  pub memory_request : F
  pub spot_ratio : F
  pub dry_run : Bool
  pub reason : Reason F
  pub confidence : F
  pub tuning_params : Map String

-- engine.CandidateScore
pub record CandidateScore (F : Type 0) : Type 0 where
  pub slo : F
  pub cost : F
  pub carbon : F
  pub fairness : F
  pub weighted : F

-- engine.ConstraintResult
pub record ConstraintResult : Type 0 where
  pub expr : String
  pub reason : String
  pub hard : Bool
  pub passed : Bool
  pub policy_name : String

-- engine.ScoredCandidate
pub record ScoredCandidate (F : Type 0) : Type 0 where
  pub plan : CandidatePlan F
  pub score : CandidateScore F
  pub constraints : List ConstraintResult
  pub viable : Bool

-- engine.DecisionRecord
pub record DecisionRecord (F : Type 0) : Type 0 where
  pub id : String
  pub timestamp : ℕ
  pub namespace : String
  pub service : String
  pub trigger : String
  pub current_state : CurrentState F
  pub slo_status : SloStatus F
  pub tenant_status : Option (TenantStatus F)
  pub forecast_state : Option (ForecastResult F)
  pub cluster_state : Option (ClusterState F)
  pub metrics : Map F
  pub candidates : List (ScoredCandidate F)
  pub pareto_front : List (ScoredCandidate F)
  pub selected_action : ScalingAction F
  pub policy_names : List String
  pub objective_weights : Map F
  pub action_type : ActionType
  pub dry_run : Bool
  pub confidence : F
