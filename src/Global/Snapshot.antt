-- ===== src/Global/Snapshot.antt =====
-- ClusterSnapshot of internal/global/solver.go, and the reads of LifecycleManager over clusters
-- (internal/global/lifecycle.go): HibernatingClusters, ActiveClusters, CheckPredictiveWakeUp.
use optipilot_ai.Prelude.{
  String, List, Option, Bool, ℤ, Map, Float64, lookup, none, some, filterb, map, true, false, pos,
  [], ◌∷◌, if◌then◌else◌, ℕ,
}
use optipilot_ai.Global.Messages.{Directive, wake_up}
use optipilot_ai.Global.Lifecycle.{LifecycleManager, LifecycleState, hibernating, active}

-- ClusterHealthStatus (api/global/v1alpha1/clusterprofile_types.go); Health may be any text.
pub data ClusterHealthStatus : Type 0 where
  cluster_healthy cluster_degraded cluster_unreachable : ClusterHealthStatus
  cluster_hibernating cluster_unknown : ClusterHealthStatus
  cluster_other : String → ClusterHealthStatus

-- ClusterSnapshot
pub record ClusterSnapshot (F : Type 0) : Type 0 where
  pub name : String
  pub provider : String
  pub region : String
  pub health : ClusterHealthStatus
  pub total_cores : F
  pub used_cores : F
  pub total_memory_gib : F
  pub used_memory_gib : F
  pub node_count : ℤ
  pub slo_compliance_percent : F
  pub hourly_cost_usd : F
  pub carbon_intensity_gco2 : F
  pub labels : Map String
  pub excluded : Bool

module _ {F : Type 0} ⦃fl : Float64 F⦄ where
  -- UtilizationPercent
  unfoldable pub utilization_percent : ClusterSnapshot F → F
  utilization_percent c =
      if fl.eq c.total_cores (fl.of_int (pos 0))
      then fl.of_int (pos 0)
      else fl.mul (fl.div c.used_cores c.total_cores) (fl.of_int (pos 100))

  -- FreeCores
  unfoldable pub free_cores : ClusterSnapshot F → F
  free_cores c = fl.sub c.total_cores c.used_cores

-- `state == StateHibernating`, `state == StateActive`
unfoldable pub is_hibernating : Option LifecycleState → Bool
is_hibernating (some hibernating) = true
is_hibernating s = false

unfoldable pub is_active : Option LifecycleState → Bool
is_active (some active) = true
is_active s = false

-- HibernatingClusters
unfoldable pub hibernating_clusters : LifecycleManager → List String
unfolding is_hibernating
hibernating_clusters m = map (λ e. e.0) (filterb (λ e. is_hibernating (some e.1)) m.states)

-- ActiveClusters
unfoldable pub active_clusters : LifecycleManager → List String
unfolding is_active
active_clusters m = map (λ e. e.0) (filterb (λ e. is_active (some e.1)) m.states)

-- The second loop of CheckPredictiveWakeUp, with the forecaster's answer for each region (`none` for
-- an error) and the text of the reason for it.
unfoldable pub predictive_directives :
    {F : Type 0}
    → (String → Option Bool)
    → (String → String)
    → List (ClusterSnapshot F)
    → List Directive
predictive_directives forecast reason_of [] = []
predictive_directives forecast reason_of (c ∷ cs) =
    let rest = predictive_directives forecast reason_of cs in
    elim (forecast c.region) [
      | some true ↦
          record {
            id = "";
            type = wake_up;
            cluster_name = c.name;
            traffic_weights = [];
            migration_hints = [];
            lifecycle_action = "wake_up";
            reason = reason_of c.region;
          }
          ∷ rest
      | _ ↦ rest
    ]

-- CheckPredictiveWakeUp, with the forecaster and the text of a reason for a region and a lead time; a nil
-- forecaster is `none`.
unfoldable pub check_predictive_wake_up :
    {F : Type 0}
    → Option (String → ℕ → Option Bool)
    → (String → ℕ → String)
    → LifecycleManager
    → List (ClusterSnapshot F)
    → List Directive
unfolding lookup is_hibernating predictive_directives
check_predictive_wake_up none reason_of m clusters = []
check_predictive_wake_up (some forecast) reason_of m clusters =
    predictive_directives (λ region. forecast region m.wakeup_lead)
      (λ region. reason_of region m.wakeup_lead)
      (filterb (λ c. is_hibernating (lookup c.name m.states)) clusters)
