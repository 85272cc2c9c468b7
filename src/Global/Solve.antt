-- ===== src/Global/Solve.antt =====
-- Solve and SnapshotFromProfile of internal/global/solver.go, with what they read of the custom resources.
-- The summary's text is its four counts.
pub mod Safe
use optipilot_ai.Prelude.{
  Float64, String, List, Option, Map, Bool, ℕ, ℤ, [], pos, some, ◌++◌, ◌∷◌, false, if◌then◌else◌,
  length, none, suc,
}
use optipilot_ai.Global.Messages.{Directive, DirectiveType, traffic_shift, hibernate, wake_up}
use optipilot_ai.Global.Lifecycle.{ClusterLifecycleSpec}
use optipilot_ai.Global.Snapshot.{ClusterSnapshot, ClusterHealthStatus}
use optipilot_ai.Global.Weights.{TrafficStrategy, solve_traffic_weights}
use optipilot_ai.Global.Hibernation.{solve_lifecycle}

-- TrafficShiftingSpec
pub record TrafficShiftingSpec (F : Type 0) : Type 0 where
  pub strategy : TrafficStrategy
  pub max_shift_per_cycle_percent : ℤ
  pub min_destination_slo_percent : F
  pub rollback_window_seconds : ℤ

-- What Solve reads of GlobalPolicySpec.
pub record GlobalPolicySpec (F : Type 0) : Type 0 where
  pub traffic_shifting : Option (TrafficShiftingSpec F)
  pub cluster_lifecycle : Option ClusterLifecycleSpec

-- SolverInput
pub record SolverInput (F : Type 0) : Type 0 where
  pub clusters : List (ClusterSnapshot F)
  pub policy : Option (GlobalPolicySpec F)

pub data Summary : Type 0 where
  no_clusters no_policy : Summary
  counted : ℕ → ℕ → ℕ → ℕ → Summary

-- SolverResult
pub record SolverResult : Type 0 where
  pub directives : List Directive
  pub summary : Summary
  pub timestamp : ℕ

-- uuid.New, sort.Slice, the clock and the texts of the reasons.
pub record SolveEnv (F : Type 0) : Type 0 where
  pub sort :
      (ClusterSnapshot F → ClusterSnapshot F → Bool)
      → List (ClusterSnapshot F)
      → List (ClusterSnapshot F)
  pub traffic_id : String
  pub ids : ℕ → String
  pub traffic_reason : ℕ → String
  pub idle_reason : ClusterSnapshot F → ℕ → String
  pub now : ℕ

-- The counts of the summary, from those so far.
unfoldable pub count_directives : ℕ → ℕ → ℕ → List Directive → ℕ × ℕ × ℕ
count_directives t h w [] = (t, h, w)
count_directives t h w (d ∷ ds) = elim d.type [
  | traffic_shift ↦ count_directives (suc t) h w ds
  | hibernate ↦ count_directives t (suc h) w ds
  | wake_up ↦ count_directives t h (suc w) ds
  | _ ↦ count_directives t h w ds
]

module _ {F : Type 0} ⦃fl : Float64 F⦄ (env : SolveEnv F) where
  -- Phase 1.
  unfoldable pub traffic_phase :
      Option (TrafficShiftingSpec F) → List (ClusterSnapshot F) → List Directive
  unfolding solve_traffic_weights
  traffic_phase none clusters = []
  traffic_phase (some ts) clusters =
      solve_traffic_weights env.traffic_id env.traffic_reason ts.strategy
        ts.min_destination_slo_percent ts.max_shift_per_cycle_percent clusters

  -- Phase 2; solveLifecycle tests again that hibernation is enabled.
  unfoldable pub lifecycle_phase :
      Option ClusterLifecycleSpec → List (ClusterSnapshot F) → List Directive
  unfolding solve_lifecycle
  lifecycle_phase none clusters = []
  lifecycle_phase (some lc) clusters =
      if lc.hibernation_enabled
      then solve_lifecycle lc env.sort env.ids env.idle_reason clusters
      else []

  -- Solve on clusters and a policy.
  unfoldable pub solve_policy : List (ClusterSnapshot F) → GlobalPolicySpec F → SolverResult
  unfolding traffic_phase lifecycle_phase count_directives
  solve_policy clusters policy =
      let directives =
        traffic_phase policy.traffic_shifting clusters
        ++ lifecycle_phase policy.cluster_lifecycle clusters in
      let (t, h, w) = count_directives 0 0 0 directives in
      record {
        directives = directives;
        summary = counted (length directives) t h w;
        timestamp = env.now;
      }

  -- Solve on the parts of its input.
  unfoldable pub solve_on : List (ClusterSnapshot F) → Option (GlobalPolicySpec F) → SolverResult
  unfolding solve_policy
  solve_on [] policy = record { directives = []; summary = no_clusters; timestamp = env.now }
  solve_on (c ∷ cs) none = record { directives = []; summary = no_policy; timestamp = env.now }
  solve_on (c ∷ cs) (some policy) = solve_policy (c ∷ cs) policy

  -- Solve
  unfoldable pub solve_global : Option (SolverInput F) → SolverResult
  unfolding solve_on
  solve_global none = record { directives = []; summary = no_clusters; timestamp = env.now }
  solve_global (some input) = solve_on input.clusters input.policy

-- ClusterCapacityStatus
pub record ClusterCapacityStatus (F : Type 0) : Type 0 where
  pub total_cores : F
  pub used_cores : F
  pub total_memory_gib : F
  pub used_memory_gib : F
  pub node_count : ℤ

-- What SnapshotFromProfile reads of a ClusterProfile, its spec and its status.
pub record ClusterProfile (F : Type 0) : Type 0 where
  pub name : String
  pub provider : String
  pub region : String
  pub carbon_intensity_gco2_per_kwh : F
  pub labels : Map String
  pub health : ClusterHealthStatus
  pub capacity : Option (ClusterCapacityStatus F)
  pub slo_compliance_percent : F
  pub hourly_cost_usd : F

module _ {F : Type 0} ⦃fl : Float64 F⦄ where
  unfoldable pub with_capacity :
      Option (ClusterCapacityStatus F) → ClusterSnapshot F → ClusterSnapshot F
  with_capacity none snap = snap
  with_capacity (some cap) snap = record snap {
    total_cores = cap.total_cores;
    used_cores = cap.used_cores;
    total_memory_gib = cap.total_memory_gib;
    used_memory_gib = cap.used_memory_gib;
    node_count = cap.node_count;
  }

  -- SnapshotFromProfile
  unfoldable pub snapshot_from_profile : ClusterProfile F → ClusterSnapshot F
  unfolding with_capacity
  snapshot_from_profile cp = with_capacity cp.capacity (record {
    name = cp.name;
    provider = cp.provider;
    region = cp.region;
    health = cp.health;
    total_cores = fl.of_int (pos 0);
    used_cores = fl.of_int (pos 0);
    total_memory_gib = fl.of_int (pos 0);
    used_memory_gib = fl.of_int (pos 0);
    node_count = pos 0;
    slo_compliance_percent = cp.slo_compliance_percent;
    hourly_cost_usd = cp.hourly_cost_usd;
    carbon_intensity_gco2 = cp.carbon_intensity_gco2_per_kwh;
    labels = cp.labels;
    excluded = false;
  })
