-- ===== src/Global/Tests.antt =====
-- Runs of the hub's parts, and their theorems there.
use optipilot_ai.Prelude.{
  String, List, ℕ, ℤ, Bool, ◌≡◌, none, some, [], ◌∷◌, pos, true, false, All, Memᴰ, refl, ◌≢◌,
  if◌then◌else◌, lookup, map, str_eq,
}
use optipilot_ai.Prelude.Thousandths.{Thousandths, thousandths, Thousandths-IsOrdered}
use optipilot_ai.Global.Messages.{Directive, hibernate, wake_up}
use optipilot_ai.Global.Lifecycle.{
  LifecycleManager, active, hibernating, Dependencies, sole, ClusterLifecycleSpec,
  new_lifecycle_manager, cluster_state, begin_hibernate, end_hibernate, execute_wake_up,
  execute_directive, update_idle_status, hibernate_calls, wake_up_calls, idle_threshold,
  idle_window_of,
}
use optipilot_ai.Global.Lifecycle.Guards.{execute_directive_refines}
use optipilot_ai.Global.Lifecycle.Reach.{
  initial, hibernate_begins, hibernation, target, management_cluster_spared,
}
use optipilot_ai.Global.Lifecycle.Idle.{Heartbeat, run_heartbeats, update_idle_status_lem}
use optipilot_ai.Global.Lifecycle.Overlap.{wake_up_lost}
use optipilot_ai.Global.Predictive.{check_predictive_wake_up_lem}
use optipilot_ai.Global.Snapshot.{check_predictive_wake_up, ClusterSnapshot, cluster_healthy}
use optipilot_ai.Global.Hibernation.{
  solve_lifecycle, count_active, min_active, all_heavy, is_skipped, is_idle,
}
use optipilot_ai.Global.Hibernation.Bounds.{order, solve_lifecycle_lem}
use optipilot_ai.Global.Solve.{SolveEnv, SolverInput, solve_global}
use optipilot_ai.Global.Solve.Safe.{solve_global_safe, MayHibernate}
use optipilot_ai.Global.Hibernation.Apart.{hibernates_or_wakes}

abbrev directive_for : String → Directive
directive_for name = record {
  id = "d";
  type = hibernate;
  cluster_name = name;
  traffic_weights = [];
  migration_hints = [];
  lifecycle_action = "hibernate";
  reason = "";
}

-- No tenant stands in the way, and every call succeeds.
abbrev willing : Dependencies
willing = record {
  tenants = some (λ name. sole false);
  drain = none;
  scale_to_zero = λ name. none;
  scale_up = λ name. none;
}

abbrev hub : LifecycleManager
hub = new_lifecycle_manager "hub"

execute_directive_refines_example :
    ((execute_directive willing hub (directive_for "east")).1 ≡ none)
    × ((name : String)
        → cluster_state (execute_directive willing hub (directive_for "east")).0 name
          ≡ (if str_eq "east" name then hibernating else cluster_state hub name))
unfolding hibernate_calls new_lifecycle_manager cluster_state
execute_directive_refines_example = execute_directive_refines willing hub (directive_for "east")

management_cluster_spared_example :
    (cluster_state (begin_hibernate hub "east").0 "hub" ≡ active)
    × All (λ op. target op ≢ "hub") (hibernation "east" ∷ [])
unfolding begin_hibernate new_lifecycle_manager lookup
management_cluster_spared_example =
    management_cluster_spared "hub" (begin_hibernate hub "east").0 (hibernation "east" ∷ [])
      (hibernate_begins "east" initial)

wake_up_lost_example :
    let r = execute_wake_up willing (begin_hibernate hub "east").0 "east" in
    (r.1 ≡ none)
    × (cluster_state r.0 "east" ≡ active)
    × (cluster_state (end_hibernate r.0 "east" none) "east" ≡ hibernating)
unfolding begin_hibernate new_lifecycle_manager wake_up_calls lookup
wake_up_lost_example = wake_up_lost willing hub "east" refl refl

abbrev lifecycle : ClusterLifecycleSpec
lifecycle = record {
  hibernation_enabled = true;
  min_active_clusters = pos 1;
  idle_threshold_percent = pos 20;
  idle_window_minutes = pos 10;
  wakeup_lead_minutes = pos 15;
  excluded_clusters = "hub" ∷ [];
}

abbrev beat : String → ℕ → ℤ → Heartbeat Thousandths
beat name time utilization = record { cluster = name; time = time; utilization = utilization }

-- Below 20 percent from minute 1, and ten minutes later.
abbrev beats : List (Heartbeat Thousandths)
beats =
    beat "east" 0 (pos 50000)
    ∷ beat "east" 60_000_000_000 (pos 5000)
    ∷ beat "west" 90_000_000_000 (pos 50000)
    ∷ []

update_idle_status_lem_example :
    (update_idle_status
      (run_heartbeats lifecycle hub beats)
      660_000_000_000
      "east"
      (pos 5000)
      lifecycle).1
    ≡ true
unfolding new_lifecycle_manager idle_threshold idle_window_of
update_idle_status_lem_example =
    update_idle_status_lem lifecycle "hub" beats (beat "east" 660_000_000_000 (pos 5000))

abbrev cluster : String → ℕ → ClusterSnapshot Thousandths
cluster name used = record {
  name = name;
  provider = "aws";
  region = "eu";
  health = cluster_healthy;
  total_cores = pos 10000;
  used_cores = pos used;
  total_memory_gib = pos 0;
  used_memory_gib = pos 0;
  node_count = pos 3;
  slo_compliance_percent = pos 99000;
  hourly_cost_usd = pos 1000;
  carbon_intensity_gco2 = pos 0;
  labels = [];
  excluded = false;
}

abbrev clusters : List (ClusterSnapshot Thousandths)
clusters = cluster "hub" 100 ∷ cluster "east" 500 ∷ cluster "west" 1000 ∷ []

-- The clusters are in order already.
abbrev no_sort :
    (ClusterSnapshot Thousandths → ClusterSnapshot Thousandths → Bool)
    → List (ClusterSnapshot Thousandths)
    → List (ClusterSnapshot Thousandths)
no_sort less cs = cs

abbrev ids : ℕ → String
ids n = "id"

abbrev reason_of : ClusterSnapshot Thousandths → ℕ → String
reason_of c n = "idle"

solve_lifecycle_lem_example :
    map order (solve_lifecycle lifecycle no_sort ids reason_of clusters)
    ≡ (hibernate, "east") ∷ (hibernate, "west") ∷ []
unfolding count_active min_active is_skipped is_idle all_heavy
solve_lifecycle_lem_example = solve_lifecycle_lem lifecycle ids reason_of no_sort clusters

abbrev ask_of : String → Directive
ask_of name = record (directive_for name) { id = "id"; reason = "idle" }

hibernates_or_wakes_example : (ask_of "east").type ≡ (ask_of "west").type
unfolding solve_lifecycle idle_threshold
hibernates_or_wakes_example =
    hibernates_or_wakes lifecycle no_sort (λ less cs c m. m) ids reason_of Thousandths-IsOrdered
      clusters (ask_of "east") (ask_of "west") refl (Memᴰ.head refl) (Memᴰ.tail (Memᴰ.head refl))

abbrev solve_env : SolveEnv Thousandths
solve_env = record {
  sort = no_sort;
  traffic_id = "t";
  ids = ids;
  traffic_reason = λ n. "";
  idle_reason = reason_of;
  now = 0;
}

abbrev solver_input : SolverInput Thousandths
solver_input = record {
  clusters = clusters;
  policy = some (record { traffic_shifting = none; cluster_lifecycle = some lifecycle });
}

solve_global_safe_example :
    (c : ClusterSnapshot Thousandths) × Memᴰ c clusters
    × ("east" ≡ c.name)
    × MayHibernate solver_input.policy c
unfolding solve_global
solve_global_safe_example =
    solve_global_safe solve_env (λ less cs c m. m) solver_input (ask_of "east") (Memᴰ.head refl)
      refl

-- East hibernates, and its region needs capacity.
abbrev east_asleep : LifecycleManager
east_asleep = record hub { states = ("east", hibernating) ∷ [] }

check_predictive_wake_up_lem_example :
    map order (
      check_predictive_wake_up
        (some (λ region lead. some true))
        (λ region lead. "")
        east_asleep
        clusters)
    ≡ (wake_up, "east") ∷ []
unfolding new_lifecycle_manager cluster_state lookup
check_predictive_wake_up_lem_example =
    check_predictive_wake_up_lem (λ region lead. some true) (λ region lead. "") east_asleep clusters
