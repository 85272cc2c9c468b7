-- ===== src/Global/Lifecycle/Overlap.antt =====
-- A wake-up that overlaps a hibernation of the same cluster.
use optipilot_ai.Prelude.{String, Option, ◌≡◌, none, some, lookup, arith, str_eq_refl, refl}
use optipilot_ai.Global.Lifecycle.{
  LifecycleState, active, draining, hibernating, waking, LifecycleManager, Dependencies,
  cluster_state, proceed, begin_hibernate, wake_up_calls, end_hibernate, execute_wake_up,
}
use optipilot_ai.Global.Lifecycle.Guards.{after_wake_up, wake_up-Shows, cluster_state-set_state}

-- A hibernation that goes on to its calls has made the cluster draining.
begin_hibernate-draining :
    (m : LifecycleManager) (name : String)
    → (begin_hibernate m name).1 ≡ proceed
    → cluster_state (begin_hibernate m name).0 name ≡ draining
unfolding begin_hibernate cluster_state
begin_hibernate-draining m name h = by_state (lookup name m.states) refl
  where
    by_state :
        (o : Option LifecycleState)
        → lookup name m.states ≡ o
        → cluster_state (begin_hibernate m name).0 name ≡ draining
    by_state none q = ground (arith, str_eq_refl name, cluster_state-set_state m name name draining)
    by_state (some active) q =
        ground (arith, str_eq_refl name, cluster_state-set_state m name name draining)
    by_state (some waking) q =
        ground (arith, str_eq_refl name, cluster_state-set_state m name name draining)
    by_state (some draining) q = ground arith
    by_state (some hibernating) q = ground arith

-- While a hibernation of a cluster is at its calls, a wake-up directive for the cluster runs and, if
-- scaling up succeeds, reports success with the cluster active; when the hibernation's calls then
-- succeed too, the cluster ends as hibernating, and the wake-up is lost.
pub wake_up_lost :
    (d : Dependencies) (m : LifecycleManager) (name : String)
    → (begin_hibernate m name).1 ≡ proceed
    → wake_up_calls d name ≡ none
    → let r = execute_wake_up d (begin_hibernate m name).0 name in
      (r.1 ≡ none)
      × (cluster_state r.0 name ≡ active)
      × (cluster_state (end_hibernate r.0 name none) name ≡ hibernating)
unfolding end_hibernate
wake_up_lost d m name h k =
    let m' = (begin_hibernate m name).0 in
    let shown = wake_up-Shows d m' name (lookup name m'.states) refl in
    let drains = begin_hibernate-draining m name h in
    let self = str_eq_refl name in
    let last = cluster_state-set_state (execute_wake_up d m' name).0 name name hibernating in
    (
      rw (shown.0, drains, after_wake_up, k) refl,
      rw (shown.1 name, drains, self, after_wake_up, k) refl,
      rw (last, self) refl,
    )
