-- ===== src/Global/Lifecycle.antt =====
-- internal/global/lifecycle.go: the LifecycleManager. Its four dependencies are parameters. A directive
-- releases the mutex while it calls them, so it has a first and a last step, between which other
-- directives may run.
pub mod Guards
pub mod Reach
pub mod Idle
pub mod Overlap
use optipilot_ai.Prelude.{
  Map, Option, String, erase, insert, lookup, ℕ, Bool, [], if◌then◌else◌, lookup_or, none, some,
  ◌∷◌, str_eq, ◌*◌, Float64, false, ltb_ℤ, true, ℤ, List, leb, pos, pos_part, ◌+◌,
}
use optipilot_ai.Global.Messages.{
  DirectiveType, hibernate, wake_up, Directive, traffic_shift, migration, no_op, unrecognized,
}

-- LifecycleState
pub data LifecycleState : Type 0 where
  active draining hibernating waking : LifecycleState

-- ClusterLifecycleSpec (api/global/v1alpha1/globalpolicy_types.go)
pub record ClusterLifecycleSpec : Type 0 where
  pub hibernation_enabled : Bool
  pub min_active_clusters : ℤ
  pub idle_threshold_percent : ℤ
  pub idle_window_minutes : ℤ
  pub wakeup_lead_minutes : ℤ
  pub excluded_clusters : List String

-- idleRecord; the zero time is 0.
pub record IdleRecord : Type 0 where
  pub idle_since : ℕ
  pub idle : Bool

-- LifecycleManager without its dependencies and its clock.
pub record LifecycleManager : Type 0 where
  pub states : Map LifecycleState
  pub idle_tracker : Map IdleRecord
  pub mgmt_cluster : String
  pub idle_window : ℕ
  pub wakeup_lead : ℕ

-- The dependencies during one directive. A nil TenantLocator or WorkloadDrainer is `none`; an error is a
-- text.
pub data TenantAnswer : Type 0 where
  tenant_error : String → TenantAnswer
  sole : Bool → TenantAnswer

pub record Dependencies : Type 0 where
  pub tenants : Option (String → TenantAnswer)
  pub drain : Option (String → Option String)
  pub scale_to_zero : String → Option String
  pub scale_up : String → Option String

pub data LifecycleError : Type 0 where
  management_cluster : String → LifecycleError
  tenant_check tenant_sole drain_failed : String → String → LifecycleError
  scale_to_zero_failed scale_up_failed : String → String → LifecycleError
  unsupported : DirectiveType → LifecycleError

abbrev pub minute : ℕ
minute = 60_000_000_000

-- NewLifecycleManager with WithManagementCluster.
unfoldable pub new_lifecycle_manager : String → LifecycleManager
new_lifecycle_manager mgmt = record {
  states = [];
  idle_tracker = [];
  mgmt_cluster = mgmt;
  idle_window = 30 * minute;
  wakeup_lead = 15 * minute;
}

-- ClusterState
unfoldable pub cluster_state : LifecycleManager → String → LifecycleState
unfolding lookup
cluster_state m name = lookup_or active name m.states

-- setState
unfoldable pub set_state : LifecycleManager → String → LifecycleState → LifecycleManager
unfolding insert
set_state m name s = record m { states = insert name s m.states }

-- How the first step of a directive ends.
pub data Begun : Type 0 where
  refused : LifecycleError → Begun
  nothing_to_do : Begun
  proceed : Begun

-- executeHibernate up to the release of the mutex.
unfoldable pub begin_hibernate : LifecycleManager → String → LifecycleManager × Begun
unfolding set_state
begin_hibernate m name =
    if str_eq name m.mgmt_cluster
    then (m, refused (management_cluster name))
    else elim (lookup name m.states) [
      | some hibernating ↦ (m, nothing_to_do)
      | some draining ↦ (m, nothing_to_do)
      | _ ↦ (set_state m name draining, proceed)
    ]

-- The calls of executeHibernate: the first that fails gives the error.
unfoldable pub hibernate_calls : Dependencies → String → Option LifecycleError
hibernate_calls d name =
    let scaled : Option LifecycleError = elim (d.scale_to_zero name) [
      | none ↦ none
      | some e ↦ some (scale_to_zero_failed name e)
    ] in
    let drained : Option LifecycleError = elim d.drain [
      | none ↦ scaled
      | some f ↦ elim (f name) [ none ↦ scaled | some e ↦ some (drain_failed name e) ]
    ] in
    elim d.tenants [
      | none ↦ drained
      | some f ↦ elim (f name) [
        | tenant_error e ↦ some (tenant_check name e)
        | sole b ↦ if b then some (tenant_sole name "refusing to hibernate") else drained
      ]
    ]

-- The setState calls that end executeHibernate.
unfoldable pub end_hibernate : LifecycleManager → String → Option LifecycleError → LifecycleManager
unfolding set_state
end_hibernate m name none = set_state m name hibernating
end_hibernate m name (some e) = set_state m name active

-- executeHibernate with nothing in between.
unfoldable pub execute_hibernate :
    Dependencies → LifecycleManager → String → LifecycleManager × Option LifecycleError
unfolding begin_hibernate hibernate_calls end_hibernate
execute_hibernate d m name =
    let (m', begun) = begin_hibernate m name in
    elim begun [
      | refused e ↦ (m', some e)
      | nothing_to_do ↦ (m', none)
      | proceed ↦ let err = hibernate_calls d name in (end_hibernate m' name err, err)
    ]

-- executeWakeUp up to the release of the mutex.
unfoldable pub begin_wake_up : LifecycleManager → String → LifecycleManager × Begun
unfolding set_state
begin_wake_up m name = elim (lookup name m.states) [
  | none ↦ (m, nothing_to_do)
  | some active ↦ (m, nothing_to_do)
  | some waking ↦ (m, nothing_to_do)
  | _ ↦ (set_state m name waking, proceed)
]

unfoldable pub wake_up_calls : Dependencies → String → Option LifecycleError
wake_up_calls d name = elim (d.scale_up name) [
  | none ↦ none
  | some e ↦ some (scale_up_failed name e)
]

-- The setState calls that end the calls of executeWakeUp.
unfoldable pub end_wake_up : LifecycleManager → String → Option LifecycleError → LifecycleManager
unfolding set_state
end_wake_up m name none = set_state m name active
end_wake_up m name (some e) = set_state m name hibernating

-- The last locked section of executeWakeUp, after a success: the idle tracker forgets the cluster.
unfoldable pub forget_idle : LifecycleManager → String → LifecycleManager
unfolding erase
forget_idle m name = record m { idle_tracker = erase name m.idle_tracker }

-- executeWakeUp with nothing in between.
unfoldable pub execute_wake_up :
    Dependencies → LifecycleManager → String → LifecycleManager × Option LifecycleError
unfolding begin_wake_up wake_up_calls end_wake_up forget_idle
execute_wake_up d m name =
    let (m', begun) = begin_wake_up m name in
    elim begun [
      | refused e ↦ (m', some e)
      | nothing_to_do ↦ (m', none)
      | proceed ↦ elim (wake_up_calls d name) [
        | none ↦ (forget_idle (end_wake_up m' name none) name, none)
        | some e ↦ (end_wake_up m' name (some e), some e)
      ]
    ]

-- ExecuteDirective
unfoldable pub execute_directive :
    Dependencies → LifecycleManager → Directive → LifecycleManager × Option LifecycleError
unfolding execute_hibernate execute_wake_up
execute_directive d m x = elim x.type [
  | hibernate ↦ execute_hibernate d m x.cluster_name
  | wake_up ↦ execute_wake_up d m x.cluster_name
  | t ↦ (m, some (unsupported t))
]

-- The idle threshold of UpdateIdleStatus and of solveLifecycle, 10 when the policy sets none.
unfoldable pub idle_threshold : {F : Type 0} → ⦃fl : Float64 F⦄ → ClusterLifecycleSpec → F
idle_threshold ⦃fl⦄ policy =
    if fl.le (fl.of_int policy.idle_threshold_percent) (fl.of_int (pos 0))
    then fl.of_int (pos 10)
    else fl.of_int policy.idle_threshold_percent

unfoldable pub idle_window_of : LifecycleManager → ClusterLifecycleSpec → ℕ
idle_window_of m policy =
    if ltb_ℤ (pos 0) policy.idle_window_minutes
    then pos_part policy.idle_window_minutes * minute
    else m.idle_window

-- The record that UpdateIdleStatus leaves for a cluster, from the one before.
unfoldable pub next_idle : Bool → ℕ → IdleRecord → IdleRecord
next_idle below now rec =
    if below
    then (if rec.idle then rec else record { idle_since = now; idle = true })
    else record { idle_since = 0; idle = false }

abbrev pub new_idle : IdleRecord
new_idle = record { idle_since = 0; idle = false }

-- UpdateIdleStatus at time `now`. `now.Sub(since) >= window` is `since + window <= now`.
unfoldable pub update_idle_status :
    {F : Type 0}
    → ⦃fl : Float64 F⦄ → LifecycleManager
    → ℕ
    → String
    → F
    → ClusterLifecycleSpec
    → LifecycleManager × Bool
unfolding lookup insert idle_threshold idle_window_of next_idle
update_idle_status ⦃fl⦄ m now name utilization policy =
    let below = fl.lt utilization (idle_threshold policy) in
    let rec = next_idle below now (lookup_or new_idle name m.idle_tracker) in
    (
      record m { idle_tracker = insert name rec m.idle_tracker },
      if below then leb (rec.idle_since + idle_window_of m policy) now else false,
    )
