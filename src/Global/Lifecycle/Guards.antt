-- ===== src/Global/Lifecycle/Guards.antt =====
-- ExecuteDirective as a whole, when nothing runs in between, against a view of the clusters' states.
use mathlib.Core.Option.{map as map_option}
use optipilot_ai.Prelude.{
  subst, ap, ◌∙◌, String, Option, str_eq, ◌≡◌, if◌then◌else◌, some, arith, lookup-insert, lookup,
  none, eq_of_str_eq, refl, List, [], ◌∷◌, Option-cases, true, false, inl, inr,
}
use optipilot_ai.Global.Messages.{
  DirectiveType, hibernate, wake_up, Directive, traffic_shift, migration, no_op, unrecognized,
}
use optipilot_ai.Global.Lifecycle.{
  TenantAnswer, tenant_error, sole, tenant_check, tenant_sole, drain_failed, scale_to_zero_failed,
  scale_up_failed, forget_idle, LifecycleState, active, draining, hibernating, waking,
  LifecycleManager, Dependencies, LifecycleError, management_cluster, unsupported, cluster_state,
  set_state, begin_hibernate, hibernate_calls, end_hibernate, execute_hibernate, begin_wake_up,
  wake_up_calls, end_wake_up, execute_wake_up, execute_directive,
}

-- What the dependencies say against a hibernation, in the order of the checks: the tenants, the drain, the
-- scaling to zero. A dependency that is not there says nothing.

abbrev pub tenant_error_of : String → TenantAnswer → Option LifecycleError
tenant_error_of name (tenant_error e) = some (tenant_check name e)
tenant_error_of name (sole true) = some (tenant_sole name "refusing to hibernate")
tenant_error_of name (sole false) = none

abbrev pub tenant_failure : String → Option (String → TenantAnswer) → Option LifecycleError
tenant_failure name none = none
tenant_failure name (some locate) = tenant_error_of name (locate name)

abbrev pub drain_failure : String → Option (String → Option String) → Option LifecycleError
drain_failure name none = none
drain_failure name (some drain) = map_option (drain_failed name) (drain name)

abbrev pub first_of : List (Option LifecycleError) → Option LifecycleError
first_of [] = none
first_of (some e ∷ os) = some e
first_of (none ∷ os) = first_of os

-- The first failure of a hibernation, and the failure of a wake-up.
abbrev pub hibernate_failure : Dependencies → String → Option LifecycleError
hibernate_failure d name = first_of (
    tenant_failure name d.tenants
    ∷ drain_failure name d.drain
    ∷ map_option (scale_to_zero_failed name) (d.scale_to_zero name)
    ∷ [])

abbrev pub wake_up_failure : Dependencies → String → Option LifecycleError
wake_up_failure d name = map_option (scale_up_failed name) (d.scale_up name)

-- The state of one cluster after a directive for it, from its state before and the failure of its calls,
-- with the error.

abbrev pub after_hibernate :
    Option LifecycleError
    → String
    → String
    → LifecycleState
    → LifecycleState × Option LifecycleError
after_hibernate failure mgmt name hibernating =
    (hibernating, if str_eq name mgmt then some (management_cluster name) else none)
after_hibernate failure mgmt name draining =
    (draining, if str_eq name mgmt then some (management_cluster name) else none)
after_hibernate failure mgmt name s =
    if str_eq name mgmt
    then (s, some (management_cluster name))
    else elim failure [ none ↦ (hibernating, none) | some e ↦ (active, some e) ]

abbrev pub after_wake_up :
    Option LifecycleError → LifecycleState → LifecycleState × Option LifecycleError
after_wake_up failure active = (active, none)
after_wake_up failure waking = (waking, none)
after_wake_up failure s = elim failure [ none ↦ (active, none) | some e ↦ (hibernating, some e) ]

abbrev pub after_directive :
    Dependencies → String → Directive → LifecycleState → LifecycleState × Option LifecycleError
after_directive d mgmt x s = elim x.type [
  | hibernate ↦ after_hibernate (hibernate_failure d x.cluster_name) mgmt x.cluster_name s
  | wake_up ↦ after_wake_up (wake_up_failure d x.cluster_name) s
  | t ↦ (s, some (unsupported t))
]

-- A result shows the state s to the cluster of the directive and leaves the others, with error e.
abbrev pub Shows :
    LifecycleManager
    → String
    → LifecycleManager × Option LifecycleError
    → LifecycleState × Option LifecycleError
    → Type 0
Shows m name r s =
    (r.1 ≡ s.1)
    × ((other : String)
        → cluster_state r.0 other ≡ (if str_eq name other then s.0 else cluster_state m other))

module _ (m : LifecycleManager) (name other : String) where
  pub cluster_state-set_state :
      (s : LifecycleState)
      → cluster_state (set_state m name s) other
        ≡ (if str_eq name other then s else cluster_state m other)
  unfolding cluster_state set_state
  cluster_state-set_state s = ground (arith, lookup-insert name other s m.states)

cluster_state-end_hibernate :
    (m : LifecycleManager) (name other : String) (s : LifecycleState) (err : Option LifecycleError)
    → cluster_state (end_hibernate (set_state m name s) name err) other ≡ (
        if str_eq name other
        then elim err [ none ↦ hibernating | some e ↦ active ]
        else cluster_state m other)
unfolding end_hibernate
cluster_state-end_hibernate m name other s none = ground (
  arith,
  cluster_state-set_state m name other s,
  cluster_state-set_state (set_state m name s) name other hibernating,
)
cluster_state-end_hibernate m name other s (some e) = ground (
  arith,
  cluster_state-set_state m name other s,
  cluster_state-set_state (set_state m name s) name other active,
)

cluster_state-end_wake_up :
    (m : LifecycleManager) (name other : String) (s : LifecycleState) (err : Option LifecycleError)
    → cluster_state (end_wake_up (set_state m name s) name err) other ≡ (
        if str_eq name other
        then elim err [ none ↦ active | some e ↦ hibernating ]
        else cluster_state m other)
unfolding end_wake_up cluster_state
cluster_state-end_wake_up m name other s none = ground (
  arith,
  cluster_state-set_state m name other s,
  cluster_state-set_state (set_state m name s) name other active,
)
cluster_state-end_wake_up m name other s (some e) = ground (
  arith,
  cluster_state-set_state m name other s,
  cluster_state-set_state (set_state m name s) name other hibernating,
)

cluster_state-forget_idle :
    (m : LifecycleManager) (name other : String)
    → cluster_state (forget_idle m name) other ≡ cluster_state m other
unfolding forget_idle cluster_state
cluster_state-forget_idle m name other = refl

-- The calls of the code fail as described above.
drain_lem :
    (name : String) (drain : Option (String → Option String)) (scaled : Option LifecycleError)
    → (elim drain [
      | none ↦ scaled
      | some f ↦ elim (f name) [ none ↦ scaled | some e ↦ some (drain_failed name e) ]
    ])
      ≡ first_of (drain_failure name drain ∷ scaled ∷ [])
drain_lem name none none = refl
drain_lem name none (some e) = refl
drain_lem name (some f) none = elim (Option-cases (f name)) [
  | inl q ↦ rw q refl
  | inr (e, q) ↦ rw q refl
]
drain_lem name (some f) (some x) = elim (Option-cases (f name)) [
  | inl q ↦ rw q refl
  | inr (e, q) ↦ rw q refl
]

scale_lem :
    (name : String) (o : Option String)
    → (elim o [ none ↦ none | some e ↦ some (scale_to_zero_failed name e) ])
      ≡ map_option (scale_to_zero_failed name) o
scale_lem name none = refl
scale_lem name (some e) = refl

hibernate_calls_lem :
    (d : Dependencies) (name : String) → hibernate_calls d name ≡ hibernate_failure d name
unfolding hibernate_calls
hibernate_calls_lem d name = by_tenants d.tenants refl
  where
    drained :
        (elim d.drain [
          | none ↦ elim (d.scale_to_zero name) [
            | none ↦ none
            | some e ↦ some (scale_to_zero_failed name e)
          ]
          | some f ↦ elim (f name) [
            | none ↦ elim (d.scale_to_zero name) [
              | none ↦ none
              | some e ↦ some (scale_to_zero_failed name e)
            ]
            | some e ↦ some (drain_failed name e)
          ]
        ])
        ≡ first_of (
            drain_failure name d.drain
            ∷ map_option (scale_to_zero_failed name) (d.scale_to_zero name)
            ∷ [])
    drained =
        drain_lem name d.drain _
        ∙ ap (λ o. first_of (drain_failure name d.drain ∷ o ∷ []))
            (scale_lem name (d.scale_to_zero name))

    by_answer :
        (f : String → TenantAnswer) (a : TenantAnswer)
        → d.tenants ≡ some f
        → f name ≡ a
        → hibernate_calls d name ≡ hibernate_failure d name
    by_answer f (tenant_error e) q p = rw (q, p, hibernate_calls) refl
    by_answer f (sole true) q p = rw (q, p, hibernate_calls) refl
    by_answer f (sole false) q p = rw (q, p, hibernate_calls) drained

    by_tenants :
        (ts : Option (String → TenantAnswer))
        → d.tenants ≡ ts
        → hibernate_calls d name ≡ hibernate_failure d name
    by_tenants none q = rw (q, hibernate_calls) drained
    by_tenants (some f) q = by_answer f (f name) q refl

wake_up_calls_lem :
    (d : Dependencies) (name : String) → wake_up_calls d name ≡ wake_up_failure d name
unfolding wake_up_calls
wake_up_calls_lem d name = elim (Option-cases (d.scale_up name)) [
  | inl q ↦ rw (q, wake_up_calls) refl
  | inr (e, q) ↦ rw (q, wake_up_calls) refl
]

unchanged :
    (m : LifecycleManager) (name other : String)
    → cluster_state m other
      ≡ (if str_eq name other then cluster_state m name else cluster_state m other)
unchanged m name other = ground (arith, eq_of_str_eq name other)

hibernate-Shows :
    (d : Dependencies) (m : LifecycleManager) (name : String) (o : Option LifecycleState)
    → lookup name m.states ≡ o
    → Shows m name
        (execute_hibernate d m name)
        (after_hibernate (hibernate_calls d name) m.mgmt_cluster name (cluster_state m name))
unfolding execute_hibernate begin_hibernate cluster_state
hibernate-Shows d m name none q = (
  ground arith,
  λ other. ground (
    arith,
    eq_of_str_eq name other,
    cluster_state-end_hibernate m name other draining (hibernate_calls d name),
  ),
)
hibernate-Shows d m name (some draining) q =
    (ground arith, λ other. ground (arith, eq_of_str_eq name other))
hibernate-Shows d m name (some hibernating) q =
    (ground arith, λ other. ground (arith, eq_of_str_eq name other))
hibernate-Shows d m name (some active) q = (
  ground arith,
  λ other. ground (
    arith,
    eq_of_str_eq name other,
    cluster_state-end_hibernate m name other draining (hibernate_calls d name),
  ),
)
hibernate-Shows d m name (some waking) q = (
  ground arith,
  λ other. ground (
    arith,
    eq_of_str_eq name other,
    cluster_state-end_hibernate m name other draining (hibernate_calls d name),
  ),
)

pub wake_up-Shows :
    (d : Dependencies) (m : LifecycleManager) (name : String) (o : Option LifecycleState)
    → lookup name m.states ≡ o
    → Shows m name
        (execute_wake_up d m name)
        (after_wake_up (wake_up_calls d name) (cluster_state m name))
unfolding execute_wake_up begin_wake_up cluster_state
wake_up-Shows d m name none q = (ground arith, λ other. ground (arith, eq_of_str_eq name other))
wake_up-Shows d m name (some active) q =
    (ground arith, λ other. ground (arith, eq_of_str_eq name other))
wake_up-Shows d m name (some waking) q =
    (ground arith, λ other. ground (arith, eq_of_str_eq name other))
wake_up-Shows d m name (some draining) q = (
  ground arith,
  λ other. ground (
    arith,
    eq_of_str_eq name other,
    cluster_state-end_wake_up m name other waking (wake_up_calls d name),
  ),
)
wake_up-Shows d m name (some hibernating) q = (
  ground arith,
  λ other. ground (
    arith,
    eq_of_str_eq name other,
    cluster_state-end_wake_up m name other waking (wake_up_calls d name),
  ),
)

-- ExecuteDirective on a cluster's state as ClusterState shows it, active for a name it does not know.
-- The management cluster refuses to hibernate, a hibernation or a wake-up under way or done is left
-- alone, a failed call puts the cluster back to active or to hibernating, other types are an error; no
-- other cluster changes.
pub execute_directive_refines :
    (d : Dependencies) (m : LifecycleManager) (x : Directive)
    → let s = after_directive d m.mgmt_cluster x (cluster_state m x.cluster_name) in
      let r = execute_directive d m x in
      (r.1 ≡ s.1)
      × ((name : String)
          → cluster_state r.0 name
            ≡ (if str_eq x.cluster_name name then s.0 else cluster_state m name))
unfolding execute_directive
execute_directive_refines d m x = by_type x.type refl
  where
    by_type :
        (t : DirectiveType)
        → x.type ≡ t
        → Shows m x.cluster_name
            (execute_directive d m x)
            (after_directive d m.mgmt_cluster x (cluster_state m x.cluster_name))
    by_type hibernate e =
        rw (e, execute_directive)
          (subst
            (λ o.
              Shows m x.cluster_name (execute_hibernate d m x.cluster_name)
                (after_hibernate o m.mgmt_cluster x.cluster_name (cluster_state m x.cluster_name)))
            (hibernate_calls_lem d x.cluster_name)
            (hibernate-Shows d m x.cluster_name (lookup x.cluster_name m.states) refl))
    by_type wake_up e =
        rw (e, execute_directive)
          (subst
            (λ o.
              Shows m x.cluster_name (execute_wake_up d m x.cluster_name)
                (after_wake_up o (cluster_state m x.cluster_name)))
            (wake_up_calls_lem d x.cluster_name)
            (wake_up-Shows d m x.cluster_name (lookup x.cluster_name m.states) refl))
    by_type traffic_shift e = rw (e, execute_directive) (refl, unchanged m x.cluster_name)
    by_type migration e = rw (e, execute_directive) (refl, unchanged m x.cluster_name)
    by_type no_op e = rw (e, execute_directive) (refl, unchanged m x.cluster_name)
    by_type (unrecognized u) e = rw (e, execute_directive) (refl, unchanged m x.cluster_name)
