-- ===== src/Global/Predictive.antt =====
-- What CheckPredictiveWakeUp (internal/global/lifecycle.go) wakes.
use optipilot_ai.Prelude.{
  String, List, Option, Bool, ◌≡◌, some, true, lookup, map, filterb, [], false, ◌&&◌, ◌∷◌, ap, none,
  refl, arith, ℕ,
}
use optipilot_ai.Global.Messages.{wake_up}
use optipilot_ai.Global.Lifecycle.{
  LifecycleManager, cluster_state, LifecycleState, active, draining, waking, hibernating,
}
use optipilot_ai.Global.Hibernation.Bounds.{order}
use optipilot_ai.Global.Snapshot.{
  ClusterSnapshot, is_hibernating, predictive_directives, check_predictive_wake_up,
}

-- The forecast is there and says that capacity is needed.
abbrev pub is_needed : Option Bool → Bool
is_needed none = false
is_needed (some b) = b

abbrev pub asleep_state : LifecycleState → Bool
asleep_state hibernating = true
asleep_state s = false

state_of :
    (m : LifecycleManager) (name : String) (s : Option LifecycleState)
    → lookup name m.states ≡ s
    → cluster_state m name ≡ (elim s [ none ↦ active | some x ↦ x ])
unfolding cluster_state
state_of m name none q = ground arith
state_of m name (some x) q = ground arith

module _ {F : Type 0} (forecast : String → Option Bool) where
  abbrev pub is_wanted : LifecycleManager → ClusterSnapshot F → Bool
  is_wanted m c = asleep_state (cluster_state m c.name) && is_needed (forecast c.region)

  predictive_directives-order :
      (reason_of : String → String) (m : LifecycleManager) (cs : List (ClusterSnapshot F))
      → map order (
          predictive_directives forecast reason_of
            (filterb (λ c. is_hibernating (lookup c.name m.states)) cs))
        ≡ map (λ c. (wake_up, c.name)) (filterb (is_wanted m) cs)
  unfolding predictive_directives is_hibernating
  predictive_directives-order reason_of m [] = refl
  predictive_directives-order reason_of m (c ∷ cs) =
      by_answer (lookup c.name m.states) (forecast c.region) refl refl
        (predictive_directives-order reason_of m cs)
    where
      by_answer :
          (s : Option LifecycleState) (o : Option Bool)
          → lookup c.name m.states ≡ s
          → forecast c.region ≡ o
          → map order (
              predictive_directives forecast reason_of
                (filterb (λ c. is_hibernating (lookup c.name m.states)) cs))
            ≡ map (λ c. (wake_up, c.name)) (filterb (is_wanted m) cs)
          → map order (
              predictive_directives forecast reason_of
                (filterb (λ c. is_hibernating (lookup c.name m.states)) (c ∷ cs)))
            ≡ map (λ c. (wake_up, c.name)) (filterb (is_wanted m) (c ∷ cs))
      by_answer none o q a ih = rw (q, state_of m c.name none q) ih
      by_answer (some active) o q a ih = rw (q, state_of m c.name (some active) q) ih
      by_answer (some draining) o q a ih = rw (q, state_of m c.name (some draining) q) ih
      by_answer (some waking) o q a ih = rw (q, state_of m c.name (some waking) q) ih
      by_answer (some hibernating) none q a ih =
          rw (q, state_of m c.name (some hibernating) q, a) ih
      by_answer (some hibernating) (some false) q a ih =
          rw (q, state_of m c.name (some hibernating) q, a) ih
      by_answer (some hibernating) (some true) q a ih =
          rw (q, state_of m c.name (some hibernating) q, a) (ap (λ ds. (wake_up, c.name) ∷ ds) ih)

-- With a forecaster, CheckPredictiveWakeUp asks to wake those of the clusters that ClusterState shows as
-- hibernating and whose region is forecast to need capacity within the manager's lead time, in their order;
-- an error counts as no.
pub check_predictive_wake_up_lem :
    {F : Type 0} (forecast : String → ℕ → Option Bool) (reason_of : String → ℕ → String)
    (m : LifecycleManager) (clusters : List (ClusterSnapshot F))
    → map order (check_predictive_wake_up (some forecast) reason_of m clusters)
      ≡ map
          (λ c. (wake_up, c.name))
          (filterb (is_wanted (λ region. forecast region m.wakeup_lead) m) clusters)
unfolding check_predictive_wake_up
check_predictive_wake_up_lem forecast reason_of m clusters =
    predictive_directives-order (λ region. forecast region m.wakeup_lead)
      (λ region. reason_of region m.wakeup_lead) m clusters
