-- ===== src/Actuator/Pipeline.antt =====
-- actuate of internal/controller/optimizer_controller.go: the safety checks, the application of an action and
-- what is recorded of it. The controller runs one call after another. What CanaryCtrl.Apply or
-- ActuatorReg.Apply returns is part of an attempt, none for an error.
pub mod Cooldown
use optipilot_ai.Prelude.{Option, ℕ, some, none, if◌then◌else◌}
use optipilot_ai.Actuator.Types.{ServiceRef, ActuationOptions, ActuationResult}
use optipilot_ai.Actuator.Guard.{
  Client, SafetyGuard, SafetyError, degraded, improved, record_actuation, record_outcome, allow,
}

-- The arguments of one call, with what it finds on its way: the pause flags, the time of the checks, the
-- result of Apply and the time at which it is recorded.
pub record Attempt (F : Type 0) : Type 0 where
  pub client : Client
  pub ref : ServiceRef
  pub opts : ActuationOptions F
  pub allowed_at : ℕ
  pub result : Option ActuationResult
  pub done_at : ℕ

-- The event that is emitted, if any.
pub data ActuateEvent : Type 0 where
  actuation_blocked : SafetyError → ActuateEvent
  actuation_failed actuated no_event : ActuateEvent

module _ {F : Type 0} where
  -- The event of the result.
  unfoldable pub result_event : Attempt F → ActuateEvent
  result_event a = elim a.result [
    | none ↦ actuation_failed
    | some r ↦ if r.applied then actuated else no_event
  ]

  -- What the guard is told of the result.
  unfoldable pub record_result : SafetyGuard → Attempt F → SafetyGuard
  record_result guard a = elim a.result [
    | none ↦ record_outcome guard a.done_at a.ref degraded
    | some r ↦
        if r.applied
        then record_outcome (record_actuation guard a.done_at a.ref) a.done_at a.ref improved
        else guard
  ]

  -- actuate with a SafetyGuard
  unfoldable pub actuate_guarded : SafetyGuard → Attempt F → SafetyGuard × ActuateEvent
  unfolding allow record_result result_event
  actuate_guarded guard a =
      let (guard', err) = allow a.client guard a.allowed_at a.ref a.opts in
      elim err [
        | some e ↦ (guard', actuation_blocked e)
        | none ↦ (record_result guard' a, result_event a)
      ]

  -- actuate; the controller may have no SafetyGuard.
  unfoldable pub actuate : Option SafetyGuard → Attempt F → Option SafetyGuard × ActuateEvent
  unfolding actuate_guarded
  actuate none a = (none, result_event a)
  actuate (some guard) a = let (guard', event) = actuate_guarded guard a in (some guard', event)
