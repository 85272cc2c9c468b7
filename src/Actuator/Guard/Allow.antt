-- ===== src/Actuator/Guard/Allow.antt =====
-- What Allow lets through.
use optipilot_ai.Prelude.{
  ℕ, Option, lookup, ◌≡◌, false, none, some, pos, ◌↔◌, ◌≤◌, arith, ◌<ℤ◌, ◌+◌, pos_part, ◌*◌, refl,
}
use optipilot_ai.Actuator.Types.{ServiceRef, ActuationOptions}
use optipilot_ai.Actuator.Guard.{
  Client, SafetyGuard, CircuitEntry, second, service_key, flagged, split_namespaced_name,
  check_emergency_stop, check_cooldown, check_circuit, allow,
}

module _ {F : Type 0} (client : Client) (guard : SafetyGuard) (now : ℕ) (ref : ServiceRef)
    (opts : ActuationOptions F) where
  -- No pause flag on the namespace or in the global ConfigMap.
  pub record NotStopped : Type 0 where
    pub namespace_runs : flagged "optipilot.ai/pause" (client.annotations ref.namespace) ≡ false
    pub cluster_runs :
        flagged "pause" (client.config_data "optipilot-system" "optipilot-pause") ≡ false

  abbrev pub CooledDown : Option ℕ → Type 0
  CooledDown none = Unit
  CooledDown (some last) =
      pos 0 <ℤ opts.cooldown_seconds → last + pos_part opts.cooldown_seconds * second ≤ now

  abbrev pub Closed : Option CircuitEntry → Type 0
  Closed none = Unit
  Closed (some e) = 3 ≤ e.consecutive_strikes → e.paused_until ≤ now

  pub record IsPermitted : Type 0 where
    pub not_stopped : NotStopped
    pub cooled_down : CooledDown (lookup (service_key ref) guard.cooldowns)
    pub closed : Closed (lookup (service_key ref) guard.circuits)

  running_iff : (check_emergency_stop client ref ≡ none) ↔ NotStopped
  unfolding check_emergency_stop split_namespaced_name
  running_iff = (λ h. ground arith, λ h. ground arith)

  cooled_iff :
      (o : Option ℕ)
      → lookup (service_key ref) guard.cooldowns ≡ o
      → (check_cooldown guard now ref opts ≡ none) ↔ CooledDown o
  unfolding check_cooldown
  cooled_iff none e = (λ h. tt, λ h. ground arith)
  cooled_iff (some last) e = (λ h k. ground arith, λ h. ground arith)

  Closed-iff :
      (o : Option CircuitEntry)
      → lookup (service_key ref) guard.circuits ≡ o
      → ((check_circuit guard now ref).1 ≡ none) ↔ Closed o
  unfolding check_circuit
  Closed-iff none e = (λ h. tt, λ h. ground arith)
  Closed-iff (some c) e = (λ h k. ground arith, λ h. ground arith)

  -- Allow permits an actuation exactly when neither pause flag is set, the cooldown is disabled or has
  -- elapsed since the last one, and the service has fewer than three strikes or its pause is over.
  pub allow_iff : ((allow client guard now ref opts).1 ≡ none) ↔ IsPermitted
  unfolding allow
  allow_iff =
      let running = running_iff in
      let cooled = cooled_iff (lookup (service_key ref) guard.cooldowns) refl in
      let shut = Closed-iff (lookup (service_key ref) guard.circuits) refl in
      (
        λ h. record {
          not_stopped = running.0 (ground arith);
          cooled_down = cooled.0 (ground arith);
          closed = shut.0 (ground arith);
        },
        λ h.
            let a = running.1 h.not_stopped in
            let b = cooled.1 h.cooled_down in let c = shut.1 h.closed in ground arith,
      )
