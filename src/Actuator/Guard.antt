-- ===== src/Actuator/Guard.antt =====
-- internal/actuator/safety.go: the SafetyGuard. The Kubernetes client is a parameter, what Get finds for a
-- namespace and for a ConfigMap (`none` for an error), and so is the time that nowFn returns. Each
-- method holds the mutex throughout, so it is one step.
pub mod Circuit
pub mod Allow
use optipilot_ai.Prelude.{
  Map, Option, String, [], insert, lookup, ℕ, ◌∷◌, Bool, erase, if◌then◌else◌, none, some, ◌*◌, ◌+◌,
  false, leb, leb_ℤ, lookup_or, ◌==◌, ltb, pos, str_eq, pos_part, ◌&&◌, true,
}
use Prim.Native.Char.{code}
use Prim.Native.String.{◌++◌ as append}
use optipilot_ai.Actuator.Types.{ServiceRef, ActuationOptions}

-- Annotations of a namespace and data of a ConfigMap by namespace and name.
pub record Client : Type 0 where
  pub annotations : String → Option (Map String)
  pub config_data : String → String → Option (Map String)

-- ActuationOutcome
pub data ActuationOutcome : Type 0 where
  improved degraded : ActuationOutcome

-- circuitEntry
pub record CircuitEntry : Type 0 where
  pub consecutive_strikes : ℕ
  pub paused_until : ℕ

-- SafetyGuard, with a cooldown entry as its time.
pub record SafetyGuard : Type 0 where
  pub circuits : Map CircuitEntry
  pub cooldowns : Map ℕ

-- ErrEmergencyStop, ErrCooldownActive, ErrCircuitOpen
pub data SafetyError : Type 0 where
  emergency_stop cooldown_active circuit_open : SafetyError

abbrev pub max_strikes : ℕ
max_strikes = 3

abbrev pub second : ℕ
second = 1_000_000_000

-- circuitBreakerPauseDuration, 15 minutes
abbrev pub pause_duration : ℕ
pause_duration = 15 * (60 * second)

-- NewSafetyGuard
unfoldable pub new_safety_guard : SafetyGuard
new_safety_guard = record { circuits = []; cooldowns = [] }

-- serviceKey
unfoldable pub service_key : ServiceRef → String
service_key ref = append ref.namespace (append "/" ref.name)

-- The loop of splitNamespacedName, to the first slash.
unfoldable pub split_slash : String → Option (String × String)
split_slash String.[] = none
split_slash (String.◌∷◌ c s) =
    if code c == b'/'
    then some ("", s)
    else elim (split_slash s) [ none ↦ none | some (a, b) ↦ some (String.◌∷◌ c a, b) ]

-- splitNamespacedName
unfoldable pub split_namespaced_name : String → String × String
unfolding split_slash
split_namespaced_name s = elim (split_slash s) [ none ↦ ("default", s) | some p ↦ p ]

-- `m["key"] == "true"` on a map that Get may not have found.
unfoldable pub flagged : String → Option (Map String) → Bool
unfolding lookup
flagged key none = false
flagged key (some m) = str_eq (lookup_or "" key m) "true"

-- CheckEmergencyStop
unfoldable pub check_emergency_stop : Client → ServiceRef → Option SafetyError
unfolding flagged split_namespaced_name
check_emergency_stop client ref =
    let (ns, name) = split_namespaced_name "optipilot-system/optipilot-pause" in
    if flagged "optipilot.ai/pause" (client.annotations ref.namespace)
    then some emergency_stop
    else if flagged "pause" (client.config_data ns name)
    then some emergency_stop
    else none

-- CheckCooldown at time `now`. `now.Sub(last) < gap` is `now < last + gap`.
unfoldable pub check_cooldown :
    {F : Type 0} → SafetyGuard → ℕ → ServiceRef → ActuationOptions F → Option SafetyError
unfolding lookup service_key
check_cooldown guard now ref opts =
    if leb_ℤ opts.cooldown_seconds (pos 0)
    then none
    else elim (lookup (service_key ref) guard.cooldowns) [
      | none ↦ none
      | some last ↦
          if ltb now (last + pos_part opts.cooldown_seconds * second)
          then some cooldown_active
          else none
    ]

-- RecordActuation
unfoldable pub record_actuation : SafetyGuard → ℕ → ServiceRef → SafetyGuard
unfolding insert service_key
record_actuation guard now ref = record guard {
  cooldowns = insert (service_key ref) now guard.cooldowns;
}

-- CheckCircuit: an expired pause deletes the entry.
unfoldable pub check_circuit : SafetyGuard → ℕ → ServiceRef → SafetyGuard × Option SafetyError
unfolding lookup erase service_key
check_circuit guard now ref = elim (lookup (service_key ref) guard.circuits) [
  | none ↦ (guard, none)
  | some e ↦
      if leb max_strikes e.consecutive_strikes
      then (if ltb now e.paused_until
          then (guard, some circuit_open)
          else (record guard { circuits = erase (service_key ref) guard.circuits }, none))
      else (guard, none)
]

-- The entry of RecordOutcome after one more strike.
unfoldable pub add_strike : ℕ → CircuitEntry → CircuitEntry
add_strike now e =
    let strikes = e.consecutive_strikes + 1 in
    record {
      consecutive_strikes = strikes;
      paused_until = if leb max_strikes strikes then now + pause_duration else e.paused_until;
    }

abbrev pub new_entry : CircuitEntry
new_entry = record { consecutive_strikes = 0; paused_until = 0 }

-- RecordOutcome
unfoldable pub record_outcome : SafetyGuard → ℕ → ServiceRef → ActuationOutcome → SafetyGuard
unfolding lookup insert erase service_key add_strike
record_outcome guard now ref improved = record guard {
  circuits = erase (service_key ref) guard.circuits;
}
record_outcome guard now ref degraded =
    let entry = lookup_or new_entry (service_key ref) guard.circuits in
    record guard { circuits = insert (service_key ref) (add_strike now entry) guard.circuits }

-- StrikeCount
unfoldable pub strike_count : SafetyGuard → ServiceRef → ℕ
unfolding lookup service_key
strike_count guard ref = elim (lookup (service_key ref) guard.circuits) [
  | none ↦ 0
  | some e ↦ e.consecutive_strikes
]

-- Allow: the checks in order, up to the first that blocks.
unfoldable pub allow :
    {F : Type 0}
    → Client
    → SafetyGuard
    → ℕ
    → ServiceRef
    → ActuationOptions F
    → SafetyGuard × Option SafetyError
unfolding check_emergency_stop check_cooldown check_circuit
allow client guard now ref opts = elim (check_emergency_stop client ref) [
  | some e ↦ (guard, some e)
  | none ↦ elim (check_cooldown guard now ref opts) [
    | some e ↦ (guard, some e)
    | none ↦ check_circuit guard now ref
  ]
]

abbrev pub is_open_error : Option SafetyError → Bool
is_open_error (some circuit_open) = true
is_open_error e = false

-- IsCircuitOpen, which like CheckCircuit deletes an entry whose pause is over.
unfoldable pub is_circuit_open : SafetyGuard → ℕ → ServiceRef → SafetyGuard × Bool
unfolding check_circuit
is_circuit_open guard now ref =
    let (guard', err) = check_circuit guard now ref in (guard', is_open_error err)
