-- ===== src/Actuator/Tests.antt =====
-- Runs of the safety guard, and its theorems there.
use optipilot_ai.Prelude.{
  Bool, Option, map, some, true, List, ℕ, ◌≡◌, ◌↔◌, none, some, [], ◌∷◌, pos, false, ◌*◌, ◌+◌, refl,
}
use optipilot_ai.Prelude.Thousandths.{Thousandths}
use optipilot_ai.Actuator.Types.{ServiceRef, ActuationOptions, ActuationResult}
use optipilot_ai.Actuator.Guard.{
  Client, circuit_open, improved, degraded, second, new_safety_guard, service_key, check_circuit,
  strike_count, allow, record_actuation, record_outcome, split_namespaced_name,
}
use optipilot_ai.Actuator.Guard.Circuit.{
  CircuitCall, outcome, check, run_call, run_calls, check_circuit_refines_tally,
}
use optipilot_ai.Actuator.Pipeline.{Attempt, actuate}
use optipilot_ai.Actuator.Pipeline.Cooldown.{Spaced, actuations, actuations-Spaced}
use optipilot_ai.Actuator.Guard.Allow.{IsPermitted, allow_iff}

abbrev web : ServiceRef
web = record { namespace = "shop"; name = "web"; api_version = "apps/v1"; kind = "Deployment" }

abbrev cart : ServiceRef
cart = record web { name = "cart" }

abbrev options : ActuationOptions Thousandths
options = record {
  dry_run = false;
  canary = false;
  max_change = pos 500;
  cooldown_seconds = pos 60;
}

-- The namespace runs, and the ConfigMap is not there.
abbrev running : Client
running = record { annotations = λ ns. some []; config_data = λ ns name. none }

abbrev three_strikes : List CircuitCall
three_strikes =
    outcome web degraded 1
    ∷ outcome cart degraded 2
    ∷ outcome web degraded 3
    ∷ outcome cart improved 4
    ∷ check web 5
    ∷ outcome web degraded 6
    ∷ []

pause_name :
    split_namespaced_name "optipilot-system/optipilot-pause"
    ≡ ("optipilot-system", "optipilot-pause")
unfolding split_namespaced_name
pause_name = refl

check_circuit_refines_tally_example :
    ((check_circuit (run_calls new_safety_guard three_strikes) 7 web).1 ≡ some circuit_open)
    × (strike_count (run_calls new_safety_guard three_strikes) web ≡ 3)
unfolding service_key
check_circuit_refines_tally_example = check_circuit_refines_tally three_strikes web 7

-- Four strikes in a row, with a check after the pause before the last: one counts.
abbrev late_strike : List CircuitCall
late_strike =
    outcome web degraded (60 * second)
    ∷ outcome web degraded (120 * second)
    ∷ outcome web degraded (180 * second)
    ∷ check web (1200 * second)
    ∷ outcome web degraded (1260 * second)
    ∷ []

late_strike_counted : strike_count (run_calls new_safety_guard late_strike) web ≡ 1
unfolding run_calls run_call new_safety_guard strike_count record_outcome check_circuit service_key
late_strike_counted = refl

-- What Apply returns of a change that it made, or did not make.
abbrev changed : Bool → ActuationResult
changed applied = record { applied = applied; previous_state = ""; changes = []; error = none }

-- A call whose checks are at the time given, and whose result is recorded one second later.
abbrev attempt : ServiceRef → ℕ → Option ActuationResult → Attempt Thousandths
attempt ref now result = record {
  client = running;
  ref = ref;
  opts = options;
  allowed_at = now * second;
  result = result;
  done_at = (now + 1) * second;
}

-- The third call is too soon after the second, the fourth fails, and nothing is applied by the fifth.
abbrev attempts : List (Attempt Thousandths)
attempts =
    attempt cart 5 (some (changed true))
    ∷ attempt web 6 (some (changed true))
    ∷ attempt web 66 (some (changed true))
    ∷ attempt web 67 none
    ∷ attempt web 68 (some (changed false))
    ∷ attempt web 69 (some (changed true))
    ∷ []

attempts_of_web :
    map (λ a. a.allowed_at) (actuations "shop/web" (some new_safety_guard) attempts)
    ≡ 6_000_000_000 ∷ 69_000_000_000 ∷ []
unfolding actuations actuate new_safety_guard record_outcome record_actuation
attempts_of_web = refl

actuations-Spaced_example :
    Spaced none (actuations (service_key web) (some new_safety_guard) attempts)
actuations-Spaced_example = actuations-Spaced attempts web

allow_iff_example :
    ((allow running new_safety_guard 5 web options).1 ≡ none)
    ↔ IsPermitted running new_safety_guard 5 web options
allow_iff_example = allow_iff running new_safety_guard 5 web options
