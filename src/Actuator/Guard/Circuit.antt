-- ===== src/Actuator/Guard/Circuit.antt =====
-- The circuit breaker against a tally of each service's outcomes, which a check after the pause clears too.
use optipilot_ai.Prelude.{
  List, Option, String, ℕ, Bool, [], if◌then◌else◌, lookup, some, ◌+◌, ◌∷◌, ◌≡◌, leb, none, str_eq,
  ◌<◌, arith, lookup-erase, ◌&&◌, ◌≤◌, Bool-cases, ltb, not, inl, inr, lookup-insert, lookup_or,
  eq_of_str_eq, false, refl, sym,
}
use optipilot_ai.Actuator.Types.{ServiceRef}
use optipilot_ai.Actuator.Guard.{
  SafetyGuard, CircuitEntry, circuit_open, ActuationOutcome, improved, degraded, max_strikes,
  pause_duration, new_safety_guard, service_key, check_circuit, record_outcome, add_strike,
  new_entry, strike_count,
}

-- The calls that touch the circuits, at their times.
pub data CircuitCall : Type 0 where
  outcome : ServiceRef → ActuationOutcome → ℕ → CircuitCall
  check : ServiceRef → ℕ → CircuitCall

unfoldable pub run_call : SafetyGuard → CircuitCall → SafetyGuard
run_call guard (outcome ref o now) = record_outcome guard now ref o
run_call guard (check ref now) = (check_circuit guard now ref).0

unfoldable pub run_calls : SafetyGuard → List CircuitCall → SafetyGuard
run_calls guard [] = guard
run_calls guard (c ∷ cs) = run_calls (run_call guard c) cs

-- The strikes in a row of one service, and the time of the last.
pub record Tally : Type 0 where
  pub strikes : ℕ
  pub last : ℕ

-- Open: three strikes, the last less than 15 minutes ago.
abbrev pub is_open : Tally → ℕ → Bool
is_open t now = leb 3 t.strikes && ltb now (t.last + pause_duration)

abbrev pub clear : Tally
clear = record { strikes = 0; last = 0 }

abbrev pub add_outcome : Tally → ActuationOutcome → ℕ → Tally
add_outcome t improved now = clear
add_outcome t degraded now = record { strikes = t.strikes + 1; last = now }

-- A check after the pause forgets the strikes.
abbrev pub pass_time : Tally → ℕ → Tally
pass_time t now = if leb 3 t.strikes && not (is_open t now) then clear else t

-- Only the calls for the service count.
abbrev pub tally_call : String → Tally → CircuitCall → Tally
tally_call key t (outcome ref o now) =
    if str_eq (service_key ref) key then add_outcome t o now else t
tally_call key t (check ref now) = if str_eq (service_key ref) key then pass_time t now else t

abbrev pub tally : String → Tally → List CircuitCall → Tally
tally key t [] = t
tally key t (c ∷ cs) = tally key (tally_call key t c) cs

abbrev Agrees : Option CircuitEntry → Tally → Type 0
Agrees none t = t.strikes ≡ 0
Agrees (some e) t =
    (e.consecutive_strikes ≡ t.strikes)
    × (0 < t.strikes)
    × (3 ≤ t.strikes → e.paused_until ≡ t.last + pause_duration)

Agrees-add_strike :
    (o : Option CircuitEntry) (t : Tally) (now : ℕ)
    → Agrees o t
    → Agrees
        (some (add_strike now (elim o [ none ↦ new_entry | some e ↦ e ])))
        (add_outcome t degraded now)
unfolding add_strike
Agrees-add_strike none t now h = ground arith
Agrees-add_strike (some e) t now h = ground arith

outcome-Agrees :
    (guard : SafetyGuard) (ref : ServiceRef) (o : ActuationOutcome) (now : ℕ) (key : String)
    (t : Tally)
    → Agrees (lookup key guard.circuits) t
    → Agrees
        (lookup key (record_outcome guard now ref o).circuits)
        (if str_eq (service_key ref) key then add_outcome t o now else t)
unfolding record_outcome
outcome-Agrees guard ref improved now key t h =
    rw (lookup-erase (service_key ref) key guard.circuits)
      (elim (Bool-cases (str_eq (service_key ref) key)) [ inl e ↦ rw e refl | inr e ↦ rw e h ])
outcome-Agrees guard ref degraded now key t h =
    rw
      (lookup-insert (service_key ref) key
        (add_strike now (lookup_or new_entry (service_key ref) guard.circuits)) guard.circuits)
      (elim (Bool-cases (str_eq (service_key ref) key)) [
        | inl e ↦ rw e (
            Agrees-add_strike (lookup (service_key ref) guard.circuits) t now
              (rw (eq_of_str_eq (service_key ref) key e) h))
        | inr e ↦ rw e h
      ])

-- What a check finds for an entry, and what it leaves of it.
blocked : Option CircuitEntry → ℕ → Bool
blocked none now = false
blocked (some e) now = leb max_strikes e.consecutive_strikes && ltb now e.paused_until

blocked-is_open :
    (o : Option CircuitEntry) (t : Tally) (now : ℕ) → Agrees o t → blocked o now ≡ is_open t now
unfolding blocked
blocked-is_open none t now h = ground arith
blocked-is_open (some e) t now h = ground arith

left : Option CircuitEntry → ℕ → Option CircuitEntry
left none now = none
left (some e) now =
    if leb max_strikes e.consecutive_strikes && not (ltb now e.paused_until) then none else some e

left-Agrees :
    (o : Option CircuitEntry) (t : Tally) (now : ℕ)
    → Agrees o t
    → Agrees (left o now) (pass_time t now)
unfolding left
left-Agrees none t now h = ground arith
left-Agrees (some e) t now h = ground arith

check_of_entry :
    (guard : SafetyGuard) (now : ℕ) (ref : ServiceRef) (o : Option CircuitEntry)
    → lookup (service_key ref) guard.circuits ≡ o
    → ((check_circuit guard now ref).1 ≡ (if blocked o now then some circuit_open else none))
      × ((key : String)
          → lookup key (check_circuit guard now ref).0.circuits
            ≡ (if str_eq (service_key ref) key then left o now else lookup key guard.circuits))
unfolding check_circuit blocked left
check_of_entry guard now ref none e = (
  rw (e, check_circuit),
  λ key.
      rw (e, check_circuit)
        (elim (Bool-cases (str_eq (service_key ref) key)) [
          | inl s ↦ rw (s, ← eq_of_str_eq (service_key ref) key s) e
          | inr s ↦ rw s
        ]),
)
check_of_entry guard now ref (some c) e = (
  rw (e, check_circuit) (ground arith),
  λ key.
      rw (e, check_circuit)
        (elim (Bool-cases (leb max_strikes c.consecutive_strikes)) [
          | inr p ↦ rw p (unchanged key)
          | inl p ↦ elim (Bool-cases (ltb now c.paused_until)) [
            | inl q ↦ rw (p, q) (unchanged key)
            | inr q ↦ rw (p, q) (lookup-erase (service_key ref) key guard.circuits)
          ]
        ]),
)
  where
    unchanged :
        (key : String)
        → lookup key guard.circuits
          ≡ (if str_eq (service_key ref) key then some c else lookup key guard.circuits)
    unchanged key = elim (Bool-cases (str_eq (service_key ref) key)) [
      | inl s ↦ rw (s, ← eq_of_str_eq (service_key ref) key s) e
      | inr s ↦ rw s
    ]

call-Agrees :
    (guard : SafetyGuard) (c : CircuitCall) (key : String) (t : Tally)
    → Agrees (lookup key guard.circuits) t
    → Agrees (lookup key (run_call guard c).circuits) (tally_call key t c)
unfolding run_call
call-Agrees guard (outcome ref o now) key t h = outcome-Agrees guard ref o now key t h
call-Agrees guard (check ref now) key t h =
    rw ((check_of_entry guard now ref (lookup (service_key ref) guard.circuits) refl).1 key)
      (elim (Bool-cases (str_eq (service_key ref) key)) [
        | inl e ↦ rw e (
            left-Agrees (lookup (service_key ref) guard.circuits) t now
              (rw (eq_of_str_eq (service_key ref) key e) h))
        | inr e ↦ rw e h
      ])

calls-Agrees :
    (cs : List CircuitCall) (guard : SafetyGuard) (key : String) (t : Tally)
    → Agrees (lookup key guard.circuits) t
    → Agrees (lookup key (run_calls guard cs).circuits) (tally key t cs)
unfolding run_calls
calls-Agrees [] guard key t h = h
calls-Agrees (c ∷ cs) guard key t h =
    calls-Agrees cs (run_call guard c) key (tally_call key t c) (call-Agrees guard c key t h)

-- After any calls for any services, CheckCircuit refuses a service exactly when its own outcomes end in
-- three or more strikes in a row, the last less than 15 minutes ago, counted anew after each
-- improvement and after each check that found the pause over; StrikeCount is the number of these
-- strikes.
pub check_circuit_refines_tally :
    (cs : List CircuitCall) (ref : ServiceRef) (now : ℕ)
    → let guard = run_calls new_safety_guard cs in
      let t = tally (service_key ref) clear cs in
      ((check_circuit guard now ref).1 ≡ (if is_open t now then some circuit_open else none))
      × (strike_count guard ref ≡ t.strikes)
unfolding new_safety_guard strike_count
check_circuit_refines_tally cs ref now =
    let guard = run_calls new_safety_guard cs in
    let t = tally (service_key ref) clear cs in
    let agrees = calls-Agrees cs new_safety_guard (service_key ref) clear (unfold lookup in refl) in
    (
      rw (
        (check_of_entry guard now ref (lookup (service_key ref) guard.circuits) refl).0,
        blocked-is_open (lookup (service_key ref) guard.circuits) t now agrees,
      ),
      count_of (lookup (service_key ref) guard.circuits) t agrees,
    )
  where
    count_of :
        (o : Option CircuitEntry) (t : Tally)
        → Agrees o t
        → (elim o [ none ↦ 0 | some e ↦ e.consecutive_strikes ]) ≡ t.strikes
    count_of none t h = sym h
    count_of (some e) t h = h.0
