-- ===== src/Actuator/Pipeline/Cooldown.antt =====
-- The cooldown over a sequence of the controller's calls of actuate.
use optipilot_ai.Prelude.{
  Option, String, ℕ, Bool, List, lookup, pos, pos_part, [], some, ◌*◌, ◌<ℤ◌, ◌∷◌, ◌≡◌, false,
  if◌then◌else◌, true, ◌+◌, none, ◌&&◌, ◌≤◌, arith, str_eq, lookup-insert, Bool-cases, refl, inl,
  inr, eq_of_str_eq, ap, ◌∙◌, Option-cases,
}
use optipilot_ai.Actuator.Types.{ServiceRef, ActuationOptions}
use optipilot_ai.Actuator.Guard.{
  Client, SafetyGuard, ActuationOutcome, improved, degraded, second, service_key, check_cooldown,
  check_circuit, record_actuation, record_outcome, new_safety_guard, allow,
}
use optipilot_ai.Actuator.Pipeline.{
  Attempt, ActuateEvent, actuated, actuate_guarded, actuate, record_result, result_event,
}

abbrev pub is_actuated : ActuateEvent → Bool
is_actuated actuated = true
is_actuated event = false

check_circuit-cooldowns :
    (guard : SafetyGuard) (now : ℕ) (ref : ServiceRef)
    → (check_circuit guard now ref).0.cooldowns ≡ guard.cooldowns
unfolding check_circuit
check_circuit-cooldowns guard now ref = ground arith

record_outcome-cooldowns :
    (guard : SafetyGuard) (now : ℕ) (ref : ServiceRef) (o : ActuationOutcome)
    → (record_outcome guard now ref o).cooldowns ≡ guard.cooldowns
unfolding record_outcome
record_outcome-cooldowns guard now ref improved = refl
record_outcome-cooldowns guard now ref degraded = refl

module _ {F : Type 0} where
  abbrev pub gap : Attempt F → ℕ
  gap a = pos_part a.opts.cooldown_seconds * second

  -- The calls for one service that emit Actuated.
  unfoldable pub actuations : String → Option SafetyGuard → List (Attempt F) → List (Attempt F)
  actuations key guard [] = []
  actuations key guard (a ∷ rest) =
      let later = actuations key (actuate guard a).0 rest in
      if is_actuated (actuate guard a).1 && str_eq (service_key a.ref) key then a ∷ later else later

  -- Each call with a positive cooldown is checked its cooldown or more after the one before was recorded.
  abbrev pub Spaced : Option ℕ → List (Attempt F) → Type 0
  Spaced last [] = Unit
  Spaced none (a ∷ rest) = Spaced (some a.done_at) rest
  Spaced (some l) (a ∷ rest) =
      (pos 0 <ℤ a.opts.cooldown_seconds → l + gap a ≤ a.allowed_at) × Spaced (some a.done_at) rest

  allow-cooldowns :
      (client : Client) (guard : SafetyGuard) (now : ℕ) (ref : ServiceRef)
      (opts : ActuationOptions F)
      → (allow client guard now ref opts).0.cooldowns ≡ guard.cooldowns
  unfolding allow
  allow-cooldowns client guard now ref opts = ground (arith, check_circuit-cooldowns guard now ref)

  record_result-cooldowns :
      (guard : SafetyGuard) (a : Attempt F) (key : String)
      → lookup key (record_result guard a).cooldowns ≡ (
          if is_actuated (result_event a) && str_eq (service_key a.ref) key
          then some a.done_at
          else lookup key guard.cooldowns)
  unfolding record_result result_event record_actuation record_outcome
  record_result-cooldowns guard a key = elim (Option-cases a.result) [
    | inl e ↦ rw e refl
    | inr (r, e) ↦ rw e (elim (Bool-cases r.applied) [
      | inl p ↦ rw p (lookup-insert (service_key a.ref) key a.done_at guard.cooldowns)
      | inr p ↦ rw p refl
    ])
  ]

  -- Only an actuation moves a cooldown, that of its service.
  stamped :
      (guard : SafetyGuard) (a : Attempt F) (key : String)
      → lookup key (actuate_guarded guard a).0.cooldowns ≡ (
          if is_actuated (actuate_guarded guard a).1 && str_eq (service_key a.ref) key
          then some a.done_at
          else lookup key guard.cooldowns)
  unfolding actuate_guarded
  stamped guard a key =
      let guard' = (allow a.client guard a.allowed_at a.ref a.opts).0 in
      let same = ap (lookup key) (allow-cooldowns a.client guard a.allowed_at a.ref a.opts) in
      elim (Option-cases (allow a.client guard a.allowed_at a.ref a.opts).1) [
        | inr (e, q) ↦ rw (actuate_guarded, q) same
        | inl q ↦
            rw (actuate_guarded, q)
              (record_result-cooldowns guard' a key
                ∙ ap
                    (λ o.
                      if is_actuated (result_event a) && str_eq (service_key a.ref) key
                      then some a.done_at
                      else o)
                    same)
      ]

  passed_gap :
      (guard : SafetyGuard) (a : Attempt F) (l : ℕ)
      → lookup (service_key a.ref) guard.cooldowns ≡ some l
      → is_actuated (actuate_guarded guard a).1 ≡ true
      → pos 0 <ℤ a.opts.cooldown_seconds
      → l + gap a ≤ a.allowed_at
  unfolding actuate_guarded allow check_cooldown
  passed_gap guard a l e ok h = ground arith

  Spaced-cons :
      (o : Option ℕ) (a : Attempt F) (rest : List (Attempt F))
      → ((l : ℕ) → o ≡ some l → pos 0 <ℤ a.opts.cooldown_seconds → l + gap a ≤ a.allowed_at)
      → Spaced (some a.done_at) rest
      → Spaced o (a ∷ rest)
  Spaced-cons none a rest h s = s
  Spaced-cons (some l) a rest h s = (h l refl, s)

  actuations-Spaced_from :
      (attempts : List (Attempt F)) (guard : SafetyGuard) (key : String)
      → Spaced (lookup key guard.cooldowns) (actuations key (some guard) attempts)
  unfolding actuations actuate
  actuations-Spaced_from [] guard key = tt
  actuations-Spaced_from (a ∷ rest) guard key =
      let ih = actuations-Spaced_from rest (actuate_guarded guard a).0 key in
      elim (Bool-cases
        (is_actuated (actuate_guarded guard a).1 && str_eq (service_key a.ref) key)) [
          | inl p ↦ rw p (
              Spaced-cons (lookup key guard.cooldowns) a
                (actuations key (some (actuate_guarded guard a).0) rest)
                (λ l e.
                  passed_gap guard a l (rw (eq_of_str_eq (service_key a.ref) key (ground arith)) e)
                    (ground arith))
                (rw (stamped guard a key, p) at ih))
          | inr p ↦ rw p (rw (stamped guard a key, p) at ih)
        ]

  -- Over any calls of actuate for any services, with a new SafetyGuard and whatever Apply returns, the
  -- calls for a service that apply an action are spaced: one whose options have a positive cooldown was
  -- checked at least that cooldown after the one before was recorded.
  pub actuations-Spaced :
      (attempts : List (Attempt F)) (ref : ServiceRef)
      → Spaced none (actuations (service_key ref) (some new_safety_guard) attempts)
  unfolding new_safety_guard lookup
  actuations-Spaced attempts ref =
      actuations-Spaced_from attempts new_safety_guard (service_key ref)
