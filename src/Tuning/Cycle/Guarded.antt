-- ===== src/Tuning/Cycle/Guarded.antt =====
-- When a cycle calls Apply.
use optipilot_ai.Prelude.{
  if-split, Float64, String, List, Option, ℕ, ℤ, pos, none, some, [], ◌∷◌, ◌≡◌, ◌≢◌, Bool-cases,
  ◌⊎◌, str_eq, inl, inr, Option-cases, false, refl, Memᴰ, arith, get_elem?, suc, zero,
}
use optipilot_ai.Tuning.Types.{
  TunableParameter, TuningSafetyPolicy, ParameterObservation, error_phase, ApplicationTuning,
  exploring,
}
use optipilot_ai.Tuning.Grid.{GridResult, grid_error, points, out_of_fuel, generate_grid}
use optipilot_ai.Tuning.Choice.{next_parameter_to_tune, is_converged}
use optipilot_ai.Tuning.Cycle.{
  CycleEnv, CycleResult, Outcome, cooldown_end, resolve_safety_policy, in_cooldown_at, can_change,
  apply_step, value_step, parameter_step, change_step, fetched_step, run_cycle, slo, fetch_error,
  Fetched, parameter_at, merged, new_observation, new_result, no_message,
}

mem_of_get_elem? :
    (p : TunableParameter) (i : ℕ) (ps : List TunableParameter)
    → get_elem? ps i ≡ some p
    → Memᴰ p ps
mem_of_get_elem? p i [] h = cc
mem_of_get_elem? p zero (x ∷ xs) h = Memᴰ.head (ground arith)
mem_of_get_elem? p (suc i) (x ∷ xs) h = Memᴰ.tail (mem_of_get_elem? p i xs h)

parameter_at-mem :
    (p : TunableParameter) (ps : List TunableParameter) (o : Option ℕ)
    → parameter_at ps o ≡ some p
    → Memᴰ p ps
unfolding parameter_at
parameter_at-mem p ps none h = cc
parameter_at-mem p ps (some i) h = mem_of_get_elem? p i ps h

module _ {F : Type 0} ⦃fl : Float64 F⦄ (env : CycleEnv F) where
  -- At most one call, of a parameter that Q holds of. The result names it, with the cooldown that it
  -- starts, exactly when the call succeeded.
  abbrev pub Calls : (TunableParameter → Type 0) → String → ℤ → Outcome F → Type 0
  Calls Q namespace until (r, []) = r.new_cooldown_until ≡ none
  Calls Q namespace until (r, (p, v) ∷ []) =
      Q p
      × (((env.apply namespace p v ≡ none)
            × (r.parameter_changed ≡ p.name)
            × (r.new_value ≡ v)
            × (r.new_cooldown_until ≡ some until))
          ⊎ ((env.apply namespace p v ≢ none)
              × (r.new_phase ≡ error_phase)
              × (r.new_cooldown_until ≡ none)))
  Calls Q namespace until (r, c ∷ d ∷ cs) = ⊥

  module _ (Q : TunableParameter → Type 0) (at : ApplicationTuning F) where
    apply_step-Calls :
        (result : CycleResult F) (policy : TuningSafetyPolicy F) (param : TunableParameter)
        (current new : String) (value : F)
        → Q param
        → result.new_cooldown_until ≡ none
        → Calls Q at.namespace
            (cooldown_end env policy)
            (apply_step env at.namespace result policy param current new value)
    unfolding apply_step
    apply_step-Calls result policy param current new value q h =
        elim (Bool-cases (str_eq new current)) [
          | inl e ↦ rw e h
          | inr e ↦ elim (Option-cases (env.apply at.namespace param new)) [
            | inl a ↦ rw (e, a) (q, inl (refl, refl, refl, refl))
            | inr (err, a) ↦ rw (e, a) (q, inr (λ n. cc, refl, refl))
          ]
        ]

    over :
        (policy : TuningSafetyPolicy F)
        → can_change policy env.later at.status ≡ none
        → in_cooldown_at env.later at.status.cooldown_until ≡ false
    unfolding can_change
    over policy e = ground arith

    module _ (result : CycleResult F) (obs : List (ParameterObservation F)) (value : F)
        (h : result.new_cooldown_until ≡ none) where
      parameter_step-Calls :
          (policy : TuningSafetyPolicy F) (o : Option TunableParameter)
          → ((p : TunableParameter) → o ≡ some p → Q p)
          → Calls Q at.namespace
              (cooldown_end env policy)
              (parameter_step env at result policy obs value o)
      unfolding parameter_step value_step
      parameter_step-Calls policy none q = refl
      parameter_step-Calls policy (some p) q = by_grid (generate_grid env.nums p (pos 20)) refl
        where
          by_grid :
              (g : GridResult F)
              → generate_grid env.nums p (pos 20) ≡ g
              → Calls Q at.namespace
                  (cooldown_end env policy)
                  (parameter_step env at result policy obs value (some p))
          by_grid (grid_error e) r = rw (parameter_step, r) refl
          by_grid out_of_fuel r = rw (parameter_step, r) refl
          by_grid (points grid) r =
              rw (parameter_step, r) (apply_step-Calls result policy p _ _ value (q p refl) h)

      change_step-Calls :
          ((p : TunableParameter)
            → in_cooldown_at env.later at.status.cooldown_until ≡ false
            → Memᴰ p at.spec.parameters
            → Q p)
          → Calls Q at.namespace
              (cooldown_end env (resolve_safety_policy at.spec.safety_policy))
              (change_step env at result obs value)
      unfolding change_step
      change_step-Calls q =
          let policy = resolve_safety_policy at.spec.safety_policy in
          let params = at.spec.parameters in
          let next = next_parameter_to_tune env.sort params at.status.active_parameter obs in
          elim (Option-cases (can_change policy env.later at.status)) [
            | inr (reason, e) ↦ rw (change_step, e) h
            | inl e ↦ elim (Bool-cases (is_converged params obs)) [
              | inl c ↦ rw (change_step, e, c) refl
              | inr c ↦
                  rw (change_step, e, c)
                    (parameter_step-Calls policy (parameter_at params next)
                      (λ p k. q p (over policy e) (parameter_at-mem p params next k)))
            ]
          ]

    fetched_step-Calls :
        ((p : TunableParameter)
          → in_cooldown_at env.later at.status.cooldown_until ≡ false
          → Memᴰ p at.spec.parameters
          → Q p)
        → (a : Fetched F)
        → Calls Q at.namespace
            (cooldown_end env (resolve_safety_policy at.spec.safety_policy))
            (fetched_step env at a)
    unfolding fetched_step
    fetched_step-Calls q (fetch_error e) = refl
    fetched_step-Calls q (slo v) =
        change_step-Calls
          (record (new_result exploring no_message) {
            observation = new_observation env at.status v;
          })
          (merged at.status.observations (new_observation env at.status v)) v refl q

  -- What must hold for a parameter to be changed: tuning is not paused, no cooldown is running, and the
  -- parameter is one of the spec.
  abbrev pub MayChange : ApplicationTuning F → TunableParameter → Type 0
  MayChange at p =
      (at.spec.paused ≡ false)
      × (in_cooldown_at env.later at.status.cooldown_until ≡ false)
      × Memᴰ p at.spec.parameters

  -- RunCycle calls Apply at most once, on a parameter of the spec, and only when tuning is not paused and
  -- no cooldown is running. If the call succeeds the result names the parameter, the value and the end
  -- of the new cooldown; if it fails the phase is Error; without a call no cooldown starts.
  pub run_cycle_guarded :
      (at : ApplicationTuning F)
      → Calls
          (MayChange at)
          at.namespace
          (cooldown_end env (resolve_safety_policy at.spec.safety_policy))
          (run_cycle env at)
  unfolding run_cycle
  run_cycle_guarded at =
      if-split
        (Calls (MayChange at) at.namespace
          (cooldown_end env (resolve_safety_policy at.spec.safety_policy)))
        at.spec.paused _ _ (λ e. refl)
        (λ e.
          fetched_step-Calls (MayChange at) at (λ p c m. (e, c, m))
            (env.fetch_slo at.namespace at.spec.target_ref.name))
