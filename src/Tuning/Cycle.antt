-- ===== src/Tuning/Cycle.antt =====
-- RunCycle of internal/tuning/optimizer.go, with its guards. The SLO fetcher, the applier, the clock, which
-- is read twice, sort.Slice and strconv are arguments. A message is its kind with its values.
pub mod Guarded
use optipilot_ai.Prelude.{
  Float64, String, List, Option, Bool, ℕ, ℤ, pos, lookup, none, some, [], ◌∷◌, false, if◌then◌else◌,
  true, eqb_ℤ, get_elem?, ltb_ℤ, str_eq, ◌&&◌, ◌++◌, lookup_or, ◌+ℤ◌, ◌*ℤ◌,
}
use optipilot_ai.Tuning.Types.{
  Numerals, ParameterType, string_type, TunableParameter, TuningSafetyPolicy, ParameterObservation,
  TuningPhase, exploring, observing, converged, paused_phase, error_phase, ApplicationTuningStatus,
  ApplicationTuning,
}
use optipilot_ai.Tuning.Grid.{
  GridPoint, GridError, GridResult, grid_error, points, out_of_fuel, format_value, generate_grid,
}
use optipilot_ai.Tuning.Choice.{Ranked, select_optimal, is_converged, next_parameter_to_tune}

pub data Message (F : Type 0) : Type 0 where
  no_message tuning_paused all_converged no_parameters : Message F
  fetch_failed : String → Message F
  in_cooldown : ℤ → Message F
  slo_below : F → F → Message F
  grid_failed : GridResult F → Message F
  apply_failed : String → Message F
  exploring_value : String → String → F → Message F

-- CycleResult
pub record CycleResult (F : Type 0) : Type 0 where
  pub new_phase : TuningPhase
  pub parameter_changed : String
  pub new_value : String
  pub observation : Option (ParameterObservation F)
  pub new_cooldown_until : Option ℤ
  pub message : Message F
  pub is_converged_now : Bool

pub data Fetched (F : Type 0) : Type 0 where
  slo : F → Fetched F
  fetch_error : String → Fetched F

pub record CycleEnv (F : Type 0) : Type 0 where
  pub nums : Numerals F
  pub fetch_slo : String → String → Fetched F
  pub apply : String → TunableParameter → String → Option String
  pub now : ℕ
  pub later : ℕ
  pub sort : (Ranked → Ranked → Bool) → List Ranked → List Ranked

abbrev pub minute : ℕ
minute = 60_000_000_000

-- `status.CooldownUntil != nil && now.Before(...)`
unfoldable pub in_cooldown_at : ℕ → Option ℤ → Bool
in_cooldown_at now none = false
in_cooldown_at now (some until) = ltb_ℤ (pos now) until

-- What a cycle returns, with its calls of Apply.
abbrev pub Outcome : Type 0 → Type 0
Outcome F = CycleResult F × List (TunableParameter × String)

-- `params[nextIdx]`, with `none` for -1.
unfoldable pub parameter_at : List TunableParameter → Option ℕ → Option TunableParameter
parameter_at params none = none
parameter_at params (some i) = get_elem? params i

module _ {F : Type 0} ⦃fl : Float64 F⦄ where
  -- resolveSafetyPolicy
  unfoldable pub resolve_safety_policy : Option (TuningSafetyPolicy F) → TuningSafetyPolicy F
  resolve_safety_policy none = record {
    max_change_percent = pos 50;
    cooldown_minutes = pos 5;
    rollback_on_slo_violation = true;
    slo_threshold_percent = fl.of_int (pos 95);
  }
  resolve_safety_policy (some sp) = record sp {
    max_change_percent =
        if eqb_ℤ sp.max_change_percent (pos 0) then pos 50 else sp.max_change_percent;
    cooldown_minutes = if eqb_ℤ sp.cooldown_minutes (pos 0) then pos 5 else sp.cooldown_minutes;
    slo_threshold_percent =
        if fl.eq sp.slo_threshold_percent (fl.of_int (pos 0))
        then fl.of_int (pos 95)
        else sp.slo_threshold_percent;
  }

  -- CanChange, `none` for yes.
  unfoldable pub can_change :
      TuningSafetyPolicy F → ℕ → ApplicationTuningStatus F → Option (Message F)
  unfolding in_cooldown_at
  can_change policy now status =
      let threshold =
        if fl.eq policy.slo_threshold_percent (fl.of_int (pos 0))
        then fl.of_int (pos 95)
        else policy.slo_threshold_percent in
      if in_cooldown_at now status.cooldown_until
      then some (in_cooldown (elim status.cooldown_until [ none ↦ pos 0 | some u ↦ u ]))
      else if policy.rollback_on_slo_violation
          && fl.lt (fl.of_int (pos 0)) status.best_slo_value
          && fl.lt status.best_slo_value threshold
      then some (slo_below status.best_slo_value threshold)
      else none

  -- The values that WithinChangeBounds and clampToMaxChange compare, when both can be read and the
  -- current one is not 0.
  unfoldable pub comparable : Numerals F → ParameterType → String → String → Option (F × F)
  comparable nums string_type current proposed = none
  comparable nums t current proposed = elim (nums.parse_float current) [
    | none ↦ none
    | some cur ↦ elim (nums.parse_float proposed) [
      | none ↦ none
      | some prop ↦ if fl.eq cur (fl.of_int (pos 0)) then none else some (cur, prop)
    ]
  ]

  -- WithinChangeBounds
  unfoldable pub within_change_bounds : Numerals F → TunableParameter → String → String → ℤ → Bool
  unfolding comparable
  within_change_bounds nums param current proposed max_change_percent =
      elim (comparable nums param.type current proposed) [
        | none ↦ true
        | some (cur, prop) ↦
            let diff =
              fl.mul (fl.div (nums.abs (fl.sub prop cur)) (nums.abs cur)) (fl.of_int (pos 100)) in
            let limit = fl.of_int max_change_percent in
            fl.le diff (if fl.eq limit (fl.of_int (pos 0)) then fl.of_int (pos 50) else limit)
      ]

  -- clampToMaxChange
  unfoldable pub clamp_to_max_change : Numerals F → TunableParameter → String → String → ℤ → String
  unfolding comparable format_value
  clamp_to_max_change nums param current proposed max_pct =
      elim (comparable nums param.type current proposed) [
        | none ↦ proposed
        | some (cur, prop) ↦
            let ratio = fl.div (fl.of_int max_pct) (fl.of_int (pos 100)) in
            let limit = if fl.eq ratio (fl.of_int (pos 0)) then fl.lit 5 1 else ratio in
            let max_delta = fl.mul (nums.abs cur) limit in
            format_value nums param.type (
              if fl.lt (fl.add cur max_delta) prop
              then fl.add cur max_delta
              else if fl.lt prop (fl.sub cur max_delta)
              then fl.sub cur max_delta
              else prop)
      ]

  abbrev pub new_result : TuningPhase → Message F → CycleResult F
  new_result phase message = record {
    new_phase = phase;
    parameter_changed = "";
    new_value = "";
    observation = none;
    new_cooldown_until = none;
    message = message;
    is_converged_now = false;
  }

  -- The end of the cooldown that a change starts, minutes after `now`.
  unfoldable pub cooldown_end : CycleEnv F → TuningSafetyPolicy F → ℤ
  cooldown_end env policy =
      let mins = if eqb_ℤ policy.cooldown_minutes (pos 0) then pos 5 else policy.cooldown_minutes in
      pos env.now +ℤ mins *ℤ pos minute

  -- Step 8.
  unfoldable pub apply_step :
      CycleEnv F
      → String
      → CycleResult F
      → TuningSafetyPolicy F
      → TunableParameter
      → String
      → String
      → F
      → Outcome F
  unfolding cooldown_end
  apply_step env namespace result policy param current new slo_value =
      let message = exploring_value param.name new slo_value in
      if str_eq new current then (record result { message = message }, []) else (
        elim (env.apply namespace param new) [
          | some e ↦ new_result error_phase (apply_failed e)
          | none ↦ record result {
            parameter_changed = param.name;
            new_value = new;
            new_cooldown_until = some (cooldown_end env policy);
            message = message;
          }
        ],
        (param, new) ∷ [],
      )

  -- Steps 6 and 7, for the parameter and its grid.
  unfoldable pub value_step :
      CycleEnv F
      → ApplicationTuning F
      → CycleResult F
      → TuningSafetyPolicy F
      → List (ParameterObservation F)
      → F
      → TunableParameter
      → List (GridPoint F)
      → Outcome F
  unfolding select_optimal within_change_bounds clamp_to_max_change apply_step lookup
  value_step env at result policy obs slo_value param grid =
      let given = at.spec.optimization_target.objective in
      let objective = if str_eq given "" then "minimize" else given in
      let picked = (select_optimal env.nums param grid obs objective).0 in
      let stored = lookup_or "" param.name at.status.current_values in
      let current = if str_eq stored "" then param.default else stored in
      let new =
        if within_change_bounds env.nums param current picked policy.max_change_percent
        then picked
        else clamp_to_max_change env.nums param current picked policy.max_change_percent in
      apply_step env at.namespace result policy param current new slo_value

  unfoldable pub parameter_step :
      CycleEnv F
      → ApplicationTuning F
      → CycleResult F
      → TuningSafetyPolicy F
      → List (ParameterObservation F)
      → F
      → Option TunableParameter
      → Outcome F
  unfolding generate_grid value_step
  parameter_step env at result policy obs slo_value none =
      (new_result error_phase no_parameters, [])
  parameter_step env at result policy obs slo_value (some param) =
      elim (generate_grid env.nums param (pos 20)) [
        | points grid ↦ value_step env at result policy obs slo_value param grid
        | failed ↦ (new_result error_phase (grid_failed failed), [])
      ]

  -- Steps 3 to 8, from the observations and the result so far.
  unfoldable pub change_step :
      CycleEnv F
      → ApplicationTuning F
      → CycleResult F
      → List (ParameterObservation F)
      → F
      → Outcome F
  unfolding resolve_safety_policy can_change is_converged next_parameter_to_tune parameter_at
      parameter_step
  change_step env at result obs slo_value =
      let policy = resolve_safety_policy at.spec.safety_policy in
      let params = at.spec.parameters in
      elim (can_change policy env.later at.status) [
        | some reason ↦ (record result { new_phase = observing; message = reason }, [])
        | none ↦
            if is_converged params obs
            then (record (new_result converged all_converged) { is_converged_now = true }, [])
            else parameter_step env at result policy obs slo_value (
                parameter_at params
                  (next_parameter_to_tune env.sort params at.status.active_parameter obs))
      ]

  -- Step 2.
  unfoldable pub new_observation :
      CycleEnv F → ApplicationTuningStatus F → F → Option (ParameterObservation F)
  unfolding lookup
  new_observation env status slo_value =
      if str_eq status.active_parameter ""
      then none
      else some (record {
        parameter_name = status.active_parameter;
        value = lookup_or "" status.active_parameter status.current_values;
        slo_value = slo_value;
        observed_at = env.now;
      })

  abbrev pub merged :
      List (ParameterObservation F)
      → Option (ParameterObservation F)
      → List (ParameterObservation F)
  merged obs none = obs
  merged obs (some o) = obs ++ o ∷ []

  -- RunCycle from the answer to the fetch on.
  unfoldable pub fetched_step : CycleEnv F → ApplicationTuning F → Fetched F → Outcome F
  unfolding new_observation change_step
  fetched_step env at (fetch_error e) = (new_result error_phase (fetch_failed e), [])
  fetched_step env at (slo value) =
      let obs = new_observation env at.status value in
      change_step env at (record (new_result exploring no_message) { observation = obs })
        (merged at.status.observations obs) value

  -- RunCycle
  unfoldable pub run_cycle : CycleEnv F → ApplicationTuning F → Outcome F
  unfolding fetched_step
  run_cycle env at =
      if at.spec.paused
      then (new_result paused_phase tuning_paused, [])
      else fetched_step env at (env.fetch_slo at.namespace at.spec.target_ref.name)
