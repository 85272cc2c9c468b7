-- ===== src/Tuning/Tests.antt =====
-- Runs of the tuning optimizer, and its theorems there.
use optipilot_ai.Prelude.Sorting.{insertion_sort, insertion_sort_lem}
use optipilot_ai.Prelude.{
  ap, ◌∙◌, String, List, ℕ, ℤ, ◌≡◌, none, some, [], ◌∷◌, pos, true, false, Memᴰ, refl, ◌≢◌,
  if◌then◌else◌, str_eq, ◌⊎◌, eqb_ℤ, ltb_ℤ, sub_ℕ, neg_part, pos_part, negsuc, get_elem?, ◌≤◌,
  str_eq_refl,
}
use optipilot_ai.Prelude.Thousandths.{Thousandths, thousandths}
use optipilot_ai.Tuning.Types.{
  Numerals, TunableParameter, integer_type, string_type, ParameterObservation, ApplicationTuning,
  source_env, idle,
}
use optipilot_ai.Tuning.Grid.{GridPoint, points, generate_grid}
use optipilot_ai.Tuning.Grid.{generate_grid_ends, IsBounded}
use optipilot_ai.Tuning.Choice.{fewer, select_optimal, next_parameter_to_tune, count_of}
use optipilot_ai.Tuning.Choice.Optimal.{select_optimal_explores, IsObserved}
use optipilot_ai.Tuning.Choice.Next.{next_parameter_to_tune_lem}
use optipilot_ai.Tuning.Cycle.{CycleEnv, slo, run_cycle, cooldown_end, resolve_safety_policy}
use optipilot_ai.Tuning.Cycle.Guarded.{Calls, MayChange, run_cycle_guarded}

-- The numbers that the runs below name.
abbrev numerals : Numerals Thousandths
numerals = record {
  parse_float = λ s.
      if str_eq s "0"
      then some (pos 0)
      else if str_eq s "5"
      then some (pos 5000)
      else if str_eq s "10"
      then some (pos 10000)
      else none;
  format_float = λ x. if eqb_ℤ x (pos 5000) then "5" else "other";
  format_int = λ n.
      if eqb_ℤ n (pos 0)
      then "0"
      else if eqb_ℤ n (pos 5)
      then "5"
      else if eqb_ℤ n (pos 3)
      then "3"
      else "10";
  is_finite = λ x. true;
  abs = λ x. if ltb_ℤ x (pos 0) then sub_ℕ (neg_part x) 0 else x;
  neg = λ x. sub_ℕ (neg_part x) (pos_part x);
  neg_inf = negsuc 1_000_000_000;
}

abbrev parameter : String → TunableParameter
parameter name = record {
  name = name;
  type = integer_type;
  source = source_env;
  config_map_ref = none;
  env_var_name = "WORKERS";
  min = "0";
  max = "10";
  step = "5";
  allowed_values = [];
  default = "5";
}

abbrev observed : String → String → ℤ → ParameterObservation Thousandths
observed name value slo_value = record {
  parameter_name = name;
  value = value;
  slo_value = slo_value;
  observed_at = 0;
}

grid_has_end :
    generate_grid numerals (parameter "workers") (pos 2)
    ≡ points (
        record { value = "0"; float = pos 0 }
        ∷ record { value = "5"; float = pos 5000 }
        ∷ record { value = "10"; float = pos 10000 }
        ∷ [])
unfolding generate_grid
grid_has_end = refl

generate_grid_ends_example :
    IsBounded numerals (pos 2) (generate_grid numerals (parameter "workers") (pos 2))
generate_grid_ends_example =
    generate_grid_ends numerals (parameter "workers") (pos 2) (λ e. is_integer e)
  where
    is_integer : integer_type ≡ string_type → ⊥
    is_integer e = cc

abbrev grid : List (GridPoint Thousandths)
grid = record { value = "5"; float = pos 5000 } ∷ record { value = "10"; float = pos 10000 } ∷ []

select_optimal_explores_example :
    ((select_optimal numerals
        (parameter "workers")
        (record { value = "0"; float = pos 0 } ∷ grid)
        (observed "workers" "5" (pos 990) ∷ [])
        "maximize").0
      ≡ "0")
    ⊎ IsObserved "workers"
        (select_optimal numerals
          (parameter "workers")
          (record { value = "0"; float = pos 0 } ∷ grid)
          (observed "workers" "5" (pos 990) ∷ [])
          "maximize").0
        (observed "workers" "5" (pos 990) ∷ [])
select_optimal_explores_example =
    select_optimal_explores numerals (parameter "workers") (record { value = "0"; float = pos 0 })
      grid (observed "workers" "5" (pos 990) ∷ []) "maximize"

abbrev tuning : ApplicationTuning Thousandths
tuning = record {
  namespace = "shop";
  spec = record {
    target_ref = record {
      api_version = "apps/v1";
      kind = "Deployment";
      name = "cart";
      namespace = "shop";
    };
    parameters = parameter "workers" ∷ parameter "pool" ∷ [];
    optimization_target = record { metric_name = "latency"; promql_expr = ""; objective = "" };
    safety_policy = none;
    optimization_interval_minutes = pos 5;
    max_observations = pos 20;
    paused = false;
  };
  status = record {
    phase = idle;
    current_values = [];
    best_values = [];
    best_slo_value = pos 0;
    active_parameter = "workers";
    observations = observed "workers" "10" (pos 900) ∷ [];
    last_optimization_time = none;
    next_optimization_time = none;
    cooldown_until = none;
    message = "";
  };
}

abbrev env : CycleEnv Thousandths
env = record {
  nums = numerals;
  fetch_slo = λ namespace name. slo (pos 990);
  apply = λ namespace p v. none;
  now = 0;
  later = 1;
  sort = insertion_sort;
}

run_cycle_calls : (run_cycle env tuning).1 ≡ (parameter "pool", "3") ∷ []
unfolding run_cycle
run_cycle_calls = refl

run_cycle_guarded_example :
    Calls env
      (MayChange env tuning)
      "shop"
      (cooldown_end env (resolve_safety_policy none))
      (run_cycle env tuning)
run_cycle_guarded_example = run_cycle_guarded env tuning

next_parameter_to_tune_lem_example :
    (k : ℕ) × (x : TunableParameter) × (next_parameter_to_tune insertion_sort tuning.spec.parameters
        "workers" tuning.status.observations
      ≡ some k)
    × (get_elem? tuning.spec.parameters k ≡ some x)
    × (x.name ≢ "workers")
    × (count_of x.name tuning.status.observations ≤ count_of "pool" tuning.status.observations)
next_parameter_to_tune_lem_example =
    next_parameter_to_tune_lem insertion_sort (insertion_sort_lem fewer) tuning.spec.parameters
      "workers" tuning.status.observations (parameter "pool") (Memᴰ.tail (Memᴰ.head refl)) different
  where
    different : (parameter "pool").name ≢ "workers"
    different e =
        let t : false ≡ true = ap (λ s. str_eq s "workers") e ∙ str_eq_refl "workers" in cc
