-- ===== src/Engine/Solver.antt =====
-- internal/engine/solver.go: one optimisation cycle. The clock, the decision ID, math/rand and
-- math.MaxFloat64 are arguments.
use optipilot_ai.Prelude.{
  Float64, ℕ, Bool, List, ℤ, String, [], none, some, wrap32, ◌∷◌, not, ◌++◌, if◌then◌else◌, ltb_ℤ,
  ◌||◌, Option, false, filterb, insert, map, Map, any,
}
pub mod Safety
pub mod Context
use optipilot_ai.Engine.Types.{
  CandidatePlan, CurrentState, SolverInput, MatchedPolicy, OptimizationPolicy, PolicyObjective,
  ActionType, scale_up, scale_down, tune, no_action, Reason, text, scale_up_reason,
  scale_down_reason, tune_reason, tune_spot_reason, ScalingAction, ScoredCandidate, DecisionRecord,
}
use optipilot_ai.Cel.{CelEnv, PolicyEngine}
use optipilot_ai.Engine.Candidates.{
  generate_candidates, pre_warming_candidates, spot_reduction_candidates,
}
use optipilot_ai.Engine.Scorer.{score_all}
use optipilot_ai.Engine.Constraints.{apply_policies}
use optipilot_ai.Engine.Pareto.{find_pareto_front, select_best}

-- What a cycle takes from its surroundings.
pub record Surroundings (F : Type 0) : Type 0 where
  pub perm : ℕ → List ℕ
  pub max_float : F
  pub decision_id : String
  pub now : ℕ

module _ {F : Type 0} ⦃fl : Float64 F⦄ where
  -- Steps 1 and 1b of Solve.
  unfoldable pub all_candidates : Surroundings F → SolverInput F → ℤ → List (CandidatePlan F)
  unfolding generate_candidates pre_warming_candidates spot_reduction_candidates
  all_candidates s input max_candidates =
      let generated = generate_candidates s.perm input max_candidates in
      elim input.forecast [
        | none ↦ generated
        | some f ↦
            (generated
              ++ (if fl.lt (fl.lit 150 1) f.change_percent
                  then pre_warming_candidates input
                  else []))
            ++ (if fl.lt (fl.lit 6 1) f.spot_risk_score
                then spot_reduction_candidates input
                else [])
      ]

  -- collectObjectives, with the source of each objective left out.
  unfoldable pub collect_objectives : List (MatchedPolicy F) → List (PolicyObjective F)
  collect_objectives [] = []
  collect_objectives (mp ∷ mps) = mp.policy.objectives ++ collect_objectives mps

  -- buildAction
  unfoldable pub build_action : SolverInput F → ScoredCandidate F → Bool → ScalingAction F
  build_action input best dry_run =
      let current = input.current in
      let action : ActionType → Reason F → ScalingAction F = λ t r. record {
        type = t;
        target_replica = wrap32 best.plan.replicas;
        cpu_request = best.plan.cpu_request;
        memory_request = best.plan.memory_request;
        spot_ratio = best.plan.spot_ratio;
        dry_run = dry_run;
        reason = r;
        confidence = best.score.weighted;
        tuning_params = [];
      } in
      let cpu_changed = not (fl.eq best.plan.cpu_request current.cpu_request) in
      let memory_changed = not (fl.eq best.plan.memory_request current.memory_request) in
      let spot_changed = not (fl.eq best.plan.spot_ratio current.spot_ratio) in
      if ltb_ℤ current.replicas best.plan.replicas
      then action scale_up (scale_up_reason current.replicas best.plan.replicas best.score.weighted)
      else if ltb_ℤ best.plan.replicas current.replicas
      then action scale_down
          (scale_down_reason current.replicas best.plan.replicas best.score.weighted)
      else if cpu_changed || memory_changed
      then (if spot_changed
          then action tune (tune_spot_reason best.plan current best.score.weighted)
          else action tune (tune_reason best.plan current best.score.weighted))
      else if spot_changed
      then action no_action (text "current state is optimal for supported actuators")
      else action no_action (text "current state is optimal")

  -- The no-action results of Solve: the current state, for a reason.
  unfoldable pub stay : SolverInput F → Bool → String → ScalingAction F
  stay input dry_run reason = record {
    type = no_action;
    target_replica = wrap32 input.current.replicas;
    cpu_request = input.current.cpu_request;
    memory_request = input.current.memory_request;
    spot_ratio = input.current.spot_ratio;
    dry_run = dry_run;
    reason = text reason;
    confidence = fl.lit 0 0;
    tuning_params = [];
  }

  -- The loop of buildRecord over the objectives.
  unfoldable pub objective_weights : Map F → List (PolicyObjective F) → Map F
  unfolding insert
  objective_weights m [] = m
  objective_weights m (o ∷ os) = objective_weights (insert o.name o.weight m) os

  -- buildRecord and the assignments of the action that follow its calls.
  unfoldable pub build_record :
      Surroundings F
      → SolverInput F
      → List (ScoredCandidate F)
      → List (ScoredCandidate F)
      → Bool
      → ScalingAction F
      → DecisionRecord F
  unfolding objective_weights collect_objectives
  build_record s input scored front dry_run action = record {
    id = s.decision_id;
    timestamp = s.now;
    namespace = input.namespace;
    service = input.service;
    trigger = input.trigger;
    current_state = input.current;
    slo_status = input.slo;
    tenant_status = input.tenant;
    forecast_state = input.forecast;
    cluster_state = some input.cluster;
    metrics = input.metrics;
    candidates = scored;
    pareto_front = front;
    selected_action = action;
    policy_names = map (λ mp. mp.policy.name) input.policies;
    objective_weights = objective_weights [] (collect_objectives input.policies);
    action_type = action.type;
    dry_run = dry_run;
    confidence = action.confidence;
  }

  -- noAction; the fields that it leaves out have their zero values, of ClusterState `none`.
  unfoldable pub no_action_record :
      Surroundings F → SolverInput F → ScalingAction F → DecisionRecord F
  no_action_record s input action = record {
    id = s.decision_id;
    timestamp = s.now;
    namespace = input.namespace;
    service = input.service;
    trigger = input.trigger;
    current_state = input.current;
    slo_status = input.slo;
    tenant_status = none;
    forecast_state = none;
    cluster_state = none;
    metrics = [];
    candidates = [];
    pareto_front = [];
    selected_action = action;
    policy_names = [];
    objective_weights = [];
    action_type = no_action;
    dry_run = false;
    confidence = fl.lit 0 0;
  }

  -- filterViable
  unfoldable pub filter_viable : List (ScoredCandidate F) → List (ScoredCandidate F)
  filter_viable scored = filterb (λ sc. sc.viable) scored

module _ {F : Type 0} (env : CelEnv F) ⦃fl : Float64 F⦄ where
  -- Steps 5 to 8 of Solve, from the scored candidates and the viable ones of them; `none` is the panic
  -- of SelectBest on an empty front.
  unfoldable pub choose_action :
      Surroundings F
      → SolverInput F
      → Bool
      → List (ScoredCandidate F)
      → List (ScoredCandidate F)
      → Option (ScalingAction F × DecisionRecord F)
  unfolding build_action build_record stay
  choose_action s input dry_run scored [] =
      let stay_here = stay input dry_run "all candidates filtered by constraints" in
      some (stay_here, build_record s input scored [] dry_run stay_here)
  choose_action s input dry_run scored (v ∷ vs) =
      let front = find_pareto_front (v ∷ vs) in
      elim (select_best front input.current) [
        | none ↦ none
        | some best ↦
            let action = build_action input best dry_run in
            some (action, build_record s input scored front dry_run action)
      ]

  -- Solve from its candidates on.
  unfoldable pub solve_from :
      Surroundings F
      → Option (PolicyEngine env)
      → SolverInput F
      → List (CandidatePlan F)
      → Option (ScalingAction F × DecisionRecord F)
  unfolding collect_objectives choose_action filter_viable stay no_action_record
  solve_from s engine input [] =
      let stay_here = stay input false "no candidates generated" in
      some (stay_here, no_action_record s input stay_here)
  solve_from s engine input (c ∷ cs) =
      let objectives = collect_objectives input.policies in
      let scored = score_all s.max_float input objectives (c ∷ cs) in
      let dry_run = any (λ mp. mp.policy.dry_run) input.policies in
      let constrained = apply_policies env engine input.policies scored in
      choose_action s input dry_run constrained (filter_viable constrained)

  -- Solve. MaxCandidates is that of NewSolver.
  unfoldable pub solve :
      Surroundings F
      → Option (PolicyEngine env)
      → ℤ
      → SolverInput F
      → Option (ScalingAction F × DecisionRecord F)
  unfolding all_candidates solve_from
  solve s engine max_candidates input =
      solve_from s engine input (all_candidates s input max_candidates)
