-- ===== src/Engine/Solver/Safety.antt =====
-- Solve never panics, and what it does beyond keeping the current state passes every hard constraint.
use optipilot_ai.Prelude.{
  Float64, Bool, List, ◌≡◌, Option, String, [], arith, wrap32, ◌∷◌, refl, some, ◌⊎◌, Memᴰ, true,
  inl, inr, mem_of_filterb, ℤ, false, mem_of_map, any, ap,
}
use optipilot_ai.Engine.Types.{
  CandidatePlan, SolverInput, PolicyObjective, ScalingAction, ScoredCandidate, DecisionRecord,
}
use optipilot_ai.Cel.{CelEnv, PolicyEngine}
use optipilot_ai.Engine.Constraints.{apply_policies}
use optipilot_ai.Engine.Constraints.Sound.{PassesPolicies, apply_policies_sound}
use optipilot_ai.Engine.Pareto.{find_pareto_front}
use optipilot_ai.Engine.Pareto.Choice.{select_best_total, mem_of_front, front-ne-nil}
use optipilot_ai.Engine.Scorer.{score_all, score_candidate, bounds}
use optipilot_ai.Engine.Solver.{
  Surroundings, all_candidates, collect_objectives, build_action, build_record, stay, filter_viable,
  choose_action, no_action_record, solve_from, solve,
}

module _ {F : Type 0} (env : CelEnv F) ⦃fl : Float64 F⦄ (s : Surroundings F)
    (input : SolverInput F) where
  -- The action keeps the current state.
  pub record KeepsCurrent (action : ScalingAction F) : Type 0 where
    pub same_replicas : action.target_replica ≡ wrap32 input.current.replicas
    pub same_cpu : action.cpu_request ≡ input.current.cpu_request
    pub same_memory : action.memory_request ≡ input.current.memory_request
    pub same_spot : action.spot_ratio ≡ input.current.spot_ratio

  -- The action carries out the plan.
  pub record CarriesOut (plan : CandidatePlan F) (action : ScalingAction F) : Type 0 where
    pub plan_replicas : action.target_replica ≡ wrap32 plan.replicas
    pub plan_cpu : action.cpu_request ≡ plan.cpu_request
    pub plan_memory : action.memory_request ≡ plan.memory_request
    pub plan_spot : action.spot_ratio ≡ plan.spot_ratio

  stay-KeepsCurrent : (dry_run : Bool) (why : String) → KeepsCurrent (stay input dry_run why)
  unfolding stay
  stay-KeepsCurrent dry_run why = record {
    same_replicas = refl;
    same_cpu = refl;
    same_memory = refl;
    same_spot = refl;
  }

  build_action-CarriesOut :
      (best : ScoredCandidate F) (dry_run : Bool)
      → CarriesOut best.plan (build_action input best dry_run)
  unfolding build_action
  build_action-CarriesOut best dry_run = record {
    plan_replicas = ground arith;
    plan_cpu = ground arith;
    plan_memory = ground arith;
    plan_spot = ground arith;
  }

  -- How the last steps of Solve end.
  record Decision (scored : List (ScoredCandidate F))
      (result : Option (ScalingAction F × DecisionRecord F)) : Type 0 where
    action : ScalingAction F
    entry : DecisionRecord F
    returned : result ≡ some (action, entry)
    sound :
        KeepsCurrent action
        ⊎ ((sc : ScoredCandidate F) × Memᴰ sc scored
            × (sc.viable ≡ true)
            × CarriesOut sc.plan action)

  choose_action-Decision :
      (dry_run : Bool) (scored viable : List (ScoredCandidate F))
      → ((sc : ScoredCandidate F) → Memᴰ sc viable → Memᴰ sc scored × (sc.viable ≡ true))
      → Decision scored (choose_action env s input dry_run scored viable)
  unfolding choose_action
  choose_action-Decision dry_run scored [] back = record {
    action = stay input dry_run "all candidates filtered by constraints";
    entry =
        build_record s input scored [] dry_run
          (stay input dry_run "all candidates filtered by constraints");
    returned = refl;
    sound = inl (stay-KeepsCurrent dry_run "all candidates filtered by constraints");
  }
  choose_action-Decision dry_run scored (v ∷ vs) back =
      let front = find_pareto_front (v ∷ vs) in
      let (best, chosen, mem) = select_best_total input.current front (front-ne-nil v vs) in
      let (at, ok) = back best (mem_of_front best (v ∷ vs) mem) in
      record {
        action = build_action input best dry_run;
        entry = build_record s input scored front dry_run (build_action input best dry_run);
        returned = rw (chosen, choose_action);
        sound = inr (best, at, ok, build_action-CarriesOut best dry_run);
      }

  solve_from-Decision :
      (engine : Option (PolicyEngine env)) (cs : List (CandidatePlan F))
      → Decision
          (apply_policies env engine input.policies
            (score_all s.max_float input (collect_objectives input.policies) cs))
          (solve_from env s engine input cs)
  unfolding solve_from
  solve_from-Decision engine [] = record {
    action = stay input false "no candidates generated";
    entry = no_action_record s input (stay input false "no candidates generated");
    returned = refl;
    sound = inl (stay-KeepsCurrent false "no candidates generated");
  }
  solve_from-Decision engine (c ∷ cs) =
      let scored =
        apply_policies env engine input.policies
          (score_all s.max_float input (collect_objectives input.policies) (c ∷ cs)) in
      choose_action-Decision (any (λ mp. mp.policy.dry_run) input.policies) scored
        (filter_viable scored)
        (λ sc. unfold filter_viable in mem_of_filterb (λ sc'. sc'.viable) sc scored)

  plan_of_scored :
      (objectives : List (PolicyObjective F)) (cs : List (CandidatePlan F)) (sc : ScoredCandidate F)
      → Memᴰ sc (score_all s.max_float input objectives cs)
      → Memᴰ sc.plan cs
  unfolding score_all score_candidate
  plan_of_scored objectives cs sc mem =
      let (c, at, e) =
        mem_of_map
          (score_candidate input objectives
            (bounds (λ (c : CandidatePlan F). c.estimated_cost) (s.max_float, fl.lit 0 0) cs)
            (bounds (λ (c : CandidatePlan F). c.estimated_carbon) (s.max_float, fl.lit 0 0) cs))
          sc cs mem in
      rw (ap (λ (x : ScoredCandidate F). x.plan) e) at

  -- Solve returns an action for every input: it never reaches the panic of SelectBest on an empty
  -- front, be the scores numbers or not. The action keeps the current state, or carries out a plan of
  -- the generated candidates that passes every hard constraint of every matched policy that is
  -- compiled.
  pub solve_respects_constraints :
      (engine : PolicyEngine env) (max_candidates : ℤ)
      → (action : ScalingAction F) × (entry : DecisionRecord F) × (solve env s
            (some engine)
            max_candidates
            input
          ≡ some (action, entry))
        × (KeepsCurrent action
            ⊎ ((plan : CandidatePlan F) × Memᴰ plan (all_candidates s input max_candidates)
                × CarriesOut plan action
                × PassesPolicies env engine plan input.policies))
  unfolding solve
  solve_respects_constraints engine max_candidates =
      let cs = all_candidates s input max_candidates in
      let objectives = collect_objectives input.policies in
      let d = solve_from-Decision (some engine) cs in
      (
        d.action,
        d.entry,
        d.returned,
        elim d.sound [
          | inl k ↦ inl k
          | inr (sc, mem, ok, carried) ↦
              let (sc₀, mem₀, same₀, v₀, ps) =
                apply_policies_sound env engine input.policies
                  (score_all s.max_float input objectives cs) sc mem ok in
              inr (sc.plan, rw same₀ at (plan_of_scored objectives cs sc₀ mem₀), carried, ps)
        ],
      )
