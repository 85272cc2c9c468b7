-- ===== src/Engine/Tests.antt =====
-- Runs of the engine at the samples, and its theorems there.
use optipilot_ai.Prelude.{
  Memᴰ, ◌≡◌, [], arith, ◌∷◌, ◌⊎◌, refl, true, map, some, All, false, not, pos, any, filterb, ◌-ℤ◌,
}
use optipilot_ai.Prelude.Thousandths.{Thousandths, thousandths, Thousandths-IsOrdered}
use optipilot_ai.Engine.Samples.{
  plan_of, scored_of, three_scored, current_state, cel, slo_constraint, replica_constraint,
  slo_policy, replica_policy, slo_compiled, engine, surroundings, input_with,
}
use optipilot_ai.Engine.Types.{CandidatePlan, ScalingAction, ScoredCandidate, DecisionRecord}
use optipilot_ai.Engine.Dominance.{nondominated}
use optipilot_ai.Engine.Pareto.{candidate_dominates, find_pareto_front, select_best, disruption}
use optipilot_ai.Engine.Pareto.Front.{find_pareto_front_exact, find_pareto_front_covers}
use optipilot_ai.Engine.Pareto.Best.{IsAsGood, select_best_optimal}
use optipilot_ai.Cel.{EvalResult, evaluate, get_compiled}
use optipilot_ai.Cel.Evaluate.{
  violated, violation_of, is_penalised, add_penalties, hard_violated, evaluate_lem,
}
use optipilot_ai.Engine.Constraints.{candidate_context, apply_policies}
use optipilot_ai.Engine.Constraints.Sound.{PassesPolicies}
use optipilot_ai.Engine.Solver.{all_candidates, solve}
use optipilot_ai.Engine.Solver.Safety.{KeepsCurrent, CarriesOut, solve_respects_constraints}
use optipilot_ai.Engine.Solver.Context.{slo_constraint_blocks}

abbrev still_viable : ScoredCandidate Thousandths
still_viable = record (scored_of 4 800 600 700) {
  constraints =
      record {
        expr = "candidate.replicas <= 6";
        reason = "at most six";
        hard = true;
        passed = true;
        policy_name = "b";
      }
      ∷ [];
}

front_of_three :
    find_pareto_front three_scored ≡ scored_of 4 800 600 700 ∷ scored_of 2 400 900 700 ∷ []
unfolding find_pareto_front
front_of_three = refl

find_pareto_front_exact_example :
    find_pareto_front three_scored ≡ nondominated candidate_dominates three_scored
find_pareto_front_exact_example =
    find_pareto_front_exact Thousandths-IsOrdered three_scored (ground arith)

find_pareto_front_covers_example :
    (m : ScoredCandidate Thousandths) × Memᴰ m (find_pareto_front three_scored)
    × ((m ≡ scored_of 5 800 400 600) ⊎ (candidate_dominates m (scored_of 5 800 400 600) ≡ true))
find_pareto_front_covers_example =
    find_pareto_front_covers Thousandths-IsOrdered three_scored (scored_of 5 800 400 600)
      (ground arith) (Memᴰ.tail (Memᴰ.head refl))

select_best_optimal_example :
    (b : ScoredCandidate Thousandths) × (select_best three_scored current_state ≡ some b)
    × Memᴰ b three_scored
    × All (IsAsGood current_state b) three_scored
unfolding disruption ◌-ℤ◌
select_best_optimal_example =
    select_best_optimal current_state Thousandths-IsOrdered three_scored
      ((refl, refl), ((refl, refl), ((refl, refl), tt))) (λ e. cc)

evaluate_lem_example :
    (r : EvalResult Thousandths) × (evaluate cel engine "b/1" (candidate_context (plan_of 9))
      ≡ some r)
    × (r.passed
        ≡ not (any (hard_violated cel (candidate_context (plan_of 9))) (replica_constraint ∷ [])))
    × (r.violations
        ≡ map
            (violation_of cel (candidate_context (plan_of 9)))
            (filterb (violated cel (candidate_context (plan_of 9))) (replica_constraint ∷ [])))
    × (r.penalties
        ≡ add_penalties cel
            (candidate_context (plan_of 9))
            (pos 0)
            (filterb (is_penalised cel (candidate_context (plan_of 9))) (replica_constraint ∷ [])))
unfolding get_compiled
evaluate_lem_example =
    evaluate_lem cel (candidate_context (plan_of 9)) engine "b/1"
      (record {
        constraints = replica_constraint ∷ [];
        objectives = [];
        dry_run = false;
        priority = pos 100;
      })
      refl

-- A plan of nine replicas is refused with its reason.
nine_replicas_fail :
    map
      (λ sc. sc.viable)
      (apply_policies cel
        (some engine)
        (replica_policy ∷ [])
        (map (λ n. scored_of n 800 600 700) (4 ∷ 9 ∷ [])))
    ≡ true ∷ false ∷ []
unfolding apply_policies evaluate candidate_context
nine_replicas_fail = refl

solve_respects_constraints_example :
    (action : ScalingAction Thousandths) × (entry : DecisionRecord Thousandths) × (solve cel
        surroundings
        (some engine)
        (pos 100)
        (input_with (replica_policy ∷ []))
      ≡ some (action, entry))
    × (KeepsCurrent cel surroundings (input_with (replica_policy ∷ [])) action
        ⊎ ((plan : CandidatePlan Thousandths) × Memᴰ plan
              (all_candidates surroundings (input_with (replica_policy ∷ [])) (pos 100))
            × CarriesOut cel surroundings (input_with (replica_policy ∷ [])) plan action
            × PassesPolicies cel engine plan (replica_policy ∷ [])))
solve_respects_constraints_example =
    solve_respects_constraints cel surroundings (input_with (replica_policy ∷ [])) engine (pos 100)

slo_constraint_blocks_example :
    (action : ScalingAction Thousandths) × (entry : DecisionRecord Thousandths) × (solve cel
        surroundings
        (some engine)
        (pos 100)
        (input_with (slo_policy ∷ []))
      ≡ some (action, entry))
    × KeepsCurrent cel surroundings (input_with (slo_policy ∷ [])) action
unfolding get_compiled
slo_constraint_blocks_example =
    slo_constraint_blocks cel surroundings (input_with (slo_policy ∷ [])) engine slo_policy
      slo_compiled slo_constraint (Memᴰ.head refl) refl (Memᴰ.head refl) refl (λ ctx. refl)
      (pos 100)
