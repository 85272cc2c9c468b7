-- ===== src/Engine/Solver/Context.antt =====
-- What a CEL constraint sees in Solve: applyConstraints fills in the candidate alone, so a constraint on
-- the SLO status reads a status that is not compliant, whatever the input says.
use optipilot_ai.Prelude.{Float64, Memᴰ, ◌≡◌, some, true, ℤ, inl, inr, All-mem, any-of_mem, arith}
use optipilot_ai.Engine.Types.{MatchedPolicy, SolverInput, ScalingAction, DecisionRecord}
use optipilot_ai.Cel.{
  EvalContext, CelEnv, CompiledConstraint, CompiledPolicy, PolicyEngine, get_compiled,
}
use optipilot_ai.Cel.Evaluate.{holds, hard_violated}
use optipilot_ai.Engine.Constraints.{candidate_context}
use optipilot_ai.Engine.Constraints.Sound.{PassesPolicy}
use optipilot_ai.Engine.Solver.{Surroundings, solve}
use optipilot_ai.Engine.Solver.Safety.{KeepsCurrent, solve_respects_constraints}

module _ {F : Type 0} (env : CelEnv F) ⦃fl : Float64 F⦄ (s : Surroundings F)
    (input : SolverInput F) where
  -- A hard constraint that holds exactly when the SLO status in its context is compliant, in a compiled
  -- policy that matches, keeps Solve from changing anything, also where the service is compliant.
  pub slo_constraint_blocks :
      (engine : PolicyEngine env) (mp : MatchedPolicy F) (p : CompiledPolicy env)
      (c : CompiledConstraint env)
      → Memᴰ mp input.policies
      → get_compiled env engine mp.key ≡ some p
      → Memᴰ c p.constraints
      → c.hard ≡ true
      → ((ctx : EvalContext F) → holds env ctx c ≡ ctx.slo.compliant)
      → (max_candidates : ℤ)
      → (action : ScalingAction F) × (entry : DecisionRecord F) × (solve env s
            (some engine)
            max_candidates
            input
          ≡ some (action, entry))
        × KeepsCurrent env s input action
  unfolding candidate_context
  slo_constraint_blocks engine mp p c at found inside hard reads max_candidates =
      let (action, entry, returned, sound) =
        solve_respects_constraints env s input engine max_candidates in
      (
        action,
        entry,
        returned,
        elim sound [
          | inl k ↦ k
          | inr (plan, mem, carried, ps) ↦
              let passes = All-mem (PassesPolicy env engine plan) mp input.policies ps at p found in
              let fails =
                any-of_mem (hard_violated env (candidate_context plan)) c p.constraints inside
                  (ground (arith, reads (candidate_context plan))) in
              absurd (ground arith)
        ],
      )
