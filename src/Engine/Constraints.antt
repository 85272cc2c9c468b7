-- ===== src/Engine/Constraints.antt =====
-- applyConstraints of internal/engine/solver.go, for one candidate and over the policies of a cycle.
use optipilot_ai.Prelude.{
  Float64, Option, String, if◌then◌else◌, pos, List, false, some, ◌++◌, [], none, true, ◌∷◌, any,
  map, not, str_eq,
}
pub mod Sound
use optipilot_ai.Engine.Types.{
  CandidatePlan, MatchedPolicy, ConstraintResult, CandidateScore, ScoredCandidate, CurrentState,
  SloStatus, TenantStatus, ForecastResult, ClusterState,
}
use optipilot_ai.Cel.{
  EvalContext, CelEnv, ConstraintViolation, EvalResult, CompiledConstraint, CompiledPolicy,
  PolicyEngine, get_compiled, evaluate,
}

module _ {F : Type 0} ⦃fl : Float64 F⦄ where
  -- `cel.EvalContext{Candidate: plan}`: every other field has its zero value.
  unfoldable pub candidate_context : CandidatePlan F → EvalContext F
  candidate_context plan =
      let nil = fl.lit 0 0 in
      record {
        candidate = plan;
        current = record {
          replicas = pos 0;
          cpu_request = nil;
          memory_request = nil;
          cpu_usage = nil;
          memory_usage = nil;
          spot_ratio = nil;
          hourly_cost = nil;
        };
        slo = record {
          compliant = false;
          burn_rate = nil;
          budget_remaining = nil;
          latency_p99 = nil;
          error_rate = nil;
          availability = nil;
          throughput = nil;
        };
        tenant = record {
          name = "";
          tier = "";
          weight = pos 0;
          current_cores = nil;
          guaranteed_cores = nil;
          max_cores = nil;
          budget_used_percent = nil;
          fairness_score = nil;
        };
        forecast = record {
          predicted_rps = nil;
          predicted_latency = nil;
          change_percent = nil;
          confidence = nil;
          spot_risk_score = nil;
        };
        metrics = [];
        cluster = record {
          total_cores = nil;
          used_cores = nil;
          total_memory_gib = nil;
          used_memory_gib = nil;
          node_count = pos 0;
          spot_node_count = pos 0;
          region = "";
          provider = "";
        };
      }

module _ {F : Type 0} (env : CelEnv F) ⦃fl : Float64 F⦄ where
  abbrev pub violation_result : String → ConstraintViolation → ConstraintResult
  violation_result policy_name v = record {
    expr = v.expr;
    reason = v.reason;
    hard = v.hard;
    passed = false;
    policy_name = policy_name;
  }

  -- The loop that records the constraints of which no violation has the expression.
  unfoldable pub passing_results :
      String → List ConstraintViolation → List (CompiledConstraint env) → List ConstraintResult
  passing_results policy_name vs [] = []
  passing_results policy_name vs (c ∷ cs) =
      if any (λ v. str_eq v.expr c.expr) vs
      then passing_results policy_name vs cs
      else record {
        expr = c.expr;
        reason = c.reason;
        hard = c.hard;
        passed = true;
        policy_name = policy_name;
      }
        ∷ passing_results policy_name vs cs

  -- `if result.Penalties > 0`
  unfoldable pub apply_penalty : F → F → F
  apply_penalty penalties weighted =
      let lowered = fl.sub weighted penalties in
      if fl.lt (fl.lit 0 0) penalties
      then (if fl.lt lowered (fl.lit 0 0) then fl.lit 0 0 else lowered)
      else weighted

  -- What a result of Evaluate changes in a candidate; `none` is Evaluate's error.
  unfoldable pub apply_result :
      String → CompiledPolicy env → Option (EvalResult F) → ScoredCandidate F → ScoredCandidate F
  unfolding passing_results apply_penalty
  apply_result policy_name p none sc = record sc {
    constraints =
        sc.constraints
        ++ record {
          expr = "engine error";
          reason = "policy not compiled; call Compile first";
          hard = true;
          passed = false;
          policy_name = policy_name;
        }
          ∷ [];
    viable = false;
  }
  apply_result policy_name p (some r) sc = record sc {
    constraints =
        (sc.constraints ++ map (violation_result policy_name) r.violations)
        ++ passing_results policy_name r.violations p.constraints;
    viable = if not r.passed then false else sc.viable;
    score = record (sc.score) { weighted = apply_penalty r.penalties sc.score.weighted };
  }

  -- The body of the loop of applyConstraints, for a policy engine that may be nil.
  unfoldable pub apply_constraints :
      Option (PolicyEngine env) → MatchedPolicy F → ScoredCandidate F → ScoredCandidate F
  unfolding apply_result candidate_context
  apply_constraints none mp sc = sc
  apply_constraints (some engine) mp sc = elim (get_compiled env engine mp.key) [
    | none ↦ sc
    | some p ↦
        apply_result mp.policy.name p (evaluate env engine mp.key (candidate_context sc.plan)) sc
  ]

  -- The policies in their order, each over all the candidates.
  unfoldable pub apply_policies :
      Option (PolicyEngine env)
      → List (MatchedPolicy F)
      → List (ScoredCandidate F)
      → List (ScoredCandidate F)
  unfolding apply_constraints
  apply_policies engine [] scored = scored
  apply_policies engine (mp ∷ mps) scored =
      apply_policies engine mps (map (apply_constraints engine mp) scored)
