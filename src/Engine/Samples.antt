-- ===== src/Engine/Samples.antt =====
-- A service with its policies and a small CEL environment, at which the tests run the solver.
use optipilot_ai.Prelude.{
  Bool, List, String, [], leb_ℤ, pos, true, ℕ, ◌∷◌, false, if◌then◌else◌, none, ◌*◌, str_eq,
}
use optipilot_ai.Prelude.Thousandths.{Thousandths, thousandths}
use optipilot_ai.Engine.Types.{
  CandidatePlan, CurrentState, SolverInput, MatchedPolicy, OptimizationPolicy, PolicyConstraint,
  ScoredCandidate,
}
use optipilot_ai.Cel.{
  EvalContext, CelEnv, CompiledConstraint, CompiledPolicy, PolicyEngine, issues, compiled, value,
}
use optipilot_ai.Engine.Solver.{Surroundings}

-- A number of thousandths.
abbrev pub th : ℕ → Thousandths
th n = pos n

abbrev pub plan_of : ℕ → CandidatePlan Thousandths
plan_of n = record {
  replicas = pos n;
  cpu_request = th 500;
  memory_request = th 1000;
  spot_ratio = th 0;
  spot_count = pos 0;
  on_demand_count = pos n;
  instance_types = [];
  estimated_cost = th (100 * n);
  estimated_carbon = th (50 * n);
}

abbrev pub scored_of : ℕ → ℕ → ℕ → ℕ → ScoredCandidate Thousandths
scored_of n slo cost weighted = record {
  plan = plan_of n;
  score = record {
    slo = th slo;
    cost = th cost;
    carbon = th 500;
    fairness = th 1000;
    weighted = th weighted;
  };
  constraints = [];
  viable = true;
}

-- The second one is dominated by the first.
abbrev pub three_scored : List (ScoredCandidate Thousandths)
three_scored = scored_of 4 800 600 700 ∷ scored_of 5 800 400 600 ∷ scored_of 2 400 900 700 ∷ []

abbrev pub current_state : CurrentState Thousandths
current_state = record {
  replicas = pos 4;
  cpu_request = th 500;
  memory_request = th 1000;
  cpu_usage = th 1800;
  memory_usage = th 2000;
  spot_ratio = th 0;
  hourly_cost = th 400;
}

-- Programs are predicates on the context.
abbrev pub cel : CelEnv Thousandths
cel = record {
  Program = EvalContext Thousandths → Bool;
  compile = λ e.
      if str_eq e "slo.compliant"
      then compiled (λ ctx. ctx.slo.compliant)
      else if str_eq e "candidate.replicas <= 6"
      then compiled (λ ctx. leb_ℤ ctx.candidate.replicas (pos 6))
      else issues "undeclared reference";
  eval = λ p ctx. value (p ctx);
}

abbrev pub slo_constraint : CompiledConstraint cel
slo_constraint = record {
  program = λ ctx. ctx.slo.compliant;
  expr = "slo.compliant";
  reason = "only when compliant";
  hard = true;
}

abbrev pub replica_constraint : CompiledConstraint cel
replica_constraint = record {
  program = λ ctx. leb_ℤ ctx.candidate.replicas (pos 6);
  expr = "candidate.replicas <= 6";
  reason = "at most six";
  hard = true;
}

abbrev pub policy_with : String → PolicyConstraint → OptimizationPolicy Thousandths
policy_with uid c = record {
  name = uid;
  uid = uid;
  generation = pos 1;
  objectives = [];
  constraints = c ∷ [];
  dry_run = false;
  priority = pos 100;
}

abbrev pub slo_policy : MatchedPolicy Thousandths
slo_policy = record {
  policy =
      policy_with "a"
        (record { expr = "slo.compliant"; reason = "only when compliant"; hard = true });
  key = "a/1";
}

abbrev pub replica_policy : MatchedPolicy Thousandths
replica_policy = record {
  policy =
      policy_with "b"
        (record { expr = "candidate.replicas <= 6"; reason = "at most six"; hard = true });
  key = "b/1";
}

abbrev compiled_with : CompiledConstraint cel → CompiledPolicy cel
compiled_with c = record {
  constraints = c ∷ [];
  objectives = [];
  dry_run = false;
  priority = pos 100;
}

abbrev pub slo_compiled : CompiledPolicy cel
slo_compiled = compiled_with slo_constraint

abbrev pub engine : PolicyEngine cel
engine = ("a/1", slo_compiled) ∷ ("b/1", compiled_with replica_constraint) ∷ []

abbrev pub surroundings : Surroundings Thousandths
surroundings = record { perm = λ n. []; max_float = th 1_000_000_000; decision_id = "d1"; now = 0 }

abbrev pub input_with : List (MatchedPolicy Thousandths) → SolverInput Thousandths
input_with policies = record {
  namespace = "default";
  service = "web";
  current = current_state;
  slo = record {
    compliant = true;
    burn_rate = th 500;
    budget_remaining = th 900;
    latency_p99 = th 120;
    error_rate = th 1;
    availability = th 999;
    throughput = th 100_000;
  };
  policies = policies;
  tenant = none;
  forecast = none;
  metrics = [];
  cluster = record {
    total_cores = th 64_000;
    used_cores = th 32_000;
    total_memory_gib = th 256_000;
    used_memory_gib = th 128_000;
    node_count = pos 8;
    spot_node_count = pos 0;
    region = "us-east-1";
    provider = "aws";
  };
  instance_types = [];
  region = "us-east-1";
  right_sized_cpu = none;
  right_sized_memory = none;
  trigger = "periodic";
}
