-- ===== src/Cel.antt =====
-- internal/cel/engine.go: compiling the constraints of a policy and evaluating them for a candidate.
-- github.com/google/cel-go is a parameter: `compile` is env.Compile with the check of the output type
-- and env.Program, `eval` is Program.Eval. The sync.Map of programs is an association list.
pub mod Evaluate
pub mod Functions
use optipilot_ai.Prelude.{
  Bool, List, Map, String, insert, lookup, ℤ, ◌∷◌, [], Float64, Option, some, ◌++◌, ◌≡◌,
  if◌then◌else◌, none, true, false,
}
use Prim.Native.String.{◌++◌ as append}
use optipilot_ai.Engine.Types.{
  CandidatePlan, CurrentState, SloStatus, TenantStatus, ForecastResult, ClusterState,
  PolicyObjective, PolicyConstraint, OptimizationPolicy,
}

-- EvalContext
pub record EvalContext (F : Type 0) : Type 0 where
  pub candidate : CandidatePlan F
  pub current : CurrentState F
  pub slo : SloStatus F
  pub tenant : TenantStatus F
  pub forecast : ForecastResult F
  pub metrics : Map F
  pub cluster : ClusterState F

-- What env.Compile, the type check and env.Program give for one expression.
pub data Compilation (Program : Type 0) : Type 0 where
  issues : String → Compilation Program
  not_bool : String → Compilation Program
  no_program : String → Compilation Program
  compiled : Program → Compilation Program

-- What Program.Eval gives: an error, a boolean, or a value of another type.
pub data Outcome : Type 0 where
  failed : String → Outcome
  value : Bool → Outcome
  other : Outcome

pub record CelEnv (F : Type 0) : Type 1 where
  pub Program : Type 0
  pub compile : String → Compilation Program
  pub eval : Program → EvalContext F → Outcome

-- ConstraintViolation
pub record ConstraintViolation : Type 0 where
  pub expr : String
  pub reason : String
  pub hard : Bool

-- EvalResult
pub record EvalResult (F : Type 0) : Type 0 where
  pub passed : Bool
  pub violations : List ConstraintViolation
  pub penalties : F

module _ {F : Type 0} (env : CelEnv F) where
  -- CompiledConstraint
  pub record CompiledConstraint : Type 0 where
    pub program : env.Program
    pub expr : String
    pub reason : String
    pub hard : Bool

  -- CompiledPolicy
  pub record CompiledPolicy : Type 0 where
    pub constraints : List CompiledConstraint
    pub objectives : List (PolicyObjective F)
    pub dry_run : Bool
    pub priority : ℤ

  -- PolicyEngine
  abbrev pub PolicyEngine : Type 0
  PolicyEngine = Map CompiledPolicy

-- The errors of Compile, with the expression and the detail.
pub data CompileError : Type 0 where
  compile_issues type_not_bool program_failed : String → String → CompileError

pub data Compiled {ℓ} (A : Type ℓ) : Type ℓ where
  ok : A → Compiled A
  err : CompileError → Compiled A

-- PolicyKey, with strconv.FormatInt as `format_int`.
unfoldable pub policy_key : {F : Type 0} → (ℤ → String) → OptimizationPolicy F → String
policy_key format_int policy = append policy.uid (append "/" (format_int policy.generation))

module _ {F : Type 0} (env : CelEnv F) where
  -- One round of the loop of Compile.
  unfoldable pub compile_constraint : PolicyConstraint → Compiled (CompiledConstraint env)
  compile_constraint c = elim (env.compile c.expr) [
    | issues e ↦ err (compile_issues c.expr e)
    | not_bool t ↦ err (type_not_bool c.expr t)
    | no_program e ↦ err (program_failed c.expr e)
    | compiled p ↦ ok (record { program = p; expr = c.expr; reason = c.reason; hard = c.hard })
  ]

  unfoldable pub compile_constraints :
      List PolicyConstraint → Compiled (List (CompiledConstraint env))
  unfolding compile_constraint
  compile_constraints [] = ok []
  compile_constraints (c ∷ cs) =
      let rest = compile_constraints cs in
      elim (compile_constraint c) [
        | err e ↦ err e
        | ok x ↦ elim rest [ err e ↦ err e | ok xs ↦ ok (x ∷ xs) ]
      ]

  -- Compile: on an error nothing is stored.
  unfoldable pub compile_policy :
      (ℤ → String)
      → PolicyEngine env
      → OptimizationPolicy F
      → PolicyEngine env × Option CompileError
  unfolding compile_constraints insert
  compile_policy format_int engine policy = elim (compile_constraints policy.constraints) [
    | err e ↦ (engine, some e)
    | ok cs ↦ (
      insert (policy_key format_int policy)
          (record {
            constraints = cs;
            objectives = policy.objectives;
            dry_run = policy.dry_run;
            priority = policy.priority;
          })
          engine,
      none,
    )
  ]

  -- GetCompiled
  unfoldable pub get_compiled : PolicyEngine env → String → Option (CompiledPolicy env)
  unfolding lookup
  get_compiled engine key = lookup key engine

  module _ ⦃fl : Float64 F⦄ where
    -- One round of the loop of Evaluate.
    unfoldable pub check_constraint :
        EvalContext F → CompiledConstraint env → EvalResult F → EvalResult F
    check_constraint ctx c r =
        let violation = λ (why : String).
          r.violations ++ record { expr = c.expr; reason = why; hard = c.hard } ∷ [] in
        let violated = record r {
          violations = violation c.reason;
          passed = if c.hard then false else r.passed;
          penalties = if c.hard then r.penalties else fl.add r.penalties (fl.lit 1 1);
        } in
        elim (env.eval c.program ctx) [
          | failed e ↦ record r {
            violations = violation (append "evaluation error: " e);
            passed = if c.hard then false else r.passed;
          }
          | value b ↦ if b then r else violated
          | other ↦ violated
        ]

    unfoldable pub check_constraints :
        EvalContext F → List (CompiledConstraint env) → EvalResult F → EvalResult F
    check_constraints ctx [] r = r
    check_constraints ctx (c ∷ cs) r = check_constraints ctx cs (check_constraint ctx c r)

    -- Evaluate; `none` is the error of a key that is not compiled.
    unfoldable pub evaluate : PolicyEngine env → String → EvalContext F → Option (EvalResult F)
    unfolding get_compiled check_constraints check_constraint
    evaluate engine key ctx = elim (get_compiled engine key) [
      | none ↦ none
      | some p ↦ some (
          check_constraints ctx p.constraints
            (record { passed = true; violations = []; penalties = fl.lit 0 0 }))
    ]
