-- ===== src/Cel/Evaluate.antt =====
-- PolicyEngine.Evaluate passes a candidate exactly when every hard constraint holds for it, and lists
-- every constraint that fails, hard or soft.
use optipilot_ai.Prelude.{
  Float64, Bool, map, ◌≡◌, false, not, ◌&&◌, ◌++◌, arith, filterb, ◌∷◌, [], List, String, sym, any,
  append-nil, some, append_assoc, true, ap, refl, Bool-cases, if◌then◌else◌, ◌∙◌, inl, inr,
}
use optipilot_ai.Cel.{
  ConstraintViolation, EvalContext, Outcome, failed, value, other, CelEnv, EvalResult,
  CompiledConstraint, PolicyEngine, CompiledPolicy, check_constraint, check_constraints,
  get_compiled, evaluate,
}
use Prim.Native.String.{◌++◌ as append}

abbrev pub verdict : Outcome → Bool
verdict (failed e) = false
verdict (value b) = b
verdict other = false

module _ {F : Type 0} (env : CelEnv F) ⦃fl : Float64 F⦄ (ctx : EvalContext F) where
  abbrev pub holds : CompiledConstraint env → Bool
  holds c = verdict (env.eval c.program ctx)

  abbrev pub violated : CompiledConstraint env → Bool
  violated c = not (holds c)

  abbrev pub hard_violated : CompiledConstraint env → Bool
  hard_violated c = c.hard && not (holds c)

  check_constraint-passed :
      (c : CompiledConstraint env) (r : EvalResult F)
      → (check_constraint env ctx c r).passed ≡ (r.passed && not (hard_violated c))
  unfolding check_constraint
  check_constraint-passed c r = ground arith

  -- The record of a constraint that fails: an error of Eval is its reason.
  abbrev violation_reason : Outcome → String → String
  violation_reason (failed e) reason = append "evaluation error: " e
  violation_reason (value b) reason = reason
  violation_reason other reason = reason

  abbrev pub violation_of : CompiledConstraint env → ConstraintViolation
  violation_of c = record {
    expr = c.expr;
    reason = violation_reason (env.eval c.program ctx) c.reason;
    hard = c.hard;
  }

  -- A soft constraint that is evaluated and fails.
  abbrev pub is_penalised : CompiledConstraint env → Bool
  is_penalised c = elim (env.eval c.program ctx) [
    | failed e ↦ false
    | value b ↦ not b && not c.hard
    | other ↦ not c.hard
  ]

  -- 0.1 for each constraint.
  abbrev pub add_penalties : F → List (CompiledConstraint env) → F
  add_penalties total [] = total
  add_penalties total (c ∷ cs) = add_penalties (fl.add total (fl.lit 1 1)) cs

  violations_of_outcome :
      (c : CompiledConstraint env) (r : EvalResult F) (o : Outcome)
      → env.eval c.program ctx ≡ o
      → (check_constraint env ctx c r).violations
        ≡ r.violations ++ map violation_of (filterb violated (c ∷ []))
  unfolding check_constraint
  violations_of_outcome c r (failed e) p = rw (p, check_constraint, violation_of, p) refl
  violations_of_outcome c r (value true) p = rw (p, check_constraint) (sym (append-nil _))
  violations_of_outcome c r (value false) p = rw (p, check_constraint, violation_of, p) refl
  violations_of_outcome c r other p = rw (p, check_constraint, violation_of, p) refl

  penalties_of_outcome :
      (c : CompiledConstraint env) (r : EvalResult F) (o : Outcome)
      → env.eval c.program ctx ≡ o
      → (check_constraint env ctx c r).penalties
        ≡ (if is_penalised c then fl.add r.penalties (fl.lit 1 1) else r.penalties)
  unfolding check_constraint
  penalties_of_outcome c r (failed e) p = rw (p, check_constraint, is_penalised) refl
  penalties_of_outcome c r (value true) p = rw (p, check_constraint, is_penalised) refl
  penalties_of_outcome c r (value false) p = rw (p, check_constraint, is_penalised) (ground arith)
  penalties_of_outcome c r other p = rw (p, check_constraint, is_penalised) (ground arith)

  -- The result after some constraints, from the one before.
  record Follows (r : EvalResult F) (cs : List (CompiledConstraint env)) (r' : EvalResult F)
      : Type 0 where
    passed : r'.passed ≡ (r.passed && not (any hard_violated cs))
    violations : r'.violations ≡ r.violations ++ map violation_of (filterb violated cs)
    penalties : r'.penalties ≡ add_penalties r.penalties (filterb is_penalised cs)

  violations-cons :
      (c : CompiledConstraint env) (cs : List (CompiledConstraint env))
      → map violation_of (filterb violated (c ∷ [])) ++ map violation_of (filterb violated cs)
        ≡ map violation_of (filterb violated (c ∷ cs))
  violations-cons c cs = elim (Bool-cases (violated c)) [ inl e ↦ rw e refl | inr e ↦ rw e refl ]

  penalties-cons :
      (total : F) (c : CompiledConstraint env) (cs : List (CompiledConstraint env))
      → add_penalties
          (if is_penalised c then fl.add total (fl.lit 1 1) else total)
          (filterb is_penalised cs)
        ≡ add_penalties total (filterb is_penalised (c ∷ cs))
  penalties-cons total c cs = elim (Bool-cases (is_penalised c)) [
    | inl e ↦ rw e refl
    | inr e ↦ rw e refl
  ]

  check_constraints-Follows :
      (cs : List (CompiledConstraint env)) (r : EvalResult F)
      → Follows r cs (check_constraints env ctx cs r)
  unfolding check_constraints
  check_constraints-Follows [] r = record {
    passed = ground arith;
    violations = sym (append-nil _);
    penalties = refl;
  }
  check_constraints-Follows (c ∷ cs) r =
      let rest = check_constraints-Follows cs (check_constraint env ctx c r) in
      let o = env.eval c.program ctx in
      record {
        passed = ground (arith, rest.passed, check_constraint-passed c r);
        violations =
            rest.violations
            ∙ ap (λ vs. vs ++ map violation_of (filterb violated cs))
                (violations_of_outcome c r o refl)
            ∙ append_assoc r.violations _ _
            ∙ ap (λ vs. r.violations ++ vs) (violations-cons c cs);
        penalties =
            rest.penalties
            ∙ ap (λ t. add_penalties t (filterb is_penalised cs)) (penalties_of_outcome c r o refl)
            ∙ penalties-cons r.penalties c cs;
      }

  -- For a compiled policy Evaluate returns a result. It is passed exactly when no hard constraint fails.
  -- Its violations are those of the failing constraints, in order: the expression, the reason, which for
  -- an error of Eval is that error, and whether it is hard. Its penalties are 0.1 for each soft constraint
  -- that is evaluated and fails, summed in order. A constraint fails unless Eval gives the boolean true.
  pub evaluate_lem :
      (engine : PolicyEngine env) (key : String) (p : CompiledPolicy env)
      → get_compiled env engine key ≡ some p
      → (r : EvalResult F) × (evaluate env engine key ctx ≡ some r)
        × (r.passed ≡ not (any hard_violated p.constraints))
        × (r.violations ≡ map violation_of (filterb violated p.constraints))
        × (r.penalties ≡ add_penalties (fl.lit 0 0) (filterb is_penalised p.constraints))
  unfolding evaluate
  evaluate_lem engine key p e =
      let start : EvalResult F = record {
        passed = true;
        violations = [];
        penalties = fl.lit 0 0;
      } in
      let all = check_constraints-Follows p.constraints start in
      (
        check_constraints env ctx p.constraints start,
        rw (e, evaluate),
        all.passed,
        all.violations,
        all.penalties,
      )
