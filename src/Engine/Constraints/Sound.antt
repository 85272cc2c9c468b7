-- ===== src/Engine/Constraints/Sound.antt =====
-- A candidate that is still viable after all the policies passes every hard constraint of each
-- compiled one.
use optipilot_ai.Prelude.{
  Float64, List, String, some, ◌≡◌, All, any, arith, true, false, not, Option-cases, inl, inr, sym,
  ◌∙◌, Memᴰ, map, [], ◌∷◌, mem_of_map, refl, ap,
}
use mathlib.Core.Option.{some-injective}
use optipilot_ai.Engine.Types.{CandidatePlan, MatchedPolicy, ScoredCandidate}
use optipilot_ai.Cel.{CelEnv, EvalResult, CompiledPolicy, PolicyEngine, get_compiled}
use optipilot_ai.Cel.Evaluate.{hard_violated, evaluate_lem}
use optipilot_ai.Engine.Constraints.{
  candidate_context, apply_result, apply_constraints, apply_policies,
}

module _ {F : Type 0} (env : CelEnv F) ⦃fl : Float64 F⦄ (engine : PolicyEngine env) where
  -- No hard constraint of the policy, if it is compiled, fails for the plan. Evaluation sees the plan
  -- and zero values for all else.
  abbrev pub PassesPolicy : CandidatePlan F → MatchedPolicy F → Type 0
  PassesPolicy plan mp =
      (p : CompiledPolicy env)
      → get_compiled env engine mp.key ≡ some p
      → any (hard_violated env (candidate_context plan)) p.constraints ≡ false

  abbrev pub PassesPolicies : CandidatePlan F → List (MatchedPolicy F) → Type 0
  PassesPolicies plan mps = All (PassesPolicy plan) mps

  apply_constraints-plan :
      (mp : MatchedPolicy F) (sc : ScoredCandidate F)
      → (apply_constraints env (some engine) mp sc).plan ≡ sc.plan
  unfolding apply_constraints
  apply_constraints-plan mp sc = ground arith

  viable_of_result :
      (name : String) (p : CompiledPolicy env) (r : EvalResult F) (sc : ScoredCandidate F)
      → (apply_result env name p (some r) sc).viable ≡ true
      → (sc.viable ≡ true) × (r.passed ≡ true)
  unfolding apply_result
  viable_of_result name p r sc h = ground arith

  viable_of_apply :
      (mp : MatchedPolicy F) (sc : ScoredCandidate F)
      → (apply_constraints env (some engine) mp sc).viable ≡ true
      → (sc.viable ≡ true) × PassesPolicy sc.plan mp
  unfolding apply_constraints
  viable_of_apply mp sc h = elim (Option-cases (get_compiled env engine mp.key)) [
    | inl e ↦ (rw (e, apply_constraints) at h, λ p q. cc)
    | inr (p, e) ↦
        let (r, ev, passed, violations, penalties) =
          evaluate_lem env (candidate_context sc.plan) engine mp.key p e in
        let (v, ok) = viable_of_result mp.policy.name p r sc (rw (e, ev, apply_constraints) at h) in
        (v, λ p' q. passes p r passed ok p' (some-injective _ _ (sym e ∙ q)))
  ]
    where
      passes :
          (p : CompiledPolicy env) (r : EvalResult F)
          → r.passed ≡ not (any (hard_violated env (candidate_context sc.plan)) p.constraints)
          → r.passed ≡ true
          → (p' : CompiledPolicy env) → p ≡ p'
          → any (hard_violated env (candidate_context sc.plan)) p'.constraints ≡ false
      passes p r passed ok p' e = rw (← e) (ground arith)

  -- What `sc` was before the policies: a scored candidate with the same plan.
  abbrev Origin : List (MatchedPolicy F) → List (ScoredCandidate F) → ScoredCandidate F → Type 0
  Origin mps scored sc =
      (sc₀ : ScoredCandidate F) × Memᴰ sc₀ scored
      × (sc₀.plan ≡ sc.plan)
      × (sc₀.viable ≡ true)
      × PassesPolicies sc.plan mps

  Origin-cons :
      (mp : MatchedPolicy F) (mps : List (MatchedPolicy F)) (scored : List (ScoredCandidate F))
      (sc : ScoredCandidate F)
      → Origin mps (map (apply_constraints env (some engine) mp) scored) sc
      → Origin (mp ∷ mps) scored sc
  Origin-cons mp mps scored sc (sc₁, mem, same, v, ps) =
      let (sc₀, mem₀, e) = mem_of_map (apply_constraints env (some engine) mp) sc₁ scored mem in
      let (v₀, pass) = viable_of_apply mp sc₀ (rw e at v) in
      let same₀ : sc₀.plan ≡ sc.plan =
        sym (apply_constraints-plan mp sc₀)
        ∙ sym (ap (λ (s : ScoredCandidate F). s.plan) e)
        ∙ same in
      (sc₀, mem₀, same₀, v₀, (rw same₀ at pass, ps))

  pub apply_policies_sound :
      (mps : List (MatchedPolicy F)) (scored : List (ScoredCandidate F)) (sc : ScoredCandidate F)
      → Memᴰ sc (apply_policies env (some engine) mps scored)
      → sc.viable ≡ true
      → (sc₀ : ScoredCandidate F) × Memᴰ sc₀ scored
        × (sc₀.plan ≡ sc.plan)
        × (sc₀.viable ≡ true)
        × PassesPolicies sc.plan mps
  unfolding apply_policies
  apply_policies_sound [] scored sc mem v = (sc, mem, refl, v, tt)
  apply_policies_sound (mp ∷ mps) scored sc mem v =
      Origin-cons mp mps scored sc
        (apply_policies_sound mps (map (apply_constraints env (some engine) mp) scored) sc mem v)
