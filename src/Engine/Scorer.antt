-- ===== src/Engine/Scorer.antt =====
-- internal/engine/scorer.go: the four scores of a candidate and their weighted sum. math.MaxFloat64 is
-- a parameter of ScoreAll.
use optipilot_ai.Prelude.{
  Float64, Bool, List, String, if◌then◌else◌, ℤ, [], ltb_ℤ, map, not, str_eq, ◌||◌, ◌∷◌, pos, true,
  ◌&&◌, ◌-ℤ◌, eqb_ℤ, none, some,
}
use optipilot_ai.Engine.Types.{
  CandidatePlan, SloStatus, SolverInput, PolicyObjective, CandidateScore, ScoredCandidate,
}

module _ {F : Type 0} ⦃fl : Float64 F⦄ where
  -- normalize
  unfoldable pub normalize : F → F → F → F
  normalize v lo hi =
      let n = fl.div (fl.sub v lo) (fl.sub hi lo) in
      if fl.le hi lo
      then fl.lit 0 0
      else if fl.lt n (fl.lit 0 0)
      then fl.lit 0 0
      else if fl.lt (fl.lit 1 0) n
      then fl.lit 1 0
      else n

  -- scoreCost and scoreCarbon
  unfoldable pub score_cost : F → F → F → F
  unfolding normalize
  score_cost cost lo hi = fl.sub (fl.lit 1 0) (normalize cost lo hi)

  unfoldable pub score_carbon : F → F → F → F
  unfolding normalize
  score_carbon carbon lo hi = fl.sub (fl.lit 1 0) (normalize carbon lo hi)

  -- hasObservedSLOSignal
  unfoldable pub has_observed_slo_signal : SloStatus F → Bool
  has_observed_slo_signal s =
      fl.lt (fl.lit 0 0) s.burn_rate
      || fl.lt (fl.lit 0 0) s.budget_remaining
      || fl.lt (fl.lit 0 0) s.latency_p99
      || fl.lt (fl.lit 0 0) s.error_rate
      || fl.lt (fl.lit 0 0) s.availability
      || fl.lt (fl.lit 0 0) s.throughput

  -- currentDemand without its fallback: the CPU usage, raised by the forecast.
  unfoldable pub observed_demand : SolverInput F → F
  observed_demand input = elim input.forecast [
    | none ↦ input.current.cpu_usage
    | some f ↦
        if fl.lt (fl.lit 0 0) f.predicted_rps
        then fl.mul input.current.cpu_usage
            (fl.add (fl.lit 1 0) (fl.div f.change_percent (fl.lit 100 0)))
        else input.current.cpu_usage
  ]

  -- currentDemand
  unfoldable pub current_demand : SolverInput F → F
  unfolding observed_demand
  current_demand input =
      let d = observed_demand input in
      let r = fl.mul (fl.of_int input.current.replicas) input.current.cpu_request in
      if fl.lt (fl.lit 0 0) d
      then d
      else fl.mul (if fl.lt r (fl.lit 1 9) then fl.lit 1 2 else r) (fl.lit 5 2)

  -- scoreDegradedSLO
  unfoldable pub score_degraded_slo : SolverInput F → CandidatePlan F → F
  score_degraded_slo input c =
      let current : ℤ =
        if ltb_ℤ input.current.replicas (pos 1) then pos 1 else input.current.replicas in
      let bonus =
        if fl.le (fl.lit 10 0) input.slo.burn_rate
        then fl.lit 2 1
        else if fl.le (fl.lit 1 0) input.slo.burn_rate
        then fl.lit 1 1
        else fl.lit 0 0 in
      let same = fl.add (fl.lit 2 1) bonus in
      let improvement = fl.div (fl.of_int (c.replicas -ℤ current)) (fl.of_int current) in
      let more =
        fl.add (fl.add (fl.lit 6 1) (fl.mul (fl.min improvement (fl.lit 1 0)) (fl.lit 3 1)))
          bonus in
      if ltb_ℤ c.replicas current
      then fl.lit 0 0
      else if eqb_ℤ c.replicas current
      then (if fl.lt (fl.lit 4 1) same then fl.lit 4 1 else same)
      else if fl.lt (fl.lit 1 0) more
      then fl.lit 1 0
      else more

  -- scoreSLO
  unfoldable pub score_slo : SolverInput F → CandidatePlan F → F
  unfolding score_degraded_slo has_observed_slo_signal current_demand
  score_slo input c =
      let d = current_demand input in
      let demand = if fl.le d (fl.lit 0 0) then fl.lit 1 9 else d in
      let ratio = fl.div (fl.mul (fl.of_int c.replicas) c.cpu_request) demand in
      if not input.slo.compliant && has_observed_slo_signal input.slo
      then score_degraded_slo input c
      else if fl.le (fl.lit 12 1) ratio
      then fl.lit 1 0
      else if fl.le (fl.lit 1 0) ratio
      then fl.lit 8 1
      else if fl.le (fl.lit 8 1) ratio
      then fl.lit 4 1
      else fl.lit 0 0

  -- scoreFairness
  unfoldable pub score_fairness : SolverInput F → CandidatePlan F → F
  score_fairness input c = elim input.tenant [
    | none ↦ fl.lit 1 0
    | some t ↦
        let delta =
          fl.sub (fl.mul (fl.of_int c.replicas) c.cpu_request)
            (fl.mul (fl.of_int input.current.replicas) input.current.cpu_request) in
        let usage = fl.add t.current_cores delta in
        if fl.le t.guaranteed_cores (fl.lit 0 0)
        then fl.lit 1 0
        else if fl.le usage t.guaranteed_cores
        then fl.lit 1 0
        else if fl.le usage t.max_cores
        then fl.lit 7 1
        else fl.lit 2 1
  ]

  -- dimensionScore
  unfoldable pub dimension_score : CandidateScore F → String → F
  dimension_score s name =
      if str_eq name "slo" || str_eq name "slo_compliance"
      then s.slo
      else if str_eq name "cost"
      then s.cost
      else if str_eq name "carbon"
      then s.carbon
      else if str_eq name "fairness"
      then s.fairness
      else fl.lit 0 0

  -- The two loops of computeWeighted.
  unfoldable pub sum_weights : F → List (PolicyObjective F) → F
  sum_weights total [] = total
  sum_weights total (o ∷ os) = sum_weights (fl.add total o.weight) os

  unfoldable pub sum_weighted : F → F → CandidateScore F → List (PolicyObjective F) → F
  sum_weighted total acc s [] = acc
  sum_weighted total acc s (o ∷ os) =
      sum_weighted total (fl.add acc (fl.mul (fl.div o.weight total) (dimension_score s o.name))) s
        os

  -- computeWeighted
  unfoldable pub compute_weighted : List (PolicyObjective F) → CandidateScore F → F
  unfolding sum_weights sum_weighted dimension_score
  compute_weighted [] s =
      fl.div (fl.add (fl.add (fl.add s.slo s.cost) s.carbon) s.fairness) (fl.lit 4 0)
  compute_weighted (o ∷ os) s =
      let sum = sum_weights (fl.lit 0 0) (o ∷ os) in
      let total = if fl.le sum (fl.lit 0 0) then fl.lit 1 0 else sum in
      sum_weighted total (fl.lit 0 0) s (o ∷ os)

  -- The bounds of the first pass of ScoreAll, for the cost or the carbon of a candidate.
  unfoldable pub bounds : (CandidatePlan F → F) → F × F → List (CandidatePlan F) → F × F
  bounds raw (lo, hi) [] = (lo, hi)
  bounds raw (lo, hi) (c ∷ cs) =
      bounds raw (if fl.lt (raw c) lo then raw c else lo, if fl.lt hi (raw c) then raw c else hi) cs

  -- The second pass of ScoreAll for one candidate.
  unfoldable pub score_candidate :
      SolverInput F → List (PolicyObjective F) → F × F → F × F → CandidatePlan F → ScoredCandidate F
  unfolding score_slo score_cost score_carbon score_fairness compute_weighted
  score_candidate input objectives cost_bounds carbon_bounds c =
      let score : CandidateScore F = record {
        slo = score_slo input c;
        cost = score_cost c.estimated_cost cost_bounds.0 cost_bounds.1;
        carbon = score_carbon c.estimated_carbon carbon_bounds.0 carbon_bounds.1;
        fairness = score_fairness input c;
        weighted = fl.lit 0 0;
      } in
      record {
        plan = c;
        score = record score { weighted = compute_weighted objectives score };
        constraints = [];
        viable = true;
      }

  -- ScoreAll
  unfoldable pub score_all :
      F
      → SolverInput F
      → List (PolicyObjective F)
      → List (CandidatePlan F)
      → List (ScoredCandidate F)
  unfolding bounds score_candidate
  score_all max_float input objectives cs =
      map
        (score_candidate input objectives
          (bounds (λ c. c.estimated_cost) (max_float, fl.lit 0 0) cs)
          (bounds (λ c. c.estimated_carbon) (max_float, fl.lit 0 0) cs))
        cs
