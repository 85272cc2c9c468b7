-- ===== src/Engine/Signals.antt =====
-- internal/engine/advanced_signals.go, with Score of internal/metrics/custom_adapter.go and what it reads of a
-- storage recommendation. math.Abs is an argument. The order of a Go map does not matter to what is
-- written from it.
use optipilot_ai.Prelude.{
  Float64, String, List, Option, Map, [], if◌then◌else◌, insert, pos, some, ◌∷◌, map, none, ◌||◌,
}
use optipilot_ai.Engine.Types.{SolverInput, ScalingAction, ScoredCandidate}
use optipilot_ai.Storage.{Recommendation}

-- CustomMetricResult
pub record CustomMetricResult (F : Type 0) : Type 0 where
  pub name : String
  pub value : F
  pub target : F
  pub weight : F
  pub err : Option String

-- AdvancedSignals; a nil slice or map is an empty one.
pub record AdvancedSignals (F : Type 0) : Type 0 where
  pub custom_metric_results : List (CustomMetricResult F)
  pub tuning_overrides : Map String
  pub storage_recommendations : List (Recommendation F)

-- The loop of EnrichTuning.
unfoldable pub merge_params : Map String → Map String → Map String
unfolding insert
merge_params params [] = params
merge_params params (entry ∷ rest) = merge_params (insert entry.0 entry.1 params) rest

module _ {F : Type 0} ⦃fl : Float64 F⦄ where
  -- The loop of EnrichMetrics.
  unfoldable pub merge_metrics : Map F → List (CustomMetricResult F) → Map F
  unfolding insert
  merge_metrics metrics [] = metrics
  merge_metrics metrics (r ∷ rs) =
      merge_metrics (elim r.err [ none ↦ insert r.name r.value metrics | some e ↦ metrics ]) rs

  -- EnrichMetrics
  unfoldable pub enrich_metrics : SolverInput F → Option (AdvancedSignals F) → SolverInput F
  unfolding merge_metrics
  enrich_metrics input none = input
  enrich_metrics input (some signals) = record input {
    metrics = merge_metrics input.metrics signals.custom_metric_results;
  }

  -- EnrichTuning
  unfoldable pub enrich_tuning : ScalingAction F → Option (AdvancedSignals F) → ScalingAction F
  unfolding merge_params
  enrich_tuning action none = action
  enrich_tuning action (some signals) = record action {
    tuning_params = merge_params action.tuning_params signals.tuning_overrides;
  }

  -- The loop of StorageMonthlySavings.
  unfoldable pub savings_loop : F → List (Recommendation F) → F
  savings_loop total [] = total
  savings_loop total (r ∷ rs) = savings_loop (fl.add total r.est_monthly_savings) rs

  -- StorageMonthlySavings
  unfoldable pub storage_monthly_savings : Option (AdvancedSignals F) → F
  unfolding savings_loop
  storage_monthly_savings none = fl.of_int (pos 0)
  storage_monthly_savings (some signals) =
      savings_loop (fl.of_int (pos 0)) signals.storage_recommendations

  -- StorageHourlySavingsEstimate
  unfoldable pub storage_hourly_savings_estimate : Option (AdvancedSignals F) → F
  unfolding storage_monthly_savings
  storage_hourly_savings_estimate signals =
      let monthly = storage_monthly_savings signals in
      if fl.eq monthly (fl.of_int (pos 0))
      then fl.of_int (pos 0)
      else fl.div monthly (fl.of_int (pos 730))

  -- AdjustCostScore
  unfoldable pub adjust_cost_score : F → F → Option (AdvancedSignals F) → F
  unfolding storage_hourly_savings_estimate
  adjust_cost_score original hourly_cost signals =
      let hourly = storage_hourly_savings_estimate signals in
      let ratio = fl.div hourly (fl.add hourly hourly_cost) in
      let bonus = if fl.lt (fl.lit 2 1) ratio then fl.lit 2 1 else ratio in
      let adjusted = fl.add original bonus in
      if fl.le hourly (fl.of_int (pos 0)) || fl.le hourly_cost (fl.of_int (pos 0))
      then original
      else if fl.lt (fl.of_int (pos 1)) adjusted
      then fl.of_int (pos 1)
      else adjusted

  -- One candidate of EnrichScoredCandidates.
  unfoldable pub enrich_candidate :
      F → Option (AdvancedSignals F) → ScoredCandidate F → ScoredCandidate F
  unfolding adjust_cost_score
  enrich_candidate cm_score signals sc =
      let lowered = fl.sub sc.score.weighted (fl.mul cm_score (fl.lit 1 1)) in
      let weighted =
        if fl.lt (fl.of_int (pos 0)) cm_score
        then (if fl.lt lowered (fl.of_int (pos 0)) then fl.of_int (pos 0) else lowered)
        else sc.score.weighted in
      record sc {
        score = record sc.score {
          cost = adjust_cost_score sc.score.cost sc.plan.estimated_cost signals;
          weighted = weighted;
        };
      }

  module _ (abs : F → F) where
    -- The loop of metrics.Score.
    unfoldable pub distance_loop : F → List (CustomMetricResult F) → F
    distance_loop total [] = total
    distance_loop total (r ∷ rs) =
        let size = abs r.target in
        let denom = if fl.lt size (fl.of_int (pos 1)) then fl.of_int (pos 1) else size in
        let distance = fl.div (abs (fl.sub r.value r.target)) denom in
        let scored =
          if fl.le r.weight (fl.of_int (pos 0))
          then total
          else fl.add total (fl.mul r.weight distance) in
        distance_loop (elim r.err [ none ↦ scored | some e ↦ total ]) rs

    -- CustomMetricScore
    unfoldable pub custom_metric_score : Option (AdvancedSignals F) → F
    unfolding distance_loop
    custom_metric_score none = fl.of_int (pos 0)
    custom_metric_score (some signals) =
        distance_loop (fl.of_int (pos 0)) signals.custom_metric_results

    -- EnrichScoredCandidates
    unfoldable pub enrich_scored_candidates :
        List (ScoredCandidate F) → Option (AdvancedSignals F) → List (ScoredCandidate F)
    unfolding custom_metric_score enrich_candidate
    enrich_scored_candidates scored none = scored
    enrich_scored_candidates scored (some signals) =
        map (enrich_candidate (custom_metric_score (some signals)) (some signals)) scored
