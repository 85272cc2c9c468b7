-- ===== src/Engine/Pareto.antt =====
-- internal/engine/pareto.go: the Pareto front of the scored candidates and the choice from it.
pub mod Front
pub mod Best
pub mod Choice
use optipilot_ai.Prelude.{
  ◌≡◌, ◌||◌, Bool, List, [], ◌∷◌, Option, none, some, ◌-ℤ◌, Float64, IsNumber, if◌then◌else◌,
}
use optipilot_ai.Engine.Types.{CandidatePlan, CurrentState, CandidateScore, ScoredCandidate}
use optipilot_ai.Engine.Dominance.{undominated}
use mathlib.Core.Bool.{false}

module _ {F : Type 0} ⦃fl : Float64 F⦄ where
  -- scoreDominates
  unfoldable pub score_dominates : CandidateScore F → CandidateScore F → Bool
  score_dominates a b =
      if fl.lt a.slo b.slo
        || fl.lt a.cost b.cost
        || fl.lt a.carbon b.carbon
        || fl.lt a.fairness b.fairness
      then false
      else fl.lt b.slo a.slo
        || fl.lt b.cost a.cost
        || fl.lt b.carbon a.carbon
        || fl.lt b.fairness a.fairness

  abbrev pub candidate_dominates : ScoredCandidate F → ScoredCandidate F → Bool
  candidate_dominates a b = score_dominates a.score b.score

  -- FindParetoFront
  unfoldable pub find_pareto_front : List (ScoredCandidate F) → List (ScoredCandidate F)
  unfolding undominated score_dominates
  find_pareto_front [] = []
  find_pareto_front (c ∷ []) = c ∷ []
  find_pareto_front (c ∷ d ∷ cs) = undominated candidate_dominates (c ∷ d ∷ cs)

  -- disruption
  unfoldable pub disruption : CandidatePlan F → CurrentState F → F
  disruption plan current =
      let replica_delta = fl.of_int (plan.replicas -ℤ current.replicas) in
      let cpu_delta = fl.sub plan.cpu_request current.cpu_request in
      let spot_delta = fl.sub plan.spot_ratio current.spot_ratio in
      fl.sqrt (
        fl.add (fl.add (fl.mul replica_delta replica_delta) (fl.mul cpu_delta cpu_delta))
          (fl.mul spot_delta spot_delta))

  -- The loop of SelectBest over `front[1:]`, with `best` and `bestDist`.
  unfoldable pub select_loop :
      CurrentState F → ScoredCandidate F → F → List (ScoredCandidate F) → ScoredCandidate F
  select_loop current best dist [] = best
  select_loop current best dist (c ∷ cs) =
      let keep = select_loop current best dist cs in
      let replace = select_loop current c (disruption c.plan current) cs in
      if fl.lt best.score.weighted c.score.weighted
      then replace
      else if fl.eq c.score.weighted best.score.weighted
      then (if fl.lt (disruption c.plan current) dist then replace else keep)
      else keep

  -- SelectBest; `none` is the panic of `front[0]` on an empty slice.
  unfoldable pub select_best :
      List (ScoredCandidate F) → CurrentState F → Option (ScoredCandidate F)
  unfolding select_loop
  select_best [] current = none
  select_best (c ∷ []) current = some c
  select_best (c ∷ d ∷ cs) current =
      some (select_loop current c (disruption c.plan current) (d ∷ cs))

  -- All four scores are numbers.
  abbrev pub IsScored : ScoredCandidate F → Type 0
  IsScored c =
      IsNumber c.score.slo
      × IsNumber c.score.cost
      × IsNumber c.score.carbon
      × IsNumber c.score.fairness
