-- ===== src/Engine/Pareto/Front.antt =====
-- FindParetoFront returns exactly the candidates that no other one dominates.
use optipilot_ai.Prelude.{
  ◌≡◌, refl, ◌⊎◌, ◌||◌, Bool, true, false, List, [], ◌∷◌, Memᴰ, arith, Float64, IsOrdered, ge_trans,
  gt-ge, All,
}
use optipilot_ai.Engine.Types.{CandidateScore, ScoredCandidate}
use optipilot_ai.Engine.Dominance.{undominated, undominated_lem, nondominated}
use optipilot_ai.Engine.Dominance.Stable.{undominated_covers}
use optipilot_ai.Engine.Pareto.{score_dominates, candidate_dominates, find_pareto_front, IsScored}

module _ {F : Type 0} ⦃fl : Float64 F⦄ (laws : IsOrdered F) where
  open laws use {lt_irrefl}

  abbrev strict : CandidateScore F → CandidateScore F → Bool
  strict a b =
      fl.lt b.slo a.slo
      || fl.lt b.cost a.cost
      || fl.lt b.carbon a.carbon
      || fl.lt b.fairness a.fairness

  record Dominates (a b : CandidateScore F) : Type 0 where
    slo_ge : fl.lt a.slo b.slo ≡ false
    cost_ge : fl.lt a.cost b.cost ≡ false
    carbon_ge : fl.lt a.carbon b.carbon ≡ false
    fairness_ge : fl.lt a.fairness b.fairness ≡ false
    some_gt : strict a b ≡ true

  Dominates-of : (a b : CandidateScore F) → score_dominates a b ≡ true → Dominates a b
  unfolding score_dominates
  Dominates-of a b h = ground arith

  score_dominates-of : (a b : CandidateScore F) → Dominates a b → score_dominates a b ≡ true
  unfolding score_dominates
  score_dominates-of a b h = ground arith

  score_dominates_trans :
      (a b c : ScoredCandidate F)
      → IsScored a
      → IsScored b
      → IsScored c
      → candidate_dominates a b ≡ true
      → candidate_dominates b c ≡ true
      → candidate_dominates a c ≡ true
  score_dominates_trans a b c na nb nc h k =
      let p = Dominates-of a.score b.score h in
      let q = Dominates-of b.score c.score k in
      score_dominates-of a.score c.score (record {
        slo_ge = ge_trans laws a.score.slo b.score.slo c.score.slo na.0 nb.0 nc.0 p.slo_ge q.slo_ge;
        cost_ge =
            ge_trans laws a.score.cost b.score.cost c.score.cost na.1 nb.1 nc.1 p.cost_ge q.cost_ge;
        carbon_ge =
            ge_trans laws a.score.carbon b.score.carbon c.score.carbon na.2 nb.2 nc.2 p.carbon_ge
              q.carbon_ge;
        fairness_ge =
            ge_trans laws a.score.fairness b.score.fairness c.score.fairness na.3 nb.3 nc.3
              p.fairness_ge q.fairness_ge;
        some_gt = ground (
          arith,
          p.some_gt,
          gt-ge laws a.score.slo b.score.slo c.score.slo nb.0 nc.0,
          gt-ge laws a.score.cost b.score.cost c.score.cost nb.1 nc.1,
          gt-ge laws a.score.carbon b.score.carbon c.score.carbon nb.2 nc.2,
          gt-ge laws a.score.fairness b.score.fairness c.score.fairness nb.3 nc.3,
          q.slo_ge,
          q.cost_ge,
          q.carbon_ge,
          q.fairness_ge,
        );
      })

  score_dominates_irrefl : (c : ScoredCandidate F) → candidate_dominates c c ≡ false
  unfolding score_dominates
  score_dominates_irrefl c = ground (
    arith,
    lt_irrefl c.score.slo,
    lt_irrefl c.score.cost,
    lt_irrefl c.score.carbon,
    lt_irrefl c.score.fairness,
  )

  find_pareto_front-undominated :
      (cs : List (ScoredCandidate F))
      → All IsScored cs
      → find_pareto_front cs ≡ undominated candidate_dominates cs
  unfolding find_pareto_front undominated
  find_pareto_front-undominated [] ns = refl
  find_pareto_front-undominated (c ∷ []) ns = rw (
    undominated_lem candidate_dominates IsScored score_dominates_irrefl score_dominates_trans
        (c ∷ []) ns,
    score_dominates_irrefl c,
  )
  find_pareto_front-undominated (c ∷ d ∷ cs) ns = refl

  -- If every score is a number, FindParetoFront returns the candidates that no candidate of the
  -- list dominates, all of them and in their order.
  pub find_pareto_front_exact :
      (cs : List (ScoredCandidate F))
      → All IsScored cs
      → find_pareto_front cs ≡ nondominated candidate_dominates cs
  find_pareto_front_exact cs ns = rw (find_pareto_front-undominated cs ns) (
      undominated_lem candidate_dominates IsScored score_dominates_irrefl score_dominates_trans cs
        ns)

  -- If every score is a number, each candidate is on the front or is dominated by a candidate of the
  -- front.
  pub find_pareto_front_covers :
      (cs : List (ScoredCandidate F)) (c : ScoredCandidate F)
      → All IsScored cs
      → Memᴰ c cs
      → (m : ScoredCandidate F) × Memᴰ m (find_pareto_front cs)
        × ((m ≡ c) ⊎ (candidate_dominates m c ≡ true))
  find_pareto_front_covers cs c ns mem = rw (find_pareto_front-undominated cs ns) (
      undominated_covers candidate_dominates IsScored score_dominates_irrefl score_dominates_trans
        cs c ns mem)
