-- ===== src/Engine/Pareto/Choice.antt =====
-- FindParetoFront and SelectBest choose from what they are given, and FindParetoFront never returns
-- an empty front for candidates, so that SelectBest does not panic; no score has to be a number.
use optipilot_ai.Prelude.{Float64, List, Memᴰ, [], ◌∷◌, ◌≢◌, Bool-cases, ◌≡◌, inl, inr, some, refl}
use optipilot_ai.Engine.Types.{CurrentState, ScoredCandidate}
use optipilot_ai.Engine.Dominance.Survivor.{undominated-ne-nil, mem_of_undominated}
use optipilot_ai.Engine.Pareto.{
  disruption, select_loop, select_best, find_pareto_front, candidate_dominates,
}

module _ {F : Type 0} ⦃fl : Float64 F⦄ (current : CurrentState F) where
  select_loop-mem :
      (b : ScoredCandidate F) (dist : F) (cs : List (ScoredCandidate F))
      → Memᴰ (select_loop current b dist cs) (b ∷ cs)
  unfolding select_loop
  select_loop-mem b dist [] = Memᴰ.head refl
  select_loop-mem b dist (c ∷ cs) =
      let replace = select_loop-mem c (disruption c.plan current) cs in
      let keep = skip (select_loop-mem b dist cs) in
      elim (Bool-cases (fl.lt b.score.weighted c.score.weighted)) [
        | inl p ↦ rw p (Memᴰ.tail replace)
        | inr p ↦ elim (Bool-cases (fl.eq c.score.weighted b.score.weighted)) [
          | inr q ↦ rw (p, q) keep
          | inl q ↦ elim (Bool-cases (fl.lt (disruption c.plan current) dist)) [
            | inl d ↦ rw (p, q, d) (Memᴰ.tail replace)
            | inr d ↦ rw (p, q, d) keep
          ]
        ]
      ]
    where
      skip : {r : ScoredCandidate F} → Memᴰ r (b ∷ cs) → Memᴰ r (b ∷ c ∷ cs)
      skip (Memᴰ.head e) = Memᴰ.head e
      skip (Memᴰ.tail t) = Memᴰ.tail (Memᴰ.tail t)

  pub select_best_total :
      (front : List (ScoredCandidate F))
      → front ≢ []
      → (b : ScoredCandidate F) × (select_best front current ≡ some b) × Memᴰ b front
  unfolding select_best
  select_best_total [] ne = absurd (ne refl)
  select_best_total (c ∷ []) ne = (c, refl, Memᴰ.head refl)
  select_best_total (c ∷ d ∷ cs) ne = (
    select_loop current c (disruption c.plan current) (d ∷ cs),
    refl,
    select_loop-mem c (disruption c.plan current) (d ∷ cs),
  )

module _ {F : Type 0} ⦃fl : Float64 F⦄ where
  pub mem_of_front :
      (c : ScoredCandidate F) (cs : List (ScoredCandidate F))
      → Memᴰ c (find_pareto_front cs)
      → Memᴰ c cs
  unfolding find_pareto_front
  mem_of_front c [] m = m
  mem_of_front c (a ∷ []) m = m
  mem_of_front c (a ∷ b ∷ cs) m = mem_of_undominated candidate_dominates c (a ∷ b ∷ cs) m

  pub front-ne-nil :
      (c : ScoredCandidate F) (cs : List (ScoredCandidate F)) → find_pareto_front (c ∷ cs) ≢ []
  unfolding find_pareto_front
  front-ne-nil c [] = λ e. cc
  front-ne-nil c (d ∷ cs) = undominated-ne-nil candidate_dominates c (d ∷ cs)
