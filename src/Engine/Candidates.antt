-- ===== src/Engine/Candidates.antt =====
-- internal/engine/candidates.go: the candidate plans of one cycle. math/rand is a parameter, `perm n` for
-- the permutation that rand.New(rand.NewSource(n)).Perm(n) gives.
use optipilot_ai.Prelude.{
  Float64, ℤ, Bool, List, if◌then◌else◌, pos, ℕ, [], false, leb, leb_ℤ, ltb_ℤ, ◌&&◌, ◌++◌, ◌∷◌,
  eqb_ℤ, length, none, some, suc, get_elem?, not, pos_part, ◌||◌, zero,
}
use optipilot_ai.Engine.Types.{CandidatePlan, SolverInput}
use mathlib.Core.List.{foldl}
use optipilot_ai.Engine.Cost.{make_plan, at_least_one}
use optipilot_ai.Engine.Dominance.{undominated}

abbrev pub default_max_candidates : ℤ
default_max_candidates = pos 100

-- candidateKey: replicas, CPU and memory requests, spot ratio.
abbrev pub Key : Type 0 → Type 0
Key F = ℤ × F × F × F

module _ {F : Type 0} ⦃fl : Float64 F⦄ where
  abbrev replica_multipliers : List F
  replica_multipliers =
      fl.lit 5 1
      ∷ fl.lit 75 2
      ∷ fl.lit 9 1
      ∷ fl.lit 1 0
      ∷ fl.lit 11 1
      ∷ fl.lit 125 2
      ∷ fl.lit 15 1
      ∷ fl.lit 2 0
      ∷ []

  abbrev spot_ratio_variants : List F
  spot_ratio_variants = fl.lit 0 0 ∷ fl.lit 3 1 ∷ fl.lit 5 1 ∷ fl.lit 8 1 ∷ fl.lit 1 0 ∷ []

  -- resourceVariants
  unfoldable pub resource_variants : SolverInput F → List (F × F)
  resource_variants input =
      let current = (input.current.cpu_request, input.current.memory_request) ∷ [] in
      elim input.right_sized_cpu [
        | none ↦ current
        | some rc ↦ elim input.right_sized_memory [
          | none ↦ current
          | some rm ↦
              if not (fl.eq rc input.current.cpu_request)
                || not (fl.eq rm input.current.memory_request)
              then current ++ (rc, rm) ∷ []
              else current
        ]
      ]

  -- candidateKey in the `seen` map.
  unfoldable pub is_seen : Key F → List (Key F) → Bool
  is_seen key [] = false
  is_seen key (k ∷ ks) =
      eqb_ℤ key.0 k.0 && fl.eq key.1 k.1 && fl.eq key.2 k.2 && fl.eq key.3 k.3 || is_seen key ks

  -- The body of the three nested loops, over the `seen` keys and the raw plans.
  unfoldable pub add_variant :
      SolverInput F
      → ℤ
      → F × F
      → List (Key F) × List (CandidatePlan F)
      → F
      → List (Key F) × List (CandidatePlan F)
  unfolding is_seen make_plan
  add_variant input replicas (cpu, memory) (seen, raw) ratio =
      let key : Key F = (replicas, cpu, memory, ratio) in
      if is_seen key seen
      then (seen, raw)
      else (key ∷ seen, raw ++ make_plan input replicas cpu memory ratio ∷ [])

  -- The loops over the multipliers, the resource variants and the spot ratios.
  unfoldable pub raw_candidates : SolverInput F → List (CandidatePlan F)
  unfolding add_variant resource_variants
  raw_candidates input =
      let current = at_least_one input.current.replicas in
      let start : List (Key F) × List (CandidatePlan F) = ([], []) in
      (foldl
        (λ s mult.
          let replicas = at_least_one (fl.round (fl.mul (fl.of_int current) mult)) in
          foldl (λ s' rv. foldl (add_variant input replicas rv) s' spot_ratio_variants) s
            (resource_variants input))
        start replica_multipliers).1

  -- dominates
  unfoldable pub dominates : CandidatePlan F → CandidatePlan F → Bool
  dominates a b =
      ltb_ℤ a.replicas b.replicas
      && fl.lt a.estimated_cost b.estimated_cost
      && fl.lt a.spot_ratio b.spot_ratio

  -- pruneDominated
  unfoldable pub prune_dominated : List (CandidatePlan F) → List (CandidatePlan F)
  unfolding dominates undominated
  prune_dominated cs = undominated dominates cs

  -- The loop of sampleUniform over the first `n` places of the permutation. A place beyond the list,
  -- which Perm never gives, is skipped.
  unfoldable pub take_places : ℕ → List ℕ → List (CandidatePlan F) → List (CandidatePlan F)
  take_places zero places cs = []
  take_places (suc n) [] cs = []
  take_places (suc n) (i ∷ places) cs = elim (get_elem? cs i) [
    | none ↦ take_places n places cs
    | some c ↦ c ∷ take_places n places cs
  ]

  -- sampleUniform
  unfoldable pub sample_uniform : (ℕ → List ℕ) → List (CandidatePlan F) → ℕ → List (CandidatePlan F)
  unfolding take_places
  sample_uniform perm cs n = if leb (length cs) n then cs else take_places n (perm (length cs)) cs

  -- GenerateCandidates
  unfoldable pub generate_candidates : (ℕ → List ℕ) → SolverInput F → ℤ → List (CandidatePlan F)
  unfolding raw_candidates prune_dominated sample_uniform
  generate_candidates perm input max_candidates =
      let limit = if leb_ℤ max_candidates (pos 0) then default_max_candidates else max_candidates in
      let pruned = prune_dominated (raw_candidates input) in
      if ltb_ℤ limit (pos (length pruned))
      then sample_uniform perm pruned (pos_part limit)
      else pruned

  -- PreWarmingCandidates, one round for each of preWarmingMultipliers.
  unfoldable pub pre_warming_round : SolverInput F → F → List (CandidatePlan F)
  unfolding make_plan
  pre_warming_round input mult =
      let current = at_least_one input.current.replicas in
      let replicas = fl.round (fl.mul (fl.of_int current) mult) in
      if leb_ℤ replicas current
      then []
      else make_plan input replicas input.current.cpu_request input.current.memory_request
          input.current.spot_ratio
        ∷ []

  unfoldable pub pre_warming_candidates : SolverInput F → List (CandidatePlan F)
  unfolding pre_warming_round
  pre_warming_candidates input =
      pre_warming_round input (fl.lit 13 1) ++ pre_warming_round input (fl.lit 15 1)

  -- SpotReductionCandidates, one round for each of spotReductionRatios.
  unfoldable pub spot_reduction_round : SolverInput F → F → List (CandidatePlan F)
  unfolding make_plan
  spot_reduction_round input ratio =
      if fl.le input.current.spot_ratio ratio
      then []
      else make_plan input (at_least_one input.current.replicas) input.current.cpu_request
          input.current.memory_request ratio
        ∷ []

  unfoldable pub spot_reduction_candidates : SolverInput F → List (CandidatePlan F)
  unfolding spot_reduction_round
  spot_reduction_candidates input =
      spot_reduction_round input (fl.lit 0 0) ++ spot_reduction_round input (fl.lit 3 1)
