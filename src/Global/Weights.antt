-- ===== src/Global/Weights.antt =====
-- Traffic weights: scoring and weighting in internal/global/solver.go and clampWeights of
-- internal/global/traffic.go. A weight is an int32, and a sum of weights wraps.
pub mod Total
pub mod Clamp
pub mod Shares
mod Tests
use optipilot_ai.Prelude.{
  String, List, Bool, ℕ, ℤ, Map, Float64, insert, wrap32, [], ◌∷◌, false, filterb, if◌then◌else◌,
  length, lookup, pos, ◌-ℤ◌, lookup_or, ltb, ltb_ℤ, map, not, ◌+ℤ◌, ◌/◌, eqb_ℤ, ◌&&◌,
}
use optipilot_ai.Global.Messages.{Directive, traffic_shift}
use optipilot_ai.Global.Snapshot.{
  ClusterHealthStatus, cluster_hibernating, cluster_unreachable, ClusterSnapshot, free_cores,
}

-- `total += w` over a map.
unfoldable pub sum_weights : Map ℤ → ℤ
unfolding wrap32
sum_weights [] = pos 0
sum_weights (e ∷ es) = wrap32 (e.1 +ℤ sum_weights es)

-- `weights[best] += (100 - total)`
unfoldable pub adjust : String → ℤ → Map ℤ → Map ℤ
unfolding insert lookup wrap32
adjust best total m = insert best (wrap32 (lookup_or (pos 0) best m +ℤ wrap32 (pos 100 -ℤ total))) m

-- `delta`, after its two limits.
unfoldable pub shift_of : ℤ → ℤ → ℤ → ℤ
unfolding wrap32
shift_of max_shift old new =
    let delta = wrap32 (new -ℤ old) in
    let least = wrap32 (pos 0 -ℤ max_shift) in
    if ltb_ℤ max_shift delta then max_shift else if ltb_ℤ delta least then least else delta

-- The new weight of one backend before the sum is considered.
unfoldable pub clamp_weight : ℤ → ℤ → ℤ → ℤ
unfolding wrap32 shift_of
clamp_weight max_shift old new =
    let w = wrap32 (old +ℤ shift_of max_shift old new) in if ltb_ℤ w (pos 0) then pos 0 else w

-- The first loop of clampWeights; `desired` has each name once.
unfoldable pub clamp_each : ℤ → Map ℤ → Map ℤ → Map ℤ
unfolding lookup clamp_weight
clamp_each max_shift current [] = []
clamp_each max_shift current (e ∷ es) =
    (e.0, clamp_weight max_shift (lookup_or (pos 0) e.0 current) e.1)
    ∷ clamp_each max_shift current es

-- The entry with the largest weight above the one given.
unfoldable pub largest : String × ℤ → Map ℤ → String × ℤ
largest best [] = best
largest best (e ∷ es) = largest (if ltb_ℤ best.1 e.1 then e else best) es

-- clampWeights
unfoldable pub clamp_weights : ℤ → Map ℤ → Map ℤ → Map ℤ
unfolding sum_weights adjust clamp_each largest
clamp_weights max_shift current desired =
    let clamped = clamp_each max_shift current desired in
    let total = sum_weights clamped in
    if not (eqb_ℤ total (pos 100)) && ltb_ℤ (pos 0) total
    then adjust (largest ("", pos 0) clamped).0 total clamped
    else clamped

-- TrafficStrategy; `other_strategy` is any other text, the empty one included.
pub data TrafficStrategy : Type 0 where
  latency_optimized cost_optimized carbon_optimized balanced : TrafficStrategy
  other_strategy : String → TrafficStrategy

-- ClusterScore
pub record ClusterScore (F : Type 0) : Type 0 where
  pub name : String
  pub latency : F
  pub cost : F
  pub carbon : F
  pub slo : F
  pub total : F

-- The end of solveTrafficWeights.
unfoldable pub weight_directives : String → String → Map ℤ → List Directive
weight_directives id reason [] = []
weight_directives id reason (w ∷ ws) =
    record {
      id = id;
      type = traffic_shift;
      cluster_name = "";
      traffic_weights = w ∷ ws;
      migration_hints = [];
      lifecycle_action = "";
      reason = reason;
    }
    ∷ []

module _ {F : Type 0} ⦃fl : Float64 F⦄ where
  -- strategyWeights: latency, cost, carbon, slo
  unfoldable pub strategy_weights : TrafficStrategy → F × F × F × F
  strategy_weights latency_optimized = (fl.lit 50 2, fl.lit 15 2, fl.lit 10 2, fl.lit 25 2)
  strategy_weights cost_optimized = (fl.lit 10 2, fl.lit 50 2, fl.lit 15 2, fl.lit 25 2)
  strategy_weights carbon_optimized = (fl.lit 10 2, fl.lit 15 2, fl.lit 50 2, fl.lit 25 2)
  strategy_weights s = (fl.lit 25 2, fl.lit 25 2, fl.lit 25 2, fl.lit 25 2)

  -- eligibleForTraffic
  unfoldable pub is_eligible : F → ClusterSnapshot F → Bool
  is_eligible min_slo c = elim c.health [
    | cluster_hibernating ↦ false
    | cluster_unreachable ↦ false
    | _ ↦ not (fl.lt (fl.of_int (pos 0)) min_slo && fl.lt c.slo_compliance_percent min_slo)
  ]

  unfoldable pub eligible_for_traffic : List (ClusterSnapshot F) → F → List (ClusterSnapshot F)
  unfolding is_eligible
  eligible_for_traffic all min_slo = filterb (is_eligible min_slo) all

  -- The loops for maxCost and maxCarbon.
  unfoldable pub max_of : F → List F → F
  max_of m [] = m
  max_of m (x ∷ xs) = max_of (if fl.lt m x then x else m) xs

  -- `1.0 - x / most`, or 1 when nothing is above 0.
  unfoldable pub inverted : F → F → F
  inverted most x =
      if fl.lt (fl.of_int (pos 0)) most
      then fl.sub (fl.of_int (pos 1)) (fl.div x most)
      else fl.of_int (pos 1)

  -- The body of the scoring loop.
  unfoldable pub score_cluster : TrafficStrategy → F → F → ClusterSnapshot F → ClusterScore F
  unfolding strategy_weights inverted free_cores
  score_cluster strategy max_cost max_carbon c =
      let (w_lat, w_cost, w_carbon, w_slo) = strategy_weights strategy in
      let cost = inverted max_cost c.hourly_cost_usd in
      let carbon = inverted max_carbon c.carbon_intensity_gco2 in
      let share = fl.div c.slo_compliance_percent (fl.of_int (pos 100)) in
      let slo = if fl.lt (fl.of_int (pos 1)) share then fl.of_int (pos 1) else share in
      let latency =
        if fl.lt (fl.of_int (pos 0)) c.total_cores
        then fl.div (free_cores c) c.total_cores
        else fl.of_int (pos 0) in
      record {
        name = c.name;
        latency = latency;
        cost = cost;
        carbon = carbon;
        slo = slo;
        total =
            fl.add
              (fl.add (fl.add (fl.mul w_lat latency) (fl.mul w_cost cost)) (fl.mul w_carbon carbon))
              (fl.mul w_slo slo);
      }

  -- scoreAll
  unfoldable pub score_clusters : List (ClusterSnapshot F) → TrafficStrategy → List (ClusterScore F)
  unfolding max_of score_cluster
  score_clusters clusters strategy =
      let zero_score = fl.of_int (pos 0) in
      map
        (score_cluster strategy (max_of zero_score (map (λ c. c.hourly_cost_usd) clusters))
          (max_of zero_score (map (λ c. c.carbon_intensity_gco2) clusters)))
        clusters

  -- totalScore
  unfoldable pub total_score : F → List (ClusterScore F) → F
  total_score acc [] = acc
  total_score acc (sc ∷ scs) = total_score (fl.add acc sc.total) scs

  -- The branch for a zero total.
  unfoldable pub equal_weights : ℤ → List (ClusterScore F) → Map ℤ → Map ℤ
  unfolding insert
  equal_weights w [] out = out
  equal_weights w (sc ∷ scs) out = equal_weights w scs (insert sc.name w out)

  -- `equalShare + delta`, the delta clamped.
  unfoldable pub raw_weight : F → F → F → ClusterScore F → F
  raw_weight equal_share max_shift sum sc =
      let least = fl.sub (fl.of_int (pos 0)) max_shift in
      let delta = fl.sub (fl.mul (fl.div sc.total sum) (fl.of_int (pos 100))) equal_share in
      fl.add equal_share
        (if fl.lt max_shift delta then max_shift else if fl.lt delta least then least else delta)

  unfoldable pub raw_weights : F → F → F → List (ClusterScore F) → Map F → Map F
  unfolding raw_weight insert
  raw_weights equal_share max_shift sum [] out = out
  raw_weights equal_share max_shift sum (sc ∷ scs) out =
      raw_weights equal_share max_shift sum scs
        (insert sc.name (raw_weight equal_share max_shift sum sc) out)

  -- The rounding loop.
  unfoldable pub round_each : Map F → Map ℤ
  unfolding wrap32
  round_each [] = []
  round_each (e ∷ es) =
      let rounded = wrap32 (fl.round e.1) in
      (e.0, if ltb_ℤ rounded (pos 1) then pos 1 else rounded) ∷ round_each es

  -- The loop for the best cluster.
  unfoldable pub best_cluster : ClusterScore F → List (ClusterScore F) → String
  best_cluster best [] = best.name
  best_cluster best (sc ∷ scs) = best_cluster (if fl.lt best.total sc.total then sc else best) scs

  -- The weights before the rounding error is taken off.
  unfoldable pub rounded_weights : List (ClusterScore F) → ℤ → F → Map ℤ
  unfolding raw_weights round_each
  rounded_weights scores max_shift_percent sum =
      let share = fl.div (fl.of_int (pos 100)) (fl.of_int (pos (length scores))) in
      let shift = fl.of_int max_shift_percent in
      let max_shift = if fl.le shift (fl.of_int (pos 0)) then fl.of_int (pos 25) else shift in
      round_each (raw_weights share max_shift sum scores [])

  -- scoresToWeights
  unfoldable pub scores_to_weights : List (ClusterScore F) → ℤ → Map ℤ
  unfolding sum_weights adjust total_score equal_weights rounded_weights best_cluster
  scores_to_weights [] max_shift_percent = []
  scores_to_weights (sc ∷ scs) max_shift_percent =
      let sum = total_score (fl.of_int (pos 0)) (sc ∷ scs) in
      let out = rounded_weights (sc ∷ scs) max_shift_percent sum in
      let total = sum_weights out in
      if fl.eq sum (fl.of_int (pos 0))
      then equal_weights (pos (100 / length (sc ∷ scs))) (sc ∷ scs) []
      else if eqb_ℤ total (pos 100)
      then out
      else adjust (best_cluster sc scs) total out

  -- solveTrafficWeights, with the identifier that uuid.New gives and the text of the reason.
  unfoldable pub solve_traffic_weights :
      String → (ℕ → String) → TrafficStrategy → F → ℤ → List (ClusterSnapshot F) → List Directive
  unfolding eligible_for_traffic score_clusters scores_to_weights weight_directives
  solve_traffic_weights id reason_of strategy min_slo max_shift_percent clusters =
      let eligible = eligible_for_traffic clusters min_slo in
      let weights = scores_to_weights (score_clusters eligible strategy) max_shift_percent in
      if ltb (length eligible) 2
      then []
      else weight_directives id (reason_of (length eligible)) weights
