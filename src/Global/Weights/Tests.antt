-- ===== src/Global/Weights/Tests.antt =====
-- Runs of the traffic weights, and their theorems there.
use optipilot_ai.Prelude.{
  String, ℤ, ℕ, Map, pos, ◌≡◌, ◌∷◌, [], ◌+ℤ◌, ◌-ℤ◌, wrap32, lookup, insert, arith, refl,
}
use optipilot_ai.Prelude.Thousandths.{Thousandths, thousandths}
use optipilot_ai.Global.Weights.{
  sum_weights, clamp_weight, clamp_each, clamp_weights, shift_of, ClusterScore, total_score,
  equal_weights, scores_to_weights,
}
use optipilot_ai.Global.Weights.Clamp.{clamp_weight_lem}
use optipilot_ai.Global.Weights.Shares.{scores_to_weights_sum, single_backend_takes_all}

abbrev current : Map ℤ
current = ("east", pos 60) ∷ ("west", pos 40) ∷ []

abbrev desired : Map ℤ
desired = ("east", pos 10) ∷ ("west", pos 90) ∷ []

-- Each moves by 25.
clamped_pair : clamp_weights (pos 25) current desired ≡ ("east", pos 35) ∷ ("west", pos 65) ∷ []
unfolding clamp_weights clamp_each clamp_weight shift_of sum_weights wrap32 lookup ◌+ℤ◌ ◌-ℤ◌
clamped_pair = refl

clamp_weight_lem_example : clamp_weight (pos 25) (pos 60) (pos 10) ≡ pos 35
clamp_weight_lem_example =
    clamp_weight_lem 25 60 10 (omega arith) (omega arith) (omega arith) (omega arith)

-- From 40 the bound allows 65, and the rebalancing makes it 100.
single_backend_takes_all_example :
    clamp_weights (pos 25) current (("west", pos 90) ∷ []) ≡ ("west", pos 100) ∷ []
unfolding clamp_weight shift_of wrap32 lookup ◌+ℤ◌ ◌-ℤ◌
single_backend_takes_all_example = single_backend_takes_all (pos 25) current "west" (pos 90) refl

abbrev score : String → ℕ → ClusterScore Thousandths
score name total = record {
  name = name;
  latency = pos 0;
  cost = pos 0;
  carbon = pos 0;
  slo = pos 0;
  total = pos total;
}

scores_to_weights_sum_example :
    sum_weights (scores_to_weights (score "east" 600 ∷ score "west" 300 ∷ []) (pos 25)) ≡ pos 100
unfolding total_score
scores_to_weights_sum_example =
    scores_to_weights_sum (score "east" 600) (score "west" 300 ∷ []) (pos 25) refl

-- Three scores of 0 give 33 each.
zero_scores :
    sum_weights (scores_to_weights (score "a" 0 ∷ score "b" 0 ∷ score "c" 0 ∷ []) (pos 25)) ≡ pos 99
unfolding scores_to_weights total_score equal_weights sum_weights insert wrap32 ◌+ℤ◌
zero_scores = refl
