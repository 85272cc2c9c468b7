-- ===== src/Tuning/Choice.antt =====
-- What internal/tuning/optimizer.go chooses: BestFromObservations, SelectOptimal, NextParameterToTune and
-- the end of the search. The loops' Go maps start empty and are filled in the order of the slice.
pub mod Optimal
pub mod Next
use optipilot_ai.Prelude.{
  Float64, String, List, Option, Bool, Map, ℕ, ℤ, [], ◌∷◌, none, some, insert, false, if◌then◌else◌,
  lookup, ltb, suc, true, str_eq, ◌&&◌, ◌+◌,
}
use optipilot_ai.Tuning.Types.{Numerals, TunableParameter, ParameterObservation}
use optipilot_ai.Tuning.Grid.{GridPoint}

-- CorrelationResult
pub record CorrelationResult (F : Type 0) : Type 0 where
  pub parameter_name : String
  pub best_value : String
  pub best_slo : F
  pub num_observed : ℕ

module _ {F : Type 0} ⦃fl : Float64 F⦄ where
  -- The loop of BestFromObservations, with the best and the count so far.
  unfoldable pub best_loop :
      String
      → Option (ParameterObservation F)
      → ℕ
      → List (ParameterObservation F)
      → Option (ParameterObservation F) × ℕ
  best_loop name best count [] = (best, count)
  best_loop name best count (o ∷ os) =
      let is_better : Bool = elim best [ none ↦ true | some b ↦ fl.lt b.slo_value o.slo_value ] in
      let mine = str_eq o.parameter_name name in
      best_loop name (if mine && is_better then some o else best)
        (if mine then suc count else count) os

  -- BestFromObservations
  unfoldable pub best_from_observations :
      String → List (ParameterObservation F) → Option (CorrelationResult F)
  unfolding best_loop
  best_from_observations name obs =
      let (best, count) = best_loop name none 0 obs in
      elim best [
        | none ↦ none
        | some b ↦ some (record {
          parameter_name = name;
          best_value = b.value;
          best_slo = b.slo_value;
          num_observed = count;
        })
      ]

  -- One round of the loop of SelectOptimal that builds the index, value to best SLO.
  unfoldable pub index_step : Numerals F → String → String → Map F → ParameterObservation F → Map F
  unfolding lookup insert
  index_step nums name objective index o =
      let slo = if str_eq objective "minimize" then nums.neg o.slo_value else o.slo_value in
      let is_better : Bool = elim (lookup o.value index) [
        | none ↦ true
        | some existing ↦ fl.lt existing slo
      ] in
      if str_eq o.parameter_name name && is_better then insert o.value slo index else index

  unfoldable pub index_loop :
      Numerals F → String → String → Map F → List (ParameterObservation F) → Map F
  unfolding index_step
  index_loop nums name objective index [] = index
  index_loop nums name objective index (o ∷ os) =
      index_loop nums name objective (index_step nums name objective index o) os

  -- The loop of SelectOptimal over the grid.
  unfoldable pub pick_loop : Map F → String → F → List (GridPoint F) → String
  unfolding lookup
  pick_loop index best_value best_slo [] = best_value
  pick_loop index best_value best_slo (gp ∷ gps) = elim (lookup gp.value index) [
    | none ↦ pick_loop index best_value best_slo gps
    | some slo ↦
        pick_loop index (if fl.lt best_slo slo then gp.value else best_value)
          (if fl.lt best_slo slo then slo else best_slo) gps
  ]

  -- SelectOptimal
  unfoldable pub select_optimal :
      Numerals F
      → TunableParameter
      → List (GridPoint F)
      → List (ParameterObservation F)
      → String
      → String × Bool
  unfolding index_loop pick_loop
  select_optimal nums param [] obs objective = (param.default, false)
  select_optimal nums param (gp ∷ gps) obs objective =
      let index = index_loop nums param.name objective [] obs in
      let best = pick_loop index "" nums.neg_inf (gp ∷ gps) in
      if str_eq best "" then (gp.value, false) else (best, true)

-- `ranked`
pub record Ranked : Type 0 where
  pub idx : ℕ
  pub name : String
  pub count : ℕ

module _ {F : Type 0} where
  -- `counts[name]` after the loop that counts the observations of each parameter.
  unfoldable pub count_of : String → List (ParameterObservation F) → ℕ
  count_of name [] = 0
  count_of name (o ∷ os) = (if str_eq o.parameter_name name then 1 else 0) + count_of name os

  -- isConverged
  unfoldable pub all_observed : List TunableParameter → List (ParameterObservation F) → Bool
  unfolding count_of
  all_observed [] obs = true
  all_observed (p ∷ ps) obs = if ltb (count_of p.name obs) 3 then false else all_observed ps obs

  unfoldable pub is_converged : List TunableParameter → List (ParameterObservation F) → Bool
  unfolding all_observed
  is_converged [] obs = false
  is_converged (p ∷ ps) obs = all_observed (p ∷ ps) obs

  unfoldable pub rank_from : ℕ → List TunableParameter → List (ParameterObservation F) → List Ranked
  unfolding count_of
  rank_from i [] obs = []
  rank_from i (p ∷ ps) obs =
      record { idx = i; name = p.name; count = count_of p.name obs } ∷ rank_from (suc i) ps obs

-- The loop of NextParameterToTune.
unfoldable pub first_other : String → List Ranked → Option Ranked
first_other active [] = none
first_other active (r ∷ rs) = if str_eq r.name active then first_other active rs else some r

abbrev pub fewer : Ranked → Ranked → Bool
fewer a b = ltb a.count b.count

unfoldable pub chosen_index : String → List Ranked → Option ℕ
unfolding first_other
chosen_index active [] = none
chosen_index active (r ∷ rs) = elim (first_other active (r ∷ rs)) [
  | none ↦ some r.idx
  | some x ↦ some x.idx
]

-- NextParameterToTune; sort.Slice is an argument, and `none` is -1.
unfoldable pub next_parameter_to_tune :
    {F : Type 0}
    → ((Ranked → Ranked → Bool) → List Ranked → List Ranked)
    → List TunableParameter
    → String
    → List (ParameterObservation F)
    → Option ℕ
unfolding rank_from chosen_index
next_parameter_to_tune sort params active obs =
    chosen_index active (sort fewer (rank_from 0 params obs))
