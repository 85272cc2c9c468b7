-- ===== src/Tenant/Fairness.antt =====
-- internal/tenant/fairness.go: Jain's index. The gauges are left out.
use optipilot_ai.Prelude.{
  Float64, String, List, Option, Map, [], insert, pos, ◌∷◌, if◌then◌else◌, length, ◌++◌, none, some,
}

-- FairnessInput
pub record FairnessInput (F : Type 0) : Type 0 where
  pub name : String
  pub current_cores : F
  pub guaranteed_cores : F

-- FairnessResult
pub record FairnessResult (F : Type 0) : Type 0 where
  pub global_index : F
  pub per_tenant : Map F

module _ {F : Type 0} ⦃fl : Float64 F⦄ where
  -- The loop that fills the map and the list of the ratios.
  unfoldable pub ratio_loop : Map F → List F → List (FairnessInput F) → Map F × List F
  unfolding insert
  ratio_loop per_tenant xs [] = (per_tenant, xs)
  ratio_loop per_tenant xs (i ∷ is) =
      let x = fl.div i.current_cores i.guaranteed_cores in
      if fl.le i.guaranteed_cores (fl.of_int (pos 0))
      then ratio_loop per_tenant xs is
      else ratio_loop (insert i.name x per_tenant) (xs ++ x ∷ []) is

  -- Σ xi and Σ xi².
  unfoldable pub sum_loop : F → F → List F → F × F
  sum_loop s s2 [] = (s, s2)
  sum_loop s s2 (x ∷ xs) = sum_loop (fl.add s x) (fl.add s2 (fl.mul x x)) xs

  unfoldable pub jain_index : List F → F
  unfolding sum_loop
  jain_index xs =
      let (s, s2) = sum_loop (fl.of_int (pos 0)) (fl.of_int (pos 0)) xs in
      let index =
        if fl.eq s2 (fl.of_int (pos 0))
        then fl.of_int (pos 1)
        else fl.div (fl.mul s s) (fl.mul (fl.of_int (pos (length xs))) s2) in
      fl.max (fl.of_int (pos 0)) (fl.min (fl.of_int (pos 1)) index)

  -- ComputeFairness
  unfoldable pub compute_fairness : List (FairnessInput F) → Option (FairnessResult F)
  unfolding ratio_loop jain_index
  compute_fairness inputs =
      let (per_tenant, xs) = ratio_loop [] [] inputs in
      elim xs [
        | [] ↦ none
        | y ∷ ys ↦ some (record { global_index = jain_index (y ∷ ys); per_tenant = per_tenant })
      ]
