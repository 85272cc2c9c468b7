-- ===== src/Tuning/Choice/Optimal.antt =====
-- What SelectOptimal can select.
use optipilot_ai.Prelude.{
  Float64, String, List, Map, [], ◌∷◌, some, lookup, Memᴰ, ◌⊎◌, ◌≡◌, if◌then◌else◌, inl, inr, refl,
  Bool-cases, Option-cases, str_eq, arith, eq_of_str_eq, str_eq_refl, lookup-insert, true, ap, ◌∙◌,
}
use optipilot_ai.Tuning.Types.{Numerals, TunableParameter, ParameterObservation}
use optipilot_ai.Tuning.Grid.{GridPoint}
use optipilot_ai.Tuning.Choice.{index_step, index_loop, pick_loop, select_optimal}

module _ {F : Type 0} ⦃fl : Float64 F⦄ where
  -- The value has been tried for the parameter.
  abbrev pub IsObserved : String → String → List (ParameterObservation F) → Type 0
  IsObserved name v obs =
      (o : ParameterObservation F) × Memᴰ o obs × (o.parameter_name ≡ name) × (o.value ≡ v)

  IsObserved-tail :
      (name v : String) (o : ParameterObservation F) (os : List (ParameterObservation F))
      → IsObserved name v os
      → IsObserved name v (o ∷ os)
  IsObserved-tail name v o os (x, m, p, q) = (x, Memᴰ.tail m, p, q)

  index_step-IsObserved :
      (nums : Numerals F) (name objective v : String) (o : ParameterObservation F) (index : Map F)
      (s : F)
      → lookup v (index_step nums name objective index o) ≡ some s
      → ((s' : F) × (lookup v index ≡ some s')) ⊎ ((o.parameter_name ≡ name) × (o.value ≡ v))
  unfolding index_step
  index_step-IsObserved nums name objective v o index s h = elim (Option-cases (lookup v index)) [
    | inr (s', e) ↦ inl (s', e)
    | inl e ↦ elim (Bool-cases (str_eq o.parameter_name name)) [
      | inr p ↦ absurd (ground arith)
      | inl p ↦ elim (Bool-cases (str_eq o.value v)) [
        | inl q ↦ inr (eq_of_str_eq o.parameter_name name p, eq_of_str_eq o.value v q)
        | inr q ↦ absurd (
            ground (
              arith,
              lookup-insert o.value v
                  (if str_eq objective "minimize" then nums.neg o.slo_value else o.slo_value) index,
            ))
      ]
    ]
  ]

  index-IsObserved :
      (nums : Numerals F) (name objective v : String) (obs : List (ParameterObservation F))
      (index : Map F) (s : F)
      → lookup v (index_loop nums name objective index obs) ≡ some s
      → ((s' : F) × (lookup v index ≡ some s')) ⊎ IsObserved name v obs
  unfolding index_loop
  index-IsObserved nums name objective v [] index s h = inl (s, h)
  index-IsObserved nums name objective v (o ∷ os) index s h =
      elim (index-IsObserved nums name objective v os (index_step nums name objective index o) s
        h) [
          | inr later ↦ inr (IsObserved-tail name v o os later)
          | inl (s', e) ↦ elim (index_step-IsObserved nums name objective v o index s' e) [
            | inl old ↦ inl old
            | inr (p, q) ↦ inr (o, Memᴰ.head refl, p, q)
          ]
        ]

  pick-found :
      (index : Map F) (best : String) (best_slo : F) (gps : List (GridPoint F))
      → (pick_loop index best best_slo gps ≡ best)
        ⊎ ((s : F) × (lookup (pick_loop index best best_slo gps) index ≡ some s))
  unfolding pick_loop
  pick-found index best best_slo [] = inl refl
  pick-found index best best_slo (gp ∷ gps) = elim (Option-cases (lookup gp.value index)) [
    | inl e ↦ rw (pick_loop, e) (pick-found index best best_slo gps)
    | inr (slo, e) ↦ elim (Bool-cases (fl.lt best_slo slo)) [
      | inr p ↦ rw (pick_loop, e, p) (pick-found index best best_slo gps)
      | inl p ↦
          rw (pick_loop, e, p)
            (elim (pick-found index gp.value slo gps) [
              | inr found ↦ inr found
              | inl same ↦ inr (slo, rw (same, e) refl)
            ])
    ]
  ]

  -- SelectOptimal on a grid selects its first value or a value that has been tried for the parameter: no
  -- other point of the grid is ever explored.
  pub select_optimal_explores :
      (nums : Numerals F) (param : TunableParameter) (gp : GridPoint F) (gps : List (GridPoint F))
      (obs : List (ParameterObservation F)) (objective : String)
      → ((select_optimal nums param (gp ∷ gps) obs objective).0 ≡ gp.value)
        ⊎ IsObserved param.name (select_optimal nums param (gp ∷ gps) obs objective).0 obs
  unfolding select_optimal lookup
  select_optimal_explores nums param gp gps obs objective =
      let index = index_loop nums param.name objective [] obs in
      let best = pick_loop index "" nums.neg_inf (gp ∷ gps) in
      elim (Bool-cases (str_eq best "")) [
        | inl e ↦ inl (rw e refl)
        | inr e ↦ elim (pick-found index "" nums.neg_inf (gp ∷ gps)) [
          | inl same ↦
              let empty : str_eq best "" ≡ true = ap (λ v. str_eq v "") same ∙ str_eq_refl "" in cc
          | inr (s, found) ↦ elim (index-IsObserved nums param.name objective best obs [] s found) [
            | inl (s', old) ↦ cc
            | inr tried ↦ inr (rw e tried)
          ]
        ]
      ]
