-- ===== src/Tuning/Grid.antt =====
-- GenerateGrid of internal/tuning/optimizer.go and its end.
use optipilot_ai.Prelude.{
  Float64, String, List, Option, ℕ, ℤ, pos, map, [], ◌∷◌, ◌++◌, none, some, if◌then◌else◌, pos_part,
  suc, leb_ℤ, str_eq, ◌<◌, zero, ◌+◌, ◌≡◌, length, ◌≤◌, ◌-◌, Bool-cases, arith, ◌≢◌, inl, inr,
  length-append, refl, Option-cases,
}
use optipilot_ai.Tuning.Types.{
  Numerals, TunableParameter, ParameterType, string_type, integer_type, float_type, other_type,
}

-- GridPoint
pub record GridPoint (F : Type 0) : Type 0 where
  pub value : String
  pub float : F

-- The errors of GenerateGrid, with the name of the parameter.
pub data GridError : Type 0 where
  no_allowed_values invalid_min invalid_max empty_range : String → GridError

-- `out_of_fuel` is no outcome of the source.
pub data GridResult (F : Type 0) : Type 0 where
  grid_error : GridError → GridResult F
  points : List (GridPoint F) → GridResult F
  out_of_fuel : GridResult F

module _ {F : Type 0} ⦃fl : Float64 F⦄ (nums : Numerals F) where
  -- formatValue
  unfoldable pub format_value : ParameterType → F → String
  format_value integer_type v = nums.format_int (fl.round v)
  format_value t v = nums.format_float v

  unfoldable pub point_at : ParameterType → F → GridPoint F
  unfolding format_value
  point_at t v = record { value = format_value t v; float = v }

  -- `1e-9`
  abbrev pub margin : F
  margin = fl.lit 1 9

  -- The loop from `v`, with `n` points so far, on fuel.
  unfoldable pub grid_loop : ℕ → ParameterType → F → F → ℤ → ℕ → F → Option (List (GridPoint F))
  unfolding point_at
  grid_loop zero t high step max_points n v = none
  grid_loop (suc fuel) t high step max_points n v =
      let point = point_at t (fl.min v high) in
      let rest : Option (List (GridPoint F)) =
        elim (grid_loop fuel t high step max_points (suc n) (fl.add v step)) [
          | none ↦ none
          | some ps ↦ some (point ∷ ps)
        ] in
      if fl.le v (fl.add high margin)
      then (if leb_ℤ max_points (pos (suc n)) then some (point ∷ []) else rest)
      else some []

  -- The last point, to see whether the end is included.
  unfoldable pub last_float : F → List (GridPoint F) → F
  last_float x [] = x
  last_float x (p ∷ ps) = last_float p.float ps

  unfoldable pub with_end : ParameterType → F → List (GridPoint F) → List (GridPoint F)
  unfolding point_at last_float
  with_end t high [] = []
  with_end t high (p ∷ ps) =
      if fl.lt (last_float p.float ps) (fl.sub high margin)
      then (p ∷ ps) ++ point_at t high ∷ []
      else p ∷ ps

  -- The step: a tenth of the range, or the one given when it is a number above 0.
  unfoldable pub step_of : TunableParameter → F → F → F
  step_of p low high =
      let tenth = fl.div (fl.sub high low) (fl.of_int (pos 10)) in
      if str_eq p.step "" then tenth else elim (nums.parse_float p.step) [
        | none ↦ tenth
        | some s ↦ if fl.lt (fl.of_int (pos 0)) s then s else tenth
      ]

  -- ParseFloat with the checks on NaN and infinity.
  unfoldable pub parse_finite : String → Option F
  parse_finite s = elim (nums.parse_float s) [
    | none ↦ none
    | some v ↦ if nums.is_finite v then some v else none
  ]

  -- The part of GenerateGrid from the two ends on.
  unfoldable pub numeric_grid : TunableParameter → ℤ → F → F → GridResult F
  unfolding grid_loop with_end step_of
  numeric_grid p max_points low high =
      if fl.le high low
      then grid_error (empty_range p.name)
      else elim (grid_loop (suc (pos_part max_points)) p.type high (step_of p low high) max_points 0
          low) [ none ↦ out_of_fuel | some ps ↦ points (with_end p.type high ps) ]

  unfoldable pub ranged_grid : TunableParameter → ℤ → GridResult F
  unfolding parse_finite numeric_grid
  ranged_grid p max_points = elim (parse_finite p.min) [
    | none ↦ grid_error (invalid_min p.name)
    | some low ↦ elim (parse_finite p.max) [
      | none ↦ grid_error (invalid_max p.name)
      | some high ↦ numeric_grid p max_points low high
    ]
  ]

  unfoldable pub allowed_grid : String → List String → GridResult F
  allowed_grid name [] = grid_error (no_allowed_values name)
  allowed_grid name (v ∷ vs) =
      points (map (λ v. record { value = v; float = fl.of_int (pos 0) }) (v ∷ vs))

  -- GenerateGrid
  unfoldable pub generate_grid : TunableParameter → ℤ → GridResult F
  unfolding ranged_grid allowed_grid
  generate_grid p max_points = elim p.type [
    | string_type ↦ allowed_grid p.name p.allowed_values
    | _ ↦ ranged_grid p max_points
  ]

  -- The loop ends within the fuel, with at most the points it is allowed, and at most one if none is.
  grid_loop_ends :
      (fuel : ℕ) (t : ParameterType) (high step : F) (max_points : ℤ) (n : ℕ) (v : F)
      → 0 < fuel
      → pos_part max_points ≤ n + fuel
      → (ps : List (GridPoint F)) × (grid_loop fuel t high step max_points n v ≡ some ps)
        × (length ps ≤ 1 + (pos_part max_points - n - 1))
  unfolding grid_loop
  grid_loop_ends zero t high step max_points n v z h = absurd (omega arith)
  grid_loop_ends (suc fuel) t high step max_points n v z h =
      elim (Bool-cases (fl.le v (fl.add high margin))) [
        | inr e ↦ ([], rw e refl, omega arith)
        | inl e ↦ elim (Bool-cases (leb_ℤ max_points (pos (suc n)))) [
          | inl m ↦ (point_at t (fl.min v high) ∷ [], rw (e, m) refl, omega arith)
          | inr m ↦
              let (ps, q, len) =
                grid_loop_ends fuel t high step max_points (suc n) (fl.add v step) (ground arith)
                  (omega arith) in
              (point_at t (fl.min v high) ∷ ps, rw (e, m, q) refl, ground arith)
        ]
      ]

  length-with_end :
      (t : ParameterType) (high : F) (ps : List (GridPoint F))
      → length (with_end t high ps) ≤ suc (length ps)
  unfolding with_end
  length-with_end t high [] = omega arith
  length-with_end t high (p ∷ ps) = ground (arith, length-append (p ∷ ps) (point_at t high ∷ []))

  -- A grid has no more than one point beyond the limit, or beyond one point when the limit is below one.
  abbrev pub IsBounded : ℤ → GridResult F → Type 0
  IsBounded max_points (grid_error e) = Unit
  IsBounded max_points (points ps) = length ps ≤ 2 + (pos_part max_points - 1)
  IsBounded max_points out_of_fuel = ⊥

  numeric_grid-IsBounded :
      (p : TunableParameter) (max_points : ℤ) (low high : F)
      → IsBounded max_points (numeric_grid p max_points low high)
  unfolding numeric_grid
  numeric_grid-IsBounded p max_points low high = elim (Bool-cases (fl.le high low)) [
    | inl e ↦ rw e tt
    | inr e ↦
        let (ps, q, len) =
          grid_loop_ends (suc (pos_part max_points)) p.type high (step_of p low high) max_points 0
            low (omega arith) (omega arith) in
        rw (e, q) (omega (arith, len, length-with_end p.type high ps))
  ]

  ranged_grid-IsBounded :
      (p : TunableParameter) (max_points : ℤ) → IsBounded max_points (ranged_grid p max_points)
  unfolding ranged_grid
  ranged_grid-IsBounded p max_points = elim (Option-cases (parse_finite p.min)) [
    | inl e ↦ rw (ranged_grid, e) tt
    | inr (low, e) ↦ elim (Option-cases (parse_finite p.max)) [
      | inl d ↦ rw (ranged_grid, e, d) tt
      | inr (high, d) ↦ rw (ranged_grid, e, d) (numeric_grid-IsBounded p max_points low high)
    ]
  ]

  -- GenerateGrid on a numeric parameter always ends, whatever the step, with an error or with at most one
  -- point more than maxPoints, or two points when maxPoints is below one.
  pub generate_grid_ends :
      (p : TunableParameter) (max_points : ℤ)
      → p.type ≢ string_type
      → IsBounded max_points (generate_grid p max_points)
  unfolding generate_grid
  generate_grid_ends p max_points h = by_type p.type refl
    where
      by_type : (t : ParameterType) → p.type ≡ t → IsBounded max_points (generate_grid p max_points)
      by_type string_type e = absurd (h e)
      by_type integer_type e = rw (generate_grid, e) (ranged_grid-IsBounded p max_points)
      by_type float_type e = rw (generate_grid, e) (ranged_grid-IsBounded p max_points)
      by_type (other_type s) e = rw (generate_grid, e) (ranged_grid-IsBounded p max_points)
