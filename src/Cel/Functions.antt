-- ===== src/Cel/Functions.antt =====
-- internal/cel/functions.go: the tables behind the CEL functions and the cost estimates.
use optipilot_ai.Prelude.{Float64, Map, lookup, String, [], ◌∷◌, Bool, lookup_or, if◌then◌else◌}

module _ {F : Type 0} ⦃fl : Float64 F⦄ where
  abbrev risk_map : Map F
  risk_map =
      ("m5.large", fl.lit 15 2)
      ∷ ("m5.xlarge", fl.lit 12 2)
      ∷ ("m5.2xlarge", fl.lit 8 2)
      ∷ ("c5.large", fl.lit 18 2)
      ∷ ("c5.xlarge", fl.lit 14 2)
      ∷ ("r5.large", fl.lit 10 2)
      ∷ []

  -- SpotRiskFunc
  unfoldable pub spot_risk : String → String → F
  unfolding lookup
  spot_risk instance_type az = lookup_or (fl.lit 20 2) instance_type risk_map

  abbrev carbon_map : Map F
  carbon_map =
      ("us-east-1", fl.lit 380 0)
      ∷ ("us-west-2", fl.lit 120 0)
      ∷ ("eu-west-1", fl.lit 300 0)
      ∷ ("eu-north-1", fl.lit 50 0)
      ∷ ("ap-southeast-1", fl.lit 500 0)
      ∷ ("us-central1", fl.lit 450 0)
      ∷ []

  -- CarbonIntensityFunc
  unfoldable pub carbon_intensity : String → F
  unfolding lookup
  carbon_intensity region = lookup_or (fl.lit 400 0) region carbon_map

  abbrev base_prices : Map F
  base_prices =
      ("m5.large", fl.lit 96 3)
      ∷ ("m5.xlarge", fl.lit 192 3)
      ∷ ("m5.2xlarge", fl.lit 384 3)
      ∷ ("c5.large", fl.lit 85 3)
      ∷ ("c5.xlarge", fl.lit 170 3)
      ∷ ("r5.large", fl.lit 126 3)
      ∷ []

  -- CostRateFunc
  unfoldable pub cost_rate : String → String → Bool → F
  unfolding lookup
  cost_rate instance_type region spot =
      let listed = lookup_or (fl.lit 0 0) instance_type base_prices in
      let price = if fl.eq listed (fl.lit 0 0) then fl.lit 10 2 else listed in
      if spot then fl.mul price (fl.lit 3 1) else price
