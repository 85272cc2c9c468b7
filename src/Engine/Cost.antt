-- ===== src/Engine/Cost.antt =====
-- internal/engine/candidates.go: what a plan costs, and the plan that each generator builds.
use optipilot_ai.Prelude.{
  Float64, List, ℤ, String, if◌then◌else◌, lookup, ◌-ℤ◌, [], false, lookup_or, ltb_ℤ, ◌&&◌, ◌∷◌,
  pos, true,
}
use optipilot_ai.Cel.Functions.{cost_rate, carbon_intensity}
use optipilot_ai.Engine.Types.{CandidatePlan, SolverInput}

abbrev pub first_instance : List String → String
first_instance [] = "m5.large"
first_instance (t ∷ ts) = t

-- `if n < 1 { n = 1 }`
abbrev pub at_least_one : ℤ → ℤ
at_least_one n = if ltb_ℤ n (pos 1) then pos 1 else n

module _ {F : Type 0} ⦃fl : Float64 F⦄ where
  -- instanceCapacities and its default: cores and GiB.
  unfoldable pub instance_capacity : String → F × F
  unfolding lookup
  instance_capacity instance_type =
      lookup_or (fl.lit 2 0, fl.lit 8 0) instance_type
        (("m5.large", (fl.lit 2 0, fl.lit 8 0))
          ∷ ("m5.xlarge", (fl.lit 4 0, fl.lit 16 0))
          ∷ ("m5.2xlarge", (fl.lit 8 0, fl.lit 32 0))
          ∷ ("c5.large", (fl.lit 2 0, fl.lit 4 0))
          ∷ ("c5.xlarge", (fl.lit 4 0, fl.lit 8 0))
          ∷ ("r5.large", (fl.lit 2 0, fl.lit 16 0))
          ∷ [])

  abbrev share_of : F → F → F
  share_of capacity request =
      if fl.lt (fl.lit 0 0) capacity && fl.lt (fl.lit 0 0) request
      then fl.div request capacity
      else fl.lit 0 0

  -- planResourceShare
  unfoldable pub plan_resource_share : CandidatePlan F → String → F
  unfolding instance_capacity
  plan_resource_share plan instance_type =
      let (cores, gib) = instance_capacity instance_type in
      let share = fl.max (share_of cores plan.cpu_request) (share_of gib plan.memory_request) in
      if fl.le plan.cpu_request (fl.lit 0 0) && fl.le plan.memory_request (fl.lit 0 0)
      then fl.lit 1 0
      else if fl.le share (fl.lit 0 0)
      then fl.lit 1 0
      else share

  -- estimateCost
  unfoldable pub estimate_cost : CandidatePlan F → String → String → F
  unfolding plan_resource_share cost_rate
  estimate_cost plan instance_type region =
      let share = plan_resource_share plan instance_type in
      fl.add
        (fl.mul (fl.mul (fl.of_int plan.on_demand_count) (cost_rate instance_type region false))
          share)
        (fl.mul (fl.mul (fl.of_int plan.spot_count) (cost_rate instance_type region true)) share)

  -- estimateCarbon
  unfoldable pub estimate_carbon : F → String → F
  unfolding carbon_intensity
  estimate_carbon cost region = fl.mul (fl.mul cost (carbon_intensity region)) (fl.lit 12 1)

  -- The plan that each generator builds from replicas, requests and a spot ratio.
  unfoldable pub make_plan : SolverInput F → ℤ → F → F → F → CandidatePlan F
  unfolding estimate_cost estimate_carbon
  make_plan input replicas cpu memory ratio =
      let spot = fl.round (fl.mul (fl.of_int replicas) ratio) in
      let plan : CandidatePlan F = record {
        replicas = replicas;
        cpu_request = cpu;
        memory_request = memory;
        spot_ratio = ratio;
        spot_count = spot;
        on_demand_count = replicas -ℤ spot;
        instance_types = input.instance_types;
        estimated_cost = fl.lit 0 0;
        estimated_carbon = fl.lit 0 0;
      } in
      let cost = estimate_cost plan (first_instance input.instance_types) input.region in
      record plan { estimated_cost = cost; estimated_carbon = estimate_carbon cost input.region }
