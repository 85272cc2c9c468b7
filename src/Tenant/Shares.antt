-- ===== src/Tenant/Shares.antt =====
-- internal/tenant/fairshare.go. The loops over the slices of inputs and shares are loops over a list of
-- their pairs.
pub mod Guarantee
use optipilot_ai.Prelude.{
  Float64, String, List, Bool, ℤ, ℕ, Option, [], if◌then◌else◌, ltb_ℤ, pos, suc, wrap32, ◌∷◌, map,
  none, some, ◌&&◌, ◌+ℤ◌, not, zero,
}

-- ResourceShare
pub record ResourceShare (F : Type 0) : Type 0 where
  pub name : String
  pub guaranteed_cores : F
  pub burst_cores : F
  pub max_cores : F
  pub total_cores : F

-- FairShareInput
pub record FairShareInput (F : Type 0) : Type 0 where
  pub name : String
  pub weight : ℤ
  pub guaranteed_cores_percent : ℤ
  pub burstable : Bool
  pub max_burst_percent : ℤ
  pub current_cores : F

-- What AllocationStatusFor returns.
pub data AllocationStatus : Type 0 where
  guaranteed bursting throttled under_allocated : AllocationStatus

-- An input with its share.
abbrev pub Row : Type 0 → Type 0
Row F = FairShareInput F × ResourceShare F

module _ {F : Type 0} ⦃fl : Float64 F⦄ where
  abbrev pub zero_cores : F
  zero_cores = fl.of_int (pos 0)

  -- `clusterCores * float64(percent) / 100`
  unfoldable pub portion : F → ℤ → F
  portion cluster_cores percent =
      fl.div (fl.mul cluster_cores (fl.of_int percent)) (fl.of_int (pos 100))

  -- Phase 1, with the sum of the guarantees.
  unfoldable pub guarantee_loop : F → F → List (FairShareInput F) → List (Row F) × F
  unfolding portion
  guarantee_loop cluster_cores total [] = ([], total)
  guarantee_loop cluster_cores total (i ∷ is) =
      let g = portion cluster_cores i.guaranteed_cores_percent in
      let share : ResourceShare F = record {
        name = i.name;
        guaranteed_cores = g;
        burst_cores = zero_cores;
        max_cores = zero_cores;
        total_cores = zero_cores;
      } in
      let (rows, sum) = guarantee_loop cluster_cores (fl.add total g) is in ((i, share) ∷ rows, sum)

  -- The sum of the weights of the inputs that pass a test, as an int32.
  unfoldable pub weight_loop : (Row F → Bool) → ℤ → List (Row F) → ℤ
  unfolding wrap32 ◌+ℤ◌
  weight_loop counts sum [] = sum
  weight_loop counts sum (r ∷ rs) =
      weight_loop counts (if counts r then wrap32 (sum +ℤ r.0.weight) else sum) rs

  abbrev pub is_burstable : Row F → Bool
  is_burstable (i, s) = i.burstable

  abbrev pub with_burst : F → Row F → Row F
  with_burst burst (i, s) = (i, record s { burst_cores = burst })

  -- Phase 2 for one tenant.
  unfoldable pub burst_step : F → ℤ → Row F → Row F
  burst_step remaining total_weight (i, s) =
      if i.burstable
      then with_burst (fl.div (fl.mul remaining (fl.of_int i.weight)) (fl.of_int total_weight))
          (i, s)
      else (i, s)

  unfoldable pub burst_phase : F → List (Row F) → List (Row F)
  unfolding weight_loop burst_step
  burst_phase remaining rows =
      let total_weight = weight_loop is_burstable (pos 0) rows in
      if ltb_ℤ (pos 0) total_weight && fl.lt zero_cores remaining
      then map (burst_step remaining total_weight) rows
      else rows

  abbrev pub total_of : ResourceShare F → F
  total_of s = fl.add s.guaranteed_cores s.burst_cores

  -- `burst`, or 0 when it is below 0.
  abbrev pub not_below_zero : F → F
  not_below_zero x = if fl.lt x zero_cores then zero_cores else x

  -- One tenant in the first loop of a round: what it loses to its cap, if it is above it.
  unfoldable pub cap_step : F → Row F → Row F × Option F
  unfolding portion
  cap_step cluster_cores (i, s) =
      let cap = portion cluster_cores i.max_burst_percent in
      let excess = fl.sub (total_of s) cap in
      if ltb_ℤ (pos 0) i.max_burst_percent && fl.lt cap (total_of s)
      then (with_burst (not_below_zero (fl.sub s.burst_cores excess)) (i, s), some excess)
      else ((i, s), none)

  -- The first loop of a round, with the sum reclaimed, `none` if nothing was.
  unfoldable pub cap_loop : F → Option F → List (Row F) → List (Row F) × Option F
  unfolding cap_step
  cap_loop cluster_cores reclaimed [] = ([], reclaimed)
  cap_loop cluster_cores reclaimed (r ∷ rs) =
      let (r', excess) = cap_step cluster_cores r in
      let sum : F = elim reclaimed [ none ↦ zero_cores | some x ↦ x ] in
      let (rs', sum') =
        cap_loop cluster_cores (elim excess [ none ↦ reclaimed | some x ↦ some (fl.add sum x) ])
          rs in
      (r' ∷ rs', sum')

  -- A burstable tenant that is not yet at its cap.
  unfoldable pub takes_more : F → Row F → Bool
  unfolding portion
  takes_more cluster_cores (i, s) =
      let cap = portion cluster_cores i.max_burst_percent in
      let at_cap =
        ltb_ℤ (pos 0) i.max_burst_percent && fl.le (fl.sub cap (fl.lit 1 3)) (total_of s) in
      i.burstable && not at_cap

  unfoldable pub share_step : F → F → ℤ → Row F → Row F
  unfolding takes_more
  share_step cluster_cores reclaimed weight (i, s) =
      let extra = fl.div (fl.mul reclaimed (fl.of_int i.weight)) (fl.of_int weight) in
      if takes_more cluster_cores (i, s)
      then with_burst (fl.add s.burst_cores extra) (i, s)
      else (i, s)

  -- The rest of a round, that shares out what was reclaimed.
  unfoldable pub redistribute : F → F → List (Row F) → List (Row F)
  unfolding weight_loop share_step
  redistribute cluster_cores reclaimed rows =
      let weight = weight_loop (takes_more cluster_cores) (pos 0) rows in
      if ltb_ℤ (pos 0) weight then map (share_step cluster_cores reclaimed weight) rows else rows

  -- Phase 3, for the rounds that are left.
  unfoldable pub cap_rounds : ℕ → F → List (Row F) → List (Row F)
  unfolding cap_loop redistribute
  cap_rounds zero cluster_cores rows = rows
  cap_rounds (suc n) cluster_cores rows =
      let (capped, reclaimed) = cap_loop cluster_cores none rows in
      elim reclaimed [
        | none ↦ capped
        | some x ↦
            if fl.lt x (fl.lit 1 3)
            then capped
            else cap_rounds n cluster_cores (redistribute cluster_cores x capped)
      ]

  -- The last loop for one tenant.
  unfoldable pub final_share : F → Row F → ResourceShare F
  unfolding portion
  final_share cluster_cores (i, s) =
      let cap = portion cluster_cores i.max_burst_percent in
      let burst =
        if fl.lt cap (total_of s)
        then not_below_zero (fl.sub cap s.guaranteed_cores)
        else s.burst_cores in
      if ltb_ℤ (pos 0) i.max_burst_percent
      then record s {
        burst_cores = burst;
        max_cores = cap;
        total_cores = fl.add s.guaranteed_cores burst;
      }
      else record s { max_cores = cluster_cores; total_cores = total_of s }

  -- ComputeFairShares
  unfoldable pub compute_fair_shares : F → List (FairShareInput F) → List (ResourceShare F)
  unfolding guarantee_loop burst_phase cap_rounds final_share
  compute_fair_shares cluster_cores [] = []
  compute_fair_shares cluster_cores (i ∷ is) =
      let (rows, sum) = guarantee_loop cluster_cores zero_cores (i ∷ is) in
      let remaining = not_below_zero (fl.sub cluster_cores sum) in
      if fl.le cluster_cores zero_cores
      then []
      else map (final_share cluster_cores)
          (cap_rounds 10 cluster_cores (burst_phase remaining rows))

  -- AllocationStatusFor
  unfoldable pub allocation_status_for : F → ResourceShare F → AllocationStatus
  allocation_status_for current_cores share =
      let ratio = fl.div current_cores share.guaranteed_cores in
      if fl.le share.guaranteed_cores zero_cores
      then (if fl.lt zero_cores current_cores then bursting else under_allocated)
      else if fl.lt share.total_cores current_cores
      then throttled
      else if fl.lt (fl.of_int (pos 1)) ratio
      then bursting
      else if fl.le (fl.lit 8 1) ratio
      then guaranteed
      else under_allocated
