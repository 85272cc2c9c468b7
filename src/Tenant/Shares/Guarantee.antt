-- ===== src/Tenant/Shares/Guarantee.antt =====
-- What ComputeFairShares keeps for every tenant.
use optipilot_ai.Prelude.{
  Float64, List, ◌≡◌, [], false, ◌∷◌, pos, true, if◌then◌else◌, ltb_ℤ, IsNumber,
}
use optipilot_ai.Tenant.Shares.{ResourceShare, FairShareInput, Row, portion, zero_cores}

-- The arithmetic of IEEE 754 that the caps rely on: a sum with +0 that is a number equals the other
-- summand (the sum of -0 and +0 is +0, which equals -0), and a difference has the sign of the comparison.
pub record Differences (F : Type 0) ⦃fl : Float64 F⦄ : Type 0 where
  pub add_zero :
      (x : F)
      → IsNumber (fl.add x (fl.of_int (pos 0)))
      → fl.eq (fl.add x (fl.of_int (pos 0))) x ≡ true
  pub zero_sub_above :
      (x y : F)
      → fl.lt y x ≡ true
      → fl.lt (fl.sub (fl.of_int (pos 0)) (fl.sub x y)) (fl.of_int (pos 0)) ≡ true
  pub sub_below : (x y : F) → fl.lt x y ≡ true → fl.lt (fl.sub x y) (fl.of_int (pos 0)) ≡ true

module _ {F : Type 0} ⦃fl : Float64 F⦄ (cluster_cores : F) where
  -- The row is for the input: name and guarantee are as phase 1 sets them, and a tenant that is not
  -- burstable has no burst.
  abbrev Keeps : FairShareInput F → Row F → Type 0
  Keeps i (j, s) =
      (j ≡ i)
      × (s.name ≡ i.name)
      × (s.guaranteed_cores ≡ portion cluster_cores i.guaranteed_cores_percent)
      × (i.burstable ≡ false → s.burst_cores ≡ zero_cores)

  -- The rows are for the inputs, one each, in their order.
  abbrev AllKeep : List (FairShareInput F) → List (Row F) → Type 0
  AllKeep [] [] = Unit
  AllKeep (i ∷ is) (r ∷ rs) = Keeps i r × AllKeep is rs
  AllKeep [] (r ∷ rs) = ⊥
  AllKeep (i ∷ is) [] = ⊥

  -- What a tenant is given: its guarantee, the cap or the cluster as its maximum, and the sum of guarantee
  -- and burst as its total; no burst unless it is burstable, so that the total equals the guarantee as
  -- numbers.
  abbrev pub Promised : FairShareInput F → ResourceShare F → Type 0
  Promised i s =
      (s.name ≡ i.name)
      × (s.guaranteed_cores ≡ portion cluster_cores i.guaranteed_cores_percent)
      × (s.max_cores ≡ (
          if ltb_ℤ (pos 0) i.max_burst_percent
          then portion cluster_cores i.max_burst_percent
          else cluster_cores))
      × (s.total_cores ≡ fl.add s.guaranteed_cores s.burst_cores)
      × (i.burstable ≡ false
          → (s.burst_cores ≡ zero_cores)
            × (IsNumber s.total_cores → fl.eq s.total_cores s.guaranteed_cores ≡ true))

  abbrev pub AllPromised : List (FairShareInput F) → List (ResourceShare F) → Type 0
  AllPromised [] [] = Unit
  AllPromised (i ∷ is) (s ∷ ss) = Promised i s × AllPromised is ss
  AllPromised [] (s ∷ ss) = ⊥
  AllPromised (i ∷ is) [] = ⊥
