-- ===== src/Tenant/Noisy/Alerts.antt =====
-- What an alert and a signal of the detector say.
use optipilot_ai.Prelude.{Float64, Map, ℕ, List, String, Memᴰ, ◌≡◌, some, true, [], ◌≢◌}
use optipilot_ai.Tenant.Noisy.{
  NoisyNeighborAlert, UsageSnapshot, NoisyNeighborDetector, growth_of, is_below,
}

module _ {F : Type 0} ⦃fl : Float64 F⦄ where
  -- What an alert claims of the usage that Detect has seen.
  abbrev pub Justified : ℕ → NoisyNeighborDetector F → Map F → Map F → NoisyNeighborAlert F → Type 0
  Justified now d guaranteed current alert =
      (alert.timestamp ≡ now)
      × ((snapshots : List (UsageSnapshot F)) × Memᴰ (alert.aggressor, snapshots) d.history
          × (growth_of now d.window snapshots ≡ some alert.aggressor_growth))
      × (fl.lt d.threshold alert.aggressor_growth ≡ true)
      × (alert.victims ≢ [])
      × ((v : String)
          → Memᴰ v alert.victims
          → (v ≢ alert.aggressor)
            × ((g : F) × Memᴰ (v, g) guaranteed × (is_below current (v, g) ≡ true)))
