-- ===== src/Tenant/Noisy.antt =====
-- internal/tenant/noisy_neighbor.go. Times and the window are nanoseconds; the clock is an argument. The
-- maps are visited in the order of their lists.
pub mod Retained
pub mod Alerts
use optipilot_ai.Prelude.{
  Float64, String, List, Option, Map, Bool, ℕ, [], false, filterb, if◌then◌else◌, insert, lookup,
  none, some, ◌∷◌, erase, leb, lookup_or, ltb, not, ◌++◌, length, pos, str_eq, true, ◌+◌, drop,
  ◌&&◌, ◌*◌, ◌-◌,
}

-- NoisyNeighborAlert
pub record NoisyNeighborAlert (F : Type 0) : Type 0 where
  pub aggressor : String
  pub aggressor_growth : F
  pub victims : List String
  pub timestamp : ℕ

-- usageSnapshot
pub record UsageSnapshot (F : Type 0) : Type 0 where
  pub cores : F
  pub at : ℕ

-- NoisyNeighborDetector
pub record NoisyNeighborDetector (F : Type 0) : Type 0 where
  pub threshold : F
  pub window : ℕ
  pub history : Map (List (UsageSnapshot F))
  pub alerts : List (NoisyNeighborAlert F)
  pub max_hist : ℕ
  pub max_alert : ℕ
  pub noisy : Map ℕ
  pub victims : Map ℕ

-- The last `n` elements.
unfoldable pub last_of : {A : Type 0} → ℕ → List A → List A
last_of n xs = if ltb n (length xs) then drop (length xs - n) xs else xs

abbrev pub others_than : String → List String → List String
others_than name names = filterb (λ v. not (str_eq v name)) names

unfoldable pub mark_all : ℕ → List String → Map ℕ → Map ℕ
unfolding insert
mark_all now [] marks = marks
mark_all now (v ∷ vs) marks = mark_all now vs (insert v now marks)

-- The signal is there and not older than twice the window.
unfoldable pub is_fresh : ℕ → ℕ → Option ℕ → Bool
is_fresh now window none = false
is_fresh now window (some t) = leb now (t + 2 * window)

module _ {F : Type 0} ⦃fl : Float64 F⦄ where
  -- NewNoisyNeighborDetector
  unfoldable pub new_noisy_neighbor_detector : NoisyNeighborDetector F
  new_noisy_neighbor_detector = record {
    threshold = fl.lit 50 2;
    window = 300_000_000_000;
    history = [];
    alerts = [];
    max_hist = 120;
    max_alert = 100;
    noisy = [];
    victims = [];
  }

  -- RecordUsage
  unfoldable pub record_usage : ℕ → NoisyNeighborDetector F → String → F → NoisyNeighborDetector F
  unfolding lookup insert last_of
  record_usage now d name cores =
      let h = lookup_or [] name d.history ++ record { cores = cores; at = now } ∷ [] in
      record d { history = insert name (last_of d.max_hist h) d.history }

  -- The first snapshot in the window.
  unfoldable pub baseline_of : ℕ → ℕ → List (UsageSnapshot F) → Option F
  baseline_of now window [] = none
  baseline_of now window (s ∷ ss) =
      if leb now (s.at + window) then some s.cores else baseline_of now window ss

  unfoldable pub latest_of : F → List (UsageSnapshot F) → F
  latest_of x [] = x
  latest_of x (s ∷ ss) = latest_of s.cores ss

  -- The growth from the first snapshot in the window to the last, if it can be told.
  unfoldable pub growth_of : ℕ → ℕ → List (UsageSnapshot F) → Option F
  unfolding baseline_of latest_of
  growth_of now window snapshots =
      if ltb (length snapshots) 2 then none else elim (baseline_of now window snapshots) [
        | none ↦ none
        | some b ↦
            if fl.le b (fl.of_int (pos 0))
            then none
            else some (fl.div (fl.sub (latest_of b snapshots) b) b)
      ]

  -- A tenant is added when its growth is above the threshold.
  unfoldable pub add_aggressor : F → String → Option F → List (String × F) → List (String × F)
  add_aggressor threshold name none later = later
  add_aggressor threshold name (some g) later =
      if fl.lt threshold g then (name, g) ∷ later else later

  -- The tenants whose growth is above the threshold, with it.
  unfoldable pub aggressors_of : F → ℕ → ℕ → Map (List (UsageSnapshot F)) → List (String × F)
  unfolding growth_of add_aggressor
  aggressors_of threshold now window [] = []
  aggressors_of threshold now window (entry ∷ rest) =
      add_aggressor threshold entry.0 (growth_of now window entry.1)
        (aggressors_of threshold now window rest)

  -- The tenant uses less than it is guaranteed.
  unfoldable pub is_below : Map F → String × F → Bool
  unfolding lookup
  is_below current (name, guaranteed) =
      let below : Bool = elim (lookup name current) [
        | none ↦ false
        | some c ↦ fl.lt c guaranteed
      ] in
      not (fl.le guaranteed (fl.of_int (pos 0))) && below

  unfoldable pub victim_names : Map F → Map F → List String
  unfolding is_below
  victim_names current [] = []
  victim_names current (entry ∷ rest) =
      if is_below current entry
      then entry.0 ∷ victim_names current rest
      else victim_names current rest

  -- The alert about an aggressor, when it has victims, and its signals.
  unfoldable pub raise_alert :
      ℕ
      → String
      → F
      → List String
      → NoisyNeighborDetector F
      → NoisyNeighborDetector F × List (NoisyNeighborAlert F)
  unfolding insert mark_all
  raise_alert now name growth [] d = (d, [])
  raise_alert now name growth (v ∷ vs) d = (
    record d { noisy = insert name now d.noisy; victims = mark_all now (v ∷ vs) d.victims },
    record { aggressor = name; aggressor_growth = growth; victims = v ∷ vs; timestamp = now } ∷ [],
  )

  -- The loop over the aggressors, with the alerts that it generates.
  unfoldable pub alert_loop :
      ℕ
      → List String
      → NoisyNeighborDetector F
      → List (String × F)
      → NoisyNeighborDetector F × List (NoisyNeighborAlert F)
  unfolding raise_alert
  alert_loop now names d [] = (d, [])
  alert_loop now names d ((name, growth) ∷ rest) =
      let (marked, alert) = raise_alert now name growth (others_than name names) d in
      let (d', alerts) = alert_loop now names marked rest in (d', alert ++ alerts)

  -- Detect from the aggressors and the victims on.
  unfoldable pub detect_among :
      ℕ
      → NoisyNeighborDetector F
      → List (String × F)
      → List String
      → NoisyNeighborDetector F × List (NoisyNeighborAlert F)
  unfolding alert_loop last_of
  detect_among now d [] names = (d, [])
  detect_among now d (a ∷ more) [] = (d, [])
  detect_among now d (a ∷ more) (v ∷ vs) =
      let (d', alerts) = alert_loop now (v ∷ vs) d (a ∷ more) in
      (record d' { alerts = last_of d.max_alert (d'.alerts ++ alerts) }, alerts)

  -- Detect
  unfoldable pub detect :
      ℕ
      → NoisyNeighborDetector F
      → Map F
      → Map F
      → NoisyNeighborDetector F × List (NoisyNeighborAlert F)
  unfolding aggressors_of victim_names detect_among
  detect now d guaranteed current =
      detect_among now d (aggressors_of d.threshold now d.window d.history)
        (victim_names current guaranteed)

  -- RecentAlerts
  unfoldable pub recent_alerts : NoisyNeighborDetector F → List (NoisyNeighborAlert F)
  recent_alerts d = d.alerts

  -- IsNoisy and IsVictim, which drop a signal that has expired.
  unfoldable pub is_noisy : ℕ → NoisyNeighborDetector F → String → NoisyNeighborDetector F × Bool
  unfolding lookup erase is_fresh
  is_noisy now d name =
      if is_fresh now d.window (lookup name d.noisy)
      then (d, true)
      else (record d { noisy = erase name d.noisy }, false)

  unfoldable pub is_victim : ℕ → NoisyNeighborDetector F → String → NoisyNeighborDetector F × Bool
  unfolding lookup erase is_fresh
  is_victim now d name =
      if is_fresh now d.window (lookup name d.victims)
      then (d, true)
      else (record d { victims = erase name d.victims }, false)

-- A call of the detector, at a time.
pub data DetectorCall (F : Type 0) : Type 0 where
  records : ℕ → String → F → DetectorCall F
  detects : ℕ → Map F → Map F → DetectorCall F
  asks_noisy asks_victim : ℕ → String → DetectorCall F

module _ {F : Type 0} ⦃fl : Float64 F⦄ where
  unfoldable pub call_detector : NoisyNeighborDetector F → DetectorCall F → NoisyNeighborDetector F
  unfolding record_usage detect is_noisy is_victim
  call_detector d (records now name cores) = record_usage now d name cores
  call_detector d (detects now guaranteed current) = (detect now d guaranteed current).0
  call_detector d (asks_noisy now name) = (is_noisy now d name).0
  call_detector d (asks_victim now name) = (is_victim now d name).0

  unfoldable pub call_all :
      NoisyNeighborDetector F → List (DetectorCall F) → NoisyNeighborDetector F
  unfolding call_detector
  call_all d [] = d
  call_all d (c ∷ cs) = call_all (call_detector d c) cs
