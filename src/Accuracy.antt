-- ===== src/Accuracy.antt =====
-- internal/forecaster/accuracy_tracker.go: how well the forecasts of each service fit what was measured.
-- A zero time is none. math.Abs and the clock's time are arguments. A negative window, with which
-- Record's slice expression panics, is not modelled, nor is a negative sustain duration.
pub mod Fallback
mod Tests
use optipilot_ai.Prelude.{
  Float64, String, Bool, List, Map, Option, ℕ, ℤ, [], ◌∷◌, ◌++◌, ◌+◌, ◌-◌, if◌then◌else◌, true,
  false, some, none, pos, lookup, insert, erase, map, length, drop, leb, ltb, not,
}

-- accuracyRecord
pub record AccuracyRecord (F : Type 0) : Type 0 where
  pub ts : ℕ
  pub predicted : F
  pub actual : F

-- serviceAccuracy
pub record ServiceAccuracy (F : Type 0) : Type 0 where
  pub records : List (AccuracyRecord F)
  pub mae : F
  pub mape : F
  pub fallback : Bool
  pub high_mape_since : Option ℕ

-- AccuracyTracker
pub record AccuracyTracker (F : Type 0) : Type 0 where
  pub services : Map (ServiceAccuracy F)
  pub threshold : F
  pub sustain : ℕ
  pub window_max : ℕ

-- The totals that recompute's loop keeps.
pub record Totals (F : Type 0) : Type 0 where
  pub total_ae : F
  pub total_ape : F
  pub ape_count : ℕ

-- `if sa.highMAPESince.IsZero() { sa.highMAPESince = now }`
unfoldable pub since_or : ℕ → Option ℕ → ℕ
since_or now none = now
since_or now (some t) = t

module _ {F : Type 0} ⦃fl : Float64 F⦄ where
  -- WithMAPEThreshold
  unfoldable pub with_mape_threshold : F → AccuracyTracker F → AccuracyTracker F
  with_mape_threshold pct t = record t { threshold = pct }

  -- WithSustainDuration
  unfoldable pub with_sustain_duration : ℕ → AccuracyTracker F → AccuracyTracker F
  with_sustain_duration d t = record t { sustain = d }

  -- WithWindowMax
  unfoldable pub with_window_max : ℕ → AccuracyTracker F → AccuracyTracker F
  with_window_max n t = record t { window_max = n }

  -- `for _, o := range opts { o(t) }`
  unfoldable pub with_options :
      AccuracyTracker F → List (AccuracyTracker F → AccuracyTracker F) → AccuracyTracker F
  with_options t [] = t
  with_options t (o ∷ os) = with_options (o t) os

  -- NewAccuracyTracker
  unfoldable pub new_accuracy_tracker :
      List (AccuracyTracker F → AccuracyTracker F) → AccuracyTracker F
  unfolding with_options
  new_accuracy_tracker opts =
      with_options
        (record {
          services = [];
          threshold = fl.of_int (pos 30);
          sustain = 3_600_000_000_000;
          window_max = 200;
        })
        opts

  -- The zero serviceAccuracy.
  abbrev pub no_accuracy : ServiceAccuracy F
  no_accuracy = record {
    records = [];
    mae = fl.of_int (pos 0);
    mape = fl.of_int (pos 0);
    fallback = false;
    high_mape_since = none;
  }

  -- `sa.records[len(sa.records)-t.windowMax:]`, when they are over the cap.
  unfoldable pub evicted : ℕ → List (AccuracyRecord F) → List (AccuracyRecord F)
  evicted cap records =
      if ltb cap (length records) then drop (length records - cap) records else records

  -- One round of recompute's loop.
  unfoldable pub add_error : (F → F) → Totals F → AccuracyRecord F → Totals F
  add_error abs t r =
      let ae = abs (fl.sub r.predicted r.actual) in
      if fl.eq r.actual (fl.of_int (pos 0))
      then record t { total_ae = fl.add t.total_ae ae }
      else record {
        total_ae = fl.add t.total_ae ae;
        total_ape = fl.add t.total_ape (fl.mul (fl.div ae (abs r.actual)) (fl.of_int (pos 100)));
        ape_count = t.ape_count + 1;
      }

  -- The loop of recompute.
  unfoldable pub total_errors : (F → F) → Totals F → List (AccuracyRecord F) → Totals F
  unfolding add_error
  total_errors abs t [] = t
  total_errors abs t (r ∷ rs) = total_errors abs (add_error abs t r) rs

  -- `sa.mae` and `sa.mape` of recompute.
  unfoldable pub with_errors : (F → F) → ServiceAccuracy F → ServiceAccuracy F
  unfolding total_errors
  with_errors abs sa =
      let zero = fl.of_int (pos 0) in
      let t =
        total_errors abs (record { total_ae = zero; total_ape = zero; ape_count = 0 }) sa.records in
      record sa {
        mae = fl.div t.total_ae (fl.of_int (pos (length sa.records)));
        mape = if ltb 0 t.ape_count then fl.div t.total_ape (fl.of_int (pos t.ape_count)) else zero;
      }

  -- The fallback logic of recompute.
  unfoldable pub with_fallback : AccuracyTracker F → ServiceAccuracy F → ℕ → ServiceAccuracy F
  unfolding since_or
  with_fallback t sa now =
      if fl.lt t.threshold sa.mape
      then record sa {
        high_mape_since = some (since_or now sa.high_mape_since);
        fallback =
            if leb (since_or now sa.high_mape_since + t.sustain) now then true else sa.fallback;
      }
      else record sa { high_mape_since = none; fallback = false }

  -- recompute
  unfoldable pub recompute : (F → F) → AccuracyTracker F → ServiceAccuracy F → ℕ → ServiceAccuracy F
  unfolding with_errors with_fallback
  recompute abs t sa now = elim sa.records [
    | [] ↦ no_accuracy
    | r ∷ rs ↦ with_fallback t (with_errors abs sa) now
  ]

  -- getOrCreate
  unfoldable pub get_or_create : AccuracyTracker F → String → ServiceAccuracy F
  unfolding lookup
  get_or_create t service = elim (lookup service t.services) [ none ↦ no_accuracy | some sa ↦ sa ]

  -- Record, at the time that nowFn gives.
  unfoldable pub record_pair :
      (F → F) → AccuracyTracker F → String → AccuracyRecord F → AccuracyTracker F
  unfolding get_or_create recompute evicted insert
  record_pair abs t service r =
      let sa = get_or_create t service in
      let kept = record sa { records = evicted t.window_max (sa.records ++ r ∷ []) } in
      record t { services = insert service (recompute abs t kept r.ts) t.services }

  -- MAE
  unfoldable pub mae_of : AccuracyTracker F → String → F
  unfolding lookup
  mae_of t service = elim (lookup service t.services) [
    | none ↦ fl.of_int (pos 0)
    | some sa ↦ sa.mae
  ]

  -- MAPE
  unfoldable pub mape_of : AccuracyTracker F → String → F
  unfolding lookup
  mape_of t service = elim (lookup service t.services) [
    | none ↦ fl.of_int (pos 0)
    | some sa ↦ sa.mape
  ]

  -- IsFallbackActive
  unfoldable pub is_fallback_active : AccuracyTracker F → String → Bool
  unfolding lookup
  is_fallback_active t service = elim (lookup service t.services) [
    | none ↦ false
    | some sa ↦ sa.fallback
  ]

  -- Services
  unfoldable pub service_names : AccuracyTracker F → List String
  service_names t = map (λ entry. entry.0) t.services

  -- Reset
  unfoldable pub reset : AccuracyTracker F → String → AccuracyTracker F
  unfolding erase
  reset t service = record t { services = erase service t.services }
