-- ===== src/Accuracy/Tests.antt =====
-- Runs of the accuracy tracker, and its theorem there.
use optipilot_ai.Prelude.{
  [], ◌∷◌, List, arith, pos, ◌≡◌, true, false, refl, if◌then◌else◌, none, ltb_ℤ, ℕ, lookup,
}
use optipilot_ai.Prelude.Thousandths.{Thousandths, thousandths}
use optipilot_ai.Accuracy.{
  AccuracyTracker, AccuracyRecord, is_fallback_active, record_pair, new_accuracy_tracker,
  with_options, with_sustain_duration, with_window_max,
}
use optipilot_ai.Accuracy.Fallback.{
  alarm, observe, record_all, IsAscending, is_fallback_active-alarm,
}

abbrev magnitude : Thousandths → Thousandths
magnitude x = if ltb_ℤ x (pos 0) then thousandths.sub (pos 0) x else x

abbrev tracker : AccuracyTracker Thousandths
tracker = record { services = []; threshold = pos 30_000; sustain = 60; window_max = 2 }

-- Twice what was measured.
abbrev doubled : ℕ → AccuracyRecord Thousandths
doubled ts = record { ts = ts; predicted = pos 8_000; actual = pos 4_000 }

abbrev exact : ℕ → AccuracyRecord Thousandths
exact ts = record { ts = ts; predicted = pos 4_000; actual = pos 4_000 }

abbrev pairs : List (AccuracyRecord Thousandths)
pairs = exact 5 ∷ doubled 10 ∷ doubled 40 ∷ doubled 70 ∷ []

tracker_made : new_accuracy_tracker (with_sustain_duration 60 ∷ with_window_max 2 ∷ []) ≡ tracker
unfolding new_accuracy_tracker with_options with_sustain_duration with_window_max
tracker_made = refl

fallback_on : is_fallback_active (record_all magnitude "web" tracker pairs) "web" ≡ true
unfolding record_all record_pair is_fallback_active
fallback_on = refl

fallback_off :
    is_fallback_active
      (record_all magnitude "web" tracker (doubled 10 ∷ exact 40 ∷ exact 41 ∷ doubled 75 ∷ []))
      "web"
    ≡ false
unfolding record_all record_pair is_fallback_active
fallback_off = refl

is_fallback_active-alarm_example :
    is_fallback_active (record_all magnitude "web" tracker pairs) "web"
    ≡ alarm 60 none 0 (observe magnitude "web" tracker pairs)
unfolding IsAscending lookup
is_fallback_active-alarm_example =
    is_fallback_active-alarm magnitude "web" tracker pairs refl (omega arith)
      (omega arith, (omega arith, (omega arith, (omega arith, tt))))
