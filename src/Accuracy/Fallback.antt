-- ===== src/Accuracy/Fallback.antt =====
-- When the tracker of forecasts puts a service in fallback.
use optipilot_ai.Prelude.{
  Float64, String, Bool, List, Option, ℕ, zero, suc, [], ◌∷◌, ◌≡◌, ◌≤◌, ◌<◌, ◌+◌, ◌-◌, ◌++◌, arith,
  true, false, some, none, refl, leb, ltb, lookup, insert, lookup-insert, str_eq_refl, if-split,
  drop, length, length-snoc, ap, ◌∙◌, sym, Map,
}
use optipilot_ai.Accuracy.{
  AccuracyTracker, AccuracyRecord, ServiceAccuracy, record_pair, recompute, with_fallback,
  with_errors, get_or_create, is_fallback_active, mape_of, since_or, evicted, no_accuracy,
}

-- The time `start` is at least `sustain` before `now`.
unfoldable pub is_sustained : ℕ → Option ℕ → ℕ → Bool
is_sustained sustain none now = false
is_sustained sustain (some start) now = leb (start + sustain) now

-- When the run of high values that holds at `now` started.
unfoldable pub run_start : Bool → ℕ → Option ℕ → Option ℕ
run_start false now start = none
run_start true now none = some now
run_start true now (some start) = some start

-- The times with whether the MAPE was high then, oldest first: at the last one it has been high for
-- `sustain` without a break. `start` and `last` are of the times before.
unfoldable pub alarm : ℕ → Option ℕ → ℕ → List (ℕ × Bool) → Bool
unfolding is_sustained run_start
alarm sustain start last [] = is_sustained sustain start last
alarm sustain start last (o ∷ os) = alarm sustain (run_start o.1 o.0 start) o.0 os

drop-cons :
    {A : Type 0} (k : ℕ) (xs : List A)
    → k < length xs
    → (y : A) × (ys : List A) × (drop k xs ≡ y ∷ ys)
drop-cons zero (x ∷ xs) h = (x, xs, refl)
drop-cons (suc k) (x ∷ xs) h = drop-cons k xs (omega arith)
drop-cons zero [] h = absurd (omega arith)
drop-cons (suc k) [] h = absurd (omega arith)

module _ {F : Type 0} ⦃fl : Float64 F⦄ where
  -- The clock does not go back: not before `last` and not from one pair to the next.
  unfoldable pub IsAscending : ℕ → List (AccuracyRecord F) → Type 0
  IsAscending last [] = Unit
  IsAscending last (r ∷ rs) = (last ≤ r.ts) × IsAscending r.ts rs

  module _ (abs : F → F) (service : String) where
    -- A run of pairs for one service.
    unfoldable pub record_all : AccuracyTracker F → List (AccuracyRecord F) → AccuracyTracker F
    record_all t [] = t
    record_all t (r ∷ rs) = record_all (record_pair abs t service r) rs

    -- After each pair, its time and whether the MAPE is above the threshold.
    unfoldable pub observe : AccuracyTracker F → List (AccuracyRecord F) → List (ℕ × Bool)
    observe t [] = []
    observe t (r ∷ rs) =
        let u = record_pair abs t service r in
        (r.ts, fl.lt t.threshold (mape_of u service)) ∷ observe u rs

  evicted-cons :
      (cap : ℕ) (xs : List (AccuracyRecord F)) (r : AccuracyRecord F)
      → 1 ≤ cap
      → (y : AccuracyRecord F) × (ys : List (AccuracyRecord F)) × (evicted cap (xs ++ r ∷ [])
          ≡ y ∷ ys)
  unfolding evicted
  evicted-cons cap xs r h =
      if-split (λ zs. (y : AccuracyRecord F) × (ys : List (AccuracyRecord F)) × (zs ≡ y ∷ ys))
        (ltb cap (length (xs ++ r ∷ []))) (drop (length (xs ++ r ∷ []) - cap) (xs ++ r ∷ []))
        (xs ++ r ∷ [])
        (λ e.
          drop-cons (length (xs ++ r ∷ []) - cap) (xs ++ r ∷ []) (omega (arith, length-snoc xs r)))
        (λ e. drop-cons 0 (xs ++ r ∷ []) (omega (arith, length-snoc xs r)))

  with_fallback-since :
      (t : AccuracyTracker F) (sa : ServiceAccuracy F) (now : ℕ)
      → (with_fallback t sa now).high_mape_since
        ≡ run_start (fl.lt t.threshold sa.mape) now sa.high_mape_since
  unfolding with_fallback since_or run_start
  with_fallback-since t sa now = ground arith

  with_fallback-mape :
      (t : AccuracyTracker F) (sa : ServiceAccuracy F) (now : ℕ)
      → (with_fallback t sa now).mape ≡ sa.mape
  unfolding with_fallback
  with_fallback-mape t sa now = ground arith

  -- The flag follows the start of the run when the clock does not go back.
  with_fallback-flag :
      (t : AccuracyTracker F) (sa : ServiceAccuracy F) (last now : ℕ)
      → last ≤ now
      → sa.fallback ≡ is_sustained t.sustain sa.high_mape_since last
      → (with_fallback t sa now).fallback
        ≡ is_sustained t.sustain (with_fallback t sa now).high_mape_since now
  unfolding with_fallback since_or is_sustained
  with_fallback-flag t sa last now h k = ground arith

  recompute-cons :
      (abs : F → F) (t : AccuracyTracker F) (sa : ServiceAccuracy F) (now : ℕ)
      (y : AccuracyRecord F) (ys : List (AccuracyRecord F))
      → sa.records ≡ y ∷ ys
      → recompute abs t sa now ≡ with_fallback t (with_errors abs sa) now
  unfolding recompute
  recompute-cons abs t sa now y ys e = ground (arith, e)

  is_fallback_active-get :
      (t : AccuracyTracker F) (service : String)
      → is_fallback_active t service ≡ (get_or_create t service).fallback
  unfolding is_fallback_active get_or_create
  is_fallback_active-get t service = ground arith

  mape_of-get :
      (t : AccuracyTracker F) (service : String)
      → mape_of t service ≡ (get_or_create t service).mape
  unfolding mape_of get_or_create
  mape_of-get t service = ground arith

  module _ (abs : F → F) (service : String) where
    get_or_create-lookup :
        (t : AccuracyTracker F) (sa : ServiceAccuracy F)
        → lookup service t.services ≡ some sa
        → get_or_create t service ≡ sa
    unfolding get_or_create
    get_or_create-lookup t sa q = rw (get_or_create, q) refl

    get_or_create-none :
        (t : AccuracyTracker F)
        → lookup service t.services ≡ none
        → get_or_create t service ≡ no_accuracy
    unfolding get_or_create
    get_or_create-none t q = rw (get_or_create, q) refl

    lookup-own :
        (x : ServiceAccuracy F) (m : Map (ServiceAccuracy F))
        → lookup service (insert service x m) ≡ some x
    lookup-own x m = ground (arith, lookup-insert service service x m, str_eq_refl service)

    get_or_create-record :
        (t : AccuracyTracker F) (r : AccuracyRecord F)
        → 1 ≤ t.window_max
        → (sa : ServiceAccuracy F) × (get_or_create (record_pair abs t service r) service
            ≡ with_fallback t sa r.ts)
          × (sa.fallback ≡ (get_or_create t service).fallback)
          × (sa.high_mape_since ≡ (get_or_create t service).high_mape_since)
    unfolding record_pair with_errors
    get_or_create-record t r h =
        let sa = get_or_create t service in
        let kept = record sa { records = evicted t.window_max (sa.records ++ r ∷ []) } in
        let (y, ys, q) = evicted-cons t.window_max sa.records r h in
        let e = recompute-cons abs t kept r.ts y ys q in
        (
          with_errors abs kept,
          get_or_create-lookup (record_pair abs t service r) (recompute abs t kept r.ts)
                (lookup-own (recompute abs t kept r.ts) t.services)
              ∙ e,
          refl,
          refl,
        )

    alarm-observe :
        (t : AccuracyTracker F) (last : ℕ) (rs : List (AccuracyRecord F))
        → 1 ≤ t.window_max
        → IsAscending last rs
        → (get_or_create t service).fallback
          ≡ is_sustained t.sustain (get_or_create t service).high_mape_since last
        → (get_or_create (record_all abs service t rs) service).fallback
          ≡ alarm t.sustain
              (get_or_create t service).high_mape_since
              last
              (observe abs service t rs)
    unfolding record_all alarm observe IsAscending record_pair
    alarm-observe t last [] w h k = k
    alarm-observe t last (r ∷ rs) w h k =
        let u = record_pair abs t service r in
        let (sa, e, flag, since) = get_or_create-record t r w in
        let start =
          ap (λ x. x.high_mape_since) e
          ∙ with_fallback-since t sa r.ts
          ∙ ap (λ o. run_start (fl.lt t.threshold sa.mape) r.ts o) since in
        let m = mape_of-get u service ∙ ap (λ x. x.mape) e ∙ with_fallback-mape t sa r.ts in
        let f =
          with_fallback-flag t sa last r.ts h.0
            (flag ∙ k ∙ ap (λ o. is_sustained t.sustain o last) (sym since)) in
        let g =
          ap (λ x. x.fallback) e
          ∙ f
          ∙ ap (λ x. is_sustained t.sustain x.high_mape_since r.ts) (sym e) in
        alarm-observe u r.ts rs w h.1 g
        ∙ ap (λ o. alarm t.sustain o r.ts (observe abs service u rs))
            (start
              ∙ ap
                  (λ x.
                    run_start (fl.lt t.threshold x) r.ts (get_or_create t service).high_mape_since)
                  (sym m))

    -- When the window holds a record, a service is new and its pairs come in the order of time,
    -- IsFallbackActive after them is the alarm of what was observed: on exactly when the MAPE has been
    -- above the threshold after each pair since one at least the sustain duration before the last.
    pub is_fallback_active-alarm :
        (t : AccuracyTracker F) (rs : List (AccuracyRecord F))
        → lookup service t.services ≡ none
        → 1 ≤ t.window_max
        → IsAscending 0 rs
        → is_fallback_active (record_all abs service t rs) service
          ≡ alarm t.sustain none 0 (observe abs service t rs)
    unfolding is_sustained
    is_fallback_active-alarm t rs q w h =
        let e = get_or_create-none t q in
        let start = ap (λ x. x.high_mape_since) e in
        is_fallback_active-get (record_all abs service t rs) service
        ∙ alarm-observe t 0 rs w h
            (ap (λ x. x.fallback) e ∙ ap (λ o. is_sustained t.sustain o 0) (sym start))
        ∙ ap (λ o. alarm t.sustain o 0 (observe abs service t rs)) start
