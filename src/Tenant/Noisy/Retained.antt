-- ===== src/Tenant/Noisy/Retained.antt =====
-- How much the detector retains.
use optipilot_ai.Prelude.{
  subst, sym, Float64, insert, length, ℕ, ◌≡◌, List, Map, String, ◌≤◌, All, [], arith, drop, ◌∷◌,
  if-split, refl, ◌-◌, str_eq, suc, zero, lookup, ◌∙◌, true, ◌++◌, Bool,
}
use optipilot_ai.Tenant.Noisy.{
  NoisyNeighborDetector, last_of, new_noisy_neighbor_detector, record_usage, alert_loop,
  raise_alert, detect_among, others_than, detect, is_noisy, is_victim, is_fresh, DetectorCall,
  records, detects, asks_noisy, asks_victim, call_detector, call_all,
}

length-drop : {A : Type 0} (n : ℕ) (xs : List A) → length (drop n xs) ≡ length xs - n
length-drop zero xs = omega arith
length-drop (suc n) [] = omega arith
length-drop (suc n) (x ∷ xs) = omega (arith, length-drop n xs)

length-last_of : {A : Type 0} (n : ℕ) (xs : List A) → length (last_of n xs) ≤ n
unfolding last_of
length-last_of n xs = ground (arith, length-drop (length xs - n) xs)

-- Each list of a map is no longer than a bound.
abbrev EachAtMost : {A : Type 0} → ℕ → Map (List A) → Type 0
EachAtMost n m = All (λ entry. length entry.1 ≤ n) m

insert-EachAtMost :
    {A : Type 0} (n : ℕ) (name : String) (xs : List A) (m : Map (List A))
    → length xs ≤ n
    → EachAtMost n m
    → EachAtMost n (insert name xs m)
unfolding insert
insert-EachAtMost n name xs [] h k = (h, tt)
insert-EachAtMost n name xs (entry ∷ rest) h k =
    if-split (EachAtMost n) (str_eq entry.0 name) ((name, xs) ∷ rest) (entry ∷ insert name xs rest)
      (λ e. (h, k.1)) (λ e. (k.0, insert-EachAtMost n name xs rest h k.1))

module _ {F : Type 0} ⦃fl : Float64 F⦄ where
  -- Each tenant's history and the alerts stay within their bounds.
  abbrev pub Retains : NoisyNeighborDetector F → Type 0
  Retains d = EachAtMost d.max_hist d.history × (length d.alerts ≤ d.max_alert)

  -- Nothing that the bounds speak of is changed.
  abbrev SameStore : NoisyNeighborDetector F → NoisyNeighborDetector F → Type 0
  SameStore d d' =
      (d'.history ≡ d.history) × (d'.max_hist ≡ d.max_hist) × (d'.max_alert ≡ d.max_alert)

  raise_alert-SameStore :
      (now : ℕ) (name : String) (growth : F) (vs : List String) (d : NoisyNeighborDetector F)
      → SameStore d (raise_alert now name growth vs d).0
  unfolding raise_alert
  raise_alert-SameStore now name growth [] d = (refl, refl, refl)
  raise_alert-SameStore now name growth (v ∷ vs) d = (refl, refl, refl)

  alert_loop-SameStore :
      (now : ℕ) (names : List String) (d : NoisyNeighborDetector F) (found : List (String × F))
      → SameStore d (alert_loop now names d found).0
  unfolding alert_loop
  alert_loop-SameStore now names d [] = (refl, refl, refl)
  alert_loop-SameStore now names d ((name, growth) ∷ rest) =
      let vs = others_than name names in
      let (h, m, n) = raise_alert-SameStore now name growth vs d in
      let (h', m', n') = alert_loop-SameStore now names (raise_alert now name growth vs d).0 rest in
      (h' ∙ h, m' ∙ m, n' ∙ n)

  detect_among-Retains :
      (now : ℕ) (d : NoisyNeighborDetector F) (found : List (String × F)) (names : List String)
      → Retains d
      → Retains (detect_among now d found names).0
  unfolding detect_among
  detect_among-Retains now d [] names k = k
  detect_among-Retains now d (a ∷ more) [] k = k
  detect_among-Retains now d (a ∷ more) (v ∷ vs) k =
      let r = alert_loop now (v ∷ vs) d (a ∷ more) in
      let (h, m, n) = alert_loop-SameStore now (v ∷ vs) d (a ∷ more) in
      (
        subst (λ x. EachAtMost r.0.max_hist x) (sym h)
            (subst (λ x. EachAtMost x d.history) (sym m) k.0),
        omega (arith, n, length-last_of d.max_alert (r.0.alerts ++ r.1)),
      )

  call_detector-Retains :
      (d : NoisyNeighborDetector F) (c : DetectorCall F) → Retains d → Retains (call_detector d c)
  unfolding call_detector record_usage detect is_noisy is_victim
  call_detector-Retains d (records now name cores) k =
      (insert-EachAtMost d.max_hist name _ d.history (length-last_of d.max_hist _) k.0, k.1)
  call_detector-Retains d (detects now guaranteed current) k = detect_among-Retains now d _ _ k
  call_detector-Retains d (asks_noisy now name) k =
      if-split {A = NoisyNeighborDetector F × Bool} (λ r. Retains r.0)
        (is_fresh now d.window (lookup name d.noisy)) (d, true) _ (λ e. k) (λ e. k)
  call_detector-Retains d (asks_victim now name) k =
      if-split {A = NoisyNeighborDetector F × Bool} (λ r. Retains r.0)
        (is_fresh now d.window (lookup name d.victims)) (d, true) _ (λ e. k) (λ e. k)

  call_all-Retains :
      (cs : List (DetectorCall F)) (d : NoisyNeighborDetector F)
      → Retains d
      → Retains (call_all d cs)
  unfolding call_all
  call_all-Retains [] d k = k
  call_all-Retains (c ∷ cs) d k =
      call_all-Retains cs (call_detector d c) (call_detector-Retains d c k)

  -- In every detector that calls lead to from a new one each tenant's history has at most as many
  -- entries as the detector's bound, and there are at most as many alerts as its other bound.
  pub detector-Retains :
      (cs : List (DetectorCall F)) → Retains (call_all new_noisy_neighbor_detector cs)
  unfolding new_noisy_neighbor_detector
  detector-Retains cs = call_all-Retains cs new_noisy_neighbor_detector (tt, omega arith)
