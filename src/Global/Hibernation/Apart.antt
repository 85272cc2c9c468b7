-- ===== src/Global/Hibernation/Apart.antt =====
-- A cycle of solveLifecycle hibernates or wakes, not both.
use optipilot_ai.Prelude.{
  String, List, Bool, ℕ, Float64, map, filterb, [], ◌≡◌, Memᴰ, IsOrdered, false, true,
  mem_of_filterb, pos, inl, inr, mem_of_take, ◌∷◌, ◌⊎◌, arith, ◌-◌, refl, Bool-cases, ap, mem-map,
  ◌∙◌, mem_of_append, sym, mem_of_map,
}
use optipilot_ai.Global.Messages.{Directive, hibernate, wake_up}
use optipilot_ai.Global.Lifecycle.{ClusterLifecycleSpec, idle_threshold}
use optipilot_ai.Global.Snapshot.{ClusterSnapshot, utilization_percent}
use optipilot_ai.Global.Hibernation.{
  is_asleep, min_active, count_active, is_skipped, is_idle, all_heavy, solve_lifecycle,
}
use optipilot_ai.Global.Hibernation.Bounds.{
  order, is_candidate, sorted, to_hibernate, to_wake, solve_lifecycle_lem,
}

module _ {F : Type 0} ⦃fl : Float64 F⦄ (lc : ClusterLifecycleSpec)
    (sort : (ClusterSnapshot F → ClusterSnapshot F → Bool)
      → List (ClusterSnapshot F)
      → List (ClusterSnapshot F))
    (sort_keeps : (less : ClusterSnapshot F → ClusterSnapshot F → Bool)
        (cs : List (ClusterSnapshot F)) (c : ClusterSnapshot F)
      → Memᴰ c (sort less cs)
      → Memᴰ c cs) where
  candidate_of_mem :
      (clusters : List (ClusterSnapshot F)) (c : ClusterSnapshot F)
      → Memᴰ c (to_hibernate lc sort clusters)
      → Memᴰ c clusters × (is_candidate lc c ≡ true)
  candidate_of_mem clusters c m =
      let (m', h) = mem_of_filterb (is_candidate lc) c (sorted lc sort clusters) (
        mem_of_take (count_active lc clusters - min_active lc) c
          (filterb (is_candidate lc) (sorted lc sort clusters)) m) in
      (sort_keeps (λ a b. fl.lt (utilization_percent a) (utilization_percent b)) clusters c m', h)

  below_80-all_heavy :
      (clusters : List (ClusterSnapshot F)) (c : ClusterSnapshot F)
      → Memᴰ c clusters
      → is_asleep c.health ≡ false
      → fl.lt (utilization_percent c) (fl.of_int (pos 80)) ≡ true
      → all_heavy lc clusters ≡ false
  unfolding all_heavy
  below_80-all_heavy [] c m h k = elim m [ ]
  below_80-all_heavy (x ∷ xs) c (Memᴰ.head e) h k = rw (← e, h, k) refl
  below_80-all_heavy (x ∷ xs) c (Memᴰ.tail m) h k = ground (arith, below_80-all_heavy xs c m h k)

  below_80 :
      (laws : IsOrdered F) (c : ClusterSnapshot F)
      → fl.le (idle_threshold lc) (fl.of_int (pos 80)) ≡ true
      → is_idle lc c ≡ true
      → fl.lt (utilization_percent c) (fl.of_int (pos 80)) ≡ true
  unfolding is_idle
  below_80 laws c t h = elim (laws.le_iff (idle_threshold lc) (fl.of_int (pos 80)) t) [
    | inl e ↦ laws.lt_trans (utilization_percent c) (idle_threshold lc) (fl.of_int (pos 80)) h e
    | inr e ↦ laws.lt-eq (utilization_percent c) (idle_threshold lc) (fl.of_int (pos 80)) h e
  ]

  to_wake-empty :
      (laws : IsOrdered F) (clusters hs : List (ClusterSnapshot F))
      → fl.le (idle_threshold lc) (fl.of_int (pos 80)) ≡ true
      → to_hibernate lc sort clusters ≡ hs
      → (hs ≡ []) ⊎ (to_wake lc clusters ≡ [])
  unfolding is_skipped
  to_wake-empty laws clusters [] t e = inl refl
  to_wake-empty laws clusters (c ∷ hs) t e =
      let (m, h) = candidate_of_mem clusters c (rw e (Memᴰ.head refl)) in
      let awake : is_asleep c.health ≡ false = ground arith in
      let idle : is_idle lc c ≡ true = ground arith in
      inr (rw (below_80-all_heavy clusters c m awake (below_80 laws c t idle)) refl)

  -- A directive of a cycle hibernates one of the first clusters or wakes one of the second.
  order_cases :
      (ids : ℕ → String) (reason_of : ClusterSnapshot F → ℕ → String)
      (clusters : List (ClusterSnapshot F)) (d : Directive)
      → Memᴰ d (solve_lifecycle lc sort ids reason_of clusters)
      → ((c : ClusterSnapshot F) × Memᴰ c (to_hibernate lc sort clusters)
          × (order d ≡ (hibernate, c.name)))
        ⊎ ((c : ClusterSnapshot F) × Memᴰ c (to_wake lc clusters) × (order d ≡ (wake_up, c.name)))
  unfolding count_active min_active is_skipped is_idle all_heavy
  order_cases ids reason_of clusters d m = elim (Bool-cases lc.hibernation_enabled) [
    | inr e ↦
        let m' = mem-map order d (solve_lifecycle lc sort ids reason_of clusters) m in
        elim (rw (solve_lifecycle_lem lc ids reason_of sort clusters, e) at m') [ ]
    | inl e ↦
        let m' = mem-map order d (solve_lifecycle lc sort ids reason_of clusters) m in
        elim (mem_of_append (order d)
          (map (λ c. (hibernate, c.name)) (to_hibernate lc sort clusters))
          (map (λ c. (wake_up, c.name)) (to_wake lc clusters))
          (rw (solve_lifecycle_lem lc ids reason_of sort clusters, e) at m')) [
            | inl h ↦
                inl (
                  mem_of_map (λ c. (hibernate, c.name)) (order d) (to_hibernate lc sort clusters) h)
            | inr w ↦ inr (mem_of_map (λ c. (wake_up, c.name)) (order d) (to_wake lc clusters) w)
          ]
  ]

  -- When sort.Slice invents no cluster and the idle threshold is at most 80 percent, a cycle never both
  -- hibernates and wakes.
  pub hibernates_or_wakes :
      (ids : ℕ → String) (reason_of : ClusterSnapshot F → ℕ → String) (laws : IsOrdered F)
      (clusters : List (ClusterSnapshot F)) (a b : Directive)
      → fl.le (idle_threshold lc) (fl.of_int (pos 80)) ≡ true
      → Memᴰ a (solve_lifecycle lc sort ids reason_of clusters)
      → Memᴰ b (solve_lifecycle lc sort ids reason_of clusters)
      → a.type ≡ b.type
  hibernates_or_wakes ids reason_of laws clusters a b t ma mb =
      elim (to_wake-empty laws clusters (to_hibernate lc sort clusters) t refl) [
        | inl e ↦
            woken a (order_cases ids reason_of clusters a ma) e
            ∙ sym (woken b (order_cases ids reason_of clusters b mb) e)
        | inr e ↦
            asleep a (order_cases ids reason_of clusters a ma) e
            ∙ sym (asleep b (order_cases ids reason_of clusters b mb) e)
      ]
    where
      Cases : Directive → Type 0
      Cases d =
          ((c : ClusterSnapshot F) × Memᴰ c (to_hibernate lc sort clusters)
            × (order d ≡ (hibernate, c.name)))
          ⊎ ((c : ClusterSnapshot F) × Memᴰ c (to_wake lc clusters) × (order d ≡ (wake_up, c.name)))

      woken : (d : Directive) → Cases d → to_hibernate lc sort clusters ≡ [] → d.type ≡ wake_up
      woken d (inl (c, m, q)) e = elim (rw e at m) [ ]
      woken d (inr (c, m, q)) e = ap (λ p. p.0) q

      asleep : (d : Directive) → Cases d → to_wake lc clusters ≡ [] → d.type ≡ hibernate
      asleep d (inl (c, m, q)) e = ap (λ p. p.0) q
      asleep d (inr (c, m, q)) e = elim (rw e at m) [ ]

  -- When sort.Slice invents no cluster, each cluster that a cycle hibernates is one of the input, not
  -- excluded, not hibernating, not unreachable and below the idle threshold.
  pub solve_lifecycle_safe :
      (ids : ℕ → String) (reason_of : ClusterSnapshot F → ℕ → String)
      (clusters : List (ClusterSnapshot F)) (d : Directive)
      → Memᴰ d (solve_lifecycle lc sort ids reason_of clusters)
      → d.type ≡ hibernate
      → (c : ClusterSnapshot F) × Memᴰ c clusters
        × (d.cluster_name ≡ c.name)
        × (is_skipped lc c ≡ false)
        × (is_idle lc c ≡ true)
  solve_lifecycle_safe ids reason_of clusters d m h =
      elim (order_cases ids reason_of clusters d m) [
        | inl (c, mc, q) ↦
            let (m', k) = candidate_of_mem clusters c mc in
            (c, m', ap (λ p. p.1) q, ground arith, ground arith)
        | inr (c, mc, q) ↦ ground arith
      ]
