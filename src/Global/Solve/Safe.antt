-- ===== src/Global/Solve/Safe.antt =====
-- Which clusters Solve hibernates.
use optipilot_ai.Prelude.{
  length, ltb, Float64, Bool, String, List, Map, Memᴰ, ℤ, Option, some, ◌≡◌, [], if-split, true,
  ◌∷◌, ap, false, mem_of_append, none, inl, inr, refl,
}
use optipilot_ai.Global.Messages.{Directive, traffic_shift, hibernate}
use optipilot_ai.Global.Lifecycle.{ClusterLifecycleSpec}
use optipilot_ai.Global.Snapshot.{ClusterSnapshot}
use optipilot_ai.Global.Weights.{
  weight_directives, solve_traffic_weights, eligible_for_traffic, scores_to_weights, score_clusters,
}
use optipilot_ai.Global.Hibernation.{is_skipped, is_idle, solve_lifecycle}
use optipilot_ai.Global.Hibernation.Apart.{solve_lifecycle_safe}
use optipilot_ai.Global.Solve.{
  TrafficShiftingSpec, GlobalPolicySpec, SolverInput, SolveEnv, traffic_phase, lifecycle_phase,
  solve_policy, solve_on, solve_global,
}

weight_directives-type :
    (id reason : String) (weights : Map ℤ) (d : Directive)
    → Memᴰ d (weight_directives id reason weights)
    → d.type ≡ traffic_shift
unfolding weight_directives
weight_directives-type id reason [] d m = elim m [ ]
weight_directives-type id reason (w ∷ ws) d (Memᴰ.head e) = ap (λ z. z.type) e
weight_directives-type id reason (w ∷ ws) d (Memᴰ.tail m) = elim m [ ]

-- A policy lets the cluster be hibernated: hibernation is enabled, and the cluster is neither excluded,
-- nor hibernating, nor unreachable, and below the idle threshold.
abbrev pub MayHibernate :
    {F : Type 0} → ⦃fl : Float64 F⦄ → Option (GlobalPolicySpec F) → ClusterSnapshot F → Type 0
MayHibernate {F} policy c =
    (p : GlobalPolicySpec F) × (lc : ClusterLifecycleSpec) × (policy ≡ some p)
    × (p.cluster_lifecycle ≡ some lc)
    × (lc.hibernation_enabled ≡ true)
    × (is_skipped lc c ≡ false)
    × (is_idle lc c ≡ true)

module _ {F : Type 0} ⦃fl : Float64 F⦄ (env : SolveEnv F)
    (sort_keeps : (less : ClusterSnapshot F → ClusterSnapshot F → Bool)
        (cs : List (ClusterSnapshot F)) (c : ClusterSnapshot F)
      → Memᴰ c (env.sort less cs)
      → Memᴰ c cs) where
  traffic_phase-type :
      (ts : Option (TrafficShiftingSpec F)) (clusters : List (ClusterSnapshot F)) (d : Directive)
      → Memᴰ d (traffic_phase env ts clusters)
      → d.type ≡ traffic_shift
  unfolding traffic_phase solve_traffic_weights
  traffic_phase-type none clusters d m = elim m [ ]
  traffic_phase-type (some ts) clusters d m =
      let eligible = eligible_for_traffic clusters ts.min_destination_slo_percent in
      let weights =
        scores_to_weights (score_clusters eligible ts.strategy) ts.max_shift_per_cycle_percent in
      let reason = env.traffic_reason (length eligible) in
      if-split (λ ds. Memᴰ d ds → d.type ≡ traffic_shift) (ltb (length eligible) 2) []
        (weight_directives env.traffic_id reason weights) (λ e m'. elim m' [ ])
        (λ e m'. weight_directives-type env.traffic_id reason weights d m') m

  lifecycle_phase_safe :
      (lc : ClusterLifecycleSpec) (clusters : List (ClusterSnapshot F)) (d : Directive)
      → Memᴰ d (lifecycle_phase env (some lc) clusters)
      → d.type ≡ hibernate
      → (c : ClusterSnapshot F) × Memᴰ c clusters
        × (d.cluster_name ≡ c.name)
        × (lc.hibernation_enabled ≡ true)
        × (is_skipped lc c ≡ false)
        × (is_idle lc c ≡ true)
  unfolding lifecycle_phase
  lifecycle_phase_safe lc clusters d m h =
      if-split
        (λ ds.
          Memᴰ d ds
          → (c : ClusterSnapshot F) × Memᴰ c clusters
            × (d.cluster_name ≡ c.name)
            × (lc.hibernation_enabled ≡ true)
            × (is_skipped lc c ≡ false)
            × (is_idle lc c ≡ true))
        lc.hibernation_enabled (solve_lifecycle lc env.sort env.ids env.idle_reason clusters) []
        (λ e m'.
          let (c, mc, n, sk, idle) =
            solve_lifecycle_safe lc env.sort sort_keeps env.ids env.idle_reason clusters d m' h in
          (c, mc, n, e, sk, idle))
        (λ e m'. elim m' [ ]) m

  solve_on_safe :
      (clusters : List (ClusterSnapshot F)) (policy : Option (GlobalPolicySpec F)) (d : Directive)
      → Memᴰ d (solve_on env clusters policy).directives
      → d.type ≡ hibernate
      → (c : ClusterSnapshot F) × Memᴰ c clusters
        × (d.cluster_name ≡ c.name)
        × MayHibernate policy c
  unfolding solve_on solve_policy
  solve_on_safe [] policy d m h = elim m [ ]
  solve_on_safe (c ∷ cs) none d m h = elim m [ ]
  solve_on_safe (c ∷ cs) (some p) d m h =
      elim (mem_of_append d (traffic_phase env p.traffic_shifting (c ∷ cs))
        (lifecycle_phase env p.cluster_lifecycle (c ∷ cs)) m) [
          | inl shift ↦
              absurd (let t = traffic_phase-type p.traffic_shifting (c ∷ cs) d shift in cc)
          | inr sleep ↦ by_lifecycle p.cluster_lifecycle refl sleep
        ]
    where
      by_lifecycle :
          (o : Option ClusterLifecycleSpec)
          → p.cluster_lifecycle ≡ o
          → Memᴰ d (lifecycle_phase env o (c ∷ cs))
          → (c' : ClusterSnapshot F) × Memᴰ c' (c ∷ cs)
            × (d.cluster_name ≡ c'.name)
            × MayHibernate (some p) c'
      by_lifecycle none e sleep = absurd (unfold lifecycle_phase in elim sleep [ ])
      by_lifecycle (some lc) e sleep =
          let (c', mc, n, on, sk, idle) = lifecycle_phase_safe lc (c ∷ cs) d sleep h in
          (c', mc, n, (p, lc, refl, e, on, sk, idle))

  -- When sort.Slice invents no cluster, each cluster that Solve hibernates is one of its input that the
  -- policy lets be hibernated.
  pub solve_global_safe :
      (input : SolverInput F) (d : Directive)
      → Memᴰ d (solve_global env (some input)).directives
      → d.type ≡ hibernate
      → (c : ClusterSnapshot F) × Memᴰ c input.clusters
        × (d.cluster_name ≡ c.name)
        × MayHibernate input.policy c
  unfolding solve_global
  solve_global_safe input d m h = solve_on_safe input.clusters input.policy d m h
