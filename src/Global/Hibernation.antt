-- ===== src/Global/Hibernation.antt =====
-- solveLifecycle of internal/global/solver.go: which clusters to hibernate and which to wake. Parameters
-- are sort.Slice, the text of a reason and the identifiers that uuid.New gives in turn.
pub mod Bounds
pub mod Apart
use optipilot_ai.Prelude.{
  String, List, Bool, ℕ, Float64, map, filterb, [], any, if◌then◌else◌, true, ◌∷◌, false, leb_ℤ,
  not, pos, str_eq, ◌++◌, ◌+◌, length, pos_part, ◌&&◌, ◌||◌, suc, ◌-◌, leb,
}
use optipilot_ai.Global.Messages.{Directive, DirectiveType, hibernate, wake_up}
use optipilot_ai.Global.Lifecycle.{ClusterLifecycleSpec, idle_threshold}
use optipilot_ai.Global.Snapshot.{
  ClusterHealthStatus, cluster_hibernating, cluster_unreachable, ClusterSnapshot,
  utilization_percent,
}

unfoldable pub is_asleep : ClusterHealthStatus → Bool
is_asleep cluster_hibernating = true
is_asleep h = false

unfoldable pub is_unreachable : ClusterHealthStatus → Bool
is_unreachable cluster_unreachable = true
is_unreachable h = false

-- minActive
unfoldable pub min_active : ClusterLifecycleSpec → ℕ
min_active lc = if leb_ℤ lc.min_active_clusters (pos 0) then 1 else pos_part lc.min_active_clusters

unfoldable pub lifecycle_directive : DirectiveType → String → String → String → String → Directive
lifecycle_directive type action id name reason = record {
  id = id;
  type = type;
  cluster_name = name;
  traffic_weights = [];
  migration_hints = [];
  lifecycle_action = action;
  reason = reason;
}

module _ {F : Type 0} ⦃fl : Float64 F⦄ (lc : ClusterLifecycleSpec) where
  -- The active count.
  unfoldable pub count_active : List (ClusterSnapshot F) → ℕ
  unfolding is_asleep
  count_active [] = 0
  count_active (c ∷ cs) = (if is_asleep c.health then 0 else 1) + count_active cs

  -- The guards of the hibernation loop before the utilization.
  unfoldable pub is_skipped : ClusterSnapshot F → Bool
  unfolding is_asleep is_unreachable
  is_skipped c =
      any (λ n. str_eq n c.name) lc.excluded_clusters
      || c.excluded
      || is_asleep c.health
      || is_unreachable c.health

  unfoldable pub is_idle : ClusterSnapshot F → Bool
  unfolding utilization_percent idle_threshold
  is_idle c = fl.lt (utilization_percent c) (idle_threshold lc)

  -- The hibernation loop from `active` clusters, with the number of identifiers used so far.
  unfoldable pub hibernation_loop :
      (ℕ → String)
      → (ClusterSnapshot F → ℕ → String)
      → ℕ
      → ℕ
      → List (ClusterSnapshot F)
      → List Directive
  unfolding is_skipped is_idle min_active lifecycle_directive
  hibernation_loop ids reason_of used active [] = []
  hibernation_loop ids reason_of used active (c ∷ cs) =
      let hit = not (is_skipped c) && is_idle c in
      let rest =
        hibernation_loop ids reason_of (if hit then suc used else used)
          (if hit then active - 1 else active) cs in
      if leb active (min_active lc)
      then []
      else if hit
      then lifecycle_directive hibernate "hibernate" (ids used) c.name (reason_of c active) ∷ rest
      else rest

  -- allHeavy
  unfoldable pub all_heavy : List (ClusterSnapshot F) → Bool
  unfolding is_asleep utilization_percent
  all_heavy [] = true
  all_heavy (c ∷ cs) =
      let rest = all_heavy cs in
      if is_asleep c.health
      then rest
      else if fl.lt (utilization_percent c) (fl.of_int (pos 80))
      then false
      else rest

  -- The first hibernating cluster.
  unfoldable pub wake_first : String → List (ClusterSnapshot F) → List Directive
  unfolding is_asleep lifecycle_directive
  wake_first id [] = []
  wake_first id (c ∷ cs) =
      let rest = wake_first id cs in
      if is_asleep c.health
      then lifecycle_directive wake_up "wake_up" id c.name
          "all active clusters above 80% utilization"
        ∷ []
      else rest

  -- solveLifecycle on a policy with a lifecycle.
  unfoldable pub solve_lifecycle :
      ((ClusterSnapshot F → ClusterSnapshot F → Bool)
        → List (ClusterSnapshot F)
        → List (ClusterSnapshot F))
      → (ℕ → String)
      → (ClusterSnapshot F → ℕ → String)
      → List (ClusterSnapshot F)
      → List Directive
  unfolding utilization_percent hibernation_loop all_heavy wake_first count_active
  solve_lifecycle sort ids reason_of clusters =
      let sorted = sort (λ a b. fl.lt (utilization_percent a) (utilization_percent b)) clusters in
      let asleep = hibernation_loop ids reason_of 0 (count_active clusters) sorted in
      if lc.hibernation_enabled
      then asleep ++ (if all_heavy clusters then wake_first (ids (length asleep)) clusters else [])
      else []
