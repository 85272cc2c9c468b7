-- ===== src/Global/Hibernation/Bounds.antt =====
-- Which clusters solveLifecycle picks.
use optipilot_ai.Prelude.{
  map-append, length, String, List, Bool, ℕ, Float64, map, filterb, [], ◌≡◌, if◌then◌else◌, leb,
  not, take, ◌+◌, true, ◌&&◌, ◌-◌, ◌∷◌, refl, Bool-cases, arith, ◌++◌, inl, inr, suc, false, ap,
  zero,
}
use optipilot_ai.Global.Messages.{Directive, DirectiveType, hibernate, wake_up}
use optipilot_ai.Global.Lifecycle.{ClusterLifecycleSpec}
use optipilot_ai.Global.Snapshot.{ClusterSnapshot, utilization_percent}
use optipilot_ai.Global.Hibernation.{
  is_asleep, min_active, lifecycle_directive, count_active, is_skipped, is_idle, hibernation_loop,
  all_heavy, wake_first, solve_lifecycle,
}

-- What a directive asks of which cluster.
abbrev pub order : Directive → DirectiveType × String
order d = (d.type, d.cluster_name)

module _ {F : Type 0} ⦃fl : Float64 F⦄ (lc : ClusterLifecycleSpec) where
  abbrev pub is_candidate : ClusterSnapshot F → Bool
  is_candidate c = not (is_skipped lc c) && is_idle lc c

  -- The clusters to wake.
  abbrev pub to_wake : List (ClusterSnapshot F) → List (ClusterSnapshot F)
  to_wake clusters =
      if all_heavy lc clusters then take 1 (filterb (λ c. is_asleep c.health) clusters) else []

  module _
      (sort : (ClusterSnapshot F → ClusterSnapshot F → Bool)
        → List (ClusterSnapshot F)
        → List (ClusterSnapshot F)) where
    abbrev pub sorted : List (ClusterSnapshot F) → List (ClusterSnapshot F)
    sorted clusters = sort (λ a b. fl.lt (utilization_percent a) (utilization_percent b)) clusters

    -- The clusters to hibernate.
    abbrev pub to_hibernate : List (ClusterSnapshot F) → List (ClusterSnapshot F)
    to_hibernate clusters =
        take (count_active lc clusters - min_active lc) (filterb is_candidate (sorted clusters))

  module _ (ids : ℕ → String) (reason_of : ClusterSnapshot F → ℕ → String) where
    hibernation_loop_stops :
        (cs : List (ClusterSnapshot F)) (used active : ℕ)
        → leb active (min_active lc) ≡ true
        → hibernation_loop lc ids reason_of used active cs ≡ []
    unfolding hibernation_loop
    hibernation_loop_stops [] used active h = refl
    hibernation_loop_stops (c ∷ cs) used active h = rw h refl

    hibernation_loop_lem :
        (cs : List (ClusterSnapshot F)) (used n active : ℕ)
        → active ≡ n + min_active lc
        → map order (hibernation_loop lc ids reason_of used active cs)
          ≡ map (λ c. (hibernate, c.name)) (take n (filterb is_candidate cs))
    unfolding hibernation_loop lifecycle_directive
    hibernation_loop_lem cs used zero active h =
        rw (hibernation_loop_stops cs used active (ground arith)) refl
    hibernation_loop_lem [] used (suc n) active h = refl
    hibernation_loop_lem (c ∷ cs) used (suc n) active h =
        let goes_on : leb active (min_active lc) ≡ false = ground arith in
        elim (Bool-cases (is_candidate c)) [
          | inl e ↦
              rw (goes_on, e)
                (ap (λ ds. (hibernate, c.name) ∷ ds)
                  (hibernation_loop_lem cs (suc used) n (active - 1) (omega (arith, h))))
          | inr e ↦ rw (goes_on, e) (hibernation_loop_lem cs used (suc n) active h)
        ]

    picked :
        (cs : List (ClusterSnapshot F)) (used active : ℕ)
        → map order (hibernation_loop lc ids reason_of used active cs)
          ≡ map (λ c. (hibernate, c.name)) (take (active - min_active lc) (filterb is_candidate cs))
    picked cs used active = elim (Bool-cases (leb active (min_active lc))) [
      | inl e ↦
          let none_left : active - min_active lc ≡ 0 = ground arith in
          rw (hibernation_loop_stops cs used active e, none_left) refl
      | inr e ↦ hibernation_loop_lem cs used (active - min_active lc) active (ground arith)
    ]

    wake_first_lem :
        (id : String) (cs : List (ClusterSnapshot F))
        → map order (wake_first lc id cs)
          ≡ map (λ c. (wake_up, c.name)) (take 1 (filterb (λ c. is_asleep c.health) cs))
    unfolding wake_first lifecycle_directive
    wake_first_lem id [] = refl
    wake_first_lem id (c ∷ cs) = elim (Bool-cases (is_asleep c.health)) [
      | inl e ↦ rw e refl
      | inr e ↦ rw e (wake_first_lem id cs)
    ]

    -- solveLifecycle, when hibernation is enabled, asks to hibernate the first of the idle clusters that are
    -- not excluded, hibernating or unreachable, in the order of sort.Slice, as many as the active
    -- clusters exceed the minimum; then, if no active cluster is below 80 percent, it asks to wake the
    -- first hibernating one, if any. When disabled it asks nothing.
    pub solve_lifecycle_lem :
        (sort : (ClusterSnapshot F → ClusterSnapshot F → Bool)
          → List (ClusterSnapshot F)
          → List (ClusterSnapshot F))
        (clusters : List (ClusterSnapshot F))
        → map order (solve_lifecycle lc sort ids reason_of clusters) ≡ (
            if lc.hibernation_enabled
            then map (λ c. (hibernate, c.name)) (to_hibernate sort clusters)
              ++ map (λ c. (wake_up, c.name)) (to_wake clusters)
            else [])
    unfolding solve_lifecycle
    solve_lifecycle_lem sort clusters = elim (Bool-cases lc.hibernation_enabled) [
      | inr e ↦ rw e refl
      | inl e ↦
          rw
            (
              e,
              map-append order asleep (
                  if all_heavy lc clusters
                  then wake_first lc (ids (length asleep)) clusters
                  else []),
              picked (sorted sort clusters) 0 (count_active lc clusters),
            )
            (ap (λ ws. map (λ c. (hibernate, c.name)) (to_hibernate sort clusters) ++ ws) woken)
    ]
      where
        asleep : List Directive
        asleep =
            hibernation_loop lc ids reason_of 0 (count_active lc clusters) (sorted sort clusters)

        woken :
            map order
              (if all_heavy lc clusters then wake_first lc (ids (length asleep)) clusters else [])
            ≡ map (λ c. (wake_up, c.name)) (to_wake clusters)
        woken = elim (Bool-cases (all_heavy lc clusters)) [
          | inl e ↦ rw e (wake_first_lem (ids (length asleep)) clusters)
          | inr e ↦ rw e refl
        ]
