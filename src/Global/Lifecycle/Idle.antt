-- ===== src/Global/Lifecycle/Idle.antt =====
-- UpdateIdleStatus over a sequence of heartbeats against the idle window.
use optipilot_ai.Prelude.{
  String, List, Option, Bool, ℕ, Float64, ◌≡◌, [], if◌then◌else◌, lookup, some, ◌∷◌, false, none,
  str_eq, lookup-insert, true, lookup_or, Bool-cases, inr, inl, eq_of_str_eq, arith, leb, refl, ◌+◌,
  str_eq_refl,
}
use optipilot_ai.Global.Lifecycle.{
  LifecycleManager, IdleRecord, ClusterLifecycleSpec, new_idle, idle_threshold, idle_window_of,
  next_idle, update_idle_status, new_lifecycle_manager,
}

-- A heartbeat: the cluster, the time, its utilization.
pub record Heartbeat (F : Type 0) : Type 0 where
  pub cluster : String
  pub time : ℕ
  pub utilization : F

-- A record and the start of the idle time that it keeps.
abbrev Tracks : Option IdleRecord → Option ℕ → Type 0
Tracks none s = s ≡ none
Tracks (some r) none = r.idle ≡ false
Tracks (some r) (some t) = (r.idle ≡ true) × (r.idle_since ≡ t)

-- A window has passed since the start, if there is one.
abbrev pub is_due : ℕ → ℕ → Option ℕ → Bool
is_due window now none = false
is_due window now (some t) = leb (t + window) now

module _ {F : Type 0} ⦃fl : Float64 F⦄ (policy : ClusterLifecycleSpec) where
  unfoldable pub run_heartbeats : LifecycleManager → List (Heartbeat F) → LifecycleManager
  run_heartbeats m [] = m
  run_heartbeats m (b ∷ bs) =
      run_heartbeats (update_idle_status m b.time b.cluster b.utilization policy).0 bs

  abbrev pub is_below : F → Bool
  is_below u = fl.lt u (idle_threshold policy)

  -- The time since which every heartbeat of a cluster was below the threshold.
  abbrev pub since_call : String → Option ℕ → Heartbeat F → Option ℕ
  since_call name s b =
      if str_eq b.cluster name
      then (if is_below b.utilization then some (elim s [ none ↦ b.time | some t ↦ t ]) else none)
      else s

  abbrev pub idle_since_of : String → Option ℕ → List (Heartbeat F) → Option ℕ
  idle_since_of name s [] = s
  idle_since_of name s (b ∷ bs) = idle_since_of name (since_call name s b) bs

  update-Tracks :
      (m : LifecycleManager) (b : Heartbeat F) (name : String) (s : Option ℕ)
      → Tracks (lookup name m.idle_tracker) s
      → Tracks
          (lookup name (update_idle_status m b.time b.cluster b.utilization policy).0.idle_tracker)
          (since_call name s b)
  unfolding update_idle_status next_idle
  update-Tracks m b name s h =
      rw
        (lookup-insert b.cluster name
          (next_idle (is_below b.utilization) b.time (lookup_or new_idle b.cluster m.idle_tracker))
          m.idle_tracker)
        (elim (Bool-cases (str_eq b.cluster name)) [
          | inr e ↦ rw e h
          | inl e ↦
              rw e (
                by_record (lookup b.cluster m.idle_tracker) s
                  (rw (eq_of_str_eq b.cluster name e) h))
        ])
    where
      by_record :
          (o : Option IdleRecord) (s : Option ℕ)
          → Tracks o s
          → Tracks
              (some (
                next_idle
                  (is_below b.utilization)
                  b.time
                  (elim o [ none ↦ new_idle | some r ↦ r ])))
              (if is_below b.utilization
                then some (elim s [ none ↦ b.time | some t ↦ t ])
                else none)
      by_record none none h = ground arith
      by_record none (some t) h = ground arith
      by_record (some r) none h = ground arith
      by_record (some r) (some t) h = ground arith

  heartbeats-Tracks :
      (bs : List (Heartbeat F)) (m : LifecycleManager) (name : String) (s : Option ℕ)
      → Tracks (lookup name m.idle_tracker) s
      → Tracks (lookup name (run_heartbeats m bs).idle_tracker) (idle_since_of name s bs)
  unfolding run_heartbeats
  heartbeats-Tracks [] m name s h = h
  heartbeats-Tracks (b ∷ bs) m name s h =
      heartbeats-Tracks bs (update_idle_status m b.time b.cluster b.utilization policy).0 name
        (since_call name s b) (update-Tracks m b name s h)

  heartbeats-window :
      (bs : List (Heartbeat F)) (m : LifecycleManager)
      → idle_window_of (run_heartbeats m bs) policy ≡ idle_window_of m policy
  unfolding run_heartbeats idle_window_of update_idle_status
  heartbeats-window [] m = refl
  heartbeats-window (b ∷ bs) m =
      heartbeats-window bs (update_idle_status m b.time b.cluster b.utilization policy).0

  answer_lem :
      (m : LifecycleManager) (b : Heartbeat F) (o : Option IdleRecord) (s : Option ℕ)
      → lookup b.cluster m.idle_tracker ≡ o
      → Tracks o s
      → (update_idle_status m b.time b.cluster b.utilization policy).1
        ≡ is_due (idle_window_of m policy) b.time (since_call b.cluster s b)
  unfolding update_idle_status next_idle
  answer_lem m b none none q h = ground (arith, str_eq_refl b.cluster)
  answer_lem m b none (some t) q h = ground (arith, str_eq_refl b.cluster)
  answer_lem m b (some r) none q h = ground (arith, str_eq_refl b.cluster)
  answer_lem m b (some r) (some t) q h = ground (arith, str_eq_refl b.cluster)

  -- After any heartbeats of any clusters, UpdateIdleStatus reports a cluster as a candidate exactly when its
  -- heartbeats end in a run below the threshold, this one included, whose first is at least the idle
  -- window old.
  pub update_idle_status_lem :
      (mgmt : String) (bs : List (Heartbeat F)) (b : Heartbeat F)
      → let m = new_lifecycle_manager mgmt in
        (update_idle_status (run_heartbeats m bs) b.time b.cluster b.utilization policy).1
        ≡ is_due
            (idle_window_of m policy)
            b.time
            (since_call b.cluster (idle_since_of b.cluster none bs) b)
  unfolding new_lifecycle_manager lookup
  update_idle_status_lem mgmt bs b =
      let m = new_lifecycle_manager mgmt in
      let tracked = heartbeats-Tracks bs m b.cluster none refl in
      rw (← heartbeats-window bs m) (
        answer_lem (run_heartbeats m bs) b (lookup b.cluster (run_heartbeats m bs).idle_tracker)
          (idle_since_of b.cluster none bs) refl tracked)
