-- ===== src/Global/Lifecycle/Reach.antt =====
-- LifecycleManager under directives that overlap: each begins, and any that has begun may be the next to
-- end, with any answer of the calls it made.
use optipilot_ai.Prelude.{
  String, List, Option, ◌≡◌, ◌≢◌, none, some, lookup, All, ◌++◌, ◌∷◌, [], lookup-insert,
  str_eq-false, arith, refl, str_eq, false, true, str_eq_refl, Bool-cases, inl, inr,
}
use optipilot_ai.Global.Lifecycle.{
  LifecycleState, active, draining, hibernating, waking, LifecycleManager, LifecycleError,
  cluster_state, set_state, Begun, proceed, begin_hibernate, new_lifecycle_manager, end_hibernate,
  begin_wake_up, end_wake_up, forget_idle,
}

-- A directive that has begun and is at its calls, or a wake-up that has succeeded and has yet to clear the
-- idle tracker.
pub data Operation : Type 0 where
  hibernation wakening forgetting : String → Operation

abbrev pub target : Operation → String
target (hibernation name) = name
target (wakening name) = name
target (forgetting name) = name

-- The operations after a first step.
abbrev pub started : Operation → Begun → List Operation → List Operation
started op proceed ops = op ∷ ops
started op b ops = ops

abbrev pub finish : LifecycleManager → Operation → Option LifecycleError → LifecycleManager
finish m (hibernation name) err = end_hibernate m name err
finish m (wakening name) err = end_wake_up m name err
finish m (forgetting name) err = forget_idle m name

-- What is in flight when an operation has ended: a wake-up without an error goes on.
abbrev pub follow : Operation → Option LifecycleError → List Operation → List Operation
follow (wakening name) none ops = forgetting name ∷ ops
follow op err ops = ops

-- The managers, with the operations in flight, that follow NewLifecycleManager.
pub data Reachable (mgmt : String) : LifecycleManager → List Operation → Type 0 where
  initial : Reachable mgmt (new_lifecycle_manager mgmt) []
  hibernate_begins :
      {m : LifecycleManager} {ops : List Operation}
      → (name : String) → Reachable mgmt m ops
      → Reachable mgmt
          (begin_hibernate m name).0
          (started (hibernation name) (begin_hibernate m name).1 ops)
  wake_up_begins :
      {m : LifecycleManager} {ops : List Operation}
      → (name : String) → Reachable mgmt m ops
      → Reachable mgmt
          (begin_wake_up m name).0
          (started (wakening name) (begin_wake_up m name).1 ops)
  ends :
      {m : LifecycleManager}
      → (xs ys : List Operation) → (op : Operation) → (err : Option LifecycleError)
      → Reachable mgmt m (xs ++ op ∷ ys)
      → Reachable mgmt (finish m op err) (xs ++ follow op err ys)

-- The manager knows its name, holds no state for it and makes no calls for it.
record Spares (mgmt : String) (m : LifecycleManager) (ops : List Operation) : Type 0 where
  named : m.mgmt_cluster ≡ mgmt
  no_state : lookup mgmt m.states ≡ none
  elsewhere : All (λ op. target op ≢ mgmt) ops

no_state-set_state :
    (m : LifecycleManager) (mgmt name : String) (s : LifecycleState)
    → name ≢ mgmt
    → lookup mgmt m.states ≡ none
    → lookup mgmt (set_state m name s).states ≡ none
unfolding set_state
no_state-set_state m mgmt name s h e =
    rw (lookup-insert name mgmt s m.states, str_eq-false name mgmt h) e

starts-Spares :
    (mgmt name : String) (m : LifecycleManager) (ops : List Operation) (op : Operation)
    (s : LifecycleState)
    → target op ≢ mgmt
    → Spares mgmt m ops
    → Spares mgmt (set_state m (target op) s) (op ∷ ops)
unfolding set_state
starts-Spares mgmt name m ops op s h sp = record {
  named = sp.named;
  no_state = no_state-set_state m mgmt (target op) s h sp.no_state;
  elsewhere = (h, sp.elsewhere);
}

hibernate_begins-Spares :
    (mgmt name : String) (m : LifecycleManager) (ops : List Operation)
    → Spares mgmt m ops
    → Spares mgmt
        (begin_hibernate m name).0
        (started (hibernation name) (begin_hibernate m name).1 ops)
unfolding begin_hibernate
hibernate_begins-Spares mgmt name m ops sp = elim (Bool-cases (str_eq name m.mgmt_cluster)) [
  | inl e ↦ rw (begin_hibernate, e) sp
  | inr e ↦ by_state (lookup name m.states) refl e
]
  where
    ne : str_eq name m.mgmt_cluster ≡ false → name ≢ mgmt
    ne e h =
        let t : str_eq name m.mgmt_cluster ≡ true = rw (sp.named, ← h) (str_eq_refl name) in
        ground arith

    by_state :
        (o : Option LifecycleState)
        → lookup name m.states ≡ o
        → str_eq name m.mgmt_cluster ≡ false
        → Spares mgmt
            (begin_hibernate m name).0
            (started (hibernation name) (begin_hibernate m name).1 ops)
    by_state (some draining) q e = rw (begin_hibernate, e, q) sp
    by_state (some hibernating) q e = rw (begin_hibernate, e, q) sp
    by_state none q e =
        rw (begin_hibernate, e, q)
          (starts-Spares mgmt name m ops (hibernation name) draining (ne e) sp)
    by_state (some active) q e =
        rw (begin_hibernate, e, q)
          (starts-Spares mgmt name m ops (hibernation name) draining (ne e) sp)
    by_state (some waking) q e =
        rw (begin_hibernate, e, q)
          (starts-Spares mgmt name m ops (hibernation name) draining (ne e) sp)

wake_up_begins-Spares :
    (mgmt name : String) (m : LifecycleManager) (ops : List Operation)
    → Spares mgmt m ops
    → Spares mgmt (begin_wake_up m name).0 (started (wakening name) (begin_wake_up m name).1 ops)
unfolding begin_wake_up
wake_up_begins-Spares mgmt name m ops sp = by_state (lookup name m.states) refl
  where
    ne : (s : LifecycleState) → lookup name m.states ≡ some s → name ≢ mgmt
    ne s q h = let t : lookup name m.states ≡ none = rw h sp.no_state in ground arith

    by_state :
        (o : Option LifecycleState)
        → lookup name m.states ≡ o
        → Spares mgmt
            (begin_wake_up m name).0
            (started (wakening name) (begin_wake_up m name).1 ops)
    by_state none q = rw (begin_wake_up, q) sp
    by_state (some active) q = rw (begin_wake_up, q) sp
    by_state (some waking) q = rw (begin_wake_up, q) sp
    by_state (some draining) q =
        rw (begin_wake_up, q)
          (starts-Spares mgmt name m ops (wakening name) waking (ne draining q) sp)
    by_state (some hibernating) q =
        rw (begin_wake_up, q)
          (starts-Spares mgmt name m ops (wakening name) waking (ne hibernating q) sp)

All-middle :
    (P : Operation → Type 0) (xs ys zs : List Operation)
    → All P (xs ++ ys)
    → (All P ys → All P zs)
    → All P (xs ++ zs)
All-middle P [] ys zs h f = f h
All-middle P (x ∷ xs) ys zs h f = (h.0, All-middle P xs ys zs h.1 f)

All-at :
    (P : Operation → Type 0) (xs ys : List Operation) (op : Operation)
    → All P (xs ++ op ∷ ys)
    → P op
All-at P [] ys op h = h.0
All-at P (x ∷ xs) ys op h = All-at P xs ys op h.1

-- What goes on is for the same cluster.
follow-elsewhere :
    (mgmt : String) (op : Operation) (err : Option LifecycleError) (ys : List Operation)
    → All (λ o. target o ≢ mgmt) (op ∷ ys)
    → All (λ o. target o ≢ mgmt) (follow op err ys)
follow-elsewhere mgmt (wakening name) none ys h = h
follow-elsewhere mgmt (wakening name) (some e) ys h = h.1
follow-elsewhere mgmt (hibernation name) err ys h = h.1
follow-elsewhere mgmt (forgetting name) err ys h = h.1

finish-Spares :
    (mgmt : String) (m : LifecycleManager) (ops rest : List Operation) (op : Operation)
    (err : Option LifecycleError)
    → target op ≢ mgmt
    → All (λ o. target o ≢ mgmt) rest
    → Spares mgmt m ops
    → Spares mgmt (finish m op err) rest
unfolding end_hibernate end_wake_up forget_idle set_state
finish-Spares mgmt m ops rest (hibernation name) none h a sp = record {
  named = sp.named;
  no_state = no_state-set_state m mgmt name hibernating h sp.no_state;
  elsewhere = a;
}
finish-Spares mgmt m ops rest (hibernation name) (some e) h a sp = record {
  named = sp.named;
  no_state = no_state-set_state m mgmt name active h sp.no_state;
  elsewhere = a;
}
finish-Spares mgmt m ops rest (wakening name) none h a sp = record {
  named = sp.named;
  no_state = no_state-set_state m mgmt name active h sp.no_state;
  elsewhere = a;
}
finish-Spares mgmt m ops rest (wakening name) (some e) h a sp = record {
  named = sp.named;
  no_state = no_state-set_state m mgmt name hibernating h sp.no_state;
  elsewhere = a;
}
finish-Spares mgmt m ops rest (forgetting name) err h a sp = record {
  named = sp.named;
  no_state = sp.no_state;
  elsewhere = a;
}

Reachable-Spares :
    (mgmt : String) (m : LifecycleManager) (ops : List Operation)
    → Reachable mgmt m ops
    → Spares mgmt m ops
unfolding new_lifecycle_manager lookup
Reachable-Spares mgmt _ _ initial = record { named = refl; no_state = refl; elsewhere = tt }
Reachable-Spares mgmt _ _ (hibernate_begins {m} {ops} name r) =
    hibernate_begins-Spares mgmt name m ops (Reachable-Spares mgmt m ops r)
Reachable-Spares mgmt _ _ (wake_up_begins {m} {ops} name r) =
    wake_up_begins-Spares mgmt name m ops (Reachable-Spares mgmt m ops r)
Reachable-Spares mgmt _ _ (ends {m} xs ys op err r) =
    let sp = Reachable-Spares mgmt m (xs ++ op ∷ ys) r in
    finish-Spares mgmt m (xs ++ op ∷ ys) (xs ++ follow op err ys) op err
      (All-at (λ o. target o ≢ mgmt) xs ys op sp.elsewhere)
      (All-middle (λ o. target o ≢ mgmt) xs (op ∷ ys) (follow op err ys) sp.elsewhere
        (follow-elsewhere mgmt op err ys))
      sp

-- In every order in which directives begin and end, ClusterState shows the management cluster as active,
-- and no directive in flight, hibernation or wake-up, is for it.
pub management_cluster_spared :
    (mgmt : String) (m : LifecycleManager) (ops : List Operation)
    → Reachable mgmt m ops
    → (cluster_state m mgmt ≡ active) × All (λ op. target op ≢ mgmt) ops
unfolding cluster_state
management_cluster_spared mgmt m ops r =
    let sp = Reachable-Spares mgmt m ops r in (ground arith, sp.elsewhere)
