-- ===== src/Global/Hub/Registered.antt =====
-- Which clusters are registered at the hub.
use optipilot_ai.Prelude.{
  String, Bool, List, Option, ℕ, ◌≡◌, ◌≢◌, Bool-cases, any, false, lookup, str_eq, ◌||◌, [], ap,
  inl, inr, some, ◌∷◌, Option-cases, refl, str_eq-false, true, none, sym, ◌∙◌, eq_of_str_eq,
  lookup-insert,
}
use optipilot_ai.Global.Messages.{RegisterClusterRequest, ClusterStatusReport}
use optipilot_ai.Global.Hub.{
  MemoryHubService, HubCall, new_memory_hub_service, get_directive, enqueue_directive,
  register_cluster, report_status, serve, serve_all, registers, reports, fetches, shifts, enqueues,
}

abbrev pub is_some : {A : Type 0} → Option A → Bool
is_some none = false
is_some (some a) = true

module _ {F : Type 0} (name : String) where
  -- The call registers the cluster.
  abbrev pub is_registration : HubCall F → Bool
  is_registration (registers req) = str_eq req.cluster_name name
  is_registration c = false

  abbrev pub is_known : MemoryHubService F → Bool
  is_known m = is_some (lookup name m.clusters)

  is_known-register_cluster :
      (m : MemoryHubService F) (req : RegisterClusterRequest F)
      → name ≢ ""
      → is_known (register_cluster m req).0 ≡ (str_eq req.cluster_name name || is_known m)
  unfolding register_cluster
  is_known-register_cluster m req h = elim (Bool-cases (str_eq req.cluster_name "")) [
    | inl e ↦
        let other : str_eq req.cluster_name name ≡ false =
          str_eq-false req.cluster_name name
            (λ q. h (sym q ∙ eq_of_str_eq req.cluster_name "" e)) in
        rw (e, other) refl
    | inr e ↦ elim (Bool-cases (str_eq req.cluster_name name)) [
      | inl q ↦ rw (e, lookup-insert req.cluster_name name req m.clusters, q) refl
      | inr q ↦ rw (e, lookup-insert req.cluster_name name req m.clusters, q) refl
    ]
  ]

  pub clusters-report_status :
      (now : ℕ) (m : MemoryHubService F) (report : ClusterStatusReport F)
      → (report_status now m report).0.clusters ≡ m.clusters
  unfolding report_status
  clusters-report_status now m report = elim (Bool-cases (str_eq report.cluster_name "")) [
    | inl e ↦ rw e refl
    | inr e ↦ elim (Option-cases (lookup report.cluster_name m.clusters)) [
      | inl q ↦ rw (e, q) refl
      | inr (req, q) ↦ rw (e, q) refl
    ]
  ]

  pub clusters-get_directive :
      (m : MemoryHubService F) (from : String) → (get_directive m from).0.clusters ≡ m.clusters
  unfolding get_directive
  clusters-get_directive m from = elim (Bool-cases (str_eq from "")) [
    | inl e ↦ rw e refl
    | inr e ↦ rw e refl
  ]

  pub is_known-serve :
      (m : MemoryHubService F) (c : HubCall F)
      → name ≢ ""
      → is_known (serve m c).0 ≡ (is_registration c || is_known m)
  unfolding serve enqueue_directive
  is_known-serve m (registers req) h = is_known-register_cluster m req h
  is_known-serve m (reports now report) h =
      ap (λ cs. is_some (lookup name cs)) (clusters-report_status now m report)
  is_known-serve m (fetches from) h =
      ap (λ cs. is_some (lookup name cs)) (clusters-get_directive m from)
  is_known-serve m (shifts req) h = refl
  is_known-serve m (enqueues to d) h = refl

  -- The hub knows the cluster exactly when it did or a call has registered it.
  pub is_known-serve_all :
      (cs : List (HubCall F)) (m : MemoryHubService F)
      → name ≢ ""
      → is_known (serve_all m cs) ≡ (any is_registration cs || is_known m)
  unfolding serve_all
  is_known-serve_all [] m h = refl
  is_known-serve_all (c ∷ cs) m h =
      let later = is_known-serve_all cs (serve m c).0 h in
      let here = is_known-serve m c h in
      by_first (is_registration c) (any is_registration cs) (is_known m) later here
    where
      by_first : {k l : Bool} (a b d : Bool) → k ≡ (b || l) → l ≡ (a || d) → k ≡ ((a || b) || d)
      by_first true true d p q = cc
      by_first true false d p q = p ∙ q
      by_first false true d p q = p
      by_first false false d p q = p ∙ q

pub or_false : (b : Bool) → (b || false) ≡ b
or_false true = refl
or_false false = refl

module _ {F : Type 0} where
  pub is_known-new :
      (name : String) (cs : List (HubCall F))
      → name ≢ ""
      → is_known name (serve_all new_memory_hub_service cs) ≡ any (is_registration name) cs
  is_known-new name cs h =
      is_known-serve_all name cs new_memory_hub_service h
      ∙ unfold new_memory_hub_service lookup in or_false (any (is_registration name) cs)
