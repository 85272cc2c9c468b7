-- ===== src/Global/Hub/Delivery.antt =====
-- What the hub's queues deliver.
use optipilot_ai.Prelude.{
  String, List, ◌≡◌, ◌≢◌, [], if◌then◌else◌, ◌++◌, ◌∷◌, Bool-cases, append-nil, str_eq, inl, inr,
  sym, ◌∙◌, append_assoc, lookup-insert, ap, eq_of_str_eq, Option, erase, false, lookup, lookup_or,
  ℕ, Option-cases, lookup-erase, some, str_eq-false, none, refl, str_eq_refl, true,
}
use optipilot_ai.Global.Messages.{Directive, RegisterClusterRequest, ClusterStatusReport}
use optipilot_ai.Global.Hub.{
  MemoryHubService, HubCall, new_memory_hub_service, pending, get_directive, enqueue_directive,
  register_cluster, report_status, serve, serve_all, registers, reports, fetches, shifts, enqueues,
  reply,
}

abbrev from_entry : Option (List Directive) → List Directive
from_entry none = []
from_entry (some ds) = ds

or_empty : (o : Option (List Directive)) → (elim o [ none ↦ [] | some ds ↦ ds ]) ≡ from_entry o
or_empty none = refl
or_empty (some ds) = refl

module _ {F : Type 0} (name : String) where
  -- The directives that a call adds for the cluster, and those that it hands to the cluster.
  abbrev pub added : HubCall F → List Directive
  added (enqueues to d) = if str_eq to name then d ∷ [] else []
  added c = []

  abbrev pub handed : MemoryHubService F → HubCall F → List Directive
  handed m (fetches from) = if str_eq from name then (serve m (fetches from)).1 else []
  handed m c = []

  abbrev pub all_added : List (HubCall F) → List Directive
  all_added [] = []
  all_added (c ∷ cs) = added c ++ all_added cs

  abbrev pub all_handed : MemoryHubService F → List (HubCall F) → List Directive
  all_handed m [] = []
  all_handed m (c ∷ cs) = handed m c ++ all_handed (serve m c).0 cs

  pending-entry :
      (m : MemoryHubService F) (to : String) → pending m to ≡ from_entry (lookup to m.directives)
  unfolding pending
  pending-entry m to = or_empty (lookup to m.directives)

  pending-enqueue :
      (m : MemoryHubService F) (to : String) (d : Directive)
      → pending (enqueue_directive m to d) name ≡ pending m name ++ added (enqueues to d)
  unfolding enqueue_directive
  pending-enqueue m to d =
      pending-entry (enqueue_directive m to d) name
      ∙ ap from_entry (lookup-insert to name (pending m to ++ d ∷ []) m.directives)
      ∙ elim (Bool-cases (str_eq to name)) [
        | inl e ↦ rw e (ap (λ n. pending m n ++ d ∷ []) (eq_of_str_eq to name e))
        | inr e ↦ rw e (sym (pending-entry m name) ∙ sym (append-nil (pending m name)))
      ]

  pending-drained :
      (m : MemoryHubService F) (from : String)
      → pending (record m { directives = erase from m.directives }) name
        ≡ (if str_eq from name then [] else pending m name)
  pending-drained m from =
      pending-entry (record m { directives = erase from m.directives }) name
      ∙ ap from_entry (lookup-erase from name m.directives)
      ∙ elim (Bool-cases (str_eq from name)) [
        | inl e ↦ rw e refl
        | inr e ↦ rw e (sym (pending-entry m name))
      ]

  pub get_directive-named :
      (m : MemoryHubService F)
      → name ≢ ""
      → (get_directive m name
          ≡ (record m { directives = erase name m.directives }, reply (pending m name)))
        × (pending (record m { directives = erase name m.directives }) name ≡ [])
  unfolding get_directive
  get_directive-named m h =
      (rw (str_eq-false name "" h) refl, rw (pending-drained m name, str_eq_refl name) refl)

  serve-fetches :
      (m : MemoryHubService F) (from : String)
      → str_eq from "" ≡ false
      → serve m (fetches from) ≡ (record m { directives = erase from m.directives }, pending m from)
  unfolding serve get_directive
  serve-fetches m from e = rw (serve, get_directive, e) refl

  serve-unnamed :
      (m : MemoryHubService F) (from : String)
      → str_eq from "" ≡ true
      → serve m (fetches from) ≡ (m, [])
  unfolding serve get_directive
  serve-unnamed m from e = rw (serve, get_directive, e) refl

  pending-get_directive :
      (m : MemoryHubService F) (from : String)
      → name ≢ ""
      → pending m name ≡ handed m (fetches from) ++ pending (serve m (fetches from)).0 name
  pending-get_directive m from h = elim (Bool-cases (str_eq from "")) [
    | inl e ↦
        let other : str_eq from name ≡ false =
          str_eq-false from name (λ q. h (sym q ∙ eq_of_str_eq from "" e)) in
        rw (serve-unnamed m from e, other) refl
    | inr e ↦ elim (Bool-cases (str_eq from name)) [
      | inl q ↦
          rw (serve-fetches m from e, pending-drained m from, q)
            (ap (pending m) (sym (eq_of_str_eq from name q)) ∙ sym (append-nil (pending m from)))
      | inr q ↦ rw (serve-fetches m from e, pending-drained m from, q) refl
    ]
  ]

  pub same_queues :
      (m n : MemoryHubService F) → n.directives ≡ m.directives → pending n name ≡ pending m name
  unfolding pending
  same_queues m n e = ap (λ ds. lookup_or [] name ds) e

  directives-register_cluster :
      (m : MemoryHubService F) (req : RegisterClusterRequest F)
      → (register_cluster m req).0.directives ≡ m.directives
  unfolding register_cluster
  directives-register_cluster m req = elim (Bool-cases (str_eq req.cluster_name "")) [
    | inl e ↦ rw e refl
    | inr e ↦ rw e refl
  ]

  pub directives-report_status :
      (now : ℕ) (m : MemoryHubService F) (report : ClusterStatusReport F)
      → (report_status now m report).0.directives ≡ m.directives
  unfolding report_status
  directives-report_status now m report = elim (Bool-cases (str_eq report.cluster_name "")) [
    | inl e ↦ rw e refl
    | inr e ↦ elim (Option-cases (lookup report.cluster_name m.clusters)) [
      | inl q ↦ rw (e, q) refl
      | inr (req, q) ↦ rw (e, q) refl
    ]
  ]

  -- What a call does to the queue of the cluster.
  pub pending-serve :
      (m : MemoryHubService F) (c : HubCall F)
      → name ≢ ""
      → pending m name ++ added c ≡ handed m c ++ pending (serve m c).0 name
  unfolding serve register_cluster report_status
  pending-serve m (registers req) h =
      append-nil (pending m name)
      ∙ sym (same_queues m (register_cluster m req).0 (directives-register_cluster m req))
  pending-serve m (reports now report) h =
      append-nil (pending m name)
      ∙ sym (same_queues m (report_status now m report).0 (directives-report_status now m report))
  pending-serve m (fetches from) h = append-nil (pending m name) ∙ pending-get_directive m from h
  pending-serve m (shifts req) h = append-nil (pending m name)
  pending-serve m (enqueues to d) h = sym (pending-enqueue m to d)

  pub pending-serve_all :
      (cs : List (HubCall F)) (m : MemoryHubService F)
      → name ≢ ""
      → pending m name ++ all_added cs ≡ all_handed m cs ++ pending (serve_all m cs) name
  unfolding serve_all
  pending-serve_all [] m h = append-nil (pending m name)
  pending-serve_all (c ∷ cs) m h =
      sym (append_assoc (pending m name) (added c) (all_added cs))
      ∙ ap (λ ds. ds ++ all_added cs) (pending-serve m c h)
      ∙ append_assoc (handed m c) (pending (serve m c).0 name) (all_added cs)
      ∙ ap (λ ds. handed m c ++ ds) (pending-serve_all cs (serve m c).0 h)
      ∙ sym (
          append_assoc (handed m c) (all_handed (serve m c).0 cs)
            (pending (serve_all (serve m c).0 cs) name))

-- Every directive that is enqueued for a cluster with a name is handed to it once, in the order of the
-- queue: after any calls the directives handed so far and the answer to one more GetDirective are those
-- enqueued, and nothing is pending.
pub delivered_once :
    {F : Type 0} (name : String) (cs : List (HubCall F))
    → name ≢ ""
    → let m = serve_all new_memory_hub_service cs in
      ((get_directive m name).1 ≡ reply (pending m name))
      × (all_handed name new_memory_hub_service cs ++ pending m name ≡ all_added name cs)
      × (pending (get_directive m name).0 name ≡ [])
delivered_once {F} name cs h =
    let m = serve_all new_memory_hub_service cs in
    let (fetched, drained) = get_directive-named name m h in
    (
      ap (λ r. r.1) fetched,
      sym (pending-serve_all name cs new_memory_hub_service h)
          ∙ unfold new_memory_hub_service pending in refl,
      ap (λ r. pending r.0 name) fetched ∙ drained,
    )
