-- ===== src/Global/Hub/Status.antt =====
-- Registrations, status reports and health at the hub.
use optipilot_ai.Prelude.{
  String, Bool, List, ℕ, ◌≡◌, ◌≢◌, Bool-cases, any, false, lookup, str_eq, ◌++◌, ◌||◌, [], ap, inl,
  inr, some, ◌∷◌, Option-cases, refl, str_eq-false, true, sym, ◌∙◌, eq_of_str_eq, lookup-insert,
  ◌⊎◌, arith, if◌then◌else◌, ◌≤◌, ◌+◌, leb, str_eq_refl, ◌-◌,
}
use optipilot_ai.Global.Messages.{RegisterClusterRequest, ClusterStatusReport}
use optipilot_ai.Global.Hub.{
  MemoryHubService, HubCall, new_memory_hub_service, get_directive, enqueue_directive,
  register_cluster, report_status, serve, serve_all, registers, reports, fetches, shifts, enqueues,
  reply, rpc_error, not_found, get_last_status, is_healthy, stamped,
}
use optipilot_ai.Global.Hub.Registered.{
  is_some, is_registration, is_known, is_known-serve, is_known-new, or_false,
}

module _ {F : Type 0} (name : String) where
  -- The calls have a report for the cluster that is stored with the time `t`, after a registration
  -- unless the cluster is known at the start.
  abbrev BeatFrom : Bool → List (HubCall F) → ℕ → Type 0
  BeatFrom known cs t =
      (xs : List (HubCall F)) × (ys : List (HubCall F)) × (now : ℕ) × (report : ClusterStatusReport
        F)
      × (cs ≡ xs ++ reports now report ∷ ys)
      × (report.cluster_name ≡ name)
      × ((any (is_registration name) xs || known) ≡ true)
      × ((stamped now report).timestamp ≡ some t)

  -- The calls have a report for the cluster that is stored with the time `t`, after a registration.
  abbrev pub Beat : List (HubCall F) → ℕ → Type 0
  Beat cs t =
      (xs : List (HubCall F)) × (ys : List (HubCall F)) × (now : ℕ) × (report : ClusterStatusReport
        F)
      × (cs ≡ xs ++ reports now report ∷ ys)
      × (report.cluster_name ≡ name)
      × (any (is_registration name) xs ≡ true)
      × ((stamped now report).timestamp ≡ some t)

  -- What the hub shows after a report that it takes.
  pub last_status-report_status :
      (now : ℕ) (m : MemoryHubService F) (report : ClusterStatusReport F)
      (req : RegisterClusterRequest F)
      → str_eq report.cluster_name "" ≡ false
      → lookup report.cluster_name m.clusters ≡ some req
      → get_last_status (report_status now m report).0 name ≡ (
          if str_eq report.cluster_name name
          then some (stamped now report)
          else get_last_status m name)
  unfolding get_last_status report_status
  last_status-report_status now m report req e q =
      rw (report_status, e, q)
        (lookup-insert report.cluster_name name (stamped now report) m.last_status)

  -- The last status is the one before the call, or the call is a report that the hub takes.
  last_status-serve :
      (m : MemoryHubService F) (c : HubCall F) (st : ClusterStatusReport F)
      → get_last_status (serve m c).0 name ≡ some st
      → (get_last_status m name ≡ some st)
        ⊎ ((now : ℕ) × (report : ClusterStatusReport F) × (c ≡ reports now report)
            × (report.cluster_name ≡ name)
            × (is_known name m ≡ true)
            × (stamped now report ≡ st))
  unfolding serve get_last_status
  last_status-serve m (registers req) st h = inl (elim (Bool-cases (str_eq req.cluster_name "")) [
    | inl e ↦ unfold register_cluster in ground arith
    | inr e ↦ unfold register_cluster in ground arith
  ])
  last_status-serve m (reports now report) st h =
      elim (Bool-cases (str_eq report.cluster_name "")) [
        | inl e ↦ inl (unfold report_status in ground arith)
        | inr e ↦ elim (Option-cases (lookup report.cluster_name m.clusters)) [
          | inl q ↦ inl (unfold report_status in ground arith)
          | inr (req, q) ↦ elim (Bool-cases (str_eq report.cluster_name name)) [
            | inr d ↦ inl (ground (arith, last_status-report_status now m report req e q))
            | inl d ↦
                let n = eq_of_str_eq report.cluster_name name d in
                inr (
                  now,
                  report,
                  refl,
                  n,
                  ap is_some (ap (λ z. lookup z m.clusters) (sym n) ∙ q),
                  ground (arith, last_status-report_status now m report req e q),
                )
          ]
        ]
      ]
  last_status-serve m (fetches from) st h = inl (elim (Bool-cases (str_eq from "")) [
    | inl e ↦ unfold get_directive in ground arith
    | inr e ↦ unfold get_directive in ground arith
  ])
  last_status-serve m (shifts req) st h = inl h
  last_status-serve m (enqueues to d) st h = inl (unfold enqueue_directive in h)

  BeatFrom-cons :
      (m : MemoryHubService F) (c : HubCall F) (cs : List (HubCall F)) (t : ℕ)
      → name ≢ ""
      → BeatFrom (is_known name (serve m c).0) cs t
      → BeatFrom (is_known name m) (c ∷ cs) t
  BeatFrom-cons m c cs t h (xs, ys, now, report, e, n, r, s) = (
    c ∷ xs,
    ys,
    now,
    report,
    ap (λ zs. c ∷ zs) e,
    n,
    sym (or_shift (any (is_registration name) xs) (is_registration name c) (is_known name m))
        ∙ ap (λ k. any (is_registration name) xs || k) (sym (is_known-serve name m c h))
        ∙ r,
    s,
  )
    where
      or_shift : (a b k : Bool) → (a || (b || k)) ≡ ((b || a) || k)
      or_shift true true k = refl
      or_shift true false k = refl
      or_shift false true k = refl
      or_shift false false k = refl

  last_status-Beat :
      (cs : List (HubCall F)) (m : MemoryHubService F) (st : ClusterStatusReport F) (t : ℕ)
      → name ≢ ""
      → get_last_status (serve_all m cs) name ≡ some st
      → st.timestamp ≡ some t
      → (get_last_status m name ≡ some st) ⊎ BeatFrom (is_known name m) cs t
  unfolding serve_all
  last_status-Beat [] m st t h e w = inl e
  last_status-Beat (c ∷ cs) m st t h e w = elim (last_status-Beat cs (serve m c).0 st t h e w) [
    | inr beat ↦ inr (BeatFrom-cons m c cs t h beat)
    | inl now_set ↦ elim (last_status-serve m c st now_set) [
      | inl before ↦ inl before
      | inr (now, report, is_c, n, k, same) ↦
          inr ([], cs, now, report, ap (λ z. z ∷ cs) is_c, n, k, ap (λ z. z.timestamp) same ∙ w)
    ]
  ]

module _ {F : Type 0} where
  ttl-serve :
      (m : MemoryHubService F) (c : HubCall F) → (serve m c).0.heartbeat_ttl ≡ m.heartbeat_ttl
  unfolding serve enqueue_directive
  ttl-serve m (registers req) = elim (Bool-cases (str_eq req.cluster_name "")) [
    | inl e ↦ rw (register_cluster, e) refl
    | inr e ↦ rw (register_cluster, e) refl
  ]
  ttl-serve m (reports now report) = elim (Bool-cases (str_eq report.cluster_name "")) [
    | inl e ↦ rw (report_status, e) refl
    | inr e ↦ elim (Option-cases (lookup report.cluster_name m.clusters)) [
      | inl q ↦ rw (report_status, e, q) refl
      | inr (req, q) ↦ rw (report_status, e, q) refl
    ]
  ]
  ttl-serve m (fetches from) = elim (Bool-cases (str_eq from "")) [
    | inl e ↦ rw (get_directive, e) refl
    | inr e ↦ rw (get_directive, e) refl
  ]
  ttl-serve m (shifts req) = refl
  ttl-serve m (enqueues to d) = refl

  ttl-serve_all :
      (cs : List (HubCall F)) (m : MemoryHubService F)
      → (serve_all m cs).heartbeat_ttl ≡ m.heartbeat_ttl
  unfolding serve_all
  ttl-serve_all [] m = refl
  ttl-serve_all (c ∷ cs) m = ttl-serve_all cs (serve m c).0 ∙ ttl-serve m c

  is_healthy-of :
      (m : MemoryHubService F) (now : ℕ) (name : String) (st : ClusterStatusReport F) (t : ℕ)
      → get_last_status m name ≡ some st
      → st.timestamp ≡ some t
      → is_healthy now m name ≡ leb (now - t) m.heartbeat_ttl
  unfolding is_healthy
  is_healthy-of m now name st t q w = rw (is_healthy, q, w) refl

-- A report for a cluster with a name is taken exactly when an earlier call has registered the cluster;
-- then it is the last status, with the time of the call if it has none. Otherwise the answer is
-- NotFound and the service is unchanged.
pub report_status_iff :
    {F : Type 0} (name : String) (cs : List (HubCall F)) (now : ℕ) (report : ClusterStatusReport F)
    → name ≢ ""
    → report.cluster_name ≡ name
    → let m = serve_all new_memory_hub_service cs in
      ((any (is_registration name) cs ≡ false)
        × (report_status now m report ≡ (m, rpc_error (not_found report.cluster_name))))
      ⊎ ((any (is_registration name) cs ≡ true)
          × ((report_status now m report).1 ≡ reply (record { received = true; message = "ok" }))
          × (get_last_status (report_status now m report).0 name ≡ some (stamped now report)))
unfolding report_status
report_status_iff {F} name cs now report h n =
    let m = serve_all new_memory_hub_service cs in
    let known = sym (is_known-new name cs h) in
    let named : str_eq report.cluster_name "" ≡ false = rw n (str_eq-false name "" h) in
    elim (Option-cases (lookup report.cluster_name m.clusters)) [
      | inl e ↦
          inl (known ∙ ap is_some (ap (λ z. lookup z m.clusters) (sym n) ∙ e), rw (named, e) refl)
      | inr (req, e) ↦ inr (
        known ∙ ap is_some (ap (λ z. lookup z m.clusters) (sym n) ∙ e),
        rw (named, e) refl,
        last_status-report_status name now m report req named e ∙ rw (n, str_eq_refl name) refl,
      )
    ]

-- IsHealthy holds only of a cluster with a report that the hub took after a registration, and whose time
-- is at most the heartbeat's time to live ago.
pub is_healthy-Beat :
    {F : Type 0} (name : String) (cs : List (HubCall F)) (now : ℕ)
    → name ≢ ""
    → is_healthy now (serve_all new_memory_hub_service cs) name ≡ true
    → (t : ℕ) × Beat name cs t × (now ≤ t + 300_000_000_000)
unfolding is_healthy new_memory_hub_service
is_healthy-Beat {F} name cs now h e =
    let m = serve_all new_memory_hub_service cs in
    elim (Option-cases (get_last_status m name)) [
      | inl q ↦ absurd (ground arith)
      | inr (st, q) ↦ elim (Option-cases st.timestamp) [
        | inl w ↦ absurd (ground arith)
        | inr (t, w) ↦ elim (last_status-Beat name cs new_memory_hub_service st t h q w) [
          | inl before ↦ absurd (unfold new_memory_hub_service get_last_status lookup in cc)
          | inr (xs, ys, at, report, a, b, c, d) ↦ (
            t,
            (
              xs,
              ys,
              at,
              report,
              a,
              b,
              sym (or_false (any (is_registration name) xs))
                  ∙ unfold new_memory_hub_service lookup in c,
              d,
            ),
            within t (ttl-serve_all cs new_memory_hub_service)
                (sym (is_healthy-of m now name st t q w) ∙ e),
          )
        ]
      ]
    ]
  where
    within :
        (t : ℕ) {ttl : ℕ}
        → ttl ≡ 300_000_000_000
        → leb (now - t) ttl ≡ true
        → now ≤ t + 300_000_000_000
    within t p q = ground arith
