-- ===== src/Global/Hub.antt =====
-- MemoryHubService of internal/global/grpc/hub_server.go. A message is a value: the transport copies it.
pub mod Delivery
pub mod Registered
pub mod Status
use optipilot_ai.Prelude.{
  Map, Option, String, List, [], erase, if◌then◌else◌, insert, lookup, ℕ, ◌∷◌, Bool, keys,
  lookup_or, none, some, str_eq, ◌++◌, false, true, ◌||◌, leb, pos, ◌-◌,
}
use optipilot_ai.Global.Messages.{
  Directive, RegisterClusterRequest, RegisterClusterResponse, ClusterStatusReport, StatusAck,
  TrafficShiftRequest, TrafficShiftResponse,
}

pub record MemoryHubService (F : Type 0) : Type 0 where
  pub clusters : Map (RegisterClusterRequest F)
  pub last_status : Map (ClusterStatusReport F)
  pub directives : Map (List Directive)
  pub heartbeat_ttl : ℕ

-- The codes of google.golang.org/grpc/status that the hub gives.
pub data RpcError : Type 0 where
  invalid_argument : String → RpcError
  not_found : String → RpcError

pub data Rpc (A : Type 0) : Type 0 where
  reply : A → Rpc A
  rpc_error : RpcError → Rpc A

module _ {F : Type 0} where
  unfoldable pub new_memory_hub_service : MemoryHubService F
  new_memory_hub_service = record {
    clusters = [];
    last_status = [];
    directives = [];
    heartbeat_ttl = 300_000_000_000;
  }

  -- RegisterCluster
  unfoldable pub register_cluster :
      MemoryHubService F
      → RegisterClusterRequest F
      → MemoryHubService F × Rpc RegisterClusterResponse
  unfolding insert
  register_cluster m req =
      if str_eq req.cluster_name ""
      then (m, rpc_error (invalid_argument "clusterName is required"))
      else (
        record m { clusters = insert req.cluster_name req m.clusters },
        reply (record { accepted = true; message = "registered"; heartbeat_interval_s = pos 30 }),
      )

  -- The report as it is stored, at the time `now`.
  unfoldable pub stamped : ℕ → ClusterStatusReport F → ClusterStatusReport F
  stamped now report = elim report.timestamp [
    | none ↦ record report { timestamp = some now }
    | some t ↦ report
  ]

  -- ReportStatus
  unfoldable pub report_status :
      ℕ → MemoryHubService F → ClusterStatusReport F → MemoryHubService F × Rpc StatusAck
  unfolding lookup insert stamped
  report_status now m report =
      if str_eq report.cluster_name ""
      then (m, rpc_error (invalid_argument "clusterName is required"))
      else elim (lookup report.cluster_name m.clusters) [
        | none ↦ (m, rpc_error (not_found report.cluster_name))
        | some req ↦ (
          record m { last_status = insert report.cluster_name (stamped now report) m.last_status },
          reply (record { received = true; message = "ok" }),
        )
      ]

  -- `m.directives[name]`, nil and empty being the same.
  unfoldable pub pending : MemoryHubService F → String → List Directive
  unfolding lookup
  pending m name = lookup_or [] name m.directives

  -- GetDirective
  unfoldable pub get_directive :
      MemoryHubService F → String → MemoryHubService F × Rpc (List Directive)
  unfolding erase pending
  get_directive m name =
      if str_eq name ""
      then (m, rpc_error (invalid_argument "clusterName is required"))
      else (record m { directives = erase name m.directives }, reply (pending m name))

  -- RequestTrafficShift
  unfoldable pub request_traffic_shift :
      MemoryHubService F → TrafficShiftRequest → Rpc TrafficShiftResponse
  request_traffic_shift m req =
      if str_eq req.cluster_name "" || str_eq req.service ""
      then rpc_error (invalid_argument "clusterName and service are required")
      else reply (record { accepted = true; message = "acknowledged" })

  -- EnqueueDirective
  unfoldable pub enqueue_directive : MemoryHubService F → String → Directive → MemoryHubService F
  unfolding insert pending
  enqueue_directive m name d = record m {
    directives = insert name (pending m name ++ d ∷ []) m.directives;
  }

  -- GetRegistered
  unfoldable pub get_registered : MemoryHubService F → List String
  get_registered m = keys m.clusters

  -- GetLastStatus
  unfoldable pub get_last_status : MemoryHubService F → String → Option (ClusterStatusReport F)
  unfolding lookup
  get_last_status m name = lookup name m.last_status

  -- IsHealthy; the zero time is longer ago than any duration.
  unfoldable pub is_healthy : ℕ → MemoryHubService F → String → Bool
  unfolding get_last_status
  is_healthy now m name = elim (get_last_status m name) [
    | none ↦ false
    | some st ↦ elim st.timestamp [ none ↦ false | some t ↦ leb (now - t) m.heartbeat_ttl ]
  ]

-- A call of the service; the time is the one at which the hub serves it.
pub data HubCall (F : Type 0) : Type 0 where
  registers : RegisterClusterRequest F → HubCall F
  reports : ℕ → ClusterStatusReport F → HubCall F
  fetches : String → HubCall F
  shifts : TrafficShiftRequest → HubCall F
  enqueues : String → Directive → HubCall F

module _ {F : Type 0} where
  -- The service after a call, with the directives that the call returned.
  unfoldable pub serve : MemoryHubService F → HubCall F → MemoryHubService F × List Directive
  unfolding register_cluster report_status get_directive enqueue_directive
  serve m (registers req) = ((register_cluster m req).0, [])
  serve m (reports now report) = ((report_status now m report).0, [])
  serve m (fetches name) =
      let r = get_directive m name in (r.0, elim r.1 [ reply ds ↦ ds | rpc_error e ↦ [] ])
  serve m (shifts req) = (m, [])
  serve m (enqueues name d) = (enqueue_directive m name d, [])

  unfoldable pub serve_all : MemoryHubService F → List (HubCall F) → MemoryHubService F
  unfolding serve
  serve_all m [] = m
  serve_all m (c ∷ cs) = serve_all (serve m c).0 cs
