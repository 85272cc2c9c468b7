-- ===== src/Global/Messages.antt =====
-- internal/global/grpc/messages.go: what the hub and its spokes exchange.
use optipilot_ai.Prelude.{String, Map, ℤ, List, Bool, Option, ℕ}

-- DirectiveType; `unrecognized` is any other text.
pub data DirectiveType : Type 0 where
  traffic_shift migration hibernate wake_up no_op : DirectiveType
  unrecognized : String → DirectiveType

-- MigrationHint
pub record MigrationHint : Type 0 where
  pub namespace : String
  pub workload : String
  pub from_cluster : String
  pub to_cluster : String
  pub reason : String

-- Directive
pub record Directive : Type 0 where
  pub id : String
  pub type : DirectiveType
  pub cluster_name : String
  pub traffic_weights : Map ℤ
  pub migration_hints : List MigrationHint
  pub lifecycle_action : String
  pub reason : String

-- Capabilities
pub record Capabilities : Type 0 where
  pub gpu_enabled : Bool
  pub spot_enabled : Bool
  pub istio_enabled : Bool
  pub gateway_api_enabled : Bool
  pub max_nodes : ℤ

-- CostProfileMsg
pub record CostProfileMsg : Type 0 where
  pub core_cost_per_hour_usd : String
  pub memory_gib_cost_per_hour_usd : String
  pub spot_discount_percent : ℤ

-- RegisterClusterRequest
pub record RegisterClusterRequest (F : Type 0) : Type 0 where
  pub cluster_name : String
  pub provider : String
  pub region : String
  pub endpoint : String
  pub carbon_intensity_gco2 : F
  pub labels : Map String
  pub capabilities : Option Capabilities
  pub cost_profile : Option CostProfileMsg

-- RegisterClusterResponse
pub record RegisterClusterResponse : Type 0 where
  pub accepted : Bool
  pub message : String
  pub heartbeat_interval_s : ℤ

-- ClusterStatusReport; the zero time is `none`.
pub record ClusterStatusReport (F : Type 0) : Type 0 where
  pub cluster_name : String
  pub total_cores : F
  pub used_cores : F
  pub total_memory_gib : F
  pub used_memory_gib : F
  pub node_count : ℤ
  pub slo_compliance_percent : F
  pub hourly_cost_usd : F
  pub health : String
  pub timestamp : Option ℕ

-- StatusAck
pub record StatusAck : Type 0 where
  pub received : Bool
  pub message : String

-- TrafficShiftRequest
pub record TrafficShiftRequest : Type 0 where
  pub cluster_name : String
  pub service : String
  pub weights : Map ℤ
  pub reason : String

-- TrafficShiftResponse
pub record TrafficShiftResponse : Type 0 where
  pub accepted : Bool
  pub message : String
