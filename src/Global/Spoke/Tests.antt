-- ===== src/Global/Spoke/Tests.antt =====
-- Runs of the hub's service and the spoke's agent, and their theorems there.
use optipilot_ai.Prelude.{
  String, List, [], any, lookup, none, pos, some, ℕ, ◌++◌, ◌∷◌, ◌≡◌, ◌≢◌, false, refl, suc, true,
  ◌+◌, ◌≤◌, ap, length, ◌⊎◌, str_eq,
}
use optipilot_ai.Prelude.Thousandths.{Thousandths, thousandths}
use optipilot_ai.Global.Messages.{Directive, no_op, RegisterClusterRequest, ClusterStatusReport}
use optipilot_ai.Global.Hub.{
  HubCall, new_memory_hub_service, pending, get_directive, report_status, serve_all, reply,
  not_found, rpc_error, get_last_status, is_healthy, stamped, registers, reports, enqueues, fetches,
}
use optipilot_ai.Global.Hub.Delivery.{all_added, all_handed, delivered_once}
use optipilot_ai.Global.Hub.Registered.{is_registration}
use optipilot_ai.Global.Hub.Status.{Beat, is_healthy-Beat, report_status_iff}
use optipilot_ai.Global.Spoke.{SpokeAgent, running, start, collected, heartbeat_report, call_failed}
use optipilot_ai.Global.Spoke.Connected.{
  Connection, CallError, Event, hub_call, heartbeats, polls, lost, arrives, request_lost,
  reply_lost, behind, happen, happen_all,
}
use optipilot_ai.Global.Spoke.Connected.Handled.{all_enqueued, directives_handled, lost_reply_drops}
use optipilot_ai.Global.Spoke.Connected.Heard.{heartbeat_heard, forgotten_stays_unheard}

abbrev order : String → Directive
order id = record {
  id = id;
  type = no_op;
  cluster_name = "east";
  traffic_weights = [];
  migration_hints = [];
  lifecycle_action = "";
  reason = "";
}

abbrev request : RegisterClusterRequest Thousandths
request = record {
  cluster_name = "east";
  provider = "aws";
  region = "us-east-1";
  endpoint = "";
  carbon_intensity_gco2 = pos 380_000;
  labels = [];
  capabilities = none;
  cost_profile = none;
}

abbrev status : ClusterStatusReport Thousandths
status = record {
  cluster_name = "east";
  total_cores = pos 16000;
  used_cores = pos 4000;
  total_memory_gib = pos 64000;
  used_memory_gib = pos 8000;
  node_count = pos 4;
  slo_compliance_percent = pos 99900;
  hourly_cost_usd = pos 1200;
  health = "healthy";
  timestamp = none;
}

abbrev calls : List (HubCall Thousandths)
calls =
    registers request
    ∷ enqueues "east" (order "a")
    ∷ enqueues "west" (order "b")
    ∷ fetches "east"
    ∷ reports 1000 status
    ∷ enqueues "east" (order "c")
    ∷ []

abbrev east : String
east = "east"

east_named : east ≢ ""
east_named e = let t : false ≡ true = ap (λ s. str_eq s "") e in cc

delivered_once_example :
    let m = serve_all new_memory_hub_service calls in
    ((get_directive m "east").1 ≡ reply (pending m "east"))
    × (all_handed "east" new_memory_hub_service calls ++ pending m "east" ≡ all_added "east" calls)
    × (pending (get_directive m "east").0 "east" ≡ [])
delivered_once_example = delivered_once "east" calls east_named

pending_last :
    pending (serve_all (new_memory_hub_service {F = Thousandths}) calls) "east" ≡ order "c" ∷ []
unfolding new_memory_hub_service serve_all pending
pending_last = refl

report_status_iff_example :
    let m = serve_all new_memory_hub_service calls in
    ((any (is_registration "east") calls ≡ false)
      × (report_status 2000 m status ≡ (m, rpc_error (not_found "east"))))
    ⊎ ((any (is_registration "east") calls ≡ true)
        × ((report_status 2000 m status).1 ≡ reply (record { received = true; message = "ok" }))
        × (get_last_status (report_status 2000 m status).0 "east" ≡ some (stamped 2000 status)))
report_status_iff_example = report_status_iff "east" calls 2000 status east_named refl

healthy_at :
    is_healthy 2000 (serve_all (new_memory_hub_service {F = Thousandths}) calls) "east" ≡ true
unfolding new_memory_hub_service serve_all is_healthy
healthy_at = refl

is_healthy-Beat_example : (t : ℕ) × Beat "east" calls t × (2000 ≤ t + 300_000_000_000)
is_healthy-Beat_example = is_healthy-Beat "east" calls 2000 east_named healthy_at

abbrev agent : SpokeAgent Thousandths CallError
agent = record {
  info = record {
    cluster_name = "east";
    provider = "aws";
    region = "us-east-1";
    endpoint = "";
    carbon_intensity_gco2 = pos 380_000;
    labels = [];
    capabilities = none;
    cost_profile = none;
  };
  heartbeat_interval = pos 30_000_000_000;
  directive_poll_interval = pos 10_000_000_000;
  state = running;
  last_heartbeat = none;
  heartbeat_count = 0;
  directive_count = 0;
  last_err = none;
}

abbrev connection : Connection Thousandths
connection = record { hub = serve_all new_memory_hub_service calls; agent = agent; log = [] }

abbrev events : List (Event Thousandths)
events =
    polls request_lost
    ∷ hub_call (enqueues "east" (order "d"))
    ∷ heartbeats arrives 10 11 12 (collected status)
    ∷ polls arrives
    ∷ hub_call (enqueues "east" (order "e"))
    ∷ []

request_lost_keeps : request_lost ≢ reply_lost
request_lost_keeps e = cc

arrives_keeps : arrives ≢ reply_lost
arrives_keeps e = cc

directives_handled_example :
    let s' = happen (happen_all connection events) (polls arrives) in
    let new = pending connection.hub "east" ++ all_enqueued "east" events in
    (s'.log ≡ new) × (pending s'.hub "east" ≡ []) × (s'.agent.directive_count ≡ 0 + length new)
directives_handled_example =
    directives_handled "east" connection events east_named refl
      (request_lost_keeps, (tt, (tt, (arrives_keeps, (tt, tt)))))

lost_reply_drops_example :
    let s' = happen connection (polls reply_lost) in
    (s'.log ≡ []) × (pending s'.hub "east" ≡ []) × (s'.agent.last_err ≡ some (call_failed lost))
lost_reply_drops_example = lost_reply_drops "east" connection east_named refl

heartbeat_heard_example :
    let (m', (a', err)) = start (behind arrives 0) none new_memory_hub_service agent in
    let s = happen_all (record { hub = m'; agent = a'; log = [] }) events in
    let s' = happen s (heartbeats arrives 20 21 22 (collected status)) in
    (err ≡ none)
    × (s'.agent.last_err ≡ none)
    × (s'.agent.heartbeat_count ≡ suc s.agent.heartbeat_count)
    × (get_last_status s'.hub "east" ≡ some (stamped 21 (heartbeat_report s.agent 20 status)))
heartbeat_heard_example =
    heartbeat_heard new_memory_hub_service agent [] events 20 21 22 status east_named

abbrev restarted : Connection Thousandths
restarted = record { hub = new_memory_hub_service; agent = agent; log = [] }

forgotten_stays_unheard_example : (happen_all restarted events).agent.heartbeat_count ≡ 0
unfolding new_memory_hub_service lookup
forgotten_stays_unheard_example =
    forgotten_stays_unheard "east" events restarted east_named refl refl
      (refl, (refl, (refl, (refl, (refl, tt)))))
