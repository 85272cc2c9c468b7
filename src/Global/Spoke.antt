-- ===== src/Global/Spoke.antt =====
-- internal/global/spoke/agent.go and collector.go: the agent of a spoke cluster. The hub's side of the
-- connection is an argument, `Hub`, with a state that each call passes on; so is the handler. A tick is
-- one round of a loop, whose log is left out.
pub mod Connected
mod Tests
use optipilot_ai.Prelude.{
  Map, Option, String, List, pos, some, ℕ, ℤ, [], if◌then◌else◌, none, ◌*ℤ◌, ◌++◌, ◌∷◌, not, suc,
  ltb_ℤ,
}
use optipilot_ai.Global.Messages.{
  Directive, Capabilities, CostProfileMsg, RegisterClusterRequest, RegisterClusterResponse,
  ClusterStatusReport, StatusAck,
}

-- AgentState
pub data AgentState : Type 0 where
  disconnected registered running stopped : AgentState

-- RegistrationInfo
pub record RegistrationInfo (F : Type 0) : Type 0 where
  pub cluster_name : String
  pub provider : String
  pub region : String
  pub endpoint : String
  pub carbon_intensity_gco2 : F
  pub labels : Map String
  pub capabilities : Option Capabilities
  pub cost_profile : Option CostProfileMsg

-- The error of a call is that of the connection or the hub.
pub data AgentError (E : Type 0) : Type 0 where
  connect_failed : E → AgentError E
  call_failed : E → AgentError E
  hub_rejected : String → AgentError E
  collect_failed : String → AgentError E
  not_acknowledged : String → AgentError E

pub data Answer (E A : Type 0) : Type 0 where
  answer : A → Answer E A
  failed : E → Answer E A

-- SpokeAgent without its dependencies and clock. Intervals are nanoseconds; the zero time is `none`.
pub record SpokeAgent (F E : Type 0) : Type 0 where
  pub info : RegistrationInfo F
  pub heartbeat_interval : ℤ
  pub directive_poll_interval : ℤ
  pub state : AgentState
  pub last_heartbeat : Option ℕ
  pub heartbeat_count : ℕ
  pub directive_count : ℕ
  pub last_err : Option (AgentError E)

-- The calls of a SpokeClient, on a connection to a hub with the state H.
pub record Hub (F E H : Type 0) : Type 0 where
  pub register : H → RegisterClusterRequest F → H × Answer E RegisterClusterResponse
  pub report : H → ClusterStatusReport F → H × Answer E StatusAck
  pub fetch : H → String → H × Answer E (List Directive)

-- StatusCollector.Collect
pub data Collected (F : Type 0) : Type 0 where
  collected : ClusterStatusReport F → Collected F
  collect_error : String → Collected F

abbrev pub second : ℤ
second = pos 1_000_000_000

unfoldable pub registration_request : {F : Type 0} → RegistrationInfo F → RegisterClusterRequest F
registration_request info = record {
  cluster_name = info.cluster_name;
  provider = info.provider;
  region = info.region;
  endpoint = info.endpoint;
  carbon_intensity_gco2 = info.carbon_intensity_gco2;
  labels = info.labels;
  capabilities = info.capabilities;
  cost_profile = info.cost_profile;
}

-- The agent after an action, with the error that it returns.
abbrev pub Attempt : Type 0 → Type 0 → Type 0
Attempt F E = SpokeAgent F E × Option (AgentError E)

module _ {F E : Type 0} where
  -- NewSpokeAgent, without options.
  unfoldable pub new_spoke_agent : RegistrationInfo F → SpokeAgent F E
  new_spoke_agent info = record {
    info = info;
    heartbeat_interval = pos 30 *ℤ second;
    directive_poll_interval = pos 10 *ℤ second;
    state = disconnected;
    last_heartbeat = none;
    heartbeat_count = 0;
    directive_count = 0;
    last_err = none;
  }

  -- setError
  abbrev pub set_error : AgentError E → SpokeAgent F E → SpokeAgent F E
  set_error e a = record a { last_err = some e }

  -- setState
  abbrev pub set_state : AgentState → SpokeAgent F E → SpokeAgent F E
  set_state s a = record a { state = s }

  -- register from the answer on.
  unfoldable pub registration_answered :
      SpokeAgent F E → Answer E RegisterClusterResponse → Attempt F E
  registration_answered a (failed e) = (set_error (call_failed e) a, some (call_failed e))
  registration_answered a (answer resp) =
      if not resp.accepted
      then (set_error (hub_rejected resp.message) a, some (hub_rejected resp.message))
      else if ltb_ℤ (pos 0) resp.heartbeat_interval_s
      then (record a { heartbeat_interval = resp.heartbeat_interval_s *ℤ second }, none)
      else (a, none)

  -- The report as sendHeartbeat sends it.
  unfoldable pub heartbeat_report :
      SpokeAgent F E → ℕ → ClusterStatusReport F → ClusterStatusReport F
  heartbeat_report a now report = record report {
    cluster_name = a.info.cluster_name;
    timestamp = elim report.timestamp [ none ↦ some now | some t ↦ some t ];
  }

  -- sendHeartbeat from the answer on.
  unfoldable pub heartbeat_answered : SpokeAgent F E → ℕ → Answer E StatusAck → Attempt F E
  heartbeat_answered a now (failed e) = (a, some (call_failed e))
  heartbeat_answered a now (answer ack) =
      if not ack.received then (a, some (not_acknowledged ack.message)) else (
        record a {
          last_heartbeat = some now;
          heartbeat_count = suc a.heartbeat_count;
          last_err = none;
        },
        none,
      )

  -- `a.setError(err)` when the round of a loop fails.
  unfoldable pub note_error : Attempt F E → SpokeAgent F E
  note_error (a, none) = a
  note_error (a, some e) = set_error e a

  module _ {H : Type 0} (hub : Hub F E H) where
    -- register
    unfoldable pub register : H → SpokeAgent F E → H × Attempt F E
    unfolding registration_request registration_answered
    register h a =
        let r = hub.register h (registration_request a.info) in (r.0, registration_answered a r.1)

    -- sendHeartbeat; the clock is read for the report and when the hub has answered.
    unfoldable pub send_heartbeat : ℕ → ℕ → H → SpokeAgent F E → Collected F → H × Attempt F E
    unfolding heartbeat_report heartbeat_answered
    send_heartbeat now later h a (collect_error e) = (h, (a, some (collect_failed e)))
    send_heartbeat now later h a (collected report) =
        let r = hub.report h (heartbeat_report a now report) in
        (r.0, heartbeat_answered a later r.1)

    -- The heartbeat before the first tick of heartbeatLoop, whose error is only logged.
    unfoldable pub first_heartbeat : ℕ → ℕ → H → SpokeAgent F E → Collected F → H × SpokeAgent F E
    unfolding send_heartbeat
    first_heartbeat now later h a c = let (h', r) = send_heartbeat now later h a c in (h', r.0)

    -- A tick of heartbeatLoop.
    unfoldable pub heartbeat_tick : ℕ → ℕ → H → SpokeAgent F E → Collected F → H × SpokeAgent F E
    unfolding send_heartbeat note_error
    heartbeat_tick now later h a c =
        let (h', r) = send_heartbeat now later h a c in (h', note_error r)

    -- Start up to its loops: `none` for a connection, or the error of NewSpokeClient.
    unfoldable pub start : Option E → H → SpokeAgent F E → H × Attempt F E
    unfolding register
    start (some e) h a = (h, (set_error (connect_failed e) a, some (connect_failed e)))
    start none h a =
        let (h', (a', err)) = register h a in
        elim err [
          | some e ↦ (h', (set_state stopped a', some e))
          | none ↦ (h', (set_state running (set_state registered a'), none))
        ]

  module _ {W : Type 0} (handle : W → Directive → W × Option String) where
    -- The loop of pollDirectives: an error of the handler is logged.
    unfoldable pub handle_all : W → SpokeAgent F E → List Directive → W × SpokeAgent F E
    handle_all w a [] = (w, a)
    handle_all w a (d ∷ ds) =
        handle_all (handle w d).0 (record a { directive_count = suc a.directive_count }) ds

    unfoldable pub poll_answered : W → SpokeAgent F E → Answer E (List Directive) → W × Attempt F E
    unfolding handle_all
    poll_answered w a (failed e) = (w, (a, some (call_failed e)))
    poll_answered w a (answer ds) = let (w', a') = handle_all w a ds in (w', (a', none))

    module _ {H : Type 0} (hub : Hub F E H) where
      -- pollDirectives
      unfoldable pub poll_directives : H → W → SpokeAgent F E → H × (W × Attempt F E)
      unfolding poll_answered
      poll_directives h w a =
          let r = hub.fetch h a.info.cluster_name in (r.0, poll_answered w a r.1)

      -- A tick of directiveLoop.
      unfoldable pub poll_tick : H → W → SpokeAgent F E → H × (W × SpokeAgent F E)
      unfolding poll_directives note_error
      poll_tick h w a = let (h', (w', r)) = poll_directives h w a in (h', (w', note_error r))

-- LogDirectiveHandler
abbrev pub log_directive : List Directive → Directive → List Directive × Option String
log_directive log d = (log ++ d ∷ [], none)
