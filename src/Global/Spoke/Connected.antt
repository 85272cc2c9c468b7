-- ===== src/Global/Spoke/Connected.antt =====
-- The agent and the hub together: the calls of hub_server.go's handlers reach a MemoryHubService, and the
-- network may lose a request or an answer.
pub mod Handled
pub mod Heard
use optipilot_ai.Prelude.{String, List, ℕ, [], ◌∷◌}
use optipilot_ai.Global.Messages.{Directive}
use optipilot_ai.Global.Hub.{
  MemoryHubService, HubCall, Rpc, RpcError, reply, rpc_error, register_cluster, report_status,
  get_directive, serve,
}
use optipilot_ai.Global.Spoke.{
  SpokeAgent, Hub, Answer, answer, failed, Collected, heartbeat_tick, poll_tick, log_directive,
}

pub data CallError : Type 0 where
  lost : CallError
  refused : RpcError → CallError

pub data Link : Type 0 where
  arrives request_lost reply_lost : Link

abbrev pub answered : {A : Type 0} → Rpc A → Answer CallError A
answered (reply a) = answer a
answered (rpc_error e) = failed (refused e)

module _ {F : Type 0} where
  unfoldable pub carried :
      {A : Type 0}
      → Link
      → MemoryHubService F
      → (MemoryHubService F → MemoryHubService F × Rpc A)
      → MemoryHubService F × Answer CallError A
  carried arrives m call = ((call m).0, answered (call m).1)
  carried request_lost m call = (m, failed lost)
  carried reply_lost m call = ((call m).0, failed lost)

  -- The hub behind a link, at the time `now`.
  unfoldable pub behind : Link → ℕ → Hub F CallError (MemoryHubService F)
  unfolding carried register_cluster report_status get_directive
  behind link now = record {
    register = λ m req. carried link m (λ m. register_cluster m req);
    report = λ m report. carried link m (λ m. report_status now m report);
    fetch = λ m name. carried link m (λ m. get_directive m name);
  }

-- The agent with a handler that keeps the directives, and the hub.
pub record Connection (F : Type 0) : Type 0 where
  pub hub : MemoryHubService F
  pub agent : SpokeAgent F CallError
  pub log : List Directive

-- A call of someone else, or a tick of one of the agent's loops. The times of a heartbeat are those
-- at which the agent builds the report, the hub serves it and the agent has the answer.
pub data Event (F : Type 0) : Type 0 where
  hub_call : HubCall F → Event F
  heartbeats : Link → ℕ → ℕ → ℕ → Collected F → Event F
  polls : Link → Event F

module _ {F : Type 0} where
  unfoldable pub happen : Connection F → Event F → Connection F
  unfolding serve behind heartbeat_tick poll_tick
  happen s (hub_call c) = record s { hub = (serve s.hub c).0 }
  happen s (heartbeats link now at later c) =
      let (h, a) = heartbeat_tick (behind link at) now later s.hub s.agent c in
      record s { hub = h; agent = a }
  happen s (polls link) =
      let (h, (w, a)) = poll_tick log_directive (behind link 0) s.hub s.log s.agent in
      record { hub = h; agent = a; log = w }

  unfoldable pub happen_all : Connection F → List (Event F) → Connection F
  unfolding happen
  happen_all s [] = s
  happen_all s (e ∷ es) = happen_all (happen s e) es
