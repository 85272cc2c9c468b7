-- ===== src/Global/Spoke/Connected/Heard.antt =====
-- Whether the hub hears the agent: the registration and the heartbeats.
use optipilot_ai.Prelude.{
  subst, String, Bool, List, ℕ, ◌≡◌, ◌≢◌, [], false, refl, true, ◌||◌, ◌∷◌, ap, ◌∙◌, lookup, none,
  some, str_eq, pos, str_eq-false, suc, Option-cases, ◌*ℤ◌, inl, inr, sym, str_eq_refl, All,
}
use optipilot_ai.Global.Messages.{Directive, ClusterStatusReport, RegisterClusterRequest}
use optipilot_ai.Global.Hub.{
  MemoryHubService, reply, rpc_error, not_found, get_directive, report_status, register_cluster,
  serve, registers, get_last_status, stamped,
}
use optipilot_ai.Global.Hub.Registered.{
  is_known, is_some, is_registration, is_known-serve, clusters-report_status,
  clusters-get_directive,
}
use optipilot_ai.Global.Hub.Status.{last_status-report_status}
use optipilot_ai.Global.Spoke.{
  SpokeAgent, Answer, answer, failed, Collected, collected, collect_error, running,
  heartbeat_report, heartbeat_answered, send_heartbeat, heartbeat_tick, note_error, poll_directives,
  poll_answered, poll_tick, log_directive, register, registration_answered, registration_request,
  start, second, set_state, registered,
}
use optipilot_ai.Global.Spoke.Connected.{
  CallError, Link, arrives, request_lost, reply_lost, carried, answered, behind, Connection, Event,
  hub_call, heartbeats, polls, happen, happen_all,
}
use optipilot_ai.Global.Spoke.Connected.Handled.{handle_all-log, heartbeat_tick-Alike}

module _ {F : Type 0} where
  -- Two agents with the same identity and the same count of heartbeats.
  abbrev Twins : SpokeAgent F CallError → SpokeAgent F CallError → Type 0
  Twins a b = (b.info ≡ a.info) × (b.heartbeat_count ≡ a.heartbeat_count)

  poll_answered-Twins :
      (log : List Directive) (a : SpokeAgent F CallError) (r : Answer CallError (List Directive))
      → Twins a (note_error (poll_answered log_directive log a r).1)
  unfolding poll_answered note_error
  poll_answered-Twins log a (failed e) = (refl, refl)
  poll_answered-Twins log a (answer ds) = rw (handle_all-log ds log a) (refl, refl)

  poll_tick-Twins :
      (link : Link) (m : MemoryHubService F) (log : List Directive) (a : SpokeAgent F CallError)
      → Twins a (poll_tick log_directive (behind link 0) m log a).1.1
  unfolding poll_tick poll_directives behind
  poll_tick-Twins link m log a =
      poll_answered-Twins log a (carried link m (λ m. get_directive m a.info.cluster_name)).1

  clusters-poll_tick :
      (link : Link) (m : MemoryHubService F) (log : List Directive) (a : SpokeAgent F CallError)
      → (poll_tick log_directive (behind link 0) m log a).0.clusters ≡ m.clusters
  unfolding poll_tick poll_directives behind carried
  clusters-poll_tick arrives m log a = clusters-get_directive "" m a.info.cluster_name
  clusters-poll_tick request_lost m log a = refl
  clusters-poll_tick reply_lost m log a = clusters-get_directive "" m a.info.cluster_name

  clusters-heartbeat_tick :
      (link : Link) (now at later : ℕ) (m : MemoryHubService F) (a : SpokeAgent F CallError)
      (c : Collected F)
      → (heartbeat_tick (behind link at) now later m a c).0.clusters ≡ m.clusters
  unfolding heartbeat_tick send_heartbeat behind carried
  clusters-heartbeat_tick link now at later m a (collect_error e) = refl
  clusters-heartbeat_tick arrives now at later m a (collected report) =
      clusters-report_status "" at m (heartbeat_report a now report)
  clusters-heartbeat_tick request_lost now at later m a (collected report) = refl
  clusters-heartbeat_tick reply_lost now at later m a (collected report) =
      clusters-report_status "" at m (heartbeat_report a now report)

  -- A call of someone else that registers the cluster.
  abbrev pub re_registers : String → Event F → Bool
  re_registers name (hub_call c) = is_registration name c
  re_registers name e = false

  is_known-happen :
      (name : String) (s : Connection F) (e : Event F)
      → name ≢ ""
      → is_known name (happen s e).hub ≡ (re_registers name e || is_known name s.hub)
  unfolding happen
  is_known-happen name s (hub_call c) h = is_known-serve name s.hub c h
  is_known-happen name s (heartbeats link now at later c) h =
      ap (λ cs. is_some (lookup name cs))
        (clusters-heartbeat_tick link now at later s.hub s.agent c)
  is_known-happen name s (polls link) h =
      ap (λ cs. is_some (lookup name cs)) (clusters-poll_tick link s.hub s.log s.agent)

  info-happen : (s : Connection F) (e : Event F) → (happen s e).agent.info ≡ s.agent.info
  unfolding happen
  info-happen s (hub_call c) = refl
  info-happen s (heartbeats link now at later c) =
      (heartbeat_tick-Alike link now at later s.hub s.agent c).0
  info-happen s (polls link) = (poll_tick-Twins link s.hub s.log s.agent).0

  info-happen_all :
      (es : List (Event F)) (s : Connection F) → (happen_all s es).agent.info ≡ s.agent.info
  unfolding happen_all
  info-happen_all [] s = refl
  info-happen_all (e ∷ es) s = info-happen_all es (happen s e) ∙ info-happen s e

  stays_known :
      (name : String) (es : List (Event F)) (s : Connection F)
      → name ≢ ""
      → is_known name s.hub ≡ true
      → is_known name (happen_all s es).hub ≡ true
  unfolding happen_all
  stays_known name [] s h k = k
  stays_known name (e ∷ es) s h k = stays_known name es (happen s e) h (
      is_known-happen name s e h
      ∙ ap (λ b. re_registers name e || b) k
      ∙ or_true (re_registers name e))
    where
      or_true : (b : Bool) → (b || true) ≡ true
      or_true true = refl
      or_true false = refl

  -- What the hub answers to a report for a cluster it knows, and to one for a cluster it does not.
  report_status-known :
      (at : ℕ) (m : MemoryHubService F) (name : String) (report : ClusterStatusReport F)
      → name ≢ ""
      → report.cluster_name ≡ name
      → is_known name m ≡ true
      → ((report_status at m report).1 ≡ reply (record { received = true; message = "ok" }))
        × (get_last_status (report_status at m report).0 name ≡ some (stamped at report))
  unfolding report_status
  report_status-known at m name report h n k =
      let named : str_eq report.cluster_name "" ≡ false = rw n (str_eq-false name "" h) in
      elim (Option-cases (lookup report.cluster_name m.clusters)) [
        | inl e ↦
            let none_there : is_known name m ≡ false =
              ap is_some (ap (λ z. lookup z m.clusters) (sym n) ∙ e) in
            absurd (cc)
        | inr (req, e) ↦ (
          rw (named, e) refl,
          last_status-report_status name at m report req named e ∙ rw (n, str_eq_refl name) refl,
        )
      ]

  report_status-unknown :
      (at : ℕ) (m : MemoryHubService F) (name : String) (report : ClusterStatusReport F)
      → name ≢ ""
      → report.cluster_name ≡ name
      → is_known name m ≡ false
      → (report_status at m report).1 ≡ rpc_error (not_found report.cluster_name)
  unfolding report_status
  report_status-unknown at m name report h n k =
      let named : str_eq report.cluster_name "" ≡ false = rw n (str_eq-false name "" h) in
      elim (Option-cases (lookup report.cluster_name m.clusters)) [
        | inl e ↦ rw (named, e) refl
        | inr (req, e) ↦
            let there : is_known name m ≡ true =
              ap is_some (ap (λ z. lookup z m.clusters) (sym n) ∙ e) in
            absurd (cc)
      ]

  heartbeat_tick-arrives :
      (now at later : ℕ) (m : MemoryHubService F) (a : SpokeAgent F CallError)
      (report : ClusterStatusReport F)
      → let r = report_status at m (heartbeat_report a now report) in
        heartbeat_tick (behind arrives at) now later m a (collected report)
        ≡ (r.0, note_error (heartbeat_answered a later (answered r.1)))
  unfolding heartbeat_tick send_heartbeat behind carried
  heartbeat_tick-arrives now at later m a report = refl

  -- A heartbeat that arrives, from an agent the hub knows.
  happen-heartbeats :
      (name : String) (s : Connection F) (now at later : ℕ) (report : ClusterStatusReport F)
      → name ≢ ""
      → s.agent.info.cluster_name ≡ name
      → is_known name s.hub ≡ true
      → let s' = happen s (heartbeats arrives now at later (collected report)) in
        (s'.agent.last_err ≡ none)
        × (s'.agent.heartbeat_count ≡ suc s.agent.heartbeat_count)
        × (get_last_status s'.hub name ≡ some (stamped at (heartbeat_report s.agent now report)))
  unfolding happen heartbeat_report heartbeat_answered note_error
  happen-heartbeats name s now at later report h n k =
      let (told, shown) =
        report_status-known at s.hub name (heartbeat_report s.agent now report) h n k in
      subst
        (λ r.
          (r.1.last_err ≡ none)
          × (r.1.heartbeat_count ≡ suc s.agent.heartbeat_count)
          × (get_last_status r.0 name ≡ some (stamped at (heartbeat_report s.agent now report))))
        (sym (heartbeat_tick-arrives now at later s.hub s.agent report))
        (rw told refl, rw told refl, shown)

  register_cluster-named :
      (m : MemoryHubService F) (req : RegisterClusterRequest F)
      → req.cluster_name ≢ ""
      → (register_cluster m req).1
        ≡ reply (record { accepted = true; message = "registered"; heartbeat_interval_s = pos 30 })
  unfolding register_cluster
  register_cluster-named m req h = rw (str_eq-false req.cluster_name "" h) refl

  -- Start over a connection that answers.
  start-arrives :
      (m : MemoryHubService F) (a : SpokeAgent F CallError)
      → a.info.cluster_name ≢ ""
      → start (behind arrives 0) none m a ≡ (
        (serve m (registers (registration_request a.info))).0,
        (record a { heartbeat_interval = pos 30 *ℤ second; state = running }, none),
      )
  unfolding start register behind carried registration_answered serve
  start-arrives m a h =
      let accepted =
        register_cluster-named m (registration_request a.info) (unfold registration_request in h) in
      rw (start, accepted)
        (ap
          (λ r. (
            (register_cluster m (registration_request a.info)).0,
            (
              set_state running (set_state registered (registration_answered a (answered r)).0),
              none,
            ),
          ))
          accepted)

  -- Once Start has registered an agent with a name over a connection that answers, every heartbeat whose
  -- status is collected and that arrives is taken, whatever calls and losses there have been in between
  -- at a hub that keeps running: it is the last status at the hub, the count goes up by one, and no
  -- error is left.
  pub heartbeat_heard :
      (m : MemoryHubService F) (a : SpokeAgent F CallError) (log : List Directive)
      (es : List (Event F)) (now at later : ℕ) (report : ClusterStatusReport F)
      → a.info.cluster_name ≢ ""
      → let (m', (a', err)) = start (behind arrives 0) none m a in
        let s = happen_all (record { hub = m'; agent = a'; log = log }) es in
        let s' = happen s (heartbeats arrives now at later (collected report)) in
        (err ≡ none)
        × (s'.agent.last_err ≡ none)
        × (s'.agent.heartbeat_count ≡ suc s.agent.heartbeat_count)
        × (get_last_status s'.hub a.info.cluster_name
            ≡ some (stamped at (heartbeat_report s.agent now report)))
  heartbeat_heard m a log es now at later report h =
      let name = a.info.cluster_name in
      let m' = (serve m (registers (registration_request a.info))).0 in
      let known : is_known name m' ≡ true =
        is_known-serve name m (registers (registration_request a.info)) h
        ∙ unfold registration_request in ap (λ b. b || is_known name m) (str_eq_refl name) in
      subst
        (λ r.
          let s = happen_all (record { hub = r.0; agent = r.1.0; log = log }) es in
          let s' = happen s (heartbeats arrives now at later (collected report)) in
          (r.1.1 ≡ none)
          × (s'.agent.last_err ≡ none)
          × (s'.agent.heartbeat_count ≡ suc s.agent.heartbeat_count)
          × (get_last_status s'.hub name ≡ some (stamped at (heartbeat_report s.agent now report))))
        (sym (start-arrives m a h))
        (let s0 : Connection F = record {
          hub = m';
          agent = record a { heartbeat_interval = pos 30 *ℤ second; state = running };
          log = log;
        } in
          let (no_error, count, shown) =
            happen-heartbeats name (happen_all s0 es) now at later report h
              (ap (λ i. i.cluster_name) (info-happen_all es s0)) (stays_known name es s0 h known) in
          (refl, no_error, count, shown))

  -- A heartbeat from an agent the hub does not know counts for nothing.
  count-happen :
      (name : String) (s : Connection F) (e : Event F)
      → name ≢ ""
      → s.agent.info.cluster_name ≡ name
      → is_known name s.hub ≡ false
      → (happen s e).agent.heartbeat_count ≡ s.agent.heartbeat_count
  unfolding happen
  count-happen name s (hub_call c) h n k = refl
  count-happen name s (heartbeats link now at later (collect_error e)) h n k =
      unfold heartbeat_tick send_heartbeat note_error in refl
  count-happen name s (heartbeats arrives now at later (collected report)) h n k =
      let told =
        report_status-unknown at s.hub name (heartbeat_report s.agent now report) h
          (unfold heartbeat_report in n) k in
      ap (λ r. r.1.heartbeat_count) (heartbeat_tick-arrives now at later s.hub s.agent report)
      ∙ ap (λ r. (note_error (heartbeat_answered s.agent later (answered r))).heartbeat_count) told
      ∙ unfold heartbeat_answered note_error in refl
  count-happen name s (heartbeats request_lost now at later (collected report)) h n k =
      unfold heartbeat_tick send_heartbeat heartbeat_answered behind carried note_error in refl
  count-happen name s (heartbeats reply_lost now at later (collected report)) h n k =
      unfold heartbeat_tick send_heartbeat heartbeat_answered behind carried note_error in refl
  count-happen name s (polls link) h n k = (poll_tick-Twins link s.hub s.log s.agent).1

  -- At a hub that does not know the agent's cluster, as after a restart of the hub, no heartbeat ever
  -- succeeds unless someone else registers the cluster: the agent does not register again.
  pub forgotten_stays_unheard :
      (name : String) (es : List (Event F)) (s : Connection F)
      → name ≢ ""
      → s.agent.info.cluster_name ≡ name
      → is_known name s.hub ≡ false
      → All (λ e. re_registers name e ≡ false) es
      → (happen_all s es).agent.heartbeat_count ≡ s.agent.heartbeat_count
  unfolding happen_all
  forgotten_stays_unheard name [] s h n k f = refl
  forgotten_stays_unheard name (e ∷ es) s h n k f =
      forgotten_stays_unheard name es (happen s e) h
        (ap (λ i. i.cluster_name) (info-happen s e) ∙ n)
        (is_known-happen name s e h ∙ ap (λ b. b || is_known name s.hub) f.0 ∙ k) f.1
      ∙ count-happen name s e h n k
