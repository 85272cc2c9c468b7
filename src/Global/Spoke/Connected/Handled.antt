-- ===== src/Global/Spoke/Connected/Handled.antt =====
-- Which directives the agent handles.
use optipilot_ai.Prelude.{
  subst, String, List, some, ℕ, ◌≡◌, none, ◌++◌, ◌+◌, length, [], ◌∷◌, Bool-cases, ap, refl, inl,
  inr, sym, append-nil, suc, ◌∙◌, append_assoc, arith, ◌≢◌, erase, str_eq-false, All, length-append,
}
use optipilot_ai.Global.Messages.{Directive, StatusAck}
use optipilot_ai.Global.Hub.{
  MemoryHubService, HubCall, pending, report_status, registers, reports, fetches, shifts, enqueues,
  serve,
}
use optipilot_ai.Global.Hub.Delivery.{
  added, handed, pending-serve, get_directive-named, directives-report_status, same_queues,
}
use optipilot_ai.Global.Spoke.{
  SpokeAgent, Collected, collected, collect_error, handle_all, heartbeat_report, poll_directives,
  poll_answered, heartbeat_tick, send_heartbeat, heartbeat_answered, note_error, poll_tick,
  log_directive, Answer, answer, failed, call_failed, Attempt,
}
use optipilot_ai.Global.Spoke.Connected.{
  CallError, lost, Link, arrives, request_lost, reply_lost, carried, behind, Connection, Event,
  hub_call, heartbeats, polls, happen, happen_all,
}

module _ {F : Type 0} where
  pub handle_all-log :
      (ds log : List Directive) (a : SpokeAgent F CallError)
      → handle_all log_directive log a ds
        ≡ (log ++ ds, record a { directive_count = a.directive_count + length ds })
  unfolding handle_all
  handle_all-log [] log a =
      ap (λ l. (l, a)) (sym (append-nil log))
      ∙ ap (λ n. (log ++ [], record a { directive_count = n })) (omega arith)
  handle_all-log (d ∷ ds) log a =
      handle_all-log ds (log ++ d ∷ []) (record a { directive_count = suc a.directive_count })
      ∙ ap (λ l. (l, record a { directive_count = suc a.directive_count + length ds }))
          (append_assoc log (d ∷ []) ds)
      ∙ ap (λ n. (log ++ d ∷ ds, record a { directive_count = n })) (omega arith)

  -- Two agents that differ in nothing that is said of directives.
  abbrev pub Alike : SpokeAgent F CallError → SpokeAgent F CallError → Type 0
  Alike a b = (b.info ≡ a.info) × (b.directive_count ≡ a.directive_count)

  heartbeat_answered-Alike :
      (a : SpokeAgent F CallError) (now : ℕ) (r : Answer CallError StatusAck)
      → Alike a (heartbeat_answered a now r).0
  unfolding heartbeat_answered
  heartbeat_answered-Alike a now (failed e) = (refl, refl)
  heartbeat_answered-Alike a now (answer ack) = elim (Bool-cases ack.received) [
    | inl e ↦ rw e (refl, refl)
    | inr e ↦ rw e (refl, refl)
  ]

  note_error-Alike :
      (a : SpokeAgent F CallError) (r : Attempt F CallError) → Alike a r.0 → Alike a (note_error r)
  unfolding note_error
  note_error-Alike a (b, none) h = h
  note_error-Alike a (b, some e) h = h

  pub heartbeat_tick-Alike :
      (link : Link) (now at later : ℕ) (m : MemoryHubService F) (a : SpokeAgent F CallError)
      (c : Collected F)
      → Alike a (heartbeat_tick (behind link at) now later m a c).1
  unfolding heartbeat_tick send_heartbeat note_error
  heartbeat_tick-Alike link now at later m a (collect_error e) = (refl, refl)
  heartbeat_tick-Alike link now at later m a (collected report) =
      note_error-Alike a (heartbeat_answered a later _) (heartbeat_answered-Alike a later _)

  pending-heartbeat_tick :
      (name : String) (link : Link) (now at later : ℕ) (m : MemoryHubService F)
      (a : SpokeAgent F CallError) (c : Collected F)
      → pending (heartbeat_tick (behind link at) now later m a c).0 name ≡ pending m name
  unfolding heartbeat_tick send_heartbeat behind carried
  pending-heartbeat_tick name link now at later m a (collect_error e) = refl
  pending-heartbeat_tick name arrives now at later m a (collected report) =
      same_queues name m (report_status at m (heartbeat_report a now report)).0
        (directives-report_status name at m (heartbeat_report a now report))
  pending-heartbeat_tick name request_lost now at later m a (collected report) = refl
  pending-heartbeat_tick name reply_lost now at later m a (collected report) =
      same_queues name m (report_status at m (heartbeat_report a now report)).0
        (directives-report_status name at m (heartbeat_report a now report))

  poll_tick-arrives :
      (m : MemoryHubService F) (log : List Directive) (a : SpokeAgent F CallError)
      → a.info.cluster_name ≢ ""
      → poll_tick log_directive (behind arrives 0) m log a ≡ (
        record m { directives = erase a.info.cluster_name m.directives },
        (
          log ++ pending m a.info.cluster_name,
          record a { directive_count = a.directive_count + length (pending m a.info.cluster_name) },
        ),
      )
  unfolding poll_tick poll_directives poll_answered note_error behind carried
  poll_tick-arrives m log a h =
      rw
        (
          (get_directive-named a.info.cluster_name m h).0,
          handle_all-log (pending m a.info.cluster_name) log a,
        )
        refl

  -- Nobody else fetches for the cluster, and no answer to a poll is lost.
  abbrev pub IsFair : String → Event F → Type 0
  IsFair name (hub_call (fetches from)) = from ≢ name
  IsFair name (hub_call c) = Unit
  IsFair name (heartbeats link now at later c) = Unit
  IsFair name (polls link) = link ≢ reply_lost

  -- The directives that the events enqueue for the cluster.
  abbrev pub enqueued_by : String → Event F → List Directive
  enqueued_by name (hub_call c) = added name c
  enqueued_by name e = []

  abbrev pub all_enqueued : String → List (Event F) → List Directive
  all_enqueued name [] = []
  all_enqueued name (e ∷ es) = enqueued_by name e ++ all_enqueued name es

  -- What is kept from one connection to the next, when `ds` are enqueued in between.
  abbrev Accounts : String → Connection F → List Directive → Connection F → Type 0
  Accounts name s ds s' =
      (s'.log ++ pending s'.hub name ≡ (s.log ++ pending s.hub name) ++ ds)
      × (s'.agent.info ≡ s.agent.info)
      × (s'.agent.directive_count + length s.log ≡ s.agent.directive_count + length s'.log)

  handed-none :
      (name : String) (m : MemoryHubService F) (c : HubCall F)
      → IsFair name (hub_call c)
      → handed name m c ≡ []
  handed-none name m (registers req) h = refl
  handed-none name m (reports now report) h = refl
  handed-none name m (fetches from) h = rw (str_eq-false from name h) refl
  handed-none name m (shifts req) h = refl
  handed-none name m (enqueues to d) h = refl

  poll_tick-request_lost :
      (m : MemoryHubService F) (log : List Directive) (a : SpokeAgent F CallError)
      → poll_tick log_directive (behind request_lost 0) m log a
        ≡ (m, (log, record a { last_err = some (call_failed lost) }))
  unfolding poll_tick poll_directives poll_answered note_error behind carried
  poll_tick-request_lost m log a = refl

  poll_tick-reply_lost :
      (m : MemoryHubService F) (log : List Directive) (a : SpokeAgent F CallError)
      → a.info.cluster_name ≢ ""
      → poll_tick log_directive (behind reply_lost 0) m log a ≡ (
        record m { directives = erase a.info.cluster_name m.directives },
        (log, record a { last_err = some (call_failed lost) }),
      )
  unfolding poll_tick poll_directives poll_answered note_error behind carried
  poll_tick-reply_lost m log a h = rw (get_directive-named a.info.cluster_name m h).0 refl

  -- The connection after a poll that arrives.
  happen-polls :
      (name : String) (s : Connection F)
      → name ≢ ""
      → s.agent.info.cluster_name ≡ name
      → let s' = happen s (polls arrives) in
        (s'.log ≡ s.log ++ pending s.hub name)
        × (pending s'.hub name ≡ [])
        × (s'.agent.directive_count ≡ s.agent.directive_count + length (pending s.hub name))
        × (s'.agent.info ≡ s.agent.info)
  unfolding happen
  happen-polls name s h n =
      let named : s.agent.info.cluster_name ≢ "" = λ q. h (sym n ∙ q) in
      subst
        (λ r.
          (r.1.0 ≡ s.log ++ pending s.hub name)
          × (pending r.0 name ≡ [])
          × (r.1.1.directive_count ≡ s.agent.directive_count + length (pending s.hub name))
          × (r.1.1.info ≡ s.agent.info))
        (sym (poll_tick-arrives s.hub s.log s.agent named))
        (
          ap (λ k. s.log ++ pending s.hub k) n,
          ap (λ k. pending (record s.hub { directives = erase k s.hub.directives }) name) n
              ∙ (get_directive-named name s.hub h).1,
          ap (λ k. s.agent.directive_count + length (pending s.hub k)) n,
          refl,
        )

  happen-Accounts :
      (name : String) (s : Connection F) (e : Event F)
      → name ≢ ""
      → s.agent.info.cluster_name ≡ name
      → IsFair name e
      → Accounts name s (enqueued_by name e) (happen s e)
  unfolding happen
  happen-Accounts name s (hub_call c) h n f = (
    ap (λ ds. s.log ++ ds)
          (sym (
            pending-serve name s.hub c h
            ∙ ap (λ ds. ds ++ pending (serve s.hub c).0 name) (handed-none name s.hub c f)))
        ∙ sym (append_assoc s.log (pending s.hub name) (added name c)),
    refl,
    refl,
  )
  happen-Accounts name s (heartbeats link now at later c) h n f =
      let (same, count) = heartbeat_tick-Alike link now at later s.hub s.agent c in
      (
        ap (λ ds. s.log ++ ds) (pending-heartbeat_tick name link now at later s.hub s.agent c)
            ∙ sym (append-nil (s.log ++ pending s.hub name)),
        same,
        ap (λ k. k + length s.log) count,
      )
  happen-Accounts name s (polls arrives) h n f =
      let (log, drained, count, info) = happen-polls name s h n in
      (
        ap (λ l. l ++ pending (happen s (polls arrives)).hub name) log
            ∙ ap (λ p. (s.log ++ pending s.hub name) ++ p) drained,
        info,
        omega (arith, count, ap length log, length-append s.log (pending s.hub name)),
      )
  happen-Accounts name s (polls request_lost) h n f =
      subst (λ r. Accounts name s [] (record { hub = r.0; agent = r.1.1; log = r.1.0 }))
        (sym (poll_tick-request_lost s.hub s.log s.agent))
        (sym (append-nil (s.log ++ pending s.hub name)), refl, refl)
  happen-Accounts name s (polls reply_lost) h n f = absurd (f refl)

  happen_all-Accounts :
      (name : String) (es : List (Event F)) (s : Connection F)
      → name ≢ ""
      → s.agent.info.cluster_name ≡ name
      → All (IsFair name) es
      → Accounts name s (all_enqueued name es) (happen_all s es)
  unfolding happen_all
  happen_all-Accounts name [] s h n f = (sym (append-nil (s.log ++ pending s.hub name)), refl, refl)
  happen_all-Accounts name (e ∷ es) s h n f =
      let (kept, info, count) = happen-Accounts name s e h n f.0 in
      let (kept', info', count') =
        happen_all-Accounts name es (happen s e) h (ap (λ i. i.cluster_name) info ∙ n) f.1 in
      (
        kept'
            ∙ ap (λ ds. ds ++ all_enqueued name es) kept
            ∙ append_assoc (s.log ++ pending s.hub name) (enqueued_by name e)
                (all_enqueued name es),
        info' ∙ info,
        omega (arith, count, count'),
      )

  -- Without a lost answer and with no one else fetching for the cluster, a poll that arrives leaves every
  -- directive that was pending or has been enqueued handled once, in the order of the queue, none pending,
  -- and the count raised by their number, whatever else happened before.
  pub directives_handled :
      (name : String) (s : Connection F) (es : List (Event F))
      → name ≢ ""
      → s.agent.info.cluster_name ≡ name
      → All (IsFair name) es
      → let s' = happen (happen_all s es) (polls arrives) in
        let new = pending s.hub name ++ all_enqueued name es in
        (s'.log ≡ s.log ++ new)
        × (pending s'.hub name ≡ [])
        × (s'.agent.directive_count ≡ s.agent.directive_count + length new)
  directives_handled name s es h n f =
      let t = happen_all s es in
      let (kept, info, count) = happen_all-Accounts name es s h n f in
      let (log, drained, counted, _) = happen-polls name t h (ap (λ i. i.cluster_name) info ∙ n) in
      let new = pending s.hub name ++ all_enqueued name es in
      let whole : (happen t (polls arrives)).log ≡ s.log ++ new =
        log ∙ kept ∙ append_assoc s.log (pending s.hub name) (all_enqueued name es) in
      (
        whole,
        drained,
        omega (
          arith,
          count,
          counted,
          ap length log,
          ap length whole,
          length-append t.log (pending t.hub name),
          length-append s.log new,
        ),
      )

  -- When the answer to a poll is lost the directives that were pending are neither handled nor pending
  -- any more, and the agent keeps the error.
  pub lost_reply_drops :
      (name : String) (s : Connection F)
      → name ≢ ""
      → s.agent.info.cluster_name ≡ name
      → let s' = happen s (polls reply_lost) in
        (s'.log ≡ s.log)
        × (pending s'.hub name ≡ [])
        × (s'.agent.last_err ≡ some (call_failed lost))
  unfolding happen
  lost_reply_drops name s h n =
      let named : s.agent.info.cluster_name ≢ "" = λ q. h (sym n ∙ q) in
      subst
        (λ r.
          (r.1.0 ≡ s.log) × (pending r.0 name ≡ []) × (r.1.1.last_err ≡ some (call_failed lost)))
        (sym (poll_tick-reply_lost s.hub s.log s.agent named))
        (
          refl,
          ap (λ k. pending (record s.hub { directives = erase k s.hub.directives }) name) n
              ∙ (get_directive-named name s.hub h).1,
          refl,
        )
