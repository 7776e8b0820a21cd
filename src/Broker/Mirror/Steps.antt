-- ===== src/Broker/Mirror/Steps.antt =====
-- Every operation of the broker keeps the mailbox files in step with the mailbox.
use inter_agent_bus.Base.{
  ℕ, List, [], ◌∷◌, refl, ◌∙◌, Text, arith, Bool-cases, Option-cases, inl, inr, keep, length, eqb,
  All, if-both,
}
use inter_agent_bus.Base.Maps
use inter_agent_bus.Base.Maps.{Map, get-set_ne, get-delete_ne}
use inter_agent_bus.Value.{Value, get_prop, as_text, is_nullish, is_text}
use inter_agent_bus.Broker.Types.{State, Config, MailEntry, Participant, Job, push, flush, Chain}
use inter_agent_bus.Broker.Mail.{is_fresh}
use inter_agent_bus.Broker.Delivery.{Outcome, settle, step_chain, finish_delivery, attempt_forward}
use inter_agent_bus.Broker.Leases.{
  handle_heartbeat, renew_with, handle_unregister, leave_with, persist_registry,
}
use inter_agent_bus.Broker.Gc.{
  drop_stale, gc_participants, gc_tick, gc_mailbox, gc_queue, gc_recent, gc_store,
}
use inter_agent_bus.Broker.Register.{handle_register}
use inter_agent_bus.Broker.{
  Event, request, finished, tick, restart, step, run, handle_request, RequestType,
  register_participant, heartbeat, list_participants, push_message, unregister_participant, unknown,
  request_type, dispatch,
}
use inter_agent_bus.Broker.Fifo.History.{IsRunning}
use inter_agent_bus.Broker.Mirror.{Mirrors}
use inter_agent_bus.Broker.Mirror.Requests.{
  AlikeMail, alike-Mirrors, renew_with-alike, leave_with-alike, enqueue_mailbox-Mirrors,
  gc_store-Mirrors, register_result-Mirrors, handle_push-Mirrors,
}

gc_participants-alike :
    (now : ℕ) (ps : List (Text × Participant)) (s : State)
    → AlikeMail s (gc_participants now ps s).0
unfolding gc_participants drop_stale
gc_participants-alike now [] s = (refl, refl)
gc_participants-alike now ((t, p) ∷ ps) s =
    let (m, f) = gc_participants-alike now ps _ in (m ∙ ground arith, f ∙ ground arith)

module _ (c : Config) where
  gc_queue-Mirrors :
      (now : ℕ) (hash : Text) (q : List MailEntry) (s : State)
      → Mirrors c s
      → Mirrors c (gc_queue c now hash q s)
  unfolding gc_queue
  gc_queue-Mirrors now hash q s k =
      if-both (Mirrors c) (eqb (length (keep (is_fresh now) q)) (length q)) s
        (gc_store c hash (keep (is_fresh now) q) s) k
        (gc_store-Mirrors c hash (keep (is_fresh now) q) s k)

  gc_mailbox-Mirrors :
      (now : ℕ) (qs : Map (List MailEntry)) (s : State)
      → Mirrors c s
      → Mirrors c (gc_mailbox c now qs s)
  unfolding gc_mailbox
  gc_mailbox-Mirrors now [] s k = k
  gc_mailbox-Mirrors now ((hash, q) ∷ qs) s k =
      gc_mailbox-Mirrors now qs (gc_queue c now hash q s) (gc_queue-Mirrors now hash q s k)

  gc_tick-Mirrors : (now : ℕ) (s : State) → Mirrors c s → Mirrors c (gc_tick c now s)
  unfolding gc_tick persist_registry
  gc_tick-Mirrors now s k =
      let (s', changed) = gc_participants now s.participants s in
      let s'' = record s' { recent_participants = gc_recent now s'.recent_participants } in
      let swept = gc_mailbox c now s''.mailbox s'' in
      let fine =
        gc_mailbox-Mirrors now s''.mailbox s''
          (alike-Mirrors c s s'' (gc_participants-alike now s.participants s) k) in
      if-both (Mirrors c) changed (persist_registry swept) swept fine fine

  settle-Mirrors :
      (now : ℕ) (p : Participant) (job : Job) (v : Value) (s : State)
      → Mirrors c s
      → Mirrors c (settle c now p job v s).0
  unfolding settle
  settle-Mirrors now p (push e) v s k = elim (Bool-cases (is_nullish v)) [
    | inl n ↦ simp n k
    | inr n ↦ elim (Bool-cases (is_text "accepted" (get_prop "status" v))) [
      | inl a ↦ simp (n, a) k
      | inr a ↦ simp (n, a) (enqueue_mailbox-Mirrors c now _ e.to e s k)
    ]
  ]
  settle-Mirrors now p (flush hash entry) v s k = elim (Bool-cases (is_nullish v)) [
    | inl n ↦ simp n k
    | inr n ↦ elim (Bool-cases (is_text "accepted" (get_prop "status" v))) [
      | inl a ↦ simp (n, a) k
      | inr a ↦
          simp (n, a) (enqueue_mailbox-Mirrors c now hash entry.participant_id entry.envelope s k)
    ]
  ]

  step_chain-Mirrors :
      (now : ℕ) (o : Outcome) (t : Text) (chain : Chain) (jobs : List Job) (s : State)
      → Mirrors c s
      → Mirrors c (step_chain c now o t chain jobs s).0
  unfolding step_chain
  step_chain-Mirrors now o t chain [] s k = k
  step_chain-Mirrors now o t chain (job ∷ jobs) s k =
      settle-Mirrors now chain.participant job (attempt_forward c chain.participant o)
        (record s { chains = Maps.set t (record chain { jobs = jobs }) s.chains }) k

  finish_delivery-Mirrors :
      (now : ℕ) (o : Outcome) (t : Text) (s : State)
      → Mirrors c s
      → Mirrors c (finish_delivery c now o t s).0
  unfolding finish_delivery
  finish_delivery-Mirrors now o t s k = elim (Option-cases (Maps.get t s.chains)) [
    | inl h ↦ rw (h, finish_delivery) k
    | inr (chain, h) ↦ rw (h, finish_delivery) (step_chain-Mirrors now o t chain chain.jobs s k)
  ]

  dispatch-Mirrors :
      (now : ℕ) (t : Text) (type : RequestType) (req : Value) (s : State)
      → Mirrors c s
      → Mirrors c (dispatch c now t type req s).0
  unfolding dispatch handle_heartbeat handle_unregister handle_register
  dispatch-Mirrors now t register_participant req s k = register_result-Mirrors c now t _ s k
  dispatch-Mirrors now t heartbeat req s k =
      alike-Mirrors c s ((renew_with now (as_text (get_prop "leaseToken" req)) s).0)
        (renew_with-alike now (as_text (get_prop "leaseToken" req)) s) k
  dispatch-Mirrors now t list_participants req s k = k
  dispatch-Mirrors now t push_message req s k = handle_push-Mirrors c now req s k
  dispatch-Mirrors now t unregister_participant req s k =
      alike-Mirrors c s ((leave_with now (as_text (get_prop "leaseToken" req)) s).0)
        (leave_with-alike now (as_text (get_prop "leaseToken" req)) s) k
  dispatch-Mirrors now t unknown req s k = k

  handle_request-Mirrors :
      (now : ℕ) (t : Text) (req : Value) (s : State)
      → Mirrors c s
      → Mirrors c (handle_request c now t req s).0
  unfolding handle_request
  handle_request-Mirrors now t req s k = elim (Bool-cases (is_nullish req)) [
    | inl e ↦ simp e k
    | inr e ↦ simp e (dispatch-Mirrors now t (request_type (get_prop "type" req)) req s k)
  ]

  step-Mirrors : (e : Event) (s : State) → IsRunning e → Mirrors c s → Mirrors c (step c e s)
  unfolding step
  step-Mirrors (request now t req) s r k = handle_request-Mirrors now t req s k
  step-Mirrors (finished now o t) s r k = finish_delivery-Mirrors now o t s k
  step-Mirrors (tick now) s r k = gc_tick-Mirrors now s k
  step-Mirrors (restart now) s r k = absurd r

  -- Over any history without a restart, each mailbox file holds the lines of its queue, there is
  -- none for an empty queue, and no two files have the same name, if this was so at first.
  pub run-Mirrors :
      (es : List Event) (s : State) → All IsRunning es → Mirrors c s → Mirrors c (run c es s)
  unfolding run
  run-Mirrors [] s r k = k
  run-Mirrors (e ∷ es) s (r, rs) k = run-Mirrors es (step c e s) rs (step-Mirrors e s r k)
