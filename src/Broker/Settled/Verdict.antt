-- ===== src/Broker/Settled/Verdict.antt =====
-- The end of a forward by what happened on the way to the adapter.
use inter_agent_bus.Base.{
  Option-cases, ℕ, ◌||◌, Option, none, some, List, [], ◌∷◌, ◌++◌, ◌≡◌, refl, Text, if◌then◌else◌,
  Bool-cases, inl, inr, true, false, codes, ◌==◌, ◌∙◌,
}
use inter_agent_bus.Base.Maps
use inter_agent_bus.Base.Maps.{Map, get-set_self}
use inter_agent_bus.Value.{truthy, str, lookup, Value, get_prop, is_text, is_nullish}
use inter_agent_bus.Paths.{resolve_delivery_socket_path}
use inter_agent_bus.Broker.Types.{
  State, Config, MailEntry, Participant, Chain, Job, push, flush, Response, error, internal,
  delivered, queued,
}
use inter_agent_bus.Broker.Mail.{queue_of}
use inter_agent_bus.Broker.Delivery.{
  Outcome, answered, malformed, timed_out, socket_error, dial, forward, receive, rejected,
  attempt_forward, finish_delivery,
}
use inter_agent_bus.Broker.Settled.{key_of, requeued, is_accepted, told, finish_delivery-Settles}

-- What a forward comes to: the adapter took the message, the message is lost, or it is kept for a
-- reason.
pub data Verdict : Type 0 where
  taken lost : Verdict
  kept : Value → Verdict

judge : Value → Verdict
judge v = if is_nullish v then lost else if is_accepted v then taken else kept (get_prop "reason" v)

-- What happens on a connection to the adapter.
judge_outcome : Outcome → Verdict
unfolding judge
judge_outcome (answered v) = judge v
judge_outcome malformed = kept (str (codes "invalid_response"))
judge_outcome timed_out = kept (str (codes "forward_timeout"))
judge_outcome (socket_error code) = kept (str (codes "socket_error:" ++ code))

-- The verdict on a forward: there is no socket path, or the path is no longer a trusted one, or the
-- outcome of the connection decides.
unfoldable pub verdict : Config → Participant → Outcome → Verdict
unfolding judge_outcome
verdict c p o =
    let socket_path = get_prop "socketPath" p.delivery in
    if truthy socket_path
    then elim (resolve_delivery_socket_path c.paths p.session_id socket_path) [
      | none ↦ kept (str (codes "untrusted_delivery_socket"))
      | some path ↦ judge_outcome o
    ]
    else kept (str (codes "no_delivery_socket"))

-- The mailbox by the verdict.
abbrev pub kept_in : Verdict → MailEntry → List MailEntry → List MailEntry
kept_in (kept reason) entry queue = queue ++ entry ∷ []
kept_in _ entry queue = queue

-- What the sender of a push is told by the verdict.
abbrev pub told_by : Verdict → Job → Option Response
told_by v (flush hash entry) = none
told_by taken (push e) = some (delivered e.from)
told_by lost (push e) = some (error internal)
told_by (kept reason) (push e) = some (queued e.from reason)

-- The answer and the verdict agree on the mailbox and on what the sender is told.
abbrev Agrees : Value → Verdict → Type 0
Agrees v w =
    ((entry : MailEntry) (queue : List MailEntry)
      → (if is_nullish v || is_accepted v then queue else queue ++ entry ∷ [])
        ≡ kept_in w entry queue)
    × ((job : Job) → told job v ≡ told_by w job)

judge-Agrees : (v : Value) → Agrees v (judge v)
unfolding judge
judge-Agrees v = elim (Bool-cases (is_nullish v)) [
  | inl n ↦ rw n (λ entry queue. refl, told_lost n)
  | inr n ↦ elim (Bool-cases (is_accepted v)) [
    | inl k ↦ rw (n, k) (λ entry queue. refl, told_taken n k)
    | inr k ↦ rw (n, k) (λ entry queue. refl, told_kept n k)
  ]
]
  where
    told_lost : is_nullish v ≡ true → (job : Job) → told job v ≡ told_by lost job
    told_lost n (push e) = rw n refl
    told_lost n (flush hash entry) = refl

    told_taken :
        is_nullish v ≡ false → is_accepted v ≡ true → (job : Job) → told job v ≡ told_by taken job
    told_taken n k (push e) = rw (n, k) refl
    told_taken n k (flush hash entry) = refl

    told_kept :
        is_nullish v ≡ false
        → is_accepted v ≡ false
        → (job : Job) → told job v ≡ told_by (kept (get_prop "reason" v)) job
    told_kept n k (push e) = rw (n, k) refl
    told_kept n k (flush hash entry) = refl

told-rejected :
    (reason : Text) (job : Job) → told job (rejected reason) ≡ told_by (kept (str reason)) job
unfolding rejected get_prop lookup is_text is_nullish ◌==◌
told-rejected reason (push e) = refl
told-rejected reason (flush hash entry) = refl

rejected-Agrees : (reason : Text) → Agrees (rejected reason) (kept (str reason))
unfolding rejected get_prop lookup is_text is_nullish ◌==◌
rejected-Agrees reason = (λ entry queue. refl, told-rejected reason)

receive-Agrees : (o : Outcome) → Agrees (receive o) (judge_outcome o)
unfolding receive judge_outcome
receive-Agrees (answered v) = judge-Agrees v
receive-Agrees malformed = rejected-Agrees (codes "invalid_response")
receive-Agrees timed_out = rejected-Agrees (codes "forward_timeout")
receive-Agrees (socket_error code) = rejected-Agrees (codes "socket_error:" ++ code)

attempt_forward-Agrees :
    (c : Config) (p : Participant) (o : Outcome) → Agrees (attempt_forward c p o) (verdict c p o)
unfolding attempt_forward dial forward verdict
attempt_forward-Agrees c p o =
    let socket_path = get_prop "socketPath" p.delivery in
    elim (Bool-cases (truthy socket_path)) [
      | inl e ↦
          elim (Option-cases (resolve_delivery_socket_path c.paths p.session_id socket_path)) [
            | inl r ↦ rw (e, r) (rejected-Agrees (codes "untrusted_delivery_socket"))
            | inr (path, r) ↦ rw (e, r) (receive-Agrees o)
          ]
      | inr e ↦ rw e (rejected-Agrees (codes "no_delivery_socket"))
    ]

-- When the forward of a chain's first job ends, its message is back at the end of its session's
-- mailbox, unless a socket is dialled and its adapter's answer accepts the message or is `null`: in
-- particular where there is no socket to dial or no trusted one, where the answer does not parse,
-- where the time runs out and where the socket fails. The sender of a push is told that it is
-- delivered, or that it is queued with the reason: the adapter's own, or the one for what went
-- wrong. On the answer `null` the message is dropped, and a push is answered by an internal error.
pub finish_delivery-verdict :
    (c : Config) (now : ℕ) (o : Outcome) (t : Text) (chain : Chain) (job : Job) (rest : List Job)
    (s : State)
    → Maps.get t s.chains ≡ some chain
    → chain.jobs ≡ job ∷ rest
    → let p = chain.participant in
      let key = key_of c p job in
      let v = verdict c p o in
      let (s', answer) = finish_delivery c now o t s in
      (queue_of key s'.mailbox ≡ kept_in v (requeued now job) (queue_of key s.mailbox))
      × (answer ≡ told_by v job)
finish_delivery-verdict c now o t chain job rest s h k =
    let p = chain.participant in
    let (mail, answer) = finish_delivery-Settles c now o t chain job rest s h k in
    let (same_mail, same_answer) = attempt_forward-Agrees c p o in
    (
      mail ∙ same_mail (requeued now job) (queue_of (key_of c p job) s.mailbox),
      answer ∙ same_answer job,
    )
