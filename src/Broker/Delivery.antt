-- ===== src/Broker/Delivery.antt =====
-- Delivery in broker/broker.js: forwarding to an adapter's socket, the chain that serialises the
-- forwards of a participant, and the flush of its mailbox onto that chain.
use inter_agent_bus.Value.{end, str, field, obj, Value, get_prop, is_nullish, is_text, truthy}
use inter_agent_bus.Base.{
  List, Option, Text, [], codes, if◌then◌else◌, keep, none, some, ℕ, ◌++◌, ◌∷◌,
}
use inter_agent_bus.Base.Maps
use inter_agent_bus.Base.Maps.{Map}
use inter_agent_bus.Paths.{resolve_delivery_socket_path}
use inter_agent_bus.Broker.Types.{
  Envelope, MailEntry, Participant, Job, push, flush, Chain, State, Config, push_flushed,
  push_delivered, push_queued, append_log, Response, error, internal, delivered, queued,
}
use inter_agent_bus.Broker.Mail.{
  session_hash, queue_of, rewrite_mailbox_file, enqueue_mailbox, is_fresh,
}

-- What may happen on a connection to an adapter: its first line parses, or does not, or the time
-- runs out, or the socket fails.
pub data Outcome : Type 0 where
  answered : Value → Outcome
  malformed timed_out : Outcome
  socket_error : Text → Outcome

unfoldable pub rejected : Text → Value
rejected reason =
    obj (field (codes "status") (str (codes "rejected")) (field (codes "reason") (str reason) end))

-- What is written to the socket: the adapter's token, if it registered one, and the envelope.
pub record Frame : Type 0 where
  pub auth : Option Value
  pub envelope : Envelope

unfoldable pub deliver_frame : Participant → Envelope → Frame
deliver_frame p envelope =
    let auth = get_prop "adapterToken" p.delivery in
    record { auth = if truthy auth then some auth else none; envelope = envelope }

unfoldable pub receive : Outcome → Value
unfolding rejected
receive (answered v) = v
receive malformed = rejected (codes "invalid_response")
receive timed_out = rejected (codes "forward_timeout")
receive (socket_error code) = rejected (codes "socket_error:" ++ code)

-- What becomes of a participant's socket path, which is checked again when it is dialled.
pub data Dial : Type 0 where
  no_socket untrusted : Dial
  connect : Value → Dial

unfoldable pub dial : Config → Participant → Dial
dial c p =
    let socket_path = get_prop "socketPath" p.delivery in
    if truthy socket_path
    then elim (resolve_delivery_socket_path c.paths p.session_id socket_path) [
      | none ↦ untrusted
      | some _ ↦ connect socket_path
    ]
    else no_socket

unfoldable pub forward : Dial → Outcome → Value
forward no_socket outcome = rejected (codes "no_delivery_socket")
forward untrusted outcome = rejected (codes "untrusted_delivery_socket")
forward (connect socket_path) outcome = receive outcome

-- The result of a forward; the outcome matters only if a socket is dialled.
unfoldable pub attempt_forward : Config → Participant → Outcome → Value
unfolding forward
attempt_forward c p outcome = forward (dial c p) outcome

-- A job goes to the end of the participant's chain.
unfoldable pub enqueue_delivery : Participant → Job → State → State
enqueue_delivery p job s = record s {
  chains =
      Maps.set p.lease_token
        (elim (Maps.get p.lease_token s.chains) [
          | none ↦ record { participant = p; jobs = job ∷ [] }
          | some chain ↦ record chain { jobs = chain.jobs ++ job ∷ [] }
        ])
        s.chains;
}

unfoldable pub enqueue_entries : Participant → Text → List MailEntry → State → State
enqueue_entries p hash [] s = s
enqueue_entries p hash (e ∷ es) s = enqueue_entries p hash es (enqueue_delivery p (flush hash e) s)

unfoldable pub flush_queue : Config → ℕ → Participant → Text → List MailEntry → State → State
flush_queue c now p hash [] s = s
flush_queue c now p hash (e ∷ es) s =
    let s' = rewrite_mailbox_file c hash (record s { mailbox = Maps.delete hash s.mailbox }) in
    enqueue_entries p hash (keep (is_fresh now) (e ∷ es)) s'

-- The mailbox of a session that registers goes onto its chain, but for the entries too old.
unfoldable pub enqueue_mailbox_flush_on_register : Config → ℕ → Participant → State → State
enqueue_mailbox_flush_on_register c now p s =
    let hash = session_hash c p.session_id in flush_queue c now p hash (queue_of hash s.mailbox) s

-- What is done with the result of a forward. Where the adapter answers `null` the code throws on
-- reading its status: a flushed entry is dropped, and a push is answered by an internal error.
unfoldable pub settle : Config → ℕ → Participant → Job → Value → State → State × Option Response
settle c now p (push e) result s =
    if is_nullish result
    then (s, some (error internal))
    else if is_text "accepted" (get_prop "status" result)
    then (append_log (push_delivered e.from e.to e.id) s, some (delivered e.from))
    else let reason = get_prop "reason" result in
      (
        append_log (push_queued e.from e.to e.id reason)
            (enqueue_mailbox c now (session_hash c p.session_id) e.to e s),
        some (queued e.from reason),
      )
settle c now p (flush hash entry) result s =
    let e = entry.envelope in
    if is_nullish result
    then (s, none)
    else if is_text "accepted" (get_prop "status" result)
    then (append_log (push_flushed e.from entry.participant_id e.id) s, none)
    else (enqueue_mailbox c now hash entry.participant_id e s, none)

unfoldable pub step_chain :
    Config → ℕ → Outcome → Text → Chain → List Job → State → State × Option Response
step_chain c now outcome token chain [] s = (s, none)
step_chain c now outcome token chain (job ∷ jobs) s =
    settle c now chain.participant job (attempt_forward c chain.participant outcome)
      (record s { chains = Maps.set token (record chain { jobs = jobs }) s.chains })

-- The first job of a chain ends with this outcome; a push is answered.
unfoldable pub finish_delivery : Config → ℕ → Outcome → Text → State → State × Option Response
finish_delivery c now outcome token s = elim (Maps.get token s.chains) [
  | none ↦ (s, none)
  | some chain ↦ step_chain c now outcome token chain chain.jobs s
]
