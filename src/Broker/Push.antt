-- ===== src/Broker/Push.antt =====
-- `handlePush` of broker/broker.js, up to the delivery that it waits for.
use inter_agent_bus.Base.{ℕ, Option, none, some, [], ◌∷◌, Text, codes, leb, length, if◌then◌else◌}
use inter_agent_bus.Base.Maps
use inter_agent_bus.Base.Maps.{Map}
use inter_agent_bus.Value.{Value, null, str, obj, end, get_prop, or_else, as_text}
use inter_agent_bus.Ids.{is_participant_id}
use inter_agent_bus.Broker.Types.{
  Envelope, Participant, push, State, Config, push_queued, push_failed, append_log, is_lease_valid,
  invalid_or_expired_lease, invalid_to_participant_id, invalid_message_id, invalid_message_body,
  Result, ok, err, ◌>>=◌, error, queued, failed, Reply, done, waits,
}
use inter_agent_bus.Broker.Mail.{session_hash, enqueue_mailbox}
use inter_agent_bus.Broker.Delivery.{enqueue_delivery}

-- The holder of a lease that is still valid.
unfoldable pub live_sender : ℕ → Value → State → Option Participant
live_sender now token s = elim (as_text token) [
  | none ↦ none
  | some t ↦ elim (Maps.get t s.participants) [
    | none ↦ none
    | some p ↦ if is_lease_valid now p then some p else none
  ]
]

unfoldable pub check_to : Value → Result Text
check_to (str s) = if is_participant_id s then ok s else err invalid_to_participant_id
check_to _ = err invalid_to_participant_id

unfoldable pub check_message_id : Value → Result Text
check_message_id (str []) = err invalid_message_id
check_message_id (str (c ∷ s)) =
    if leb (length (c ∷ s)) 128 then ok (c ∷ s) else err invalid_message_id
check_message_id _ = err invalid_message_id

unfoldable pub check_message_body : Value → Result Text
check_message_body (str []) = err invalid_message_body
check_message_body (str (c ∷ s)) = ok (c ∷ s)
check_message_body _ = err invalid_message_body

-- The envelope of a request, stamped with the id of the sender.
unfoldable pub make_envelope : Config → ℕ → Participant → Value → Result Envelope
make_envelope c now sender req = do
  to ← check_to (get_prop "to" req)
  let msg = or_else (get_prop "message" req) (obj end)
  id ← check_message_id (get_prop "id" msg)
  body ← check_message_body (get_prop "body" msg)
  ok (record {
    id = id;
    from = sender.participant_id;
    to = to;
    body = body;
    reply_to = or_else (get_prop "reply_to" msg) null;
    conversation_id = or_else (get_prop "conversation_id" msg) null;
    source = or_else (get_prop "source" msg) (str (codes "participant"));
    sent_at = or_else (get_prop "sent_at" msg) (str (c.iso now));
  })

-- The holder of an id, if the lease is still valid.
unfoldable pub live_recipient : ℕ → Text → State → Option Participant
live_recipient now id s = elim (Maps.get id s.participants_by_id) [
  | none ↦ none
  | some token ↦ elim (Maps.get token s.participants) [
    | none ↦ none
    | some p ↦ if is_lease_valid now p then some p else none
  ]
]

-- The recipient is offline: its mail is kept if it was seen not long ago.
unfoldable pub push_offline : Config → ℕ → Envelope → State → State × Reply
push_offline c now e s = elim (Maps.get e.to s.recent_participants) [
  | none ↦ (
    append_log (push_failed e.from e.to e.id (str (codes "no_such_participant"))) s,
    done (failed e.from (str (codes "no_such_participant"))),
  )
  | some recent ↦ (
    append_log (push_queued e.from e.to e.id (str (codes "recipient_offline")))
        (enqueue_mailbox c now (session_hash c recent.session_id) e.to e s),
    done (queued e.from (str (codes "recipient_offline"))),
  )
]

unfoldable pub push_envelope : Config → ℕ → Envelope → State → State × Reply
unfolding push_offline
push_envelope c now e s = elim (live_recipient now e.to s) [
  | none ↦ push_offline c now e s
  | some recipient ↦ (enqueue_delivery recipient (push e) s, waits)
]

unfoldable pub handle_push : Config → ℕ → Value → State → State × Reply
handle_push c now req s = elim (live_sender now (get_prop "leaseToken" req) s) [
  | none ↦ (s, done (error invalid_or_expired_lease))
  | some sender ↦ elim (make_envelope c now sender req) [
    | err e ↦ (s, done (error e))
    | ok envelope ↦ push_envelope c now envelope s
  ]
]
