-- ===== src/Handover.antt =====
-- A delivery from the broker to a sidecar: what broker/broker.js writes on the delivery socket, what
-- `handleRequest` of the sidecars makes of it, and what the broker reads back. What is written is
-- read back as the value it was, as `JSON.parse` does with what `JSON.stringify` makes of texts,
-- objects and `null`.
pub mod Typed
pub mod Registered
pub mod Profiled
mod Tests
use inter_agent_bus.Base.{ℕ, Option, none, some, Text, codes, ◌++◌}
use inter_agent_bus.Value.{Value, obj, field, end, str}
use inter_agent_bus.Broker.Types.{Envelope, Participant, Job, push, flush}
use inter_agent_bus.Broker.Delivery.{Frame, Outcome, answered, timed_out, deliver_frame}
use inter_agent_bus.Sidecar.Requests.{
  Sidecar, WriteError, Answer, accepted, rejected, no_answer, sends, returned, Reason, unauthorized,
  missing_id, missing_body, duplicate, not_registered, missing_to, unknown_type, write_error,
  send_error, handle_request,
}

-- An envelope as it stands in a frame.
unfoldable pub envelope_value : Envelope → Value
envelope_value e = obj (
    field (codes "id") (str e.id) (
      field (codes "from") (str e.from) (
        field (codes "to") (str e.to) (
          field (codes "body") (str e.body) (
            field (codes "reply_to") e.reply_to (
              field (codes "conversation_id") e.conversation_id
                (field (codes "source") e.source (field (codes "sent_at") e.sent_at end))))))))

-- `auth ? { type: 'deliver', auth, envelope } : { type: 'deliver', envelope }`
unfoldable pub frame_value : Frame → Value
frame_value f = elim f.auth [
  | none ↦ obj (
      field (codes "type") (str (codes "deliver"))
        (field (codes "envelope") (envelope_value f.envelope) end))
  | some auth ↦ obj (
      field (codes "type") (str (codes "deliver"))
        (field (codes "auth") auth (field (codes "envelope") (envelope_value f.envelope) end)))
]

unfoldable pub reason_text : Reason → Text
reason_text unauthorized = codes "unauthorized"
reason_text missing_id = codes "missing_id"
reason_text missing_body = codes "missing_body"
reason_text duplicate = codes "duplicate"
reason_text not_registered = codes "not_registered"
reason_text missing_to = codes "missing_to"
reason_text unknown_type = codes "unknown_type"
reason_text (write_error message) = codes "write_error:" ++ message
reason_text (send_error message) = codes "send_error:" ++ message

-- What the sidecar writes for an answer, if anything.
unfoldable pub answer_value : Answer → Option Value
answer_value accepted = some (obj (field (codes "status") (str (codes "accepted")) end))
answer_value (rejected reason) = some (
    obj (
      field (codes "status") (str (codes "rejected"))
        (field (codes "reason") (str (reason_text reason)) end)))
answer_value no_answer = none
answer_value (sends request) = none
answer_value (returned response) = some response

-- What the broker reads; where nothing is written its time runs out.
unfoldable pub outcome_of : Option Value → Outcome
outcome_of none = timed_out
outcome_of (some v) = answered v

abbrev pub envelope_of : Job → Envelope
envelope_of (push e) = e
envelope_of (flush hash entry) = entry.envelope

-- A participant's sidecar is handed an envelope.
unfoldable pub hand_over :
    (Value → Text)
    → ℕ
    → Text
    → Text
    → Option WriteError
    → Participant
    → Envelope
    → Sidecar
    → Sidecar × Outcome
hand_over string_of now fresh sent_at failure p e sidecar =
    let (sidecar', answer) =
      handle_request string_of now fresh sent_at failure (frame_value (deliver_frame p e))
        sidecar in
    (sidecar', outcome_of (answer_value answer))
