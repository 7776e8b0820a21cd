-- ===== src/Client.antt =====
-- client/client.js: the requests that a client writes, how the answers settle the calls that wait,
-- and how long it waits before it connects again.
pub mod Calls
pub mod Backoff
pub mod Send
pub mod Lifecycle
mod Tests
use inter_agent_bus.Base.{
  ℕ, ◌*◌, ◌^◌, Bool, true, false, Option, none, some, List, [], ◌∷◌, ◌++◌, Text, String, codes, min,
  ltb, if◌then◌else◌,
}
use inter_agent_bus.Value.{
  Value, undefined, null, str, obj, field, end, Fields, get_prop, or_else, is_text, is_nullish,
  truthy,
}
use inter_agent_bus.Framing.{Cuts, on_chunk}

abbrev pub reconnect_base_ms : ℕ
reconnect_base_ms = 200

abbrev pub reconnect_cap_ms : ℕ
reconnect_cap_ms = 5000

-- What `send` may be told beside the recipient and the body.
pub record Options : Type 0 where
  pub id : Value
  pub reply_to : Value
  pub conversation_id : Value
  pub source : Value

-- The message of `send`; `fresh` is the id that is generated where none is given.
unfoldable pub message_of : Options → Text → Value → Text → Value
message_of o fresh body sent_at = obj (
    field (codes "id") (or_else o.id (str fresh)) (
      field (codes "body") body (
        field (codes "reply_to") (or_else o.reply_to null) (
          field (codes "conversation_id") (or_else o.conversation_id null) (
            field (codes "source") (or_else o.source (str (codes "participant")))
              (field (codes "sent_at") (str sent_at) end))))))

-- What `send` writes.
unfoldable pub send_request : Value → Value → Value → Value
send_request lease_token to message = obj (
    field (codes "type") (str (codes "push_message")) (
      field (codes "to") to
        (field (codes "leaseToken") lease_token (field (codes "message") message end))))

unfoldable pub register_request : Value → Value
register_request participant = obj (
    field (codes "type") (str (codes "register_participant"))
      (field (codes "participant") participant end))

-- How a call ends.
pub data Settled : Type 0 where
  resolved : Value → Settled
  refused : Value → Settled
  invalid_response broker_disconnected not_connected : Settled

-- The calls that wait for an answer, by their numbers, oldest first, and those that are settled.
-- `down` says that the data handler has thrown, which ends the program.
pub record Session : Type 0 where
  pub buffer : Text
  pub pending : List ℕ
  pub settled : List (ℕ × Settled)
  pub down : Bool

-- `_send`: the call waits, or fails at once if there is no connection.
unfoldable pub call : Bool → ℕ → Session → Session
call connected n s =
    if connected
    then record s { pending = s.pending ++ n ∷ [] }
    else record s { settled = s.settled ++ (n, not_connected) ∷ [] }

-- The broker's answer to one call, `response.error || 'broker_error'` of a refusal.
unfoldable pub settle_call : Value → Settled
settle_call response =
    if is_text "error" (get_prop "status" response)
    then refused (or_else (get_prop "error" response) (str (codes "broker_error")))
    else resolved response

-- One line against the call that waits longest. On the answer `null` reading the status throws,
-- with the call taken off the queue and never settled.
settle_parsed : Option Value → ℕ → List ℕ → Session → Session
settle_parsed none n calls s = record s {
  pending = calls;
  settled = s.settled ++ (n, invalid_response) ∷ [];
}
settle_parsed (some response) n calls s =
    if is_nullish response
    then record s { pending = calls; down = true }
    else record s { pending = calls; settled = s.settled ++ (n, settle_call response) ∷ [] }

-- A line with no call that waits is skipped.
settle_next : Option Value → List ℕ → Session → Session
unfolding settle_parsed
settle_next parsed [] s = s
settle_next parsed (n ∷ calls) s = settle_parsed parsed n calls s

unfoldable pub on_line : (Text → Option Value) → Text → Session → Session
unfolding settle_next
on_line parse line s = if s.down then s else settle_next (parse line) s.pending s

unfoldable pub on_lines : (Text → Option Value) → List Text → Session → Session
on_lines parse [] s = s
on_lines parse (line ∷ lines) s = on_lines parse lines (on_line parse line s)

-- `_onData`, at a chunk of bytes.
unfoldable pub on_data : (Text → Option Value) → List ℕ → Session → Session
on_data parse chunk s =
    let cuts = on_chunk chunk s.buffer in
    on_lines parse cuts.lines (record s { buffer = cuts.buffer })

-- The connection is gone: every call that waits fails.
unfoldable pub fail_all : List ℕ → List (ℕ × Settled)
fail_all [] = []
fail_all (n ∷ calls) = (n, broker_disconnected) ∷ fail_all calls

unfoldable pub on_close : Session → Session
on_close s = record s { pending = []; settled = s.settled ++ fail_all s.pending }

-- `Math.min(RECONNECT_BASE_MS * Math.pow(2, attempts), RECONNECT_CAP_MS)`
unfoldable pub reconnect_delay : ℕ → ℕ
reconnect_delay attempts = min (reconnect_base_ms * 2 ^ attempts) reconnect_cap_ms
