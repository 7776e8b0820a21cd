-- ===== src/Sidecar/Requests.antt =====
-- The requests on a sidecar's delivery socket: `handleRequest`, with what is typed into the
-- terminal and the Enter that submits it a moment later.
pub mod Authority
pub mod Memory
pub mod Once
pub mod Turns
use inter_agent_bus.Base.{
  ℕ, ◌+◌, Bool, true, false, not, ◌&&◌, Option, none, some, List, [], ◌∷◌, ◌++◌, Text, codes, take,
  leb, if◌then◌else◌, length,
}
use inter_agent_bus.Value.{
  Value, str, undefined, obj, end, get_prop, or_else, is_text, is_nullish, truthy, as_text,
}
use inter_agent_bus.Auth.{timing_safe_equal_str}
use inter_agent_bus.Sidecar.Tty.{to_string}
use inter_agent_bus.Client.{
  Settled, resolved, refused, invalid_response, broker_disconnected, not_connected, Options,
  message_of, send_request,
}
use inter_agent_bus.Sidecar.Render.{render_envelope}
use inter_agent_bus.Sidecar.Seen.{seen_before}

abbrev pub submit_delay_ms : ℕ
submit_delay_ms = 80

abbrev pub enter : ℕ
enter = 13

-- Why a request is rejected; an exception's message stands behind a write or a send that fails.
pub data Reason : Type 0 where
  unauthorized missing_id missing_body duplicate not_registered missing_to unknown_type : Reason
  write_error send_error : Text → Reason

-- `no_answer` is for the request `null`, on whose type the handler throws: nothing is written.
-- `sends` is for a request that waits for the client.
pub data Answer : Type 0 where
  rejected : Reason → Answer
  accepted no_answer : Answer
  sends returned : Value → Answer

-- A sidecar that runs: its token, the lease of its client once it is registered, the ids it has
-- accepted, what has been written to the terminal, and the times at which an Enter is due, the
-- first to come at the head.
pub record Sidecar : Type 0 where
  pub adapter_token : Text
  pub lease : Option Value
  pub recent_ids : List Text
  pub typed : Text
  pub due : List ℕ

-- A write that throws: at which character, with which message.
pub record WriteError : Type 0 where
  pub at : ℕ
  pub message : Text

type_rendered : ℕ → Option WriteError → Text → Sidecar → Sidecar × Answer
type_rendered now none rendered s = (
  record s { typed = s.typed ++ rendered; due = s.due ++ (now + submit_delay_ms) ∷ [] },
  accepted,
)
type_rendered now (some e) rendered s =
    (record s { typed = s.typed ++ take e.at rendered }, rejected (write_error e.message))

pub type_if_new :
    (Value → Text) → ℕ → Option WriteError → Value → Bool × List Text → Sidecar → Sidecar × Answer
unfolding type_rendered
type_if_new string_of now failure env (true, ids) s =
    (record s { recent_ids = ids }, rejected duplicate)
type_if_new string_of now failure env (false, ids) s =
    type_rendered now failure (render_envelope string_of env) (record s { recent_ids = ids })

-- The envelope's id and body.
deliver_checked :
    (Value → Text) → ℕ → Option WriteError → Value → Value → Value → Sidecar → Sidecar × Answer
unfolding type_if_new
deliver_checked string_of now failure env (str []) body s = (s, rejected missing_id)
deliver_checked string_of now failure env (str (c ∷ id)) (str body) s =
    type_if_new string_of now failure env (seen_before (c ∷ id) s.recent_ids) s
deliver_checked string_of now failure env (str (c ∷ id)) body s = (s, rejected missing_body)
deliver_checked string_of now failure env id body s = (s, rejected missing_id)

deliver : (Value → Text) → ℕ → Option WriteError → Value → Sidecar → Sidecar × Answer
unfolding deliver_checked
deliver string_of now failure req s =
    let env = get_prop "envelope" req in
    if timing_safe_equal_str (get_prop "auth" req) (str s.adapter_token)
    then deliver_checked string_of now failure env (get_prop "id" env) (get_prop "body" env) s
    else (s, rejected unauthorized)

-- What the client is told to send, with the id that it may generate and the time.
send_checked : Text → Text → Value → Value → Value → Value → Answer
send_checked fresh sent_at lease req (str (c ∷ to)) (str (d ∷ body)) =
    let o : Options = record {
      id = get_prop "id" req;
      reply_to = get_prop "reply_to" req;
      conversation_id = get_prop "conversation_id" req;
      source = or_else (get_prop "source" req) (str (codes "participant"));
    } in
    sends (send_request lease (str (c ∷ to)) (message_of o fresh (str (d ∷ body)) sent_at))
send_checked fresh sent_at lease req (str (c ∷ to)) body = rejected missing_body
send_checked fresh sent_at lease req to body = rejected missing_to

send : Text → Text → Value → Sidecar → Sidecar × Answer
unfolding send_checked
send fresh sent_at req s =
    if timing_safe_equal_str (get_prop "auth" req) (str s.adapter_token)
    then elim s.lease [
      | none ↦ (s, rejected not_registered)
      | some lease ↦
          (s, send_checked fresh sent_at lease req (get_prop "to" req) (get_prop "body" req))
    ]
    else (s, rejected unauthorized)

-- The answer when the client's call has ended.
unfoldable pub finish_send : (Value → Text) → Settled → Answer
finish_send string_of (resolved response) = returned response
finish_send string_of (refused error) = rejected (send_error (to_string string_of error))
finish_send string_of invalid_response = rejected (send_error (codes "invalid_response"))
finish_send string_of broker_disconnected = rejected (send_error (codes "broker_disconnected"))
finish_send string_of not_connected = rejected (send_error (codes "not_connected"))

unfoldable pub handle_request :
    (Value → Text) → ℕ → Text → Text → Option WriteError → Value → Sidecar → Sidecar × Answer
unfolding deliver send
handle_request string_of now fresh sent_at failure req s =
    let type = get_prop "type" req in
    if is_nullish req
    then (s, no_answer)
    else if is_text "deliver" type && truthy (get_prop "envelope" req)
    then deliver string_of now failure req s
    else if is_text "send" type
    then send fresh sent_at req s
    else (s, rejected unknown_type)

-- Time passes up to `now`: an Enter is written for each that is due.
press : ℕ → List ℕ → Text × List ℕ
press now [] = ([], [])
press now (t ∷ ts) =
    let (keys, later) = press now ts in if leb t now then (enter ∷ keys, later) else ([], t ∷ ts)

unfoldable pub elapse : ℕ → Sidecar → Sidecar
unfolding press
elapse now s =
    let (keys, later) = press now s.due in record s { typed = s.typed ++ keys; due = later }
