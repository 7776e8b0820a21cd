-- ===== src/Client/Send.antt =====
-- What a client sends, the broker takes.
use inter_agent_bus.Base.{
  ℕ, ◌<◌, ◌≤◌, true, some, [], ◌∷◌, ◌≡◌, refl, Text, codes, ◌==◌, length, arith, le→leb,
}
use inter_agent_bus.Base.Maps
use inter_agent_bus.Value.{Value, null, str, obj, end, get_prop, lookup, or_else, truthy, as_text}
use inter_agent_bus.Ids.{is_participant_id}
use inter_agent_bus.Broker.Types.{State, Config, Participant, Envelope, is_lease_valid, ok}
use inter_agent_bus.Broker.Push.{
  live_sender, check_to, check_message_id, check_message_body, make_envelope, push_envelope,
  handle_push,
}
use inter_agent_bus.Client.{Options, message_of, send_request}

or_else_twice : (v w : Value) → or_else (or_else v w) w ≡ or_else v w
unfolding or_else
or_else_twice v w = ground arith

-- The envelope that is meant.
abbrev pub sent_envelope : Participant → Text → Text → Text → Options → Text → Envelope
sent_envelope p id to body o sent_at = record {
  id = id;
  from = p.participant_id;
  to = to;
  body = body;
  reply_to = or_else o.reply_to null;
  conversation_id = or_else o.conversation_id null;
  source = or_else o.source (str (codes "participant"));
  sent_at = str sent_at;
}

check_to-named : (to : Text) → is_participant_id to ≡ true → check_to (str to) ≡ ok to
unfolding check_to
check_to-named to h = rw h refl

check_message_id-fits :
    (id : Text) → 0 < length id → length id ≤ 128 → check_message_id (str id) ≡ ok id
unfolding check_message_id
check_message_id-fits [] h k = absurd (omega arith)
check_message_id-fits (c ∷ id) h k = rw (le→leb (length (c ∷ id)) 128 k) refl

check_message_body-solid : (body : Text) → 0 < length body → check_message_body (str body) ≡ ok body
unfolding check_message_body
check_message_body-solid [] h = absurd (omega arith)
check_message_body-solid (c ∷ body) h = refl

or_else-solid : (t : Text) (v : Value) → 0 < length t → or_else (str t) v ≡ str t
unfolding or_else truthy
or_else-solid [] v h = absurd (omega arith)
or_else-solid (c ∷ t) v h = refl

module _ (o : Options) (fresh body sent_at : Text) (lease to : Value) where
  abbrev message : Value
  message = message_of o fresh (str body) sent_at

  request-fields :
      (get_prop "to" (send_request lease to message) ≡ to)
      × (get_prop "leaseToken" (send_request lease to message) ≡ lease)
      × (or_else (get_prop "message" (send_request lease to message)) (obj end) ≡ message)
  unfolding send_request message_of get_prop lookup ◌==◌ or_else truthy
  request-fields = (refl, refl, refl)

  message-fields :
      (get_prop "id" message ≡ or_else o.id (str fresh))
      × (get_prop "body" message ≡ str body)
      × (get_prop "reply_to" message ≡ or_else o.reply_to null)
      × (get_prop "conversation_id" message ≡ or_else o.conversation_id null)
      × (get_prop "source" message ≡ or_else o.source (str (codes "participant")))
      × (get_prop "sent_at" message ≡ str sent_at)
  unfolding message_of get_prop lookup ◌==◌
  message-fields = (refl, refl, refl, refl, refl, refl)

make_envelope-send :
    (c : Config) (now : ℕ) (p : Participant) (lease : Value) (to id body sent_at fresh : Text)
    (o : Options)
    → is_participant_id to ≡ true
    → or_else o.id (str fresh) ≡ str id
    → 0 < length id
    → length id ≤ 128
    → 0 < length body
    → 0 < length sent_at
    → make_envelope c now p (send_request lease (str to) (message_of o fresh (str body) sent_at))
      ≡ ok (sent_envelope p id to body o sent_at)
unfolding make_envelope
make_envelope-send c now p lease to id body sent_at fresh o h named low high solid timed =
    let (e_to, e_lease, e_message) = request-fields o fresh body sent_at lease (str to) in
    let (e_id, e_body, e_reply, e_conversation, e_source, e_sent) =
      message-fields o fresh body sent_at lease (str to) in
    rw
      (
        e_to,
        check_to-named to h,
        e_message,
        e_id,
        named,
        check_message_id-fits id low high,
        e_body,
        check_message_body-solid body solid,
        e_reply,
        e_conversation,
        e_source,
        e_sent,
        or_else_twice o.reply_to null,
        or_else_twice o.conversation_id null,
        or_else_twice o.source (str (codes "participant")),
        or_else-solid sent_at (str (c.iso now)) timed,
      )
      refl

live_sender-lease :
    (now : ℕ) (lease : Text) (s : State) (p : Participant)
    → Maps.get lease s.participants ≡ some p
    → is_lease_valid now p ≡ true
    → live_sender now (str lease) s ≡ some p
unfolding live_sender as_text
live_sender-lease now lease s p h k = ground arith

-- With a lease that is in force, the broker takes what a client sends: for the id of a participant,
-- a body that is not empty and a message id of at most 128 characters, given or generated, it
-- pushes the envelope with the client's fields and the participant's own id as the sender.
pub handle_push-send :
    (c : Config) (now : ℕ) (s : State) (p : Participant) (lease to id body sent_at fresh : Text)
    (o : Options)
    → Maps.get lease s.participants ≡ some p
    → is_lease_valid now p ≡ true
    → is_participant_id to ≡ true
    → or_else o.id (str fresh) ≡ str id
    → 0 < length id
    → length id ≤ 128
    → 0 < length body
    → 0 < length sent_at
    → handle_push c now
        (send_request (str lease) (str to) (message_of o fresh (str body) sent_at))
        s
      ≡ push_envelope c now (sent_envelope p id to body o sent_at) s
unfolding handle_push
handle_push-send c now s p lease to id body sent_at fresh o here live h named low high solid timed =
    let (_, e_lease, _) = request-fields o fresh body sent_at (str lease) (str to) in
    rw
      (
        e_lease,
        live_sender-lease now lease s p here live,
        make_envelope-send c now p (str lease) to id body sent_at fresh o h named low high solid
            timed,
        handle_push,
      )
      refl
