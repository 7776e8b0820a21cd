-- ===== src/Broker/Types.antt =====
-- The broker's records and state (broker/broker.js): the in-memory maps, the mailbox files, the
-- registry file, the log, and the delivery chains that hang from the participants.
use inter_agent_bus.Base.{Bool, List, Option, Text, [], false, ltb, true, ℕ, ◌*◌, ◌++◌, ◌∷◌}
use inter_agent_bus.Base.Maps.{Map}
use inter_agent_bus.Value.{Value}
use inter_agent_bus.Paths.{PathConfig}

abbrev pub heartbeat_interval_sec : ℕ
heartbeat_interval_sec = 20

abbrev pub lease_ttl_ms : ℕ
lease_ttl_ms = 75 * 1000

abbrev pub stale_gc_after_ms : ℕ
stale_gc_after_ms = 10 * 60 * 1000

abbrev pub mailbox_ttl_ms : ℕ
mailbox_ttl_ms = 5 * 60 * 1000

pub record Envelope : Type 0 where
  pub id : Text
  pub from : Text
  pub to : Text
  pub body : Text
  pub reply_to : Value
  pub conversation_id : Value
  pub source : Value
  pub sent_at : Value

pub record MailEntry : Type 0 where
  pub participant_id : Text
  pub envelope : Envelope
  pub queued_at : ℕ

-- The field `state` is the constant `open`, and is left out.
pub record Participant : Type 0 where
  pub participant_id : Text
  pub kind : Text
  pub session_id : Text
  pub display_name : Option Text
  pub description : Option Text
  pub project : Value
  pub cwd : Value
  pub capabilities : Value
  pub delivery : Value
  pub registered_at : ℕ
  pub last_heartbeat : ℕ
  pub lease_expires_at : ℕ
  pub lease_token : Text

pub record Recent : Type 0 where
  pub session_id : Text
  pub kind : Text
  pub last_seen_at : ℕ

-- An entry of `list_participants`.
pub record Listed : Type 0 where
  pub participant_id : Text
  pub kind : Text
  pub display_name : Option Text
  pub description : Option Text
  pub project : Value
  pub cwd : Value
  pub capabilities : Value
  pub last_heartbeat : ℕ
  pub adapter : Value

-- An entry of registry.json.
pub record Snapshot : Type 0 where
  pub shown : Listed
  pub registered_at : ℕ
  pub lease_expires_at : ℕ

-- The messages that may be logged.
pub data LogEvent : Type 0 where
  reclaim_refused gc_expire unregister : Text → LogEvent
  register : (reclaimed : Bool) (participant_id kind : Text) → Value → Option Text → LogEvent
  push_flushed push_delivered : (from to message_id : Text) → LogEvent
  push_queued push_failed : (from to message_id : Text) → Value → LogEvent

-- What waits on a participant's delivery chain: a live push, or an entry of its flushed mailbox
-- with the mailbox's key.
pub data Job : Type 0 where
  push : Envelope → Job
  flush : Text → MailEntry → Job

-- A delivery chain with the participant whose socket it writes to.
pub record Chain : Type 0 where
  pub participant : Participant
  pub jobs : List Job

pub record State : Type 0 where
  pub participants : Map Participant
  pub participants_by_id : Map Text
  pub recent_participants : Map Recent
  pub mailbox : Map (List MailEntry)
  pub mailbox_files : Map Text
  pub registry : List Snapshot
  pub log : List LogEvent
  pub chains : Map Chain

-- What the broker takes from its environment: the socket settings, SHA-256 in hexadecimal digits,
-- the ISO form of a time, and `JSON.stringify` and `JSON.parse` on the entries of a mailbox file.
pub record Config : Type 0 where
  pub paths : PathConfig
  pub sha256 : Text → Text
  pub iso : ℕ → Text
  pub stringify : MailEntry → Text
  pub parse : Text → Option MailEntry

pub data Error : Type 0 where
  invalid_kind invalid_session_id invalid_display_name display_name_too_long : Error
  invalid_description description_too_long invalid_delivery_socket_path : Error
  invalid_adapter_token kind_mismatch_for_session_id session_lease_active : Error
  participant_id_in_use invalid_lease lease_expired invalid_or_expired_lease : Error
  invalid_to_participant_id invalid_message_id invalid_message_body unknown_type : Error
  internal : Error

-- A check that may refuse a request.
pub data Result {κ} (X : Type κ) : Type κ where
  err : Error → Result X
  ok : X → Result X

abbrev pub guard : Bool → Error → Result (Unit {0})
guard false refusal = err refusal
guard true refusal = ok tt

infixl 5 ◌>>=◌ ◌>>◌
abbrev pub ◌>>=◌ {κ ℓ} : {X : Type κ} {Y : Type ℓ} → Result X → (X → Result Y) → Result Y
err refusal >>= next = err refusal
ok x >>= next = next x

abbrev pub ◌>>◌ {κ} : {Y : Type κ} → Result (Unit {0}) → Result Y → Result Y
check >> rest = check >>= λ passed. rest

pub data Response : Type 0 where
  error : Error → Response
  registered :
      (participant_id lease_token : Text) (lease_expires_at heartbeat_sec : ℕ) (reclaimed : Bool)
      → Response
  renewed : (lease_expires_at : ℕ) → Response
  listed : List Listed → Response
  delivered : (from : Text) → Response
  queued failed : (from : Text) → Value → Response
  unregistered : Response

-- A handler answers at once, or waits for a delivery.
pub data Reply : Type 0 where
  done : Response → Reply
  waits : Reply

unfoldable pub is_lease_valid : ℕ → Participant → Bool
is_lease_valid now p = ltb now p.lease_expires_at

abbrev pub append_log : LogEvent → State → State
append_log e s = record s { log = s.log ++ e ∷ [] }
