-- ===== src/Handover/Tests.antt =====
-- The handover of one message to a sidecar that can type it.
use inter_agent_bus.Strings.{is_space, collapse}
use inter_agent_bus.Strings.Runs.{strip, squeeze}
use inter_agent_bus.Ids.{
  not_slug, lower_case, is_dash, slug, normalize_named_participant_id, is_handle, is_slug,
}
use inter_agent_bus.Broker.Types.{
  invalid_display_name, err, Config, State, Participant, Envelope, Chain, push,
}
use inter_agent_bus.Value.{lookup, truthy, get_prop, Value, null, str, obj, field, end, arr, nil}
use inter_agent_bus.Paths.{includes, resolve_delivery_socket_path}
use inter_agent_bus.Sidecar.Start.{Setup, participant}
use inter_agent_bus.Base.{
  false, has_code, ◌==◌, true, none, [], ◌∷◌, ◌++◌, ◌≡◌, refl, Text, codes, if◌then◌else◌, arith,
}
use inter_agent_bus.Broker.Delivery.{dial, finish_delivery}
use inter_agent_bus.Strings.Split.{split_on}
use inter_agent_bus.Base.Maps
use inter_agent_bus.Broker.{empty}
use inter_agent_bus.Broker.Mail.{queue_of}
use inter_agent_bus.Broker.Settled.{key_of, requeued}
use inter_agent_bus.Sidecar.Render.{render_envelope}
use inter_agent_bus.Sidecar.Requests.{Sidecar, rejected, duplicate}
use inter_agent_bus.Sidecar.Requests.Authority.{written_part}
use inter_agent_bus.Handover.{envelope_value, answer_value, outcome_of, hand_over}
use inter_agent_bus.Wrapper.{normalize_registration_field}
use inter_agent_bus.Wrapper.Field.{read_field}
use inter_agent_bus.Handover.Profiled.{kept_profile, decided}
use inter_agent_bus.Handover.Typed.{IsReady, told_of, is_none, finish_delivery-typed}

abbrev config : Config
config = record {
  paths = record {
    cwd = codes "/";
    adapter_sockets_dir = codes "/run";
    allow_unbound_delivery_socket = true;
  };
  sha256 = λ s. s;
  iso = λ n. codes "now";
  stringify = λ e. e.envelope.id;
  parse = λ line. none;
}

abbrev bob : Participant
bob = record {
  participant_id = codes "bob";
  kind = codes "claude";
  session_id = codes "sb";
  display_name = none;
  description = none;
  project = null;
  cwd = null;
  capabilities = arr nil;
  delivery = obj (
      field (codes "adapterToken") (str (codes "k"))
        (field (codes "socketPath") (str (codes "/s")) end));
  registered_at = 0;
  last_heartbeat = 0;
  lease_expires_at = 100;
  lease_token = codes "tb";
}

abbrev letter : Envelope
letter = record {
  id = codes "m1";
  from = codes "alice";
  to = codes "bob";
  body = codes "hello";
  reply_to = null;
  conversation_id = null;
  source = null;
  sent_at = null;
}

abbrev bobs_chain : Chain
bobs_chain = record { participant = bob; jobs = push letter ∷ [] }

abbrev broker : State
broker = record empty { chains = (codes "tb", bobs_chain) ∷ [] }

abbrev sidecar : Sidecar
sidecar = record { adapter_token = codes "k"; lease = none; recent_ids = []; typed = []; due = [] }

abbrev string_of : Value → Text
string_of v = codes "?"

letter-IsReady : IsReady config bob letter sidecar
unfolding dial truthy get_prop lookup ◌==◌ resolve_delivery_socket_path has_code includes split_on
letter-IsReady = record {
  path = str (codes "/s");
  dials = refl;
  token = refl;
  some_token = omega arith;
  ascii = (omega arith, tt);
  some_id = omega arith;
  is_new = refl;
}

finish_delivery-typed_example :
    let (s', outcome) = hand_over string_of 5 [] [] none bob letter sidecar in
    let (b', response) = finish_delivery config 6 outcome (codes "tb") broker in
    let key = key_of config bob (push letter) in
    (s'.typed ≡ [] ++ written_part none (render_envelope string_of (envelope_value letter)))
    × (queue_of key b'.mailbox ≡ (
        if is_none none
        then queue_of key broker.mailbox
        else queue_of key broker.mailbox ++ requeued 6 (push letter) ∷ []))
    × (response ≡ told_of none (push letter))
    × (hand_over string_of 5 [] [] none bob letter s'
        ≡ (s', outcome_of (answer_value (rejected duplicate))))
unfolding Maps.get ◌==◌
finish_delivery-typed_example =
    finish_delivery-typed string_of 5 6 [] [] none config (codes "tb") bobs_chain (push letter) []
      broker sidecar refl refl letter-IsReady

abbrev setup : Setup
setup = record {
  kind = codes "claude";
  session_id = codes "s1";
  project = null;
  cwd = null;
  socket_dir = codes "/run";
  adapter_token = codes "0123456789abcdef";
}

abbrev bound_config : Config
bound_config = record config {
  paths = record {
    cwd = codes "/";
    adapter_sockets_dir = codes "/run";
    allow_unbound_delivery_socket = false;
  };
}

-- The wrapper keeps a name that has no handle in it; the broker refuses it.
unnamed :
    decided setup (kept_profile (str (codes "!!!")) null) (
      normalize_named_participant_id
        (read_field (kept_profile (str (codes "!!!")) null).display_name))
    ≡ err invalid_display_name
unfolding normalize_named_participant_id normalize_registration_field slug collapse strip squeeze
    is_space is_handle lower_case not_slug is_slug is_dash
unnamed = refl
