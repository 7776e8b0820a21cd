-- ===== src/Sidecar/Start/Tests.antt =====
-- A start that the broker refuses.
use inter_agent_bus.Sockets.{SameElsewhere}
use inter_agent_bus.Sidecar.Start.{Setup, Running, Calls, written, no_function, refused, start}
use inter_agent_bus.Client.Lifecycle.{closes}
use inter_agent_bus.Base.{none, [], ◌∷◌, refl, codes, any}
use inter_agent_bus.Client.Lifecycle.Closing.{is_registration}
use inter_agent_bus.Value.{null}
use inter_agent_bus.Sidecar.Start.Up.{Ends, start_error}
use inter_agent_bus.Sidecar.Start.Outcome.{start-Ends}

abbrev setup : Setup
setup = record {
  kind = codes "claude";
  session_id = codes "s1";
  project = null;
  cwd = null;
  socket_dir = codes "/run";
  adapter_token = codes "0123456789abcdef";
}

-- An earlier run has left its socket.
abbrev left_over : Running
left_over = record {
  server = none;
  client = none;
  files = (codes "/run/s1.sock", []) ∷ [];
  given_up = [];
}

abbrev refusal : Calls
refusal = record {
  mkdir = none;
  listen = none;
  token = written;
  registration_profile = no_function;
  registering = refused (codes "session_lease_active");
  goodbye = closes ∷ [];
}

start-Ends_example :
    Ends setup refusal.registering (start_error refusal) (start setup refusal left_over)
    × SameElsewhere
        (codes "/run")
        (codes "s1")
        left_over.files
        (start setup refusal left_over).0.files
unfolding any is_registration
start-Ends_example = start-Ends setup refusal left_over refl refl tt refl
