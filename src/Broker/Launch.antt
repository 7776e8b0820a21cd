-- ===== src/Broker/Launch.antt =====
-- `main` of broker/broker.js: a broker that is launched reads the mailbox files, and gives way to
-- another one that answers at the socket.
pub mod Refused
mod Tests
use inter_agent_bus.Base.{ℕ, Bool, true, false, Option, none, some, Text, if◌then◌else◌}
use inter_agent_bus.Broker.{start}
use inter_agent_bus.Broker.Types.{State, Config}

-- What a connection to the socket comes to.
pub data Dialled : Type 0 where
  connects times_out : Dialled
  fails : Text → Dialled

pub data Probe : Type 0 where
  alive not_present probe_timeout : Probe
  connect_error : Text → Probe

-- `probeExistingBroker`; `exists` says whether the socket's file is there.
unfoldable pub probe_existing_broker : Bool → Dialled → Probe
probe_existing_broker false dialled = not_present
probe_existing_broker true connects = alive
probe_existing_broker true times_out = probe_timeout
probe_existing_broker true (fails code) = connect_error code

-- How `main` ends: it listens, or exits with the code 2 or with 1.
pub data Launched : Type 0 where
  listening another_is_live cannot_unlink server_error : Launched

listen : Bool → Launched
listen true = listening
listen false = server_error

-- The socket's file is there, and was probed.
take_over : Probe → Bool → Bool → Launched
unfolding listen
take_over alive unlinks listens = another_is_live
take_over _ false listens = cannot_unlink
take_over _ true listens = listen listens

-- `main`. The files are read, and written again, before the socket is looked at.
unfoldable pub main : Config → ℕ → Bool → Dialled → Bool → Bool → State → State × Launched
unfolding listen take_over
main c now exists dialled unlinks listens s = (
  start c now s,
  if exists
      then take_over (probe_existing_broker exists dialled) unlinks listens
      else listen listens,
)

-- A broker whose mailbox files another one has changed.
abbrev pub beside : State → State → State
beside live other = record live { mailbox_files = other.mailbox_files }
