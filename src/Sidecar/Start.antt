-- ===== src/Sidecar/Start.antt =====
-- `startSidecar` of the sidecars: where the delivery socket stands, and `start`, `stop` and
-- `cleanupStartedResources`, which take and give back the server, its socket file, the token file
-- and the client. Each is run to its end, with what its calls of the system come to as an argument.
pub mod Down
pub mod Up
pub mod Outcome
mod Tests
use inter_agent_bus.Base.{
  ℕ, Bool, true, false, Option, none, some, List, [], ◌∷◌, ◌++◌, Text, codes, if◌then◌else◌,
}
use inter_agent_bus.Base.Maps
use inter_agent_bus.Base.Maps.{Map}
use inter_agent_bus.Value.{Value, null, undefined, str, obj, field, end, get_prop, or_else}
use inter_agent_bus.Paths.{join}
use inter_agent_bus.Auth.{write_token}
use inter_agent_bus.Sockets.{first_dir, socket_path_for, clear_session}
use inter_agent_bus.Client.Lifecycle
use inter_agent_bus.Client.Lifecycle.{
  Life, Event, registers, unregisters, connects, answers, closes, new,
}

-- `resolveSocketDir`, with the option, the environment's directory and the home directory.
unfoldable pub resolve_socket_dir : Option Text → Option Text → Text → Text
resolve_socket_dir explicit env home =
    first_dir explicit env (join (join home (codes ".agent-bus")) (codes "adapter-sockets"))

-- What a sidecar is started with. `kind` is that of its adapter, `claude` or `codex`; the directory
-- is an absolute path.
pub record Setup : Type 0 where
  pub kind : Text
  pub session_id : Text
  pub project : Value
  pub cwd : Value
  pub socket_dir : Text
  pub adapter_token : Text

-- `startSidecar`; `none` is for the exception. `is_function` says whether `write` is a function.
unfoldable pub start_sidecar : Text → Bool → Value → Value → Value → Text → Text → Option Setup
start_sidecar kind true (str (c ∷ session_id)) project cwd socket_dir token = some (record {
  kind = kind;
  session_id = c ∷ session_id;
  project = project;
  cwd = cwd;
  socket_dir = socket_dir;
  adapter_token = token;
})
start_sidecar kind is_function session_id project cwd socket_dir token = none

abbrev pub socket_path : Setup → Text
socket_path u = socket_path_for u.socket_dir u.session_id

-- The server, if there is one, with whether it listens; the client; the files by their paths, where
-- a socket has no text; and the clients that it has given up, which live on their own timers.
pub record Running : Type 0 where
  pub server : Option Bool
  pub client : Option Life
  pub files : Map Text
  pub given_up : List Life

-- What the write of the token file comes to. One that fails after the file is opened leaves a part.
pub data Written : Type 0 where
  written : Written
  not_opened : Text → Written
  cut_off : Text → Text → Written

-- `getRegistrationProfile`: it is no function, or returns, or throws.
pub data ProfileCall : Type 0 where
  no_function : ProfileCall
  profile_returned : Value → ProfileCall
  profile_threw : Text → ProfileCall

-- What becomes of the client's `register`.
pub data Registering : Type 0 where
  not_connected refused lost : Text → Registering
  accepted : Value → Registering

-- How the calls of `start` go; a text is an exception. `goodbye` is what the client sees from its
-- `unregister` on, where the start fails.
pub record Calls : Type 0 where
  pub mkdir : Option Text
  pub listen : Option Text
  pub token : Written
  pub registration_profile : ProfileCall
  pub registering : Registering
  pub goodbye : List Event

pub data Started : Type 0 where
  started : Text → Value → Started
  threw : Text → Started

-- `unregister`, and what comes after it.
unfoldable pub say_goodbye : List Event → Life → Life
say_goodbye goodbye l = Lifecycle.run (unregisters ∷ goodbye) l

unfoldable pub give_up_client : List Event → Running → Running
give_up_client goodbye s = elim s.client [
  | none ↦ s
  | some l ↦ record s { client = none; given_up = s.given_up ++ say_goodbye goodbye l ∷ [] }
]

-- `cleanupStartedResources`
unfoldable pub cleanup_started_resources : Setup → List Event → Running → Running
unfolding give_up_client
cleanup_started_resources u goodbye s =
    let s' = give_up_client goodbye s in
    record s' { server = none; files = clear_session u.socket_dir u.session_id s'.files }

give_up : Setup → Calls → Text → Running → Running × Started
unfolding cleanup_started_resources
give_up u r e s = (cleanup_started_resources u r.goodbye s, threw e)

unfoldable pub profile_value : Value → Value
profile_value v = or_else v (obj end)

abbrev pub delivery : Setup → Value
delivery u = obj (
    field (codes "adapter") (str (u.kind ++ codes "-pty")) (
      field (codes "socketPath") (str (socket_path u))
        (field (codes "adapterToken") (str u.adapter_token) end)))

-- The participant that the sidecar registers.
unfoldable pub participant : Setup → Value → Value
participant u profile = obj (
    field (codes "kind") (str u.kind) (
      field (codes "sessionId") (str u.session_id) (
        field (codes "project") (or_else u.project null) (
          field (codes "cwd") (or_else u.cwd null) (
            field (codes "displayName") (or_else (get_prop "displayName" profile) null) (
              field (codes "description") (or_else (get_prop "description" profile) null)
                (field (codes "delivery") (delivery u) end)))))))

-- What the new client sees of its registration.
unfoldable pub registration_events : Value → Registering → List Event
registration_events p (not_connected e) = registers p ∷ connects 0 false ∷ []
registration_events p (refused e) = registers p ∷ connects 0 true ∷ answers 0 none ∷ []
registration_events p (lost e) = registers p ∷ connects 0 true ∷ closes ∷ []
registration_events p (accepted response) =
    registers p ∷ connects 0 true ∷ answers 0 (some response) ∷ []

unfoldable pub registering_client : Value → Registering → Life
registering_client p outcome = Lifecycle.run (registration_events p outcome) new

registered : Setup → Calls → Life → Registering → Running → Running × Started
unfolding give_up
registered u r l (accepted response) s = (s, started (socket_path u) l.participant_id)
registered u r l (not_connected e) s = give_up u r e s
registered u r l (refused e) s = give_up u r e s
registered u r l (lost e) s = give_up u r e s

unfoldable pub register_as : Setup → Calls → Value → Running → Running × Started
unfolding registered
register_as u r profile s =
    let l = registering_client (participant u profile) r.registering in
    registered u r l r.registering (record s { client = some l })

introduce : Setup → Calls → ProfileCall → Running → Running × Started
unfolding register_as give_up
introduce u r no_function s = register_as u r (obj end) s
introduce u r (profile_returned v) s = register_as u r (profile_value v) s
introduce u r (profile_threw e) s = give_up u r e s

publish : Setup → Calls → Written → Running → Running × Started
unfolding introduce give_up
publish u r written s =
    introduce u r r.registration_profile
      (record s { files = write_token u.socket_dir u.session_id u.adapter_token s.files })
publish u r (not_opened e) s = give_up u r e s
publish u r (cut_off part e) s =
    give_up u r e (record s { files = write_token u.socket_dir u.session_id part s.files })

listen : Setup → Calls → Option Text → Running → Running × Started
unfolding publish give_up
listen u r (some e) s = give_up u r e s
listen u r none s =
    publish u r r.token
      (record s { server = some true; files = Maps.set (socket_path u) [] s.files })

-- `start`, up to the call of `listen`.
unfoldable pub begin : Setup → Running → Running
begin u s = record s { server = some false; files = Maps.delete (socket_path u) s.files }

unfoldable pub start : Setup → Calls → Running → Running × Started
unfolding listen begin
start u r s = elim r.mkdir [ some e ↦ (s, threw e) | none ↦ listen u r r.listen (begin u s) ]

-- `stop`
unfoldable pub stop : Setup → List Event → Running → Running
unfolding cleanup_started_resources
stop u goodbye s = cleanup_started_resources u goodbye s
