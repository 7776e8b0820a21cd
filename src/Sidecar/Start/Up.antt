-- ===== src/Sidecar/Start/Up.antt =====
-- How a start ends, by the first of its calls that fails.
use inter_agent_bus.Client.Lifecycle.Closing.{IsGone}
use inter_agent_bus.Base.{pick, true, false, Option, none, some, Text, ◌≡◌, refl, All, any}
use inter_agent_bus.Client.Lifecycle.{new, commit, Life, Event}
use inter_agent_bus.Sidecar.Start.{
  registration_events, Setup, Running, Calls, Written, written, not_opened, cut_off, ProfileCall,
  profile_threw, Registering, not_connected, refused, lost, accepted, Started, started, threw,
  socket_path, registering_client,
}
use inter_agent_bus.Base.Maps
use inter_agent_bus.Value.{Value, get_prop}
use inter_agent_bus.Client.Lifecycle
use inter_agent_bus.Sidecar.Start.Down.{IsDown, IsSettled, token_path}

-- What the first call that fails throws, if any fails.
unfoldable pub registering_error : Registering → Option Text
registering_error (not_connected e) = some e
registering_error (refused e) = some e
registering_error (lost e) = some e
registering_error (accepted response) = none

unfoldable pub profile_error : ProfileCall → Option Text
profile_error (profile_threw e) = some e
profile_error _ = none

unfoldable pub token_error : Written → Option Text
token_error written = none
token_error (not_opened e) = some e
token_error (cut_off part e) = some e

unfoldable pub first : Option Text → Option Text → Option Text
first (some e) o = some e
first none o = o

unfoldable pub start_error : Calls → Option Text
start_error r = first r.listen (
    first (token_error r.token)
      (first (profile_error r.registration_profile) (registering_error r.registering)))

-- The sidecar listens, its socket and its token can be found, and its client is connected with the
-- lease of the broker's response and a heartbeat.
pub record IsUp (u : Setup) (response : Value) (s : Running) : Type 0 where
  pub life : Life
  pub server : s.server ≡ some true
  pub client : s.client ≡ some life
  pub at_socket : Text
  pub socket : Maps.get (socket_path u) s.files ≡ some at_socket
  pub token : Maps.get (token_path u) s.files ≡ some u.adapter_token
  pub connected : life.connected ≡ true
  pub lease : life.lease_token ≡ get_prop "leaseToken" response
  pub beats : life.heartbeat ≡ some life.heartbeat_ms
  pub stays : life.closed ≡ false
  pub settled : IsSettled (some life)
  pub given_up : All IsGone s.given_up

-- How a start ends: by the registration, and by the error of the first call that fails.
abbrev pub Ends : Setup → Registering → Option Text → Running × Started → Type 0
Ends u (accepted response) none (s, result) =
    (result ≡ started (socket_path u) (get_prop "participantId" response)) × IsUp u response s
Ends u outcome none (s, result) = ⊥
Ends u outcome (some e) (s, result) = (result ≡ threw e) × IsDown u s

-- A client that is registered.
abbrev pub accepted_life : Value → Value → Life
accepted_life p response =
    commit response (record new { connected = true; sockets = 1; participant = some p })

pub registering_client-accepted :
    (p response : Value) → registering_client p (accepted response) ≡ accepted_life p response
unfolding registering_client registration_events Lifecycle.run Lifecycle.step pick
registering_client-accepted p response = refl

pub registering_client-IsSettled :
    (p : Value) (outcome : Registering) → IsSettled (some (registering_client p outcome))
unfolding registering_client registration_events Lifecycle.run Lifecycle.step any pick
registering_client-IsSettled p (accepted response) = refl
registering_client-IsSettled p (not_connected e) = refl
registering_client-IsSettled p (refused e) = refl
registering_client-IsSettled p (lost e) = refl
