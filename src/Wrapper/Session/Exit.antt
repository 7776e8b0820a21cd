-- ===== src/Wrapper/Session/Exit.antt =====
-- What an agent's exit leaves behind.
use inter_agent_bus.Base.{
  Option, some, Bool, true, false, none, List, ◌≡◌, refl, All, any, if◌then◌else◌,
}
use inter_agent_bus.Base.Maps
use inter_agent_bus.Client.Lifecycle.{Event}
use inter_agent_bus.Client.Lifecycle.Closing.{IsGone, is_registration}
use inter_agent_bus.Sidecar.Start
use inter_agent_bus.Sidecar.Start.{Setup, Running}
use inter_agent_bus.Sidecar.Start.Down.{IsDown, IsSettled, stop-IsDown}
use inter_agent_bus.Sockets.{clear_session-socket, clear_session-token}
use inter_agent_bus.Control.Server
use inter_agent_bus.Control.Server.{ControlServer}
use inter_agent_bus.Control.Server.Ends.{control_socket, control_token_file}
use inter_agent_bus.Wrapper.Session.{AgentSession, on_exit}

-- A sidecar that counts as started has a client that is not on its way to a registration; one that
-- does not holds nothing.
abbrev pub IsLinked : Setup → Bool → Running → Type 0
IsLinked u true s = IsSettled s.client × All IsGone s.given_up
IsLinked u false s = IsDown u s

stopped-IsDown :
    (u : Setup) (goodbye : List Event) (started : Bool) (s : Running)
    → any is_registration goodbye ≡ false
    → IsLinked u started s
    → IsDown u (if started then Start.stop u goodbye s else s)
stopped-IsDown u goodbye true s h (settled, gone) = (stop-IsDown u goodbye s h settled gone).0
stopped-IsDown u goodbye false s h down = down

-- Whether a control server accepts connections.
abbrev pub is_listening : Option Bool → Bool
is_listening none = false
is_listening (some listening) = listening

closed-not_listening :
    (server : Option Bool)
    → is_listening (elim server [ none ↦ none | some listening ↦ some false ]) ≡ false
closed-not_listening none = refl
closed-not_listening (some listening) = refl

-- When the agent exits while its sidecar is started, with a client that is not on its way to a
-- registration, or is down, and nothing registers the client again, the sidecar and the control
-- server no longer listen and leave no socket file and no token file, and the bus is no longer
-- wanted.
pub on_exit-IsDown :
    (u : Setup) (k : ControlServer) (goodbye : List Event) (s : AgentSession)
    → any is_registration goodbye ≡ false
    → IsLinked u s.wrapper.sidecar_started s.sidecar
    → let s' = on_exit u k goodbye s in
      (s'.wrapper.desired_enabled ≡ false)
      × IsDown u s'.sidecar
      × (is_listening s'.control.server ≡ false)
      × (Maps.get (control_socket k) s'.control.files ≡ none)
      × (Maps.get (control_token_file k) s'.control.files ≡ none)
unfolding on_exit Server.stop
on_exit-IsDown u k goodbye s h linked = (
  refl,
  stopped-IsDown u goodbye s.wrapper.sidecar_started s.sidecar h linked,
  closed-not_listening s.control.server,
  clear_session-socket k.socket_dir k.session_id s.control.files,
  clear_session-token k.socket_dir k.session_id s.control.files,
)
