-- ===== src/Wrapper/Tests.antt =====
-- The wrapper's theorems at short histories.
use inter_agent_bus.Client.Lifecycle.Closing.{is_registration}
use inter_agent_bus.Control.Server.{handle_connection, ControlServer}
use inter_agent_bus.Control.Server.Connection.{LacksToken, lines_of, written_without}
use inter_agent_bus.Wrapper.Session.Guarded.{handle_connection-guarded}
use inter_agent_bus.Wrapper.{
  Wrapper, null, Profile, disable, disabled, enable, enabled, has_own, normalize_registration_field,
  pending, run, same_field, start_over, status_of, stop_over, update_registration_profile,
}
use inter_agent_bus.Wrapper.Session.{ControlReply, handler, AgentSession, on_exit}
use inter_agent_bus.Wrapper.Session.Exit.{is_listening, on_exit-IsDown}
use inter_agent_bus.Sidecar.Start.{Setup}
use inter_agent_bus.Sidecar.Start.Down.{IsDown}
use inter_agent_bus.Control.Server.Ends.{control_socket, control_token_file}
use inter_agent_bus.Client.Lifecycle
use inter_agent_bus.Client.Lifecycle.{new}
use inter_agent_bus.Base.Maps
use inter_agent_bus.Base.{
  arith, ℕ, Bool, All, map, if◌then◌else◌, any, some, List, Option, Text, [], codes, false, none,
  refl, true, ◌==◌, ◌∷◌, ◌≡◌,
}
use inter_agent_bus.Value.{undefined, Value, str, obj, field, end, get_prop, lookup}
use inter_agent_bus.Strings.{collapse, is_space}
use inter_agent_bus.Strings.Runs.{squeeze, strip}
use inter_agent_bus.Wrapper.Exclusive.{IsExclusive, run-IsExclusive}
use inter_agent_bus.Wrapper.Sequential.{
  idle, asked, serve_all, to_enable, to_disable, Request, serve_all-asked, run-overlap,
}

abbrev profile : Profile
profile = record { display_name = some (codes "ada"); description = none }

abbrev rename : Value
rename = obj (field (codes "displayName") (str (codes "ada")) end)

abbrev requests : List Request
requests = to_enable rename ∷ to_disable ∷ to_enable rename ∷ []

serve_all-asked_example :
    (error' : Option Text) × (serve_all requests (idle false false none profile) ≡ (
      idle
          (asked requests false profile).0
          (asked requests false profile).0
          error'
          (asked requests false profile).1,
      (asked requests false profile).2,
    ))
serve_all-asked_example = serve_all-asked requests false none profile

run-IsExclusive_example :
    IsExclusive
      (run (enable rename ∷ disable ∷ start_over none ∷ []) (idle false false none profile)).0
run-IsExclusive_example =
    run-IsExclusive (enable rename ∷ disable ∷ start_over none ∷ []) (idle false false none profile)
      refl

unchanged : update_registration_profile rename profile ≡ (profile, false)
unfolding update_registration_profile has_own normalize_registration_field same_field get_prop
    lookup ◌==◌ collapse squeeze strip is_space
unchanged = refl

run-overlap_example :
    ((run (disable ∷ enable rename ∷ stop_over 0 none ∷ []) (idle true true none profile)).1
      ≡ enabled ∷ disabled ∷ [])
    × ((run (disable ∷ enable rename ∷ stop_over 0 none ∷ []) (idle true true none profile)).0
        ≡ idle false true none profile)
    × (status_of
          (run (disable ∷ enable rename ∷ stop_over 0 none ∷ []) (idle true true none profile)).0
        ≡ pending)
run-overlap_example = run-overlap true none profile rename unchanged

abbrev setup : Setup
setup = record {
  kind = codes "claude";
  session_id = codes "s1";
  project = null;
  cwd = null;
  socket_dir = codes "/run";
  adapter_token = codes "0f";
}

abbrev server : ControlServer
server = record {
  session_id = codes "s1";
  socket_dir = codes "/control";
  control_token = codes "1e";
}

-- The client is registered.
abbrev session : AgentSession
session = record {
  wrapper = idle true true none (record { display_name = none; description = none });
  sidecar = record {
    server = some true;
    client = some (record new { connected = true; sockets = 1; lease_token = str (codes "t1") });
    files = (codes "/run/s1.sock", []) ∷ (codes "/run/s1.token", codes "0f") ∷ [];
    given_up = [];
  };
  control = record {
    server = some true;
    files = (codes "/control/s1.sock", []) ∷ (codes "/control/s1.token", codes "1e") ∷ [];
  };
}

abbrev goodbye : List Lifecycle.Event
goodbye = Lifecycle.answers 0 none ∷ Lifecycle.closes ∷ []

on_exit-IsDown_example :
    let s' = on_exit setup server goodbye session in
    (s'.wrapper.desired_enabled ≡ false)
    × IsDown setup s'.sidecar
    × (is_listening s'.control.server ≡ false)
    × (Maps.get (control_socket server) s'.control.files ≡ none)
    × (Maps.get (control_token_file server) s'.control.files ≡ none)
unfolding any is_registration
on_exit-IsDown_example = on_exit-IsDown setup server goodbye session refl (refl, tt)

abbrev token : Text
token = codes "0f"

abbrev enable_request : Value
enable_request = obj (field (codes "type") (str (codes "enable")) end)

-- Lines of one letter are parsed: `e` is a request to enable, all else a request of no type.
abbrev parse : Text → Option Value
parse line = some (if line == codes "e" then enable_request else obj end)

no_auth : (b : Bool) → get_prop "auth" (if b then enable_request else obj end) ≡ undefined
unfolding get_prop lookup ◌==◌
no_auth true = refl
no_auth false = refl

lines-LacksToken : (lines : List Text) → All (LacksToken parse token) lines
lines-LacksToken [] = tt
lines-LacksToken (line ∷ lines) = (lacks, lines-LacksToken lines)
  where
    lacks : LacksToken parse token line
    lacks req e k = let none_given = no_auth (line == codes "e") in cc

abbrev stream : List (List ℕ)
stream = codes "e\nx" ∷ codes "\n" ∷ []

abbrev reply_value : Wrapper → ControlReply → Value
reply_value w reply = obj end

handle_connection-guarded_example :
    let w = idle true true none profile in
    let handle = handler reply_value [] none in
    handle_connection parse handle token true stream w ≡ (
      w,
      map
          (λ (line : Text). written_without parse handle token true w (parse line))
          (lines_of stream),
    )
handle_connection-guarded_example =
    handle_connection-guarded parse reply_value [] none token true stream
      (idle true true none profile) (omega arith, (omega arith, tt))
      (lines-LacksToken (lines_of stream))
