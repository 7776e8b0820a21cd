-- ===== src/Sidecar/Start/Outcome.antt =====
-- A start ends as its calls say, and touches no other file.
use inter_agent_bus.Sidecar.Start.Down.{
  Spares-SameElsewhere, Spares, IsSettled, token_path, cleanup-IsDown, cleanup-Spares,
}
use inter_agent_bus.Client.Lifecycle.Closing.{IsGone, is_registration}
use inter_agent_bus.Base.{
  ◌∙◌, Bool-cases, inl, inr, true, false, Option, none, some, [], Text, ◌==◌, ◌≡◌, refl, All, any,
}
use inter_agent_bus.Client.Lifecycle.{commit}
use inter_agent_bus.Sidecar.Start.{
  profile_value, Setup, Running, Calls, Written, written, not_opened, cut_off, ProfileCall,
  no_function, profile_returned, profile_threw, Registering, not_connected, refused, lost, accepted,
  socket_path, start, begin, listen, publish, introduce, register_as, registered,
  registering_client, give_up, participant,
}
use inter_agent_bus.Base.Maps
use inter_agent_bus.Value.{Value, obj, end}
use inter_agent_bus.Auth.{write_token}
use inter_agent_bus.Sockets.{SameElsewhere}
use inter_agent_bus.Sidecar.Start.Up.{
  registering_error, profile_error, token_error, first, start_error, Ends, accepted_life,
  registering_client-accepted, registering_client-IsSettled,
}

-- A start on its way: no other file has changed, and its former clients are gone.
record IsUnderway (u : Setup) (old s : Running) : Type 0 where
  spares : Spares u old s
  given_up : All IsGone s.given_up

-- The server listens and its socket can be found.
record IsListening (u : Setup) (s : Running) : Type 0 where
  server : s.server ≡ some true
  at_socket : Text
  socket : Maps.get (socket_path u) s.files ≡ some at_socket

module _ (u : Setup) (r : Calls) (h : any is_registration r.goodbye ≡ false) (old : Running) where
  given_up-Ends :
      (outcome : Registering) (e : Text) (s : Running)
      → IsSettled s.client
      → IsUnderway u old s
      → Ends u outcome (some e) (give_up u r e s) × Spares u old (give_up u r e s).0
  unfolding give_up
  given_up-Ends outcome e s k w = (
    (refl, cleanup-IsDown u r.goodbye s h k w.given_up),
    λ j n m. cleanup-Spares u r.goodbye s j n m ∙ w.spares j n m,
  )

  registered-Ends :
      (p : Value) (outcome : Registering) (s : Running)
      → IsListening u s
      → Maps.get (token_path u) s.files ≡ some u.adapter_token
      → IsUnderway u old s
      → let l = registering_client p outcome in
        let end = registered u r l outcome (record s { client = some l }) in
        Ends u outcome (registering_error outcome) end × Spares u old end.0
  unfolding registered registering_error any
  registered-Ends p (accepted response) s up t w = rw (registering_client-accepted p response) (
    (
      unfold commit in refl,
      record {
        life = accepted_life p response;
        server = up.server;
        client = refl;
        at_socket = up.at_socket;
        socket = up.socket;
        token = t;
        connected = unfold commit in refl;
        lease = unfold commit in refl;
        beats = unfold commit in refl;
        stays = unfold commit in refl;
        settled = unfold commit in refl;
        given_up = w.given_up;
      },
    ),
    w.spares,
  )
  registered-Ends p (not_connected e) s up t w =
      given_up-Ends (not_connected e) e
        (record s { client = some (registering_client p (not_connected e)) })
        (registering_client-IsSettled p (not_connected e))
        (record { spares = w.spares; given_up = w.given_up })
  registered-Ends p (refused e) s up t w =
      given_up-Ends (refused e) e (record s { client = some (registering_client p (refused e)) })
        (registering_client-IsSettled p (refused e))
        (record { spares = w.spares; given_up = w.given_up })
  registered-Ends p (lost e) s up t w =
      given_up-Ends (lost e) e (record s { client = some (registering_client p (lost e)) })
        (registering_client-IsSettled p (lost e))
        (record { spares = w.spares; given_up = w.given_up })

  introduce-Ends :
      (call : ProfileCall) (s : Running)
      → s.client ≡ none
      → IsListening u s
      → Maps.get (token_path u) s.files ≡ some u.adapter_token
      → IsUnderway u old s
      → let end = introduce u r call s in
        Ends u r.registering (first (profile_error call) (registering_error r.registering)) end
        × Spares u old end.0
  unfolding introduce register_as first profile_error
  introduce-Ends no_function s c up t w =
      registered-Ends (participant u (obj end)) r.registering s up t w
  introduce-Ends (profile_returned v) s c up t w =
      registered-Ends (participant u (profile_value v)) r.registering s up t w
  introduce-Ends (profile_threw e) s c up t w = given_up-Ends r.registering e s (rw c tt) w

  write_token-IsUnderway :
      (token : Text) (s : Running)
      → IsUnderway u old s
      → IsUnderway u old (record s { files = write_token u.socket_dir u.session_id token s.files })
  unfolding write_token
  write_token-IsUnderway token s w = record {
    spares = λ j n m. Maps.get-set_ne (token_path u) j token s.files m ∙ w.spares j n m;
    given_up = w.given_up;
  }

  write_token-IsListening :
      (token : Text) (s : Running)
      → IsListening u s
      → IsListening u (record s { files = write_token u.socket_dir u.session_id token s.files })
  unfolding write_token
  write_token-IsListening token s up = elim (Bool-cases (token_path u == socket_path u)) [
    | inl e ↦ record {
      server = up.server;
      at_socket = token;
      socket = rw (Maps.get-set (token_path u) (socket_path u) token s.files, e) refl;
    }
    | inr e ↦ record {
      server = up.server;
      at_socket = up.at_socket;
      socket = Maps.get-set_ne (token_path u) (socket_path u) token s.files e ∙ up.socket;
    }
  ]

  publish-Ends :
      (call : Written) (s : Running)
      → s.client ≡ none
      → IsListening u s
      → IsUnderway u old s
      → let end = publish u r call s in
        Ends u r.registering
          (first
            (token_error call)
            (first (profile_error r.registration_profile) (registering_error r.registering)))
          end
        × Spares u old end.0
  unfolding publish first token_error
  publish-Ends written s c up w =
      introduce-Ends r.registration_profile
        (record s { files = write_token u.socket_dir u.session_id u.adapter_token s.files }) c
        (write_token-IsListening u.adapter_token s up)
        (unfold write_token in Maps.get-set_self (token_path u) u.adapter_token s.files)
        (write_token-IsUnderway u.adapter_token s w)
  publish-Ends (not_opened e) s c up w = given_up-Ends r.registering e s (rw c tt) w
  publish-Ends (cut_off part e) s c up w =
      given_up-Ends r.registering e
        (record s { files = write_token u.socket_dir u.session_id part s.files }) (rw c tt)
        (write_token-IsUnderway part s w)

  listen-Ends :
      (call : Option Text) (s : Running)
      → s.client ≡ none
      → IsUnderway u old s
      → let end = listen u r call s in
        Ends u r.registering
          (first call (
            first
              (token_error r.token)
              (first (profile_error r.registration_profile) (registering_error r.registering))))
          end
        × Spares u old end.0
  unfolding listen first
  listen-Ends (some e) s c w = given_up-Ends r.registering e s (rw c tt) w
  listen-Ends none s c w =
      publish-Ends r.token
        (record s { server = some true; files = Maps.set (socket_path u) [] s.files }) c
        (record {
          server = refl;
          at_socket = [];
          socket = Maps.get-set_self (socket_path u) [] s.files;
        })
        (record {
          spares = λ j n m. Maps.get-set_ne (socket_path u) j [] s.files n ∙ w.spares j n m;
          given_up = w.given_up;
        })

start-parts :
    (u : Setup) (r : Calls) (s : Running)
    → r.mkdir ≡ none
    → s.client ≡ none
    → All IsGone s.given_up
    → any is_registration r.goodbye ≡ false
    → Ends u r.registering (start_error r) (start u r s) × Spares u s (start u r s).0
unfolding start begin start_error
start-parts u r s made c stay h = rw made (
    listen-Ends u r h s r.listen
      (record s { server = some false; files = Maps.delete (socket_path u) s.files }) c
      (record {
        spares = λ j n m. Maps.get-delete_ne (socket_path u) j s.files n;
        given_up = stay;
      }))

-- A sidecar without a client is started, its directory can be made, and nothing registers a client
-- that it gives up. If a call fails, the start throws the error of the first one that does, and
-- then there is no server, no client, no socket file and no token file, also where these were left
-- there by an earlier run. If none fails, it returns the socket's path and the participant's id of
-- the broker's response; the server listens, the socket can be found, the token file holds the
-- token, and the client is connected with the response's lease and beats. No other file has
-- changed, and the clients given up are closed and do not beat.
pub start-Ends :
    (u : Setup) (r : Calls) (s : Running)
    → r.mkdir ≡ none
    → s.client ≡ none
    → All IsGone s.given_up
    → any is_registration r.goodbye ≡ false
    → Ends u r.registering (start_error r) (start u r s)
      × SameElsewhere u.socket_dir u.session_id s.files (start u r s).0.files
start-Ends u r s made c stay h =
    let (ends, spares) = start-parts u r s made c stay h in
    (ends, Spares-SameElsewhere u s (start u r s).0 spares)
