-- ===== src/Sidecar/Start/Down.antt =====
-- A start that fails and a stop give everything back.
use inter_agent_bus.Base.Maps.{Map}
use inter_agent_bus.Base.{
  ap, ◌∙◌, inl, inr, Option-cases, Bool, false, Option, none, some, List, [], ◌∷◌, Text, ◌==◌, ◌≡◌,
  refl, All, All-append, any,
}
use inter_agent_bus.Base.Maps
use inter_agent_bus.Auth.{token_path_for}
use inter_agent_bus.Sockets.{
  clear_session-socket, clear_session-token, clear_session-others, SameElsewhere,
  clear_session-SameElsewhere,
}
use inter_agent_bus.Client.Lifecycle
use inter_agent_bus.Client.Lifecycle.{Life, Event}
use inter_agent_bus.Client.Lifecycle.Closing.{IsGone, is_opening, is_registration, run-stays_away}
use inter_agent_bus.Sidecar.Start.{
  Setup, Running, socket_path, stop, cleanup_started_resources, give_up_client, say_goodbye,
}

-- No file but the socket's and the token's has changed.
abbrev pub Spares : Setup → Running → Running → Type 0
Spares u s s' =
    (j : Text)
    → (socket_path u == j) ≡ false
    → (token_path_for u.socket_dir u.session_id == j) ≡ false
    → Maps.get j s'.files ≡ Maps.get j s.files

-- The sidecar holds nothing.
pub record IsDown (u : Setup) (s : Running) : Type 0 where
  pub server : s.server ≡ none
  pub client : s.client ≡ none
  pub socket : Maps.get (socket_path u) s.files ≡ none
  pub token : Maps.get (token_path_for u.socket_dir u.session_id) s.files ≡ none
  pub given_up : All IsGone s.given_up

-- The client is not on its way to a registration.
abbrev pub IsSettled : Option Life → Type 0
IsSettled none = Unit
IsSettled (some l) = any is_opening l.flows ≡ false

module _ (u : Setup) where
  abbrev pub token_path : Text
  token_path = token_path_for u.socket_dir u.session_id

  cleanup-parts :
      (goodbye : List Event) (server : Option Bool) (client : Option Life) (files : Map Text)
      (given : List Life)
      → any is_registration goodbye ≡ false
      → IsSettled client
      → All IsGone given
      → IsDown u (
          cleanup_started_resources u goodbye
            (record { server = server; client = client; files = files; given_up = given }))
  unfolding cleanup_started_resources give_up_client
  cleanup-parts goodbye server none files given h k stay = record {
    server = refl;
    client = refl;
    socket = clear_session-socket u.socket_dir u.session_id files;
    token = clear_session-token u.socket_dir u.session_id files;
    given_up = stay;
  }
  cleanup-parts goodbye server (some l) files given h k stay = record {
    server = refl;
    client = refl;
    socket = clear_session-socket u.socket_dir u.session_id files;
    token = clear_session-token u.socket_dir u.session_id files;
    given_up =
        All-append IsGone given (say_goodbye goodbye l ∷ []) stay
          (unfold say_goodbye Lifecycle.run Lifecycle.step in run-stays_away goodbye l k h, tt);
  }

  -- The cleanup gives everything back, whether a client was made or not.
  pub cleanup-IsDown :
      (goodbye : List Event) (s : Running)
      → any is_registration goodbye ≡ false
      → IsSettled s.client
      → All IsGone s.given_up
      → IsDown u (cleanup_started_resources u goodbye s)
  cleanup-IsDown goodbye s = cleanup-parts goodbye s.server s.client s.files s.given_up

  give_up_client-files :
      (goodbye : List Event) (s : Running) → (give_up_client goodbye s).files ≡ s.files
  unfolding give_up_client
  give_up_client-files goodbye s = elim (Option-cases s.client) [
    | inl e ↦ rw e refl
    | inr (l, e) ↦ rw e refl
  ]

  pub cleanup-Spares :
      (goodbye : List Event) (s : Running) → Spares u s (cleanup_started_resources u goodbye s)
  unfolding cleanup_started_resources
  cleanup-Spares goodbye s j h k =
      clear_session-others u.socket_dir u.session_id (give_up_client goodbye s).files j h k
      ∙ ap (Maps.get j) (give_up_client-files goodbye s)

  pub Spares-SameElsewhere :
      (s s' : Running) → Spares u s s' → SameElsewhere u.socket_dir u.session_id s.files s'.files
  Spares-SameElsewhere s s' h =
      clear_session-SameElsewhere u.socket_dir u.session_id s.files s'.files h

-- When the sidecar stops while its client is not on its way to a registration, and nothing
-- registers the client again, nothing is left: no server, no client, no socket file and no token
-- file, and no other file has changed. The clients that it has given up are closed and do not beat,
-- and they have no connection, no lease and no participant once no answer to their `unregister` is
-- waited for.
pub stop-IsDown :
    (u : Setup) (goodbye : List Event) (s : Running)
    → any is_registration goodbye ≡ false
    → IsSettled s.client
    → All IsGone s.given_up
    → IsDown u (stop u goodbye s)
      × SameElsewhere u.socket_dir u.session_id s.files (stop u goodbye s).files
unfolding stop
stop-IsDown u goodbye s h k stay = (
  cleanup-IsDown u goodbye s h k stay,
  Spares-SameElsewhere u s (cleanup_started_resources u goodbye s) (cleanup-Spares u goodbye s),
)
