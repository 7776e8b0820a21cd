-- ===== src/Handover/Registered.antt =====
-- What the broker makes of the registration of a sidecar: it is accepted, and its deliveries find
-- the sidecar.
use inter_agent_bus.Value.{
  is_array, put_field, as_text, with_prop, is_nullish, Value, null, str, get_prop, lookup, truthy,
  or_else,
}
use inter_agent_bus.Broker.Leases.{adapter_of}
use inter_agent_bus.Paths.{is_absolute, resolve_stack, resolve_delivery_socket_path}
use inter_agent_bus.Base.{
  le→leb, ◌<◌, ◌≤◌, true, false, Option, some, none, [], ◌∷◌, ◌++◌, ◌≡◌, refl, sym, Text, codes,
  ◌==◌, length, has_code, arith,
}
use inter_agent_bus.Broker.Types.{Config, ok, err, invalid_display_name}
use inter_agent_bus.Broker.Register.{
  or_fail, is_token_text, or_text_error, bind_delivery, check_adapter_token, check_kind,
  check_session_id, Registration, check_registration, text_capability,
}
use inter_agent_bus.Strings
use inter_agent_bus.Strings.{parse_optional_text}
use inter_agent_bus.Ids.{is_handle, normalize_named_participant_id}
use inter_agent_bus.Paths.Normal.{NoSlash, resolved_dirs, join-last}
use inter_agent_bus.Paths.Bound.{
  bound_socket, root_dirs, sock-IsPart, resolve_delivery_socket_path-accepts,
}
use inter_agent_bus.Sidecar.Start.{Setup, participant, delivery, socket_path}
use inter_agent_bus.Sockets.{socket_path_for}
use inter_agent_bus.Sidecar.Requests.{Sidecar}

-- The broker and the sidecar use the same directory, an absolute path, in bound mode; the ids and
-- the token are of the lengths and forms that the broker asks for.
pub record Agrees (c : Config) (u : Setup) : Type 0 where
  pub bound : c.paths.allow_unbound_delivery_socket ≡ false
  pub dir : c.paths.adapter_sockets_dir ≡ u.socket_dir
  pub absolute : is_absolute u.socket_dir ≡ true
  pub no_slash : NoSlash u.session_id
  pub no_null : has_code 0 (socket_path u) ≡ false
  pub kind : is_handle 31 u.kind ≡ true
  pub some_session : 0 < length u.session_id
  pub short_session : length u.session_id ≤ 256
  pub long_token : 16 ≤ length u.adapter_token
  pub short_token : length u.adapter_token ≤ 256

socket_path-bound :
    (c : Config) (u : Setup) → Agrees c u → socket_path u ≡ bound_socket c.paths u.session_id
unfolding socket_path_for bound_socket root_dirs resolved_dirs resolve_stack
socket_path-bound c u a =
    rw (a.dir, a.absolute)
      (join-last u.socket_dir (u.session_id ++ codes ".sock") (sock-IsPart u.session_id a.no_slash))

socket_path-accepted :
    (c : Config) (u : Setup)
    → Agrees c u
    → resolve_delivery_socket_path c.paths u.session_id (str (socket_path u)) ≡ some (socket_path u)
socket_path-accepted c u a =
    let e = socket_path-bound c u a in
    rw e (
      resolve_delivery_socket_path-accepts c.paths u.session_id a.bound a.no_slash
        (rw (sym e) a.no_null))

bind_delivery-own :
    (c : Config) (u : Setup)
    → Agrees c u
    → bind_delivery c u.session_id (or_else (delivery u) null) ≡ ok (delivery u)
unfolding bind_delivery or_else truthy is_nullish get_prop lookup with_prop put_field ◌==◌
bind_delivery-own c u a = rw (socket_path-accepted c u a) refl

check_adapter_token-own :
    (c : Config) (u : Setup) → Agrees c u → check_adapter_token (delivery u) ≡ ok tt
unfolding check_adapter_token is_token_text truthy is_nullish get_prop lookup as_text ◌==◌
check_adapter_token-own c u a =
    rw
      (
        le→leb 16 (length u.adapter_token) a.long_token,
        le→leb (length u.adapter_token) 256 a.short_token,
      )
      refl

check_session_id-own : (t : Text) → 0 < length t → length t ≤ 256 → check_session_id (str t) ≡ ok t
unfolding check_session_id
check_session_id-own [] h k = absurd (omega arith)
check_session_id-own (x ∷ t) h k = ground arith

-- What the broker keeps of the registration.
abbrev pub registration : Setup → Value → Option Text → Option Text → Option Text → Registration
registration u profile d t preferred = record {
  kind = u.kind;
  session_id = u.session_id;
  display_name = d;
  description = t;
  preferred = preferred;
  project = or_else (or_else u.project null) null;
  cwd = or_else (or_else u.cwd null) null;
  capabilities = text_capability;
  delivery = delivery u;
  adapter = str (u.kind ++ codes "-pty");
}

pub check_registration-participant :
    (c : Config) (u : Setup) (profile : Value) (d t preferred : Option Text)
    → Agrees c u
    → parse_optional_text (or_else (get_prop "displayName" profile) null) 64 ≡ Strings.ok d
    → parse_optional_text (or_else (get_prop "description" profile) null) 200 ≡ Strings.ok t
    → normalize_named_participant_id d ≡ some preferred
    → check_registration c (participant u profile) ≡ ok (registration u profile d t preferred)
unfolding check_registration participant get_prop lookup ◌==◌ check_kind or_text_error or_fail
    is_array adapter_of truthy
check_registration-participant c u profile d t preferred a h k n =
    rw
      (
        a.kind,
        check_session_id-own u.session_id a.some_session a.short_session,
        h,
        k,
        n,
        bind_delivery-own c u a,
        check_adapter_token-own c u a,
      )
      refl

-- A display name with no handle in it is refused.
pub check_registration-unnamed :
    (c : Config) (u : Setup) (profile : Value) (d t : Option Text)
    → Agrees c u
    → parse_optional_text (or_else (get_prop "displayName" profile) null) 64 ≡ Strings.ok d
    → parse_optional_text (or_else (get_prop "description" profile) null) 200 ≡ Strings.ok t
    → normalize_named_participant_id d ≡ none
    → check_registration c (participant u profile) ≡ err invalid_display_name
unfolding check_registration participant get_prop lookup ◌==◌ check_kind or_text_error or_fail
check_registration-unnamed c u profile d t a h k n =
    rw (a.kind, check_session_id-own u.session_id a.some_session a.short_session, h, k, n) refl

-- A sidecar that has just started.
abbrev pub fresh_sidecar : Setup → Option Value → Sidecar
fresh_sidecar u lease = record {
  adapter_token = u.adapter_token;
  lease = lease;
  recent_ids = [];
  typed = [];
  due = [];
}
