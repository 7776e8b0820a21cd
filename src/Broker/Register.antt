-- ===== src/Broker/Register.antt =====
-- `handleRegister` of broker/broker.js: the checks of a registration, the claim of an id, and the
-- admission of the participant.
use inter_agent_bus.Base.{
  ℕ, zero, suc, ◌+◌, Bool, false, not, ◌&&◌, ◌||◌, Option, none, some, [], ◌∷◌, ◌++◌, Text, codes,
  ◌==◌, leb, length, take, keep, if◌then◌else◌,
}
use inter_agent_bus.Base.Maps
use inter_agent_bus.Base.Maps.{Map}
use inter_agent_bus.Value.{
  Value, null, arr, str, cons, nil, obj, end, get_prop, with_prop, truthy, or_else, is_nullish,
  is_array, as_text,
}
use inter_agent_bus.Strings
use inter_agent_bus.Strings.{TextError, invalid, too_long, Parsed, parse_optional_text}
use inter_agent_bus.Ids.{is_handle, colon, normalize_named_participant_id}
use inter_agent_bus.Paths.{resolve_delivery_socket_path}
use inter_agent_bus.Broker.Types.{
  Participant, Recent, State, Config, reclaim_refused, register, append_log, lease_ttl_ms,
  heartbeat_interval_sec, is_lease_valid, Error, invalid_kind, invalid_session_id,
  invalid_display_name, display_name_too_long, invalid_description, description_too_long,
  invalid_delivery_socket_path, invalid_adapter_token, kind_mismatch_for_session_id,
  session_lease_active, participant_id_in_use, internal, Result, ok, err, ◌>>=◌, ◌>>◌, guard,
  Response, error, registered,
}
use inter_agent_bus.Broker.Mail.{session_hash}
use inter_agent_bus.Broker.Leases.{mark_recent, adapter_of, persist_registry}
use inter_agent_bus.Broker.Delivery.{enqueue_mailbox_flush_on_register}

-- What a request to register says, once it has passed the checks.
pub record Registration : Type 0 where
  pub kind : Text
  pub session_id : Text
  pub display_name : Option Text
  pub description : Option Text
  pub preferred : Option Text
  pub project : Value
  pub cwd : Value
  pub capabilities : Value
  pub delivery : Value
  pub adapter : Value

unfoldable pub or_fail {ℓ} : {A : Type ℓ} → Option A → Error → Result A
or_fail none e = err e
or_fail (some a) e = ok a

unfoldable pub check_kind : Value → Result Text
check_kind (str s) = if is_handle 31 s then ok s else err invalid_kind
check_kind _ = err invalid_kind

unfoldable pub check_session_id : Value → Result Text
check_session_id (str []) = err invalid_session_id
check_session_id (str (c ∷ s)) =
    if leb (length (c ∷ s)) 256 then ok (c ∷ s) else err invalid_session_id
check_session_id _ = err invalid_session_id

unfoldable pub or_text_error : Parsed → Error → Error → Result (Option Text)
or_text_error (Strings.ok v) invalid_code too_long_code = ok v
or_text_error (Strings.fail invalid) invalid_code too_long_code = err invalid_code
or_text_error (Strings.fail too_long) invalid_code too_long_code = err too_long_code

-- A declared delivery socket must be the session's own.
unfoldable pub bind_delivery : Config → Text → Value → Result Value
bind_delivery c session_id delivery =
    let socket_path = get_prop "socketPath" delivery in
    if truthy delivery && not (is_nullish socket_path)
    then elim (resolve_delivery_socket_path c.paths session_id socket_path) [
      | none ↦ err invalid_delivery_socket_path
      | some resolved ↦ ok (with_prop "socketPath" (str resolved) delivery)
    ]
    else ok delivery

unfoldable pub is_token_text : Option Text → Bool
is_token_text none = false
is_token_text (some tok) = leb 16 (length tok) && leb (length tok) 256

unfoldable pub check_adapter_token : Value → Result (Unit {0})
unfolding is_token_text
check_adapter_token delivery =
    let tok = get_prop "adapterToken" delivery in
    if truthy delivery && not (is_nullish tok)
    then guard (is_token_text (as_text tok)) invalid_adapter_token
    else ok tt

abbrev pub text_capability : Value
text_capability = arr (cons (str (codes "text")) nil)

unfoldable pub check_registration : Config → Value → Result Registration
unfolding or_fail
check_registration c p = do
  kind ← check_kind (get_prop "kind" p)
  session_id ← check_session_id (get_prop "sessionId" p)
  display_name ←
      or_text_error (parse_optional_text (get_prop "displayName" p) 64) invalid_display_name
        display_name_too_long
  description ←
      or_text_error (parse_optional_text (get_prop "description" p) 200) invalid_description
        description_too_long
  preferred ← or_fail (normalize_named_participant_id display_name) invalid_display_name
  delivery ← bind_delivery c session_id (or_else (get_prop "delivery" p) null)
  check_adapter_token delivery
  let capabilities = get_prop "capabilities" p
  ok (record {
    kind = kind;
    session_id = session_id;
    display_name = display_name;
    description = description;
    preferred = preferred;
    project = or_else (get_prop "project" p) null;
    cwd = or_else (get_prop "cwd" p) null;
    capabilities = if is_array capabilities then capabilities else text_capability;
    delivery = delivery;
    adapter = adapter_of (get_prop "delivery" p);
  })

unfoldable pub find_participant_by_session_id : Text → Map Participant → Option Participant
find_participant_by_session_id session_id [] = none
find_participant_by_session_id session_id ((token, p) ∷ m) =
    if p.session_id == session_id then some p else find_participant_by_session_id session_id m

unfoldable pub delete_recent_aliases_for_session : Text → Text → Map Recent → Map Recent
delete_recent_aliases_for_session session_id kept =
    keep (λ (e : Text × Recent). not (e.1.session_id == session_id) || e.0 == kept)

-- `base` with a digit behind it, from the digit `i` on while `n` of them are left.
unfoldable pub free_candidate : ℕ → ℕ → Text → Map Text → Option Text
free_candidate zero i base by_id = none
free_candidate (suc n) i base by_id =
    let rest = free_candidate n (i + 1) base by_id in
    let candidate = base ++ (b'0' + i) ∷ [] in
    if Maps.has candidate by_id then rest else some candidate

unfoldable pub base_id : Config → Text → Text → Text
base_id c kind session_id = kind ++ (colon ∷ take 12 (session_hash c session_id))

-- `none` is the exception, when the base and all ten candidates are taken.
unfoldable pub build_participant_id : Config → Text → Text → Map Text → Option Text
unfolding free_candidate
build_participant_id c kind session_id by_id =
    let base = base_id c kind session_id in
    if Maps.has base by_id then free_candidate 10 0 base by_id else some base

unfoldable pub new_participant : ℕ → Text → Text → Registration → Participant
new_participant now token id r = record {
  participant_id = id;
  kind = r.kind;
  session_id = r.session_id;
  display_name = r.display_name;
  description = r.description;
  project = r.project;
  cwd = r.cwd;
  capabilities = r.capabilities;
  delivery = r.delivery;
  registered_at = now;
  last_heartbeat = now;
  lease_expires_at = now + lease_ttl_ms;
  lease_token = token;
}

-- The participant enters the maps and its mailbox is put on its chain.
unfoldable pub admit : Config → ℕ → Text → Registration → Text → Bool → State → State × Response
admit c now token r id reclaimed s =
    let p = new_participant now token id r in
    let s' = record s {
      participants = Maps.set token p s.participants;
      participants_by_id = Maps.set id token s.participants_by_id;
      recent_participants = delete_recent_aliases_for_session r.session_id id s.recent_participants;
    } in
    let logged =
      append_log (register reclaimed id r.kind r.adapter r.display_name) (mark_recent now p s') in
    (
      enqueue_mailbox_flush_on_register c now p (persist_registry logged),
      registered id token p.lease_expires_at heartbeat_interval_sec reclaimed,
    )

unfoldable pub admit_if_free :
    Config → ℕ → Text → Registration → Text → Bool → State → State × Response
admit_if_free c now token r id reclaimed s =
    if Maps.has id s.participants_by_id
    then (s, error participant_id_in_use)
    else admit c now token r id reclaimed s

-- The old lease of a session goes before the id is claimed.
unfoldable pub drop_lease : Participant → State → State
drop_lease p s = record s {
  participants = Maps.delete p.lease_token s.participants;
  participants_by_id = Maps.delete p.participant_id s.participants_by_id;
}

unfoldable pub preferred_or : Option Text → Text → Text
preferred_or none id = id
preferred_or (some preferred) id = preferred

unfoldable pub register_again :
    Config → ℕ → Text → Registration → Participant → State → State × Response
register_again c now token r existing s =
    if not (existing.kind == r.kind)
    then (s, error kind_mismatch_for_session_id)
    else if is_lease_valid now existing
    then (append_log (reclaim_refused existing.participant_id) s, error session_lease_active)
    else let id = preferred_or r.preferred existing.participant_id in
      admit_if_free c now token r id (id == existing.participant_id) (drop_lease existing s)

unfoldable pub register_new :
    Config → ℕ → Text → Registration → Option Text → State → State × Response
register_new c now token r none s = (s, error internal)
register_new c now token r (some id) s = admit_if_free c now token r id false s

unfoldable pub first_id : Config → Registration → Map Text → Option Text
first_id c r by_id = elim r.preferred [
  | none ↦ build_participant_id c r.kind r.session_id by_id
  | some preferred ↦ some preferred
]

unfoldable pub register_checked : Config → ℕ → Text → Registration → State → State × Response
register_checked c now token r s =
    elim (find_participant_by_session_id r.session_id s.participants) [
      | none ↦ register_new c now token r (first_id c r s.participants_by_id) s
      | some existing ↦ register_again c now token r existing s
    ]

unfoldable pub register_result : Config → ℕ → Text → Result Registration → State → State × Response
register_result c now token (err e) s = (s, error e)
register_result c now token (ok r) s = register_checked c now token r s

-- `token` is the lease token that is generated for the registration.
unfoldable pub handle_register : Config → ℕ → Text → Value → State → State × Response
unfolding register_result
handle_register c now token req s =
    register_result c now token
      (check_registration c (or_else (get_prop "participant" req) (obj end))) s
