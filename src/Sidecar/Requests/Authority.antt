-- ===== src/Sidecar/Requests/Authority.antt =====
-- Who may have something typed: the holder of the token, once for an id.
use inter_agent_bus.Base.{
  ℕ, ◌<◌, true, false, ◌&&◌, Option, none, some, List, [], ◌∷◌, ◌++◌, ◌≡◌, ◌≢◌, refl, ap, ◌∙◌, Text,
  length, take, arith, if◌then◌else◌,
}
use inter_agent_bus.Value.{Value, str, undefined, null, obj, get_prop, is_text, is_nullish, truthy}
use inter_agent_bus.Auth.{timing_safe_equal_str}
use inter_agent_bus.Auth.Exact.{IsAscii, timing_safe_equal_str_iff}
use inter_agent_bus.Paths.{includes}
use inter_agent_bus.Sidecar.Render.{render_envelope}
use inter_agent_bus.Sidecar.Seen.{evict, seen_before}
use inter_agent_bus.Sidecar.Requests.{
  Sidecar, WriteError, Answer, rejected, accepted, no_answer, unauthorized, duplicate, write_error,
  unknown_type, type_rendered, type_if_new, deliver_checked, deliver, send, handle_request,
}

-- How a request with no authority is answered.
abbrev pub refusal : Value → Answer
refusal req =
    let type = get_prop "type" req in
    if is_nullish req
    then no_answer
    else if is_text "deliver" type && truthy (get_prop "envelope" req)
    then rejected unauthorized
    else if is_text "send" type
    then rejected unauthorized
    else rejected unknown_type

-- A request that delivers an envelope with an id and a text, under the sidecar's token.
abbrev pub Delivers : Sidecar → Value → Text → Text → Type 0
Delivers s req id body =
    (is_text "deliver" (get_prop "type" req) ≡ true)
    × (truthy (get_prop "envelope" req) ≡ true)
    × (get_prop "auth" req ≡ str s.adapter_token)
    × (get_prop "id" (get_prop "envelope" req) ≡ str id)
    × (0 < length id)
    × (get_prop "body" (get_prop "envelope" req) ≡ str body)

module _ (string_of : Value → Text) (now : ℕ) (fresh sent_at : Text)
    (failure : Option WriteError) where
  deliver-unauthorized :
      (req : Value) (s : Sidecar)
      → timing_safe_equal_str (get_prop "auth" req) (str s.adapter_token) ≡ false
      → deliver string_of now failure req s ≡ (s, rejected unauthorized)
  unfolding deliver
  deliver-unauthorized req s h = ground arith

  send-unauthorized :
      (req : Value) (s : Sidecar)
      → timing_safe_equal_str (get_prop "auth" req) (str s.adapter_token) ≡ false
      → send fresh sent_at req s ≡ (s, rejected unauthorized)
  unfolding send
  send-unauthorized req s h = ground arith

  -- A request with any other token than the sidecar's changes nothing and types nothing: it is
  -- rejected as unauthorized if it would deliver or send, and otherwise as unknown, or not
  -- answered.
  pub handle_request-unauthorized :
      (req : Value) (s : Sidecar)
      → IsAscii s.adapter_token
      → get_prop "auth" req ≢ str s.adapter_token
      → handle_request string_of now fresh sent_at failure req s ≡ (s, refusal req)
  unfolding handle_request
  handle_request-unauthorized req s h k =
      let refused : timing_safe_equal_str (get_prop "auth" req) (str s.adapter_token) ≡ false =
        ground (arith, timing_safe_equal_str_iff (get_prop "auth" req) s.adapter_token h, k) in
      ground (arith, deliver-unauthorized req s refused, send-unauthorized req s refused)

  typed_is_object :
      (req : Value) → is_text "deliver" (get_prop "type" req) ≡ true → is_nullish req ≡ false
  unfolding get_prop is_text is_nullish
  typed_is_object (obj fs) h = refl
  typed_is_object undefined h = cc
  typed_is_object null h = cc
  typed_is_object _ h = refl

  deliver_checked-text :
      (env : Value) (id body : Text) (s : Sidecar)
      → 0 < length id
      → deliver_checked string_of now failure env (str id) (str body) s
        ≡ type_if_new string_of now failure env (seen_before id s.recent_ids) s
  unfolding deliver_checked
  deliver_checked-text env [] body s h = absurd (omega arith)
  deliver_checked-text env (c ∷ id) body s h = refl

  pub handle_request-deliver :
      (req : Value) (s : Sidecar) (id body : Text)
      → IsAscii s.adapter_token
      → Delivers s req id body
      → handle_request string_of now fresh sent_at failure req s
        ≡ type_if_new string_of now failure
            (get_prop "envelope" req)
            (seen_before id s.recent_ids)
            s
  unfolding handle_request deliver
  handle_request-deliver req s id body h (type, env, auth, e_id, some_id, e_body) =
      let passed = (timing_safe_equal_str_iff (get_prop "auth" req) s.adapter_token h).1 auth in
      rw (typed_is_object req type, type, env, passed, e_id, e_body)
        (deliver_checked-text (get_prop "envelope" req) id body s some_id)

-- What of a line has been written when a write fails, or all of it.
abbrev pub written_part : Option WriteError → Text → Text
written_part none rendered = rendered
written_part (some e) rendered = take e.at rendered

abbrev pub delivered_answer : Option WriteError → Answer
delivered_answer none = accepted
delivered_answer (some e) = rejected (write_error e.message)

type_if_new-first :
    (string_of : Value → Text) (now : ℕ) (failure : Option WriteError) (env : Value)
    (ids : List Text) (s : Sidecar)
    → let result = type_if_new string_of now failure env (false, ids) s in
      (result.0.typed ≡ s.typed ++ written_part failure (render_envelope string_of env))
      × (result.1 ≡ delivered_answer failure)
      × (result.0.recent_ids ≡ ids)
      × (result.0.adapter_token ≡ s.adapter_token)
unfolding type_if_new type_rendered
type_if_new-first string_of now none env ids s = (refl, refl, refl, refl)
type_if_new-first string_of now (some e) env ids s = (refl, refl, refl, refl)

pub seen_before-new :
    (id : Text) (ids : List Text)
    → includes id ids ≡ false
    → seen_before id ids ≡ (false, evict (ids ++ id ∷ []))
unfolding seen_before
seen_before-new id ids h = rw h refl

seen_before-known :
    (id : Text) (ids : List Text) → includes id ids ≡ true → seen_before id ids ≡ (true, ids)
unfolding seen_before
seen_before-known id ids h = rw h refl

pub handle_request-known :
    (string_of : Value → Text) (now : ℕ) (fresh sent_at : Text) (failure : Option WriteError)
    (req : Value) (s : Sidecar) (id body : Text)
    → IsAscii s.adapter_token
    → Delivers s req id body
    → includes id s.recent_ids ≡ true
    → handle_request string_of now fresh sent_at failure req s ≡ (s, rejected duplicate)
handle_request-known string_of now fresh sent_at failure req s id body h d known =
    handle_request-deliver string_of now fresh sent_at failure req s id body h d
    ∙ (ap (λ r. type_if_new string_of now failure (get_prop "envelope" req) r s)
          (seen_before-known id s.recent_ids known)
        ∙ (unfold type_if_new in refl))

-- A delivery of an envelope whose id is not remembered types its rendered line, or as much of it
-- as could be written, and is accepted exactly if no write failed; in either case the id is
-- remembered.
pub handle_request-first :
    (string_of : Value → Text) (now : ℕ) (fresh sent_at : Text) (failure : Option WriteError)
    (req : Value) (s : Sidecar) (id body : Text)
    → IsAscii s.adapter_token
    → Delivers s req id body
    → includes id s.recent_ids ≡ false
    → let result = handle_request string_of now fresh sent_at failure req s in
      (result.0.typed
        ≡ s.typed ++ written_part failure (render_envelope string_of (get_prop "envelope" req)))
      × (result.1 ≡ delivered_answer failure)
      × (result.0.recent_ids ≡ evict (s.recent_ids ++ id ∷ []))
      × (result.0.adapter_token ≡ s.adapter_token)
handle_request-first string_of now fresh sent_at failure req s id body h d new =
    let env = get_prop "envelope" req in
    let same =
      handle_request-deliver string_of now fresh sent_at failure req s id body h d
      ∙ ap (λ r. type_if_new string_of now failure env r s) (seen_before-new id s.recent_ids new) in
    rw same (type_if_new-first string_of now failure env (evict (s.recent_ids ++ id ∷ [])) s)
