-- ===== src/Control.antt =====
-- adapters/session-control.js: a line on a control socket, the gate before privileged requests, and
-- the answer that is written.
pub mod Gate
pub mod Log
pub mod Server
use inter_agent_bus.Base.{
  ℕ, Bool, true, false, not, ◌&&◌, ◌||◌, Option, none, some, List, [], ◌∷◌, Text, codes, ◌==◌,
  if◌then◌else◌,
}
use inter_agent_bus.Value.{
  Value, undefined, null, str, obj, field, end, get_prop, is_text, is_nullish, truthy,
}
use inter_agent_bus.Auth.{timing_safe_equal_str}

-- What the session's own handler does: it returns, or throws.
pub data Outcome : Type 0 where
  returned : Value → Outcome
  threw : Text → Outcome

-- What is written for a line; nothing if the handler of an exception throws itself.
pub data Written : Type 0 where
  invalid_json unauthorized nothing : Written
  response : Value → Written
  failed : Text → Written

-- `PRIVILEGED_CONTROL_TYPES`
unfoldable pub is_privileged : Value → Bool
is_privileged type = is_text "enable" type || is_text "disable" type || is_text "whoami" type

abbrev pub ok_response : Value
ok_response = obj (field (codes "status") (str (codes "ok")) end)

unfoldable pub reason_of : Text → Text
reason_of [] = codes "control_request_failed"
reason_of (c ∷ message) = c ∷ message

module _ {ℓ} {S : Type ℓ} where
  -- With a logger, reading the type of `null` for the log throws again.
  unfoldable pub write_outcome : Bool → Value → S × Outcome → S × Written
  write_outcome logs req (s, returned v) = (s, response (if truthy v then v else ok_response))
  write_outcome logs req (s, threw message) =
      (s, if logs && is_nullish req then nothing else failed (reason_of message))

  unfoldable pub serve_parsed :
      (Value → S → S × Outcome) → Text → Bool → Option Value → S → S × Written
  unfolding write_outcome
  serve_parsed handle_request control_token logs none s = (s, invalid_json)
  serve_parsed handle_request control_token logs (some req) s =
      if truthy req
        && is_privileged (get_prop "type" req)
        && not (timing_safe_equal_str (get_prop "auth" req) (str control_token))
      then (s, unauthorized)
      else write_outcome logs req (handle_request req s)
