-- ===== src/Control/Gate.antt =====
-- What the gate of the control socket keeps out.
use inter_agent_bus.Base.{
  Bool, true, false, not, ◌&&◌, some, ◌≡◌, ◌≢◌, refl, Text, arith, if◌then◌else◌, Bool-cases, inl,
  inr, ◌⊎◌, ◌∙◌,
}
use inter_agent_bus.Value.{Value, str, obj, get_prop, truthy, is_text}
use inter_agent_bus.Auth.{timing_safe_equal_str}
use inter_agent_bus.Auth.Exact.{IsAscii, timing_safe_equal_str_iff}
use inter_agent_bus.Control.{
  Outcome, returned, threw, unauthorized, is_privileged, serve_parsed, write_outcome,
}

module _ {ℓ} {S : Type ℓ} (handle_request : Value → S → S × Outcome) (token : Text)
    (logs : Bool) where
  -- A handler that changes nothing on requests that are not privileged.
  abbrev pub LeavesOthers : Type ℓ
  LeavesOthers =
      (req : Value) (s : S)
      → is_privileged (get_prop "type" req) ≡ false
      → (handle_request req s).0 ≡ s

  serve_parsed-handled :
      (req : Value) (s : S)
      → truthy req
          && is_privileged (get_prop "type" req)
          && not (timing_safe_equal_str (get_prop "auth" req) (str token))
        ≡ false
      → serve_parsed handle_request token logs (some req) s
        ≡ write_outcome logs req (handle_request req s)
  unfolding serve_parsed
  serve_parsed-handled req s h = rw h refl

  serve_parsed-kept_out :
      (req : Value) (s : S)
      → truthy req
          && is_privileged (get_prop "type" req)
          && not (timing_safe_equal_str (get_prop "auth" req) (str token))
        ≡ true
      → serve_parsed handle_request token logs (some req) s ≡ (s, unauthorized)
  unfolding serve_parsed
  serve_parsed-kept_out req s h = rw h refl

  write_outcome-state : (req : Value) (r : S × Outcome) → (write_outcome logs req r).0 ≡ r.0
  unfolding write_outcome
  write_outcome-state req (s, returned v) = refl
  write_outcome-state req (s, threw m) = refl

  privileged_is_truthy :
      (req : Value) → is_privileged (get_prop "type" req) ≡ true → truthy req ≡ true
  unfolding is_privileged is_text get_prop truthy
  privileged_is_truthy (obj fs) h = refl
  privileged_is_truthy _ h = cc

  -- A request with any other token than the server's leaves the session as it is, if the session's
  -- handler changes it only on privileged requests; a privileged one is rejected, and never handled.
  pub serve_parsed-unauthorized :
      (req : Value) (s : S)
      → IsAscii token
      → LeavesOthers
      → get_prop "auth" req ≢ str token
      → ((serve_parsed handle_request token logs (some req) s).0 ≡ s)
        × ((serve_parsed handle_request token logs (some req) s).1 ≡ (
            if is_privileged (get_prop "type" req)
            then unauthorized
            else (write_outcome logs req (handle_request req s)).1))
  serve_parsed-unauthorized req s h leaves k =
      let refused : timing_safe_equal_str (get_prop "auth" req) (str token) ≡ false =
        ground (arith, timing_safe_equal_str_iff (get_prop "auth" req) token h, k) in
      elim (Bool-cases (is_privileged (get_prop "type" req))) [
        | inl e ↦
            let out =
              serve_parsed-kept_out req s
                (ground (arith, refused, e, privileged_is_truthy req e)) in
            rw (out, e) (refl, refl)
        | inr e ↦
            let run = serve_parsed-handled req s (ground (arith, e)) in
            rw (run, e) (write_outcome-state req (handle_request req s) ∙ leaves req s e, refl)
      ]

  -- A request with the server's token, and one that is not privileged, is answered by what the
  -- session's handler makes of it.
  pub serve_parsed-authorized :
      (req : Value) (s : S)
      → IsAscii token
      → (get_prop "auth" req ≡ str token) ⊎ (is_privileged (get_prop "type" req) ≡ false)
      → serve_parsed handle_request token logs (some req) s
        ≡ write_outcome logs req (handle_request req s)
  serve_parsed-authorized req s h (inl e) =
      let passed = (timing_safe_equal_str_iff (get_prop "auth" req) token h).1 e in
      serve_parsed-handled req s (ground (arith, passed))
  serve_parsed-authorized req s h (inr e) = serve_parsed-handled req s (ground (arith, e))
