-- ===== src/Sidecar/Requests/Once.antt =====
-- A message is typed once, as long as its id is remembered.
use inter_agent_bus.Base.{
  ℕ, suc, ◌+◌, ◌≤◌, true, false, Option, List, [], ◌∷◌, ◌++◌, ◌≡◌, refl, ap, sym, ◌∙◌, Text, arith,
  inl, inr, subst,
}
use inter_agent_bus.Value.{Value, str, get_prop}
use inter_agent_bus.Auth.Exact.{IsAscii}
use inter_agent_bus.Paths.{includes}
use inter_agent_bus.Sidecar.Render.{render_envelope}
use inter_agent_bus.Sidecar.Requests.{
  Sidecar, WriteError, rejected, duplicate, handle_request, elapse,
}
use inter_agent_bus.Sidecar.Requests.Authority.{
  Delivers, written_part, delivered_answer, handle_request-first, handle_request-known,
}
use inter_agent_bus.Sidecar.Requests.Memory.{
  Remembers, includes-within, evict-behind, evict-Remembers, Adds, handle_request-Adds,
}

-- What happens to a sidecar: a request with its time, the id and the time that a send would make up,
-- and what becomes of a write; time passes; the client gets a lease, or loses it.
pub data Event : Type 0 where
  request : ℕ → Text → Text → Option WriteError → Value → Event
  passes : ℕ → Event
  leased : Option Value → Event

-- How many requests there are.
abbrev pub requests : List Event → ℕ
requests [] = 0
requests (request now fresh sent_at failure req ∷ es) = suc (requests es)
requests (passes now ∷ es) = requests es
requests (leased lease ∷ es) = requests es

step : (Value → Text) → Event → Sidecar → Sidecar
step string_of (request now fresh sent_at failure req) s =
    (handle_request string_of now fresh sent_at failure req s).0
step string_of (passes now) s = elapse now s
step string_of (leased lease) s = record s { lease = lease }

-- A sidecar while it runs.
unfoldable pub after : (Value → Text) → List Event → Sidecar → Sidecar
unfolding step
after string_of [] s = s
after string_of (e ∷ es) s = after string_of es (step string_of e s)

Adds-Remembers :
    (id : Text) (n : ℕ) (s s' : Sidecar)
    → suc n ≤ 255
    → Adds s s'
    → Remembers id n s.recent_ids
    → Remembers id (suc n) s'.recent_ids
Adds-Remembers id n s s' h (inl e, token) (before, behind, split, few) =
    (before, behind, e ∙ split, omega (arith, few))
Adds-Remembers id n s s' h (inr (x, e), token) r =
    subst (λ (l : List Text). Remembers id (suc n) l) (sym e)
      (evict-Remembers id x n s.recent_ids h r)

after-Remembers :
    (string_of : Value → Text) (es : List Event) (id : Text) (n : ℕ) (s : Sidecar)
    → requests es + n ≤ 255
    → Remembers id n s.recent_ids
    → (includes id (after string_of es s).recent_ids ≡ true)
      × ((after string_of es s).adapter_token ≡ s.adapter_token)
unfolding after elapse
after-Remembers string_of [] id n s h (before, behind, e, few) =
    (ap (includes id) e ∙ includes-within id before behind, refl)
after-Remembers string_of (request now fresh sent_at failure req ∷ es) id n s h r =
    let s' = (handle_request string_of now fresh sent_at failure req s).0 in
    let adds = handle_request-Adds string_of now fresh sent_at failure req s in
    let (known, token) =
      after-Remembers string_of es id (suc n) s' (omega (arith, h))
        (Adds-Remembers id n s s' (omega (arith, h)) adds r) in
    (known, token ∙ adds.1)
after-Remembers string_of (passes now ∷ es) id n s h r =
    after-Remembers string_of es id n (elapse now s) h r
after-Remembers string_of (leased lease ∷ es) id n s h r =
    after-Remembers string_of es id n (record s { lease = lease }) h r

-- Under the sidecar's token, an ASCII text, a delivery of an envelope whose id is not remembered
-- types its rendered line, or as much of it as could be written, and is accepted exactly if no write
-- failed. In either case a later delivery with this id is rejected as a duplicate and types nothing,
-- whatever happens in between, time that passes and at most 255 requests of any kind, as long as the
-- sidecar runs.
pub handle_request-once :
    (string_of : Value → Text) (now now' : ℕ) (fresh sent_at fresh' sent_at' : Text)
    (failure failure' : Option WriteError) (req req' : Value) (meanwhile : List Event) (s : Sidecar)
    (id body body' : Text)
    → IsAscii s.adapter_token
    → Delivers s req id body
    → includes id s.recent_ids ≡ false
    → requests meanwhile ≤ 255
    → Delivers s req' id body'
    → let result = handle_request string_of now fresh sent_at failure req s in
      let later = after string_of meanwhile result.0 in
      (result.0.typed
        ≡ s.typed ++ written_part failure (render_envelope string_of (get_prop "envelope" req)))
      × (result.1 ≡ delivered_answer failure)
      × (handle_request string_of now' fresh' sent_at' failure' req' later
          ≡ (later, rejected duplicate))
handle_request-once string_of now now' fresh sent_at fresh' sent_at' failure failure' req req'
      meanwhile s id body body' h d new few (type, env, auth, e_id, some_id, e_body) =
    let s' = (handle_request string_of now fresh sent_at failure req s).0 in
    let (typed, answer, ids, token) =
      handle_request-first string_of now fresh sent_at failure req s id body h d new in
    let first : Remembers id 0 s'.recent_ids =
      subst (λ (l : List Text). Remembers id 0 l) (sym ids)
        (evict-behind id 0 s.recent_ids [] (omega arith) (omega arith)) in
    let (known, kept) = after-Remembers string_of meanwhile id 0 s' (omega (arith, few)) first in
    let own = kept ∙ token in
    (
      typed,
      answer,
      handle_request-known string_of now' fresh' sent_at' failure' req'
          (after string_of meanwhile s') id body' (subst (λ (t : Text). IsAscii t) (sym own) h)
          (type, env, auth ∙ ap str (sym own), e_id, some_id, e_body) known,
    )
