-- ===== src/Sidecar/Requests/Turns.antt =====
-- When the Enters come that submit what was typed.
use mathlib.Core.List.{append_assoc}
use inter_agent_bus.Base.{
  ℕ, ◌+◌, ◌≤◌, true, false, none, List, [], ◌∷◌, ◌++◌, ◌≡◌, refl, ap, ◌∙◌, Text, leb, arith,
  if◌then◌else◌, Bool-cases, inl, inr, le→leb,
}
use inter_agent_bus.Value.{Value, get_prop}
use inter_agent_bus.Auth.Exact.{IsAscii}
use inter_agent_bus.Paths.{includes}
use inter_agent_bus.Sidecar.Render.{render_envelope}
use inter_agent_bus.Sidecar.Seen.{evict}
use inter_agent_bus.Sidecar.Requests.{
  Sidecar, Answer, accepted, type_rendered, type_if_new, handle_request, elapse, press, enter,
  submit_delay_ms,
}
use inter_agent_bus.Sidecar.Requests.Authority.{Delivers, handle_request-deliver, seen_before-new}

-- A delivery that goes through.
abbrev took : (Value → Text) → ℕ → Value → Text → Sidecar → Sidecar
took string_of now req id s = record s {
  recent_ids = evict (s.recent_ids ++ id ∷ []);
  typed = s.typed ++ render_envelope string_of (get_prop "envelope" req);
  due = s.due ++ (now + submit_delay_ms) ∷ [];
}

deliver-took :
    (string_of : Value → Text) (now : ℕ) (fresh sent_at : Text) (req : Value) (s : Sidecar)
    (id body : Text)
    → IsAscii s.adapter_token
    → Delivers s req id body
    → includes id s.recent_ids ≡ false
    → handle_request string_of now fresh sent_at none req s
      ≡ (took string_of now req id s, accepted)
deliver-took string_of now fresh sent_at req s id body h d new =
    handle_request-deliver string_of now fresh sent_at none req s id body h d
    ∙ (ap (λ r. type_if_new string_of now none (get_prop "envelope" req) r s)
          (seen_before-new id s.recent_ids new)
        ∙ (unfold type_if_new in unfold type_rendered in refl))

-- Two deliveries, `first` at the time `t` and `second` at the time `t'`, and then a pause: the
-- timers that are due by `t'` have run before the second one.
unfoldable pub two_deliveries :
    (Value → Text) → Text → Text → ℕ → Value → ℕ → Value → ℕ → Sidecar → Sidecar
two_deliveries string_of fresh sent_at t first t' second t'' s =
    let after_first = elapse t' (handle_request string_of t fresh sent_at none first s).0 in
    elapse t'' (handle_request string_of t' fresh sent_at none second after_first).0

elapse-one-late :
    (now t : ℕ) (s : Sidecar)
    → leb t now ≡ true
    → elapse now (record s { due = t ∷ [] }) ≡ record s { typed = s.typed ++ enter ∷ []; due = [] }
unfolding elapse press
elapse-one-late now t s h = simp h refl

elapse-one-early :
    (now t : ℕ) (s : Sidecar)
    → leb t now ≡ false
    → elapse now (record s { due = t ∷ [] }) ≡ record s { typed = s.typed ++ []; due = t ∷ [] }
unfolding elapse press
elapse-one-early now t s h = simp h refl

elapse-two-late :
    (now t t' : ℕ) (s : Sidecar)
    → leb t now ≡ true
    → leb t' now ≡ true
    → elapse now (record s { due = t ∷ t' ∷ [] })
      ≡ record s { typed = s.typed ++ enter ∷ enter ∷ []; due = [] }
unfolding elapse press
elapse-two-late now t t' s h k = simp (h, k) refl

regroup : (a b c d e : Text) → (((a ++ b) ++ c) ++ d) ++ e ≡ a ++ (b ++ (c ++ (d ++ e)))
regroup a b c d e = simp append_assoc refl

two_late :
    (string_of : Value → Text) (fresh sent_at : Text) (t t' t'' : ℕ) (first second : Value)
    (s : Sidecar) (id id' body body' : Text)
    → IsAscii s.adapter_token
    → Delivers s first id body
    → includes id s.recent_ids ≡ false
    → Delivers s second id' body'
    → includes id' (evict (s.recent_ids ++ id ∷ [])) ≡ false
    → leb (t + submit_delay_ms) t' ≡ true
    → leb (t' + submit_delay_ms) t'' ≡ true
    → let line = render_envelope string_of (get_prop "envelope" first) in
      let line' = render_envelope string_of (get_prop "envelope" second) in
      (two_deliveries string_of fresh sent_at t first t' second t'' (record s { due = [] })).typed
      ≡ s.typed ++ (line ++ enter ∷ (line' ++ enter ∷ []))
unfolding two_deliveries
two_late string_of fresh sent_at t t' t'' first second s id id' body body' h d new d' new' e e' =
    let s1 = took string_of t first id (record s { due = [] }) in
    let s2 = record s1 { typed = s1.typed ++ enter ∷ []; due = [] } in
    let line = render_envelope string_of (get_prop "envelope" first) in
    let line' = render_envelope string_of (get_prop "envelope" second) in
    ap
      (λ (r : Sidecar × Answer).
        (elapse t''
          (handle_request string_of t' fresh sent_at none second (elapse t' r.0)).0).typed)
      (deliver-took string_of t fresh sent_at first (record s { due = [] }) id body h d new)
    ∙ (ap
          (λ (r : Sidecar).
            (elapse t'' (handle_request string_of t' fresh sent_at none second r).0).typed)
          (elapse-one-late t' (t + submit_delay_ms) s1 e)
        ∙ (ap (λ (r : Sidecar × Answer). (elapse t'' r.0).typed)
              (deliver-took string_of t' fresh sent_at second s2 id' body' h d' new')
            ∙ (ap (λ (r : Sidecar). r.typed)
                  (elapse-one-late t'' (t' + submit_delay_ms) (took string_of t' second id' s2) e')
                ∙ regroup s.typed line (enter ∷ []) line' (enter ∷ []))))

two_early :
    (string_of : Value → Text) (fresh sent_at : Text) (t t' t'' : ℕ) (first second : Value)
    (s : Sidecar) (id id' body body' : Text)
    → IsAscii s.adapter_token
    → Delivers s first id body
    → includes id s.recent_ids ≡ false
    → Delivers s second id' body'
    → includes id' (evict (s.recent_ids ++ id ∷ [])) ≡ false
    → leb (t + submit_delay_ms) t' ≡ false
    → leb (t + submit_delay_ms) t'' ≡ true
    → leb (t' + submit_delay_ms) t'' ≡ true
    → let line = render_envelope string_of (get_prop "envelope" first) in
      let line' = render_envelope string_of (get_prop "envelope" second) in
      (two_deliveries string_of fresh sent_at t first t' second t'' (record s { due = [] })).typed
      ≡ s.typed ++ (line ++ (line' ++ enter ∷ enter ∷ []))
unfolding two_deliveries
two_early string_of fresh sent_at t t' t'' first second s id id' body body' h d new d' new' e f e' =
    let s1 = took string_of t first id (record s { due = [] }) in
    let s2 = record s1 { typed = s1.typed ++ [] } in
    let line = render_envelope string_of (get_prop "envelope" first) in
    let line' = render_envelope string_of (get_prop "envelope" second) in
    ap
      (λ (r : Sidecar × Answer).
        (elapse t''
          (handle_request string_of t' fresh sent_at none second (elapse t' r.0)).0).typed)
      (deliver-took string_of t fresh sent_at first (record s { due = [] }) id body h d new)
    ∙ (ap
          (λ (r : Sidecar).
            (elapse t'' (handle_request string_of t' fresh sent_at none second r).0).typed)
          (elapse-one-early t' (t + submit_delay_ms) s1 e)
        ∙ (ap (λ (r : Sidecar × Answer). (elapse t'' r.0).typed)
              (deliver-took string_of t' fresh sent_at second s2 id' body' h d' new')
            ∙ (ap (λ (r : Sidecar). r.typed)
                  (elapse-two-late t'' (t + submit_delay_ms) (t' + submit_delay_ms)
                    (took string_of t' second id' s2) f e')
                ∙ regroup s.typed line [] line' (enter ∷ enter ∷ []))))

-- The lines of two deliveries are submitted one by one if the second comes at least the delay
-- behind the first. If it comes sooner, both lines are typed before the first Enter, and the
-- second Enter submits nothing.
pub two_deliveries-typed :
    (string_of : Value → Text) (fresh sent_at : Text) (t t' t'' : ℕ) (first second : Value)
    (s : Sidecar) (id id' body body' : Text)
    → IsAscii s.adapter_token
    → s.due ≡ []
    → Delivers s first id body
    → includes id s.recent_ids ≡ false
    → Delivers s second id' body'
    → includes id' (evict (s.recent_ids ++ id ∷ [])) ≡ false
    → t ≤ t'
    → t' + submit_delay_ms ≤ t''
    → let line = render_envelope string_of (get_prop "envelope" first) in
      let line' = render_envelope string_of (get_prop "envelope" second) in
      (two_deliveries string_of fresh sent_at t first t' second t'' s).typed
      ≡ s.typed
        ++ (if leb (t + submit_delay_ms) t'
            then line ++ enter ∷ (line' ++ enter ∷ [])
            else line ++ (line' ++ enter ∷ enter ∷ []))
unfolding two_deliveries
two_deliveries-typed string_of fresh sent_at t t' t'' first second s id id' body body' h idle d new
      d' new' le le' =
    rw (ap (λ (l : List ℕ). record s { due = l }) idle)
      (elim (Bool-cases (leb (t + submit_delay_ms) t')) [
        | inl e ↦ rw e (
            two_late string_of fresh sent_at t t' t'' first second s id id' body body' h d new d'
              new' e (le→leb (t' + submit_delay_ms) t'' le'))
        | inr e ↦ rw e (
            two_early string_of fresh sent_at t t' t'' first second s id id' body body' h d new d'
              new' e (ground arith) (le→leb (t' + submit_delay_ms) t'' le'))
      ])
