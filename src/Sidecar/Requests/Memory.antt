-- ===== src/Sidecar/Requests/Memory.antt =====
-- What a sidecar's requests do to the ids that it remembers.
use mathlib.Core.List.{append_assoc}
use inter_agent_bus.Base.{
  ℕ, suc, ◌≤◌, Bool, true, false, Option, List, [], ◌∷◌, ◌++◌, ◌≡◌, refl, ap, sym, ◌∙◌, Text,
  length, length-append, ltb, arith, Bool-cases, inl, inr, ◌⊎◌, subst, ◌&&◌, ==_refl, Option-cases,
}
use inter_agent_bus.Value.{Value, str, get_prop, is_text, is_nullish, truthy}
use inter_agent_bus.Auth.{timing_safe_equal_str}
use inter_agent_bus.Paths.{includes}
use inter_agent_bus.Sidecar.Render.{render_envelope}
use inter_agent_bus.Sidecar.Seen.{evict, seen_before}
use inter_agent_bus.Sidecar.Requests.{
  Sidecar, WriteError, handle_request, deliver, deliver_checked, type_if_new, type_rendered, send,
}

-- The id is remembered, with at most `n` ids behind it.
abbrev pub Remembers : Text → ℕ → List Text → Type 0
Remembers id n ids =
    (before : List Text) × (behind : List Text) × (ids ≡ before ++ id ∷ behind)
    × (length behind ≤ n)

pub includes-within :
    (id : Text) (before behind : List Text) → includes id (before ++ id ∷ behind) ≡ true
unfolding includes
includes-within id [] behind = rw (==_refl id) refl
includes-within id (x ∷ before) behind = ground (arith, includes-within id before behind)

-- The memory with one more id behind the others, before the oldest may go.
longer :
    (id x : Text) (ids before behind : List Text)
    → ids ≡ before ++ id ∷ behind
    → ids ++ x ∷ [] ≡ before ++ id ∷ (behind ++ x ∷ [])
longer id x ids before behind e =
    ap (λ (l : List Text). l ++ x ∷ []) e ∙ append_assoc before (id ∷ behind) (x ∷ [])

pub evict-behind :
    (id : Text) (n : ℕ) (before behind : List Text)
    → n ≤ 255
    → length behind ≤ n
    → Remembers id n (evict (before ++ id ∷ behind))
unfolding evict
evict-behind id n [] behind h few =
    let room : ltb 256 (length (id ∷ behind)) ≡ false = ground arith in
    rw room ([], behind, refl, few)
evict-behind id n (y ∷ before) behind h few =
    elim (Bool-cases (ltb 256 (length (y ∷ before ++ id ∷ behind)))) [
      | inl e ↦ rw e (before, behind, refl, few)
      | inr e ↦ rw e (y ∷ before, behind, refl, few)
    ]

-- One more id leaves a remembered one alone while fewer than 255 stand behind it.
pub evict-Remembers :
    (id x : Text) (n : ℕ) (ids : List Text)
    → suc n ≤ 255
    → Remembers id n ids
    → Remembers id (suc n) (evict (ids ++ x ∷ []))
evict-Remembers id x n ids h (before, behind, e, few) =
    subst (λ (l : List Text). Remembers id (suc n) (evict l))
      (sym (longer id x ids before behind e))
      (evict-behind id (suc n) before (behind ++ x ∷ []) h
        (omega (arith, length-append behind (x ∷ []))))

-- What a request may do to the ids; the token stays.
abbrev pub Adds : Sidecar → Sidecar → Type 0
Adds s s' =
    ((s'.recent_ids ≡ s.recent_ids)
      ⊎ ((x : Text) × (s'.recent_ids ≡ evict (s.recent_ids ++ x ∷ []))))
    × (s'.adapter_token ≡ s.adapter_token)

seen_before-adds :
    (id : Text) (ids : List Text)
    → ((seen_before id ids).1 ≡ ids) ⊎ ((seen_before id ids).1 ≡ evict (ids ++ id ∷ []))
unfolding seen_before
seen_before-adds id ids = elim (Bool-cases (includes id ids)) [
  | inl e ↦ rw e (inl refl)
  | inr e ↦ rw e (inr refl)
]

module _ (string_of : Value → Text) (now : ℕ) (failure : Option WriteError) where
  type_rendered-ids :
      (rendered : Text) (s : Sidecar)
      → ((type_rendered now failure rendered s).0.recent_ids ≡ s.recent_ids)
        × ((type_rendered now failure rendered s).0.adapter_token ≡ s.adapter_token)
  unfolding type_rendered
  type_rendered-ids rendered s = elim (Option-cases failure) [
    | inl e ↦ rw e (refl, refl)
    | inr (w, e) ↦ rw e (refl, refl)
  ]

  type_if_new-ids :
      (env : Value) (r : Bool × List Text) (s : Sidecar)
      → ((type_if_new string_of now failure env r s).0.recent_ids ≡ r.1)
        × ((type_if_new string_of now failure env r s).0.adapter_token ≡ s.adapter_token)
  unfolding type_if_new
  type_if_new-ids env (true, ids) s = (refl, refl)
  type_if_new-ids env (false, ids) s =
      type_rendered-ids (render_envelope string_of env) (record s { recent_ids = ids })

  type_if_new-Adds :
      (env : Value) (id : Text) (s : Sidecar)
      → Adds s (type_if_new string_of now failure env (seen_before id s.recent_ids) s).0
  type_if_new-Adds env id s =
      let (ids, token) = type_if_new-ids env (seen_before id s.recent_ids) s in
      elim (seen_before-adds id s.recent_ids) [
        | inl e ↦ (inl (ids ∙ e), token)
        | inr e ↦ (inr (id, ids ∙ e), token)
      ]

  deliver_checked-Adds :
      (env id body : Value) (s : Sidecar)
      → Adds s (deliver_checked string_of now failure env id body s).0
  unfolding deliver_checked
  deliver_checked-Adds env (str []) body s = (inl refl, refl)
  deliver_checked-Adds env (str (c ∷ id)) (str body) s = type_if_new-Adds env (c ∷ id) s
  deliver_checked-Adds env (str (c ∷ id)) body s = (inl refl, refl)
  deliver_checked-Adds env id body s = (inl refl, refl)

  deliver-Adds : (req : Value) (s : Sidecar) → Adds s (deliver string_of now failure req s).0
  unfolding deliver
  deliver-Adds req s =
      let env = get_prop "envelope" req in
      elim (Bool-cases (timing_safe_equal_str (get_prop "auth" req) (str s.adapter_token))) [
        | inl e ↦ rw e (deliver_checked-Adds env (get_prop "id" env) (get_prop "body" env) s)
        | inr e ↦ rw e (inl refl, refl)
      ]

send-same : (fresh sent_at : Text) (req : Value) (s : Sidecar) → (send fresh sent_at req s).0 ≡ s
unfolding send
send-same fresh sent_at req s = ground arith

-- A request adds at most one id.
pub handle_request-Adds :
    (string_of : Value → Text) (now : ℕ) (fresh sent_at : Text) (failure : Option WriteError)
    (req : Value) (s : Sidecar)
    → Adds s (handle_request string_of now fresh sent_at failure req s).0
unfolding handle_request
handle_request-Adds string_of now fresh sent_at failure req s =
    let same : Adds s s = (inl refl, refl) in
    let sends : Adds s (send fresh sent_at req s).0 =
      subst (λ (s' : Sidecar). Adds s s') (sym (send-same fresh sent_at req s)) same in
    let type = get_prop "type" req in
    elim (Bool-cases (is_nullish req)) [
      | inl e ↦ rw e same
      | inr e ↦ elim (Bool-cases (is_text "deliver" type && truthy (get_prop "envelope" req))) [
        | inl k ↦ rw (e, k) (deliver-Adds string_of now failure req s)
        | inr k ↦ elim (Bool-cases (is_text "send" type)) [
          | inl m ↦ rw (e, k, m) sends
          | inr m ↦ rw (e, k, m) same
        ]
      ]
    ]
