-- ===== src/Broker/Addressable/Claims.antt =====
-- The ids that registrations claim have the form of participant ids.
use inter_agent_bus.Value.{null, or_else, Value, get_prop, str}
use inter_agent_bus.Broker.Register.{
  check_adapter_token, bind_delivery, or_text_error, check_session_id, Registration,
  check_registration, check_kind, or_fail, build_participant_id, base_id, free_candidate, first_id,
}
use inter_agent_bus.Broker.Types.{
  description_too_long, invalid_description, display_name_too_long, invalid_display_name, Config,
  Result, ok, err, ◌>>=◌, Error,
}
use inter_agent_bus.Strings.{parse_optional_text}
use inter_agent_bus.Ids.Grammar.{is_handle_sound, IsSuffix, is_participant_id_iff}
use inter_agent_bus.Base.{
  Option-cases, ◌<◌, ℕ, zero, suc, ◌+◌, ◌≤◌, Bool-cases, Option, true, none, some, [], ◌∷◌, ◌++◌,
  ◌≡◌, refl, Text, inl, inr, all, length, take, arith,
}
use mathlib.Core.List.{append_assoc, append-nil}
use inter_agent_bus.Base.Maps
use inter_agent_bus.Base.Maps.{Map}
use inter_agent_bus.Ids.{
  is_participant_id, is_handle, is_hex, is_digit, colon, normalize_named_participant_id,
}
use inter_agent_bus.Ids.Slug.{normalize_named_participant_id-canonical}
use inter_agent_bus.Broker.Mail.{session_hash}

-- SHA-256 is written in hexadecimal digits, twelve at least.
abbrev pub IsHashing : Config → Type 0
IsHashing c =
    (t : Text) → (all is_hex (take 12 (c.sha256 t)) ≡ true) × (length (take 12 (c.sha256 t)) ≡ 12)

-- The kind is a handle, and the id that is asked for, if any, is valid.
pub record IsClaim (r : Registration) : Type 0 where
  pub kind : is_handle 31 r.kind ≡ true
  pub preferred : (id : Text) → r.preferred ≡ some id → is_participant_id id ≡ true

bind-ok {κ ℓ} :
    {X : Type κ} {Y : Type ℓ} (r : Result X) (f : X → Result Y) (y : Y)
    → (r >>= f) ≡ ok y
    → (x : X) × (r ≡ ok x) × (f x ≡ ok y)
bind-ok (ok x) f y h = (x, refl, h)
bind-ok (err e) f y h = absurd (cc)

check_kind-handle : (v : Value) (k : Text) → check_kind v ≡ ok k → is_handle 31 k ≡ true
unfolding check_kind
check_kind-handle (str s) k h = ground arith
check_kind-handle _ k h = cc

or_fail-some {ℓ} : {A : Type ℓ} (o : Option A) (e : Error) (a : A) → or_fail o e ≡ ok a → o ≡ some a
unfolding or_fail
or_fail-some none e a h = absurd (cc)
or_fail-some (some b) e a h = cc

normalize-valid :
    (d preferred : Option Text) (id : Text)
    → normalize_named_participant_id d ≡ some preferred
    → preferred ≡ some id
    → is_participant_id id ≡ true
normalize-valid none preferred id h k = absurd (unfold normalize_named_participant_id in cc)
normalize-valid (some value) preferred id h k =
    (normalize_named_participant_id-canonical value id (rw (← k) h)).0

pub check_registration-IsClaim :
    (c : Config) (p : Value) (r : Registration) → check_registration c p ≡ ok r → IsClaim r
unfolding check_registration
check_registration-IsClaim c p r h0 =
    let (kind, e0, h1) = bind-ok (check_kind (get_prop "kind" p)) _ r h0 in
    let (session, e1, h2) = bind-ok (check_session_id (get_prop "sessionId" p)) _ r h1 in
    let (name, e2, h3) =
      bind-ok
        (or_text_error (parse_optional_text (get_prop "displayName" p) 64) invalid_display_name
          display_name_too_long)
        _ r h2 in
    let (text, e3, h4) =
      bind-ok
        (or_text_error (parse_optional_text (get_prop "description" p) 200) invalid_description
          description_too_long)
        _ r h3 in
    let (preferred, e4, h5) =
      bind-ok (or_fail (normalize_named_participant_id name) invalid_display_name) _ r h4 in
    let (delivery, e5, h6) =
      bind-ok (bind_delivery c session (or_else (get_prop "delivery" p) null)) _ r h5 in
    let (passed, e6, h7) = bind-ok (check_adapter_token delivery) _ r h6 in
    let same_kind : r.kind ≡ kind = cc in
    let same_preferred : r.preferred ≡ preferred = cc in
    record {
      kind = rw same_kind (check_kind-handle (get_prop "kind" p) kind e0);
      preferred = λ id k.
          normalize-valid name preferred id
            (or_fail-some (normalize_named_participant_id name) invalid_display_name preferred e4)
            (rw (← same_preferred) k);
    }

base_id-suffix :
    (c : Config) (kind session_id d : Text)
    → IsHashing c
    → is_handle 31 kind ≡ true
    → IsSuffix d
    → is_participant_id (base_id c kind session_id ++ d) ≡ true
unfolding base_id session_hash
base_id-suffix c kind session_id d hash k suffix =
    let h = take 12 (c.sha256 session_id) in
    (is_participant_id_iff (base_id c kind session_id ++ d)).1 (
      inr (
        kind,
        h,
        d,
        append_assoc kind (colon ∷ h) d,
        is_handle_sound 31 kind k,
        (hash session_id).0,
        (hash session_id).1,
        suffix,
      ))

digit-IsSuffix : (i : ℕ) → i < 10 → IsSuffix ((b'0' + i) ∷ [])
unfolding is_digit
digit-IsSuffix i h = inr (b'0' + i, refl, ground arith)

free_candidate-valid :
    (c : Config) (kind session_id : Text) (by_id : Map Text) (id : Text) (n i : ℕ)
    → IsHashing c
    → is_handle 31 kind ≡ true
    → n + i ≤ 10
    → free_candidate n i (base_id c kind session_id) by_id ≡ some id
    → is_participant_id id ≡ true
unfolding free_candidate
free_candidate-valid c kind session_id by_id id zero i hash k short h = absurd (cc)
free_candidate-valid c kind session_id by_id id (suc n) i hash k short h =
    let base = base_id c kind session_id in
    let candidate = base ++ (b'0' + i) ∷ [] in
    let valid =
      base_id-suffix c kind session_id ((b'0' + i) ∷ []) hash k (digit-IsSuffix i (omega arith)) in
    elim (Bool-cases (Maps.has candidate by_id)) [
      | inl e ↦
          free_candidate-valid c kind session_id by_id id n (i + 1) hash k (omega arith)
            (ground arith)
      | inr e ↦ let same : candidate ≡ id = ground arith in rw (← same) valid
    ]

build_participant_id-valid :
    (c : Config) (kind session_id : Text) (by_id : Map Text) (id : Text)
    → IsHashing c
    → is_handle 31 kind ≡ true
    → build_participant_id c kind session_id by_id ≡ some id
    → is_participant_id id ≡ true
unfolding build_participant_id
build_participant_id-valid c kind session_id by_id id hash k h =
    let base = base_id c kind session_id in
    elim (Bool-cases (Maps.has base by_id)) [
      | inl e ↦
          free_candidate-valid c kind session_id by_id id 10 0 hash k (omega arith) (ground arith)
      | inr e ↦
          let same : base ≡ id = ground arith in
          rw (← same, ← append-nil base) (base_id-suffix c kind session_id [] hash k (inl refl))
    ]

-- The id that a new session is given.
pub first_id-valid :
    (c : Config) (r : Registration) (by_id : Map Text) (id : Text)
    → IsHashing c
    → IsClaim r
    → first_id c r by_id ≡ some id
    → is_participant_id id ≡ true
unfolding first_id
first_id-valid c r by_id id hash k h = elim (Option-cases r.preferred) [
  | inl e ↦
      build_participant_id-valid c r.kind r.session_id by_id id hash k.kind (ground (arith, e))
  | inr (p, e) ↦ k.preferred id (ground (arith, e))
]
