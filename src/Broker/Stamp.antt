-- ===== src/Broker/Stamp.antt =====
-- The sender of a message is who holds the lease, whatever the request says.
use inter_agent_bus.Broker.Types.{
  invalid_or_expired_lease, State, Config, Participant, Envelope, done, error, Error,
  is_lease_valid, ok, err, Result,
}
use inter_agent_bus.Base.{
  ℕ, true, some, [], ◌∷◌, ◌≡◌, ◌⊎◌, refl, Text, arith, Option-cases, inl, inr,
}
use inter_agent_bus.Base.Maps
use inter_agent_bus.Value.{Value, get_prop, or_else, obj, end, as_text, str}
use inter_agent_bus.Ids.{is_participant_id}
use inter_agent_bus.Broker.Push.{
  live_sender, check_to, check_message_body, make_envelope, push_envelope, handle_push,
}

Result-cases {ℓ} :
    {A : Type ℓ} (r : Result A) → ((e : Error) × (r ≡ err e)) ⊎ ((a : A) × (r ≡ ok a))
Result-cases (ok a) = inr (a, refl)
Result-cases (err e) = inl (e, refl)

-- The lease of the request is in force and `p` has it.
abbrev pub Holds : ℕ → Value → State → Participant → Type 0
Holds now req s p =
    (t : Text) × (get_prop "leaseToken" req ≡ str t)
    × (Maps.get t s.participants ≡ some p)
    × (is_lease_valid now p ≡ true)

live_sender_sound :
    (now : ℕ) (v : Value) (s : State) (p : Participant)
    → live_sender now v s ≡ some p
    → (t : Text) × (v ≡ str t)
      × (Maps.get t s.participants ≡ some p)
      × (is_lease_valid now p ≡ true)
unfolding live_sender as_text
live_sender_sound now (str t) s p h = elim (Option-cases (Maps.get t s.participants)) [
  | inl e ↦ absurd (ground arith)
  | inr (q, e) ↦ (t, refl, ground arith, ground arith)
]
live_sender_sound now _ s p h = absurd (cc)

check_to-ok :
    (v : Value) (to : Text) → check_to v ≡ ok to → (v ≡ str to) × (is_participant_id to ≡ true)
unfolding check_to
check_to-ok (str s) to h = ground arith
check_to-ok _ to h = cc

check_message_body-ok : (v : Value) (b : Text) → check_message_body v ≡ ok b → v ≡ str b
unfolding check_message_body
check_message_body-ok (str []) b h = cc
check_message_body-ok (str (c ∷ s)) b h = ground arith
check_message_body-ok _ b h = cc

-- What an envelope says: the sender from the lease, the rest from the request.
abbrev pub IsStamped : Participant → Value → Envelope → Type 0
IsStamped p req e =
    (e.from ≡ p.participant_id)
    × (get_prop "to" req ≡ str e.to)
    × (is_participant_id e.to ≡ true)
    × (get_prop "body" (or_else (get_prop "message" req) (obj end)) ≡ str e.body)

make_envelope-IsStamped :
    (c : Config) (now : ℕ) (p : Participant) (req : Value) (e : Envelope)
    → make_envelope c now p req ≡ ok e
    → IsStamped p req e
unfolding make_envelope
make_envelope-IsStamped c now p req e h = ground (
  arith,
  check_to-ok (get_prop "to" req) e.to,
  check_message_body-ok (get_prop "body" (or_else (get_prop "message" req) (obj end))) e.body,
)

-- A push either is answered by an error and changes nothing, or comes from the holder of a live
-- lease and is handled as an envelope with that participant's id as the sender.
pub handle_push-IsStamped :
    (c : Config) (now : ℕ) (req : Value) (s : State)
    → ((e : Error) × (handle_push c now req s ≡ (s, done (error e))))
      ⊎ ((p : Participant) × (e : Envelope) × Holds now req s p
          × IsStamped p req e
          × (handle_push c now req s ≡ push_envelope c now e s))
unfolding handle_push
handle_push-IsStamped c now req s =
    elim (Option-cases (live_sender now (get_prop "leaseToken" req) s)) [
      | inl e ↦ inl (invalid_or_expired_lease, rw (e, handle_push))
      | inr (p, h) ↦ elim (Result-cases (make_envelope c now p req)) [
        | inl (e, f) ↦ inl (e, rw (h, handle_push, f))
        | inr (e, f) ↦ inr (
          p,
          e,
          live_sender_sound now (get_prop "leaseToken" req) s p h,
          make_envelope-IsStamped c now p req e f,
          rw (h, handle_push, f),
        )
      ]
    ]
