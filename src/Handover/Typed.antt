-- ===== src/Handover/Typed.antt =====
-- A message that the broker delivers is typed once, with the sender that the broker stamped on it.
use inter_agent_bus.Base.{
  ℕ, ◌<◌, Bool, true, false, ◌||◌, Option, none, some, List, [], ◌∷◌, ◌++◌, ◌≡◌, refl, ap, ◌∙◌,
  Text, codes, ◌==◌, length, arith, if◌then◌else◌,
}
use inter_agent_bus.Base.Maps
use inter_agent_bus.Value.{
  Value, obj, field, end, str, get_prop, lookup, is_text, truthy, is_nullish,
}
use inter_agent_bus.Auth.Exact.{IsAscii}
use inter_agent_bus.Paths.{includes}
use inter_agent_bus.Broker.Types.{
  Config, State, Participant, Envelope, Chain, Job, push, flush, Response, delivered, queued,
}
use inter_agent_bus.Broker.Mail.{queue_of}
use inter_agent_bus.Broker.Delivery.{
  answered, connect, dial, deliver_frame, forward, receive, attempt_forward, finish_delivery,
}
use inter_agent_bus.Broker.Settled.{key_of, requeued, told, is_accepted, finish_delivery-Settles}
use inter_agent_bus.Sidecar.Render.{render_envelope}
use inter_agent_bus.Sidecar.Requests.{Sidecar, WriteError, Answer, rejected, write_error, duplicate}
use inter_agent_bus.Sidecar.Requests.Authority.{Delivers, written_part, delivered_answer}
use inter_agent_bus.Sidecar.Requests.Once.{after, handle_request-once}
use inter_agent_bus.Handover.{
  envelope_value, frame_value, answer_value, outcome_of, envelope_of, hand_over, reason_text,
}

-- What the sender of a push is told, by how the sidecar's write went.
abbrev pub told_of : Option WriteError → Job → Option Response
told_of failure (flush hash entry) = none
told_of none (push e) = some (delivered e.from)
told_of (some w) (push e) = some (queued e.from (str (reason_text (write_error w.message))))

truthy-text : (t : Text) → 0 < length t → truthy (str t) ≡ true
unfolding truthy
truthy-text [] h = absurd (omega arith)
truthy-text (c ∷ t) h = refl

deliver_frame-token :
    (p : Participant) (e : Envelope) (token : Text)
    → get_prop "adapterToken" p.delivery ≡ str token
    → 0 < length token
    → deliver_frame p e ≡ record { auth = some (str token); envelope = e }
unfolding deliver_frame
deliver_frame-token p e token h some_token = rw (h, truthy-text token some_token) refl

frame-Delivers :
    (p : Participant) (e : Envelope) (s : Sidecar)
    → get_prop "adapterToken" p.delivery ≡ str s.adapter_token
    → 0 < length s.adapter_token
    → 0 < length e.id
    → Delivers s (frame_value (deliver_frame p e)) e.id e.body
unfolding frame_value envelope_value get_prop lookup is_text truthy ◌==◌
frame-Delivers p e s token some_token some_id =
    rw (deliver_frame-token p e s.adapter_token token some_token)
      (refl, refl, refl, refl, some_id, refl)

frame-envelope :
    (p : Participant) (e : Envelope) (token : Text)
    → get_prop "adapterToken" p.delivery ≡ str token
    → 0 < length token
    → get_prop "envelope" (frame_value (deliver_frame p e)) ≡ envelope_value e
unfolding frame_value get_prop lookup ◌==◌
frame-envelope p e token h some_token = rw (deliver_frame-token p e token h some_token) refl

-- The answer as the broker receives it.
abbrev pub read_back : Option WriteError → Value
read_back none = obj (field (codes "status") (str (codes "accepted")) end)
read_back (some w) = obj (
    field (codes "status") (str (codes "rejected"))
      (field (codes "reason") (str (reason_text (write_error w.message))) end))

outcome-read_back :
    (failure : Option WriteError)
    → outcome_of (answer_value (delivered_answer failure)) ≡ answered (read_back failure)
unfolding outcome_of answer_value
outcome-read_back none = refl
outcome-read_back (some w) = refl

abbrev pub is_none : Option WriteError → Bool
is_none none = true
is_none (some w) = false

read_back-accepted :
    (failure : Option WriteError)
    → (is_nullish (read_back failure) || is_accepted (read_back failure)) ≡ is_none failure
unfolding is_nullish get_prop lookup is_text ◌==◌
read_back-accepted none = refl
read_back-accepted (some w) = refl

told-read_back :
    (failure : Option WriteError) (job : Job) → told job (read_back failure) ≡ told_of failure job
unfolding is_nullish get_prop lookup is_text ◌==◌
told-read_back none (push e) = refl
told-read_back (some w) (push e) = refl
told-read_back none (flush hash entry) = refl
told-read_back (some w) (flush hash entry) = refl

attempt_forward-answered :
    (c : Config) (p : Participant) (path v : Value)
    → dial c p ≡ connect path
    → attempt_forward c p (answered v) ≡ v
unfolding attempt_forward forward receive
attempt_forward-answered c p path v h = rw (h, forward) refl

-- The participant has the sidecar's token, and the sidecar has not seen the message.
pub record IsReady (c : Config) (p : Participant) (e : Envelope) (s : Sidecar) : Type 0 where
  pub path : Value
  pub dials : dial c p ≡ connect path
  pub token : get_prop "adapterToken" p.delivery ≡ str s.adapter_token
  pub some_token : 0 < length s.adapter_token
  pub ascii : IsAscii s.adapter_token
  pub some_id : 0 < length e.id
  pub is_new : includes e.id s.recent_ids ≡ false

module _ (string_of : Value → Text) (now : ℕ) (fresh sent_at : Text) (failure : Option WriteError)
    (c : Config) (p : Participant) (e : Envelope) (s : Sidecar) (ready : IsReady c p e s) where
  hand_over-typed :
      let h = hand_over string_of now fresh sent_at failure p e s in
      (h.0.typed ≡ s.typed ++ written_part failure (render_envelope string_of (envelope_value e)))
      × (h.1 ≡ answered (read_back failure))
      × (hand_over string_of now fresh sent_at failure p e h.0
          ≡ (h.0, outcome_of (answer_value (rejected duplicate))))
  unfolding hand_over after
  hand_over-typed =
      let d = frame-Delivers p e s ready.token ready.some_token ready.some_id in
      let req = frame_value (deliver_frame p e) in
      let (typed, answer, again) =
        handle_request-once string_of now now fresh sent_at fresh sent_at failure failure req req []
          s e.id e.body e.body ready.ascii d ready.is_new (omega arith) d in
      (
        typed
            ∙ ap (λ (v : Value). s.typed ++ written_part failure (render_envelope string_of v))
                (frame-envelope p e s.adapter_token ready.token ready.some_token),
        ap (λ (a : Answer). outcome_of (answer_value a)) answer ∙ outcome-read_back failure,
        ap (λ (r : Sidecar × Answer). (r.0, outcome_of (answer_value r.1))) again,
      )

-- When the first job of a participant's chain is handed to its sidecar, which has the token that
-- the participant registered and has not seen the message's id, the sidecar types the line that is
-- rendered for the envelope, or as much as it can write. If no write fails, the mailbox stays and
-- the sender of a push is told that the message is delivered; if one fails, the message goes to the
-- end of the mailbox and the sender is told that it is queued and why. Handed over again, the
-- message is refused as a duplicate and nothing is typed, also where the first write failed.
pub finish_delivery-typed :
    (string_of : Value → Text) (now now' : ℕ) (fresh sent_at : Text) (failure : Option WriteError)
    (c : Config) (t : Text) (chain : Chain) (job : Job) (rest : List Job) (b : State) (s : Sidecar)
    → Maps.get t b.chains ≡ some chain
    → chain.jobs ≡ job ∷ rest
    → IsReady c chain.participant (envelope_of job) s
    → let p = chain.participant in
      let e = envelope_of job in
      let (s', outcome) = hand_over string_of now fresh sent_at failure p e s in
      let (b', response) = finish_delivery c now' outcome t b in
      let key = key_of c p job in
      (s'.typed ≡ s.typed ++ written_part failure (render_envelope string_of (envelope_value e)))
      × (queue_of key b'.mailbox ≡ (
          if is_none failure
          then queue_of key b.mailbox
          else queue_of key b.mailbox ++ requeued now' job ∷ []))
      × (response ≡ told_of failure job)
      × (hand_over string_of now fresh sent_at failure p e s'
          ≡ (s', outcome_of (answer_value (rejected duplicate))))
finish_delivery-typed string_of now now' fresh sent_at failure c t chain job rest b s h k ready =
    let p = chain.participant in
    let e = envelope_of job in
    let (typed, outcome, again) =
      hand_over-typed string_of now fresh sent_at failure c p e s ready in
    let v = read_back failure in
    let (kept, answer) = finish_delivery-Settles c now' (answered v) t chain job rest b h k in
    let same = attempt_forward-answered c p ready.path v ready.dials in
    let old = queue_of (key_of c p job) b.mailbox in
    let choose = λ (done : Bool). if done then old else old ++ requeued now' job ∷ [] in
    rw outcome (
      typed,
      kept
          ∙ ap (λ (w : Value). choose (is_nullish w || is_accepted w)) same
          ∙ ap choose (read_back-accepted failure),
      answer ∙ ap (told job) same ∙ told-read_back failure job,
      again,
    )
