-- ===== src/Broker/Settled.antt =====
-- What becomes of a message when its forward ends: it is delivered, or back in the mailbox.
pub mod Verdict
use inter_agent_bus.Base.{
  Option-cases, ℕ, Bool, ◌||◌, Option, none, some, List, [], ◌∷◌, ◌++◌, ◌≡◌, refl, Text, arith,
  if◌then◌else◌, Bool-cases, inl, inr, subst, true, false, codes, ◌==◌, ◌∙◌,
}
use inter_agent_bus.Base.Maps
use inter_agent_bus.Base.Maps.{Map, get-set_self}
use inter_agent_bus.Value.{truthy, str, lookup, Value, get_prop, is_text, is_nullish}
use inter_agent_bus.Paths.{resolve_delivery_socket_path}
use inter_agent_bus.Broker.Types.{
  State, Config, MailEntry, Envelope, Participant, Chain, Job, push, flush, Response, error,
  internal, delivered, queued,
}
use inter_agent_bus.Broker.Mail.{session_hash, queue_of, enqueue_mailbox, rewrite_mailbox_file}
use inter_agent_bus.Broker.Delivery.{
  Outcome, answered, malformed, timed_out, socket_error, dial, forward, receive, rejected,
  attempt_forward, settle, step_chain, finish_delivery,
}

-- The mailbox that a job's message belongs to.
abbrev pub key_of : Config → Participant → Job → Text
key_of c p (push e) = session_hash c p.session_id
key_of c p (flush hash entry) = hash

-- The entry that is queued when the forward fails.
abbrev pub requeued : ℕ → Job → MailEntry
requeued now (push e) = record { participant_id = e.to; envelope = e; queued_at = now }
requeued now (flush hash entry) = record {
  participant_id = entry.participant_id;
  envelope = entry.envelope;
  queued_at = now;
}

abbrev pub is_accepted : Value → Bool
is_accepted v = is_text "accepted" (get_prop "status" v)

-- What the sender of a push is told.
abbrev pub told : Job → Value → Option Response
told (flush hash entry) v = none
told (push e) v =
    if is_nullish v
    then some (error internal)
    else if is_accepted v
    then some (delivered e.from)
    else some (queued e.from (get_prop "reason" v))

queue_of-set :
    (hash : Text) (q : List MailEntry) (m : Map (List MailEntry))
    → queue_of hash (Maps.set hash q m) ≡ q
unfolding queue_of
queue_of-set hash q m = ground (arith, get-set_self hash q m)

queue_of-enqueue :
    (c : Config) (now : ℕ) (hash to : Text) (e : Envelope) (s : State)
    → queue_of hash (enqueue_mailbox c now hash to e s).mailbox
      ≡ queue_of hash s.mailbox
        ++ record { participant_id = to; envelope = e; queued_at = now } ∷ []
unfolding enqueue_mailbox rewrite_mailbox_file
queue_of-enqueue c now hash to e s =
    queue_of-set hash
      (queue_of hash s.mailbox
        ++ record { participant_id = to; envelope = e; queued_at = now } ∷ [])
      s.mailbox

-- The mailbox and the answer of a settled job.
abbrev Settles : Config → ℕ → Participant → Job → Value → State → State × Option Response → Type 0
Settles c now p job v s r =
    (queue_of (key_of c p job) r.0.mailbox ≡ (
      if is_nullish v || is_accepted v
      then queue_of (key_of c p job) s.mailbox
      else queue_of (key_of c p job) s.mailbox ++ requeued now job ∷ []))
    × (r.1 ≡ told job v)

settle-Settles :
    (c : Config) (now : ℕ) (p : Participant) (job : Job) (v : Value) (s : State)
    → Settles c now p job v s (settle c now p job v s)
unfolding settle
settle-Settles c now p (push e) v s = elim (Bool-cases (is_nullish v)) [
  | inl n ↦ rw n (refl, refl)
  | inr n ↦ elim (Bool-cases (is_text "accepted" (get_prop "status" v))) [
    | inl k ↦ rw (n, k) (refl, refl)
    | inr k ↦ rw (n, k) (queue_of-enqueue c now (session_hash c p.session_id) e.to e s, refl)
  ]
]
settle-Settles c now p (flush hash entry) v s = elim (Bool-cases (is_nullish v)) [
  | inl n ↦ rw n (refl, refl)
  | inr n ↦ elim (Bool-cases (is_text "accepted" (get_prop "status" v))) [
    | inl k ↦ rw (n, k) (refl, refl)
    | inr k ↦ rw (n, k) (queue_of-enqueue c now hash entry.participant_id entry.envelope s, refl)
  ]
]

step_chain-next :
    (c : Config) (now : ℕ) (o : Outcome) (t : Text) (chain : Chain) (jobs rest : List Job)
    (job : Job) (s : State)
    → jobs ≡ job ∷ rest
    → Settles c now chain.participant job
        (attempt_forward c chain.participant o)
        s
        (step_chain c now o t chain jobs s)
unfolding step_chain
step_chain-next c now o t chain [] rest job s e = absurd (cc)
step_chain-next c now o t chain (j ∷ js) rest job s e =
    let same : j ≡ job = cc in
    subst
      (λ (k : Job). Settles c now chain.participant k (attempt_forward c chain.participant o) s (
        settle c now chain.participant j (attempt_forward c chain.participant o)
          (record s { chains = Maps.set t (record chain { jobs = js }) s.chains })))
      same
      (settle-Settles c now chain.participant j (attempt_forward c chain.participant o)
        (record s { chains = Maps.set t (record chain { jobs = js }) s.chains }))

finish_delivery-chain :
    (c : Config) (now : ℕ) (o : Outcome) (t : Text) (chain : Chain) (s : State)
    → Maps.get t s.chains ≡ some chain
    → finish_delivery c now o t s ≡ step_chain c now o t chain chain.jobs s
unfolding finish_delivery
finish_delivery-chain c now o t chain s h = rw (h, finish_delivery) refl

-- By the answer of a forward: its message is back at the end of its session's
-- mailbox, unless the adapter accepted it; the sender of a push is told that it is delivered or
-- queued. Where the adapter answers `null`, the message is dropped, and a push is answered by an
-- internal error.
pub finish_delivery-Settles :
    (c : Config) (now : ℕ) (o : Outcome) (t : Text) (chain : Chain) (job : Job) (rest : List Job)
    (s : State)
    → Maps.get t s.chains ≡ some chain
    → chain.jobs ≡ job ∷ rest
    → let v = attempt_forward c chain.participant o in
      (queue_of (key_of c chain.participant job) (finish_delivery c now o t s).0.mailbox ≡ (
        if is_nullish v || is_accepted v
        then queue_of (key_of c chain.participant job) s.mailbox
        else queue_of (key_of c chain.participant job) s.mailbox ++ requeued now job ∷ []))
      × ((finish_delivery c now o t s).1 ≡ told job v)
finish_delivery-Settles c now o t chain job rest s h k =
    rw (finish_delivery-chain c now o t chain s h)
      (step_chain-next c now o t chain chain.jobs rest job s k)
