-- ===== src/Broker/Fifo/Chains.antt =====
-- What each operation does to the chains.
use mathlib.Core.List.{append-nil, append_assoc}
use inter_agent_bus.Base.{
  ℕ, none, some, List, [], ◌∷◌, ◌++◌, map, ◌≡◌, refl, ap, sym, ◌∙◌, Text, ◌==◌, ==_iff, ==_refl,
  arith, Bool-cases, Option-cases, inl, inr, if◌then◌else◌, drop,
}
use inter_agent_bus.Base.Maps
use inter_agent_bus.Base.Maps.{Map, get-set, get-set_self, get-set_ne}
use inter_agent_bus.Value.{Value}
use inter_agent_bus.Broker.Types.{State, Config, MailEntry, Participant, Chain, Job, push, flush}
use inter_agent_bus.Broker.Mail.{enqueue_mailbox, rewrite_mailbox_file}
use inter_agent_bus.Broker.Delivery.{
  Outcome, enqueue_delivery, enqueue_entries, settle, step_chain, finish_delivery, attempt_forward,
}
use inter_agent_bus.Broker.Fifo.{pending}

pub pending_of_same : (t : Text) (s u : State) → u.chains ≡ s.chains → pending t u ≡ pending t s
unfolding pending
pending_of_same t s u e = rw e

pub pending-enqueue :
    (p : Participant) (j : Job) (s : State) (t : Text)
    → pending t (enqueue_delivery p j s)
      ≡ (if p.lease_token == t then pending t s ++ j ∷ [] else pending t s)
unfolding pending enqueue_delivery
pending-enqueue p j s t = ground (
  arith,
  get-set p.lease_token t
      (elim (Maps.get p.lease_token s.chains) [
        | none ↦ record { participant = p; jobs = j ∷ [] }
        | some chain ↦ record chain { jobs = chain.jobs ++ j ∷ [] }
      ])
      s.chains,
  ==_iff p.lease_token t,
)

-- The chain of `t` may have grown at its end.
abbrev pub Extends : Text → State → State → Type 0
Extends t s u = (more : List Job) × (pending t u ≡ pending t s ++ more)

pub Extends-same : (t : Text) (s u : State) → u.chains ≡ s.chains → Extends t s u
Extends-same t s u e = ([], pending_of_same t s u e ∙ sym (append-nil (pending t s)))

pub Extends-trans : (t : Text) (s u v : State) → Extends t s u → Extends t u v → Extends t s v
Extends-trans t s u v (xs, e) (ys, f) =
    (xs ++ ys, f ∙ (ap (λ (l : List Job). l ++ ys) e ∙ append_assoc (pending t s) xs ys))

pub enqueue-Extends :
    (p : Participant) (j : Job) (s : State) (t : Text) → Extends t s (enqueue_delivery p j s)
enqueue-Extends p j s t = elim (Bool-cases (p.lease_token == t)) [
  | inl e ↦ (j ∷ [], pending-enqueue p j s t ∙ ground arith)
  | inr e ↦ ([], pending-enqueue p j s t ∙ (ground arith ∙ sym (append-nil (pending t s))))
]

pub entries-Extends :
    (p : Participant) (hash : Text) (es : List MailEntry) (s : State) (t : Text)
    → Extends t s (enqueue_entries p hash es s)
unfolding enqueue_entries
entries-Extends p hash [] s t = Extends-same t s s refl
entries-Extends p hash (e ∷ es) s t =
    Extends-trans t s (enqueue_delivery p (flush hash e) s)
      (enqueue_entries p hash es (enqueue_delivery p (flush hash e) s))
      (enqueue-Extends p (flush hash e) s t)
      (entries-Extends p hash es (enqueue_delivery p (flush hash e) s) t)

pub pending-entries :
    (p : Participant) (hash : Text) (es : List MailEntry) (s : State)
    → pending p.lease_token (enqueue_entries p hash es s)
      ≡ pending p.lease_token s ++ map (flush hash) es
unfolding enqueue_entries
pending-entries p hash [] s = sym (append-nil (pending p.lease_token s))
pending-entries p hash (e ∷ es) s =
    pending-entries p hash es (enqueue_delivery p (flush hash e) s)
    ∙ (ap (λ (l : List Job). l ++ map (flush hash) es)
          (pending-enqueue p (flush hash e) s p.lease_token ∙ rw (==_refl p.lease_token))
        ∙ append_assoc (pending p.lease_token s) (flush hash e ∷ []) (map (flush hash) es))

settle-chains :
    (c : Config) (now : ℕ) (p : Participant) (j : Job) (v : Value) (s : State)
    → (settle c now p j v s).0.chains ≡ s.chains
unfolding settle enqueue_mailbox rewrite_mailbox_file
settle-chains c now p (push e) v s = ground arith
settle-chains c now p (flush hash e) v s = ground arith

abbrev advanced : Text → Chain → List Job → State → State
advanced t chain js s = record s { chains = Maps.set t (record chain { jobs = js }) s.chains }

pending-advanced :
    (t u : Text) (chain : Chain) (js : List Job) (s : State)
    → pending u (advanced t chain js s) ≡ (if t == u then js else pending u s)
unfolding pending
pending-advanced t u chain js s =
    ground (arith, get-set t u (record chain { jobs = js }) s.chains, ==_iff t u)

pending-step_chain :
    (c : Config) (now : ℕ) (o : Outcome) (t u : Text) (chain : Chain) (jobs : List Job) (s : State)
    → Maps.get t s.chains ≡ some chain
    → chain.jobs ≡ jobs
    → pending u (step_chain c now o t chain jobs s).0
      ≡ (if t == u then drop 1 (pending u s) else pending u s)
unfolding step_chain
pending-step_chain c now o t u chain [] s e f = unfold pending in ground (arith, ==_iff t u)
pending-step_chain c now o t u chain (j ∷ js) s e f =
    pending_of_same u (advanced t chain js s)
      (settle c now chain.participant j (attempt_forward c chain.participant o)
        (advanced t chain js s)).0
      (settle-chains c now chain.participant j (attempt_forward c chain.participant o)
        (advanced t chain js s))
    ∙ (pending-advanced t u chain js s ∙ (unfold pending in ground (arith, ==_iff t u)))

-- A delivery that ends takes the first job off its chain, and leaves the other chains alone.
pub pending-finish :
    (c : Config) (now : ℕ) (o : Outcome) (t u : Text) (s : State)
    → pending u (finish_delivery c now o t s).0
      ≡ (if t == u then drop 1 (pending u s) else pending u s)
unfolding finish_delivery
pending-finish c now o t u s = elim (Option-cases (Maps.get t s.chains)) [
  | inl e ↦ rw (e, finish_delivery) (unfold pending in ground (arith, ==_iff t u))
  | inr (chain, e) ↦
      rw (e, finish_delivery) (pending-step_chain c now o t u chain chain.jobs s e refl)
]
