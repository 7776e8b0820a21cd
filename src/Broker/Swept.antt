-- ===== src/Broker/Swept.antt =====
-- What `gcTick` leaves: no stale participant, no old mail, and everything else.
use inter_agent_bus.Base.{
  ℕ, Bool, true, false, ◌&&◌, ◌||◌, Option, none, some, List, [], ◌∷◌, ◌≡◌, refl, ap, sym, ◌∙◌,
  Text, ◌==◌, ==_iff, ==_refl, ==-sound, arith, length, eqb_iff, keep, ◌≤◌, if◌then◌else◌,
  Bool-cases, inl, inr, subst,
}
use inter_agent_bus.Base.Maps
use inter_agent_bus.Base.Maps.{Map, get-set, get-delete, Distinct, has-get, get-has}
use inter_agent_bus.Broker.Types.{State, Config, MailEntry, Participant}
use inter_agent_bus.Broker.Mail.{queue_of, is_fresh, rewrite_mailbox_file}
use inter_agent_bus.Broker.Leases.{persist_registry}
use inter_agent_bus.Broker.Registry.Frames.{gc_mailbox-IsSame}
use inter_agent_bus.Broker.Gc.{
  is_stale, drop_stale, gc_participants, gc_recent, gc_store, gc_queue, gc_mailbox, gc_tick,
}

-- The participant that is found, unless it is stale.
abbrev pub unless_stale : ℕ → Option Participant → Option Participant
unless_stale now none = none
unless_stale now (some p) = if is_stale now p then none else some p

-- Does a stale participant stand under the token?
stale_at : ℕ → Text → List (Text × Participant) → Bool
stale_at now t [] = false
stale_at now t ((u, p) ∷ ps) = u == t && is_stale now p || stale_at now t ps

gc_participants-get :
    (now : ℕ) (ps : List (Text × Participant)) (s : State) (t : Text)
    → Maps.get t (gc_participants now ps s).0.participants
      ≡ (if stale_at now t ps then none else Maps.get t s.participants)
unfolding gc_participants stale_at drop_stale
gc_participants-get now [] s t = refl
gc_participants-get now ((u, p) ∷ ps) s t =
    gc_participants-get now ps (if is_stale now p then drop_stale u p s else s) t
    ∙ ground (arith, get-delete u t s.participants)

stale_at-absent :
    (now : ℕ) (m : Map Participant) (t : Text) → Maps.has t m ≡ false → stale_at now t m ≡ false
unfolding stale_at Maps.has
stale_at-absent now [] t h = refl
stale_at-absent now ((u, p) ∷ m) t h = ground (arith, stale_at-absent now m t)

stale_at-Distinct :
    (now : ℕ) (m : Map Participant) (t : Text)
    → Distinct m
    → (if stale_at now t m then none else Maps.get t m) ≡ unless_stale now (Maps.get t m)
unfolding stale_at Maps.get
stale_at-Distinct now [] t h = refl
stale_at-Distinct now ((u, p) ∷ m) t (new, h) =
    ground (arith, ==_iff u t, stale_at-absent now m t, stale_at-Distinct now m t h, new)

module _ {ℓ} {A : Type ℓ} (p : A → Bool) where
  length-keep-le : (xs : List A) → length (keep p xs) ≤ length xs
  unfolding keep
  length-keep-le [] = omega arith
  length-keep-le (x ∷ xs) = ground (arith, length-keep-le xs)

  keep_of_length : (xs : List A) → length (keep p xs) ≡ length xs → keep p xs ≡ xs
  unfolding keep
  keep_of_length [] h = refl
  keep_of_length (x ∷ xs) h = ground (arith, keep_of_length xs, length-keep-le xs)

-- What is stored for a queue is what of it is kept.
gc_store-queue_of :
    (c : Config) (hash h : Text) (kept : List MailEntry) (s : State)
    → queue_of h (gc_store c hash kept s).mailbox
      ≡ (if hash == h then kept else queue_of h s.mailbox)
unfolding gc_store rewrite_mailbox_file queue_of
gc_store-queue_of c hash h [] s = ground (arith, get-delete hash h s.mailbox)
gc_store-queue_of c hash h (e ∷ es) s = ground (arith, get-set hash h (e ∷ es) s.mailbox)

gc_queue-queue_of :
    (c : Config) (now : ℕ) (hash h : Text) (q : List MailEntry) (s : State)
    → queue_of hash s.mailbox ≡ q
    → queue_of h (gc_queue c now hash q s).mailbox
      ≡ (if hash == h then keep (is_fresh now) q else queue_of h s.mailbox)
unfolding gc_queue
gc_queue-queue_of c now hash h q s e = ground (
  arith,
  eqb_iff (length (keep (is_fresh now) q)) (length q),
  keep_of_length (is_fresh now) q,
  gc_store-queue_of c hash h (keep (is_fresh now) q) s,
  ==_iff hash h,
)

-- The queues that are still to be swept are in the state as they were.
abbrev AreThere : List (Text × List MailEntry) → State → Type 0
AreThere qs s = (h : Text) → Maps.has h qs ≡ true → queue_of h s.mailbox ≡ queue_of h qs

queue_of-cons :
    (hash h : Text) (q : List MailEntry) (qs : Map (List MailEntry))
    → queue_of h ((hash, q) ∷ qs) ≡ (if hash == h then q else queue_of h qs)
unfolding queue_of Maps.get
queue_of-cons hash h q qs = ground arith

first_there :
    (hash : Text) (q : List MailEntry) (qs : Map (List MailEntry)) (s : State)
    → AreThere ((hash, q) ∷ qs) s
    → queue_of hash s.mailbox ≡ q
unfolding Maps.has
first_there hash q qs s there =
    there hash (rw (==_refl hash) refl) ∙ (queue_of-cons hash hash q qs ∙ rw (==_refl hash) refl)

rest_there :
    (c : Config) (now : ℕ) (hash : Text) (q : List MailEntry) (qs : Map (List MailEntry))
    (s : State)
    → Maps.has hash qs ≡ false
    → AreThere ((hash, q) ∷ qs) s
    → AreThere qs (gc_queue c now hash q s)
unfolding Maps.has
rest_there c now hash q qs s new there h k = elim (Bool-cases (hash == h)) [
  | inl e ↦
      let same = ==-sound hash h e in absurd (ground (arith, ap (λ (u : Text). Maps.has u qs) same))
  | inr e ↦
      gc_queue-queue_of c now hash h q s (first_there hash q qs s there)
      ∙ (rw e (there h (rw (e, k) refl)) ∙ (queue_of-cons hash h q qs ∙ rw e refl))
]

gc_mailbox-queue_of :
    (c : Config) (now : ℕ) (qs : Map (List MailEntry)) (s : State) (h : Text)
    → Distinct qs
    → AreThere qs s
    → queue_of h (gc_mailbox c now qs s).mailbox
      ≡ (if Maps.has h qs then keep (is_fresh now) (queue_of h qs) else queue_of h s.mailbox)
unfolding gc_mailbox Maps.has
gc_mailbox-queue_of c now [] s h d there = refl
gc_mailbox-queue_of c now ((hash, q) ∷ qs) s h (new, d) there =
    let here = first_there hash q qs s there in
    gc_mailbox-queue_of c now qs (gc_queue c now hash q s) h d
      (rest_there c now hash q qs s new there)
    ∙ ground (
      arith,
      gc_queue-queue_of c now hash h q s here,
      queue_of-cons hash h q qs,
      ==_iff hash h,
      new,
    )

persist-frame :
    (b : Bool) (s : State)
    → ((if b then persist_registry s else s).participants ≡ s.participants)
      × ((if b then persist_registry s else s).mailbox ≡ s.mailbox)
unfolding persist_registry
persist-frame true s = (refl, refl)
persist-frame false s = (refl, refl)

gc_participants-mailbox :
    (now : ℕ) (ps : List (Text × Participant)) (s : State)
    → (gc_participants now ps s).0.mailbox ≡ s.mailbox
unfolding gc_participants drop_stale
gc_participants-mailbox now [] s = refl
gc_participants-mailbox now ((t, p) ∷ ps) s = gc_participants-mailbox now ps _ ∙ ground arith

queue_of-absent :
    (hash : Text) (m : Map (List MailEntry)) → Maps.has hash m ≡ false → queue_of hash m ≡ []
unfolding queue_of
queue_of-absent hash m h = rw (get-has hash m h, queue_of) refl

swept_queue :
    (now : ℕ) (hash : Text) (m : Map (List MailEntry))
    → (if Maps.has hash m then keep (is_fresh now) (queue_of hash m) else queue_of hash m)
      ≡ keep (is_fresh now) (queue_of hash m)
unfolding keep
swept_queue now hash m = elim (Bool-cases (Maps.has hash m)) [
  | inl e ↦ rw e refl
  | inr e ↦ rw (e, queue_of-absent hash m e) refl
]

-- What a sweep finds under a token and under a key of the mailbox: the participant, if it is not
-- stale, and what of the queue is not too old, in its order.
pub gc_tick-kept :
    (c : Config) (now : ℕ) (s : State) (t hash : Text)
    → Distinct s.participants
    → Distinct s.mailbox
    → (Maps.get t (gc_tick c now s).participants ≡ unless_stale now (Maps.get t s.participants))
      × (queue_of hash (gc_tick c now s).mailbox ≡ keep (is_fresh now) (queue_of hash s.mailbox))
unfolding gc_tick
gc_tick-kept c now s t hash dp dm =
    let (s', changed) = gc_participants now s.participants s in
    let s'' = record s' { recent_participants = gc_recent now s'.recent_participants } in
    let swept = gc_mailbox c now s''.mailbox s'' in
    let same = gc_participants-mailbox now s.participants s in
    (
      ap (Maps.get t) (
            (persist-frame changed swept).0
            ∙ (gc_mailbox-IsSame c now s''.mailbox s'').participants)
          ∙ (gc_participants-get now s.participants s t
              ∙ stale_at-Distinct now s.participants t dp),
      ap (queue_of hash) (persist-frame changed swept).1
          ∙ (gc_mailbox-queue_of c now s''.mailbox s'' hash
                (subst (λ (m : Map (List MailEntry)). Distinct m) (sym same) dm) (λ h k. refl)
              ∙ (swept_queue now hash s''.mailbox
                  ∙ ap (λ (m : Map (List MailEntry)). keep (is_fresh now) (queue_of hash m)) same)),
    )
