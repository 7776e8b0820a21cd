-- ===== src/Broker/Fifo/History.antt =====
-- Over any history, the jobs of a chain end in the order in which they were put on it.
use mathlib.Core.List.{append-nil, append_assoc}
use inter_agent_bus.Base.{
  Bool, true, false, List, [], ◌∷◌, ◌++◌, ◌≡◌, refl, ap, sym, ◌∙◌, Text, ◌==◌, Bool-cases, inl, inr,
  if◌then◌else◌, All, length, drop, take,
}
use inter_agent_bus.Broker.Types.{State, Config, Job}
use inter_agent_bus.Broker.{Event, request, finished, tick, restart, step, run}
use inter_agent_bus.Broker.Fifo.{pending}
use inter_agent_bus.Broker.Fifo.Chains.{Extends, Extends-same, pending-finish}
use inter_agent_bus.Broker.Fifo.Steps.{handle_request-Extends, gc_tick-chains}

-- What was put on the chain of a token, and what was taken off it, oldest first.
pub record History : Type 0 where
  pub appended : List Job
  pub ended : List Job

-- The end of a delivery on the chain of `t`.
abbrev pub ends_on : Text → Event → Bool
ends_on t (finished now outcome u) = u == t
ends_on t _ = false

-- An observer compares the chain before and after an event: at the end of a delivery the first
-- job has ended, at any other event what is there beyond the old length has been appended.
unfoldable pub observe : Text → Event → List Job → List Job → History → History
observe t e before after h =
    if ends_on t e
    then record h { ended = h.ended ++ take 1 before }
    else record h { appended = h.appended ++ drop (length before) after }

unfoldable pub watch : Config → Text → List Event → State → History → History
watch c t [] s h = h
watch c t (e ∷ es) s h =
    let s' = step c e s in watch c t es s' (observe t e (pending t s) (pending t s') h)

drop-append : (xs ys : List Job) → drop (length xs) (xs ++ ys) ≡ ys
drop-append [] ys = refl
drop-append (x ∷ xs) ys = drop-append xs ys

take-drop-one : (xs : List Job) → take 1 xs ++ drop 1 xs ≡ xs
take-drop-one [] = refl
take-drop-one (x ∷ xs) = refl

-- All but a restart, which starts with no chains.
abbrev pub IsRunning : Event → Type 0
IsRunning (restart now) = ⊥
IsRunning _ = Unit {0}

step-Extends :
    (c : Config) (e : Event) (s : State) (t : Text)
    → IsRunning e
    → ends_on t e ≡ false
    → Extends t s (step c e s)
unfolding step
step-Extends c (request now k req) s t r h = handle_request-Extends c now k req s t
step-Extends c (finished now o u) s t r h =
    ([], pending-finish c now o u t s ∙ (rw h (sym (append-nil (pending t s)))))
step-Extends c (tick now) s t r h = Extends-same t s _ (gc_tick-chains c now s)
step-Extends c (restart now) s t r h = absurd r

-- What was appended is what has ended and what waits, in this order.
abbrev InOrder : Text → State → History → Type 0
InOrder t s h = h.appended ≡ h.ended ++ pending t s

split_first_job : (xs es : List Job) → es ++ xs ≡ (es ++ take 1 xs) ++ drop 1 xs
split_first_job xs es =
    ap (λ (l : List Job). es ++ l) (sym (take-drop-one xs))
    ∙ sym (append_assoc es (take 1 xs) (drop 1 xs))

ended-InOrder :
    (c : Config) (t : Text) (e : Event) (s : State) (h : History)
    → ends_on t e ≡ true
    → InOrder t s h
    → InOrder t (step c e s) (observe t e (pending t s) (pending t (step c e s)) h)
unfolding step observe
ended-InOrder c t (finished now o u) s h e k =
    let here = pending-finish c now o u t s ∙ (rw e) in
    rw (e, here) (k ∙ split_first_job (pending t s) h.ended)
ended-InOrder c t _ s h e k = cc

appended-InOrder :
    (c : Config) (t : Text) (e : Event) (s : State) (h : History)
    → ends_on t e ≡ false
    → Extends t s (step c e s)
    → InOrder t s h
    → InOrder t (step c e s) (observe t e (pending t s) (pending t (step c e s)) h)
unfolding observe
appended-InOrder c t e s h f (more, grown) k =
    rw (f, grown, drop-append, k) (append_assoc h.ended (pending t s) more)

step-InOrder :
    (c : Config) (t : Text) (e : Event) (s : State) (h : History)
    → IsRunning e
    → InOrder t s h
    → InOrder t (step c e s) (observe t e (pending t s) (pending t (step c e s)) h)
step-InOrder c t e s h r k = elim (Bool-cases (ends_on t e)) [
  | inl f ↦ ended-InOrder c t e s h f k
  | inr f ↦ appended-InOrder c t e s h f (step-Extends c e s t r f) k
]

-- In any history with no restart, the jobs that were ever put on a participant's delivery chain,
-- in that order, are those whose delivery has ended, in the order of their ends, followed by those
-- that still wait.
pub watch-InOrder :
    (c : Config) (t : Text) (es : List Event) (s : State) (h : History)
    → All IsRunning es
    → h.appended ≡ h.ended ++ pending t s
    → (watch c t es s h).appended ≡ (watch c t es s h).ended ++ pending t (run c es s)
unfolding watch run
watch-InOrder c t [] s h r k = k
watch-InOrder c t (e ∷ es) s h r k =
    watch-InOrder c t es (step c e s) (observe t e (pending t s) (pending t (step c e s)) h) r.1
      (step-InOrder c t e s h r.0 k)
