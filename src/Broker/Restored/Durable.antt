-- ===== src/Broker/Restored/Durable.antt =====
-- Queued mail outlives a crash of the broker.
use inter_agent_bus.Base.{
  ℕ, true, List, [], ◌∷◌, ◌++◌, ◌≡◌, refl, ap, ◌∙◌, Text, All, all, keep, length,
}
use inter_agent_bus.Ids.{is_hex}
use inter_agent_bus.Broker.{Event, restart, step, run}
use inter_agent_bus.Broker.Types.{Config, State}
use inter_agent_bus.Broker.Mail.{queue_of, is_fresh}
use inter_agent_bus.Broker.Fifo.History.{IsRunning}
use inter_agent_bus.Broker.Mirror.{Mirrors}
use inter_agent_bus.Broker.Mirror.Steps.{run-Mirrors}
use inter_agent_bus.Broker.Restored.{IsReadable}
use inter_agent_bus.Broker.Restored.Directory.{restart-restores}

run-append :
    (c : Config) (es fs : List Event) (s : State) → run c (es ++ fs) s ≡ run c fs (run c es s)
unfolding run
run-append c [] fs s = refl
run-append c (e ∷ es) fs s = run-append c es fs (step c e s)

-- From a state whose mailbox files mirror its queues and have names of their own, such as one without
-- mail and files, let any history of requests, deliveries and collections run, and let the broker
-- crash and start again at any moment of it. Then it has under each session hash of 64 hexadecimal
-- digits the entries that were queued there at that moment and are not too old, in their order, if
-- JSON prints these entries on one line and parses them back.
pub run-durable :
    (c : Config) (now : ℕ) (hash : Text) (es : List Event) (s : State)
    → length hash ≡ 64
    → all is_hex hash ≡ true
    → All IsRunning es
    → All (IsReadable c) (queue_of hash (run c es s).mailbox)
    → Mirrors c s
    → queue_of hash (run c (es ++ restart now ∷ []) s).mailbox
      ≡ keep (is_fresh now) (queue_of hash (run c es s).mailbox)
unfolding run
run-durable c now hash es s n x running readable m =
    ap (λ (u : State). queue_of hash u.mailbox) (run-append c es (restart now ∷ []) s)
    ∙ restart-restores c now hash (run c es s) n x readable (run-Mirrors c es s running m)
