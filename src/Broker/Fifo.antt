-- ===== src/Broker/Fifo.antt =====
-- The delivery chains of the broker are queues: what is put on a chain is forwarded in that order.
pub mod Chains
pub mod Steps
pub mod History
pub mod Reattach
use inter_agent_bus.Base.{ℕ, Option, none, some, List, [], ◌∷◌, Text}
use inter_agent_bus.Base.Maps
use inter_agent_bus.Broker.Types.{State, Chain, Job}

-- The jobs that wait on the chain of a lease token, the first to be forwarded at the head.
unfoldable pub pending : Text → State → List Job
pending t s = elim (Maps.get t s.chains) [ none ↦ [] | some chain ↦ chain.jobs ]
