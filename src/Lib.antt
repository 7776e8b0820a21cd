-- ===== src/Lib.antt =====
-- The inter-agent bus: a broker that stamps, routes, queues and delivers messages between the agent
-- sessions of one user, and the JavaScript client and adapters around it.
--
-- How the parts work together. An adapter's wrapper (adapters/*-pty/wrapper.js) runs an agent in a
-- terminal and starts a sidecar (adapters/*-pty/sidecar.js) when a request on its control socket
-- (adapters/session-control.js) says so. The sidecar registers its session with the broker
-- (broker/broker.js) over a client (client/client.js), with the path of its delivery socket and a
-- capability token (adapters/session-auth.js). The broker answers requests under leases, and
-- delivers each message by dialling the recipient's sidecar, which types it into the terminal.
--
-- Where what is modelled:
--   * Base, Value: shared helpers and JavaScript's values, maps and texts (lists of UTF-16 units).
--   * Strings, Ids, Paths: `parseOptionalText`, the id grammar with `normalizeNamedParticipantId`,
--     and `resolveDeliverySocketPath` with `path.resolve` and `path.join`, of broker/broker.js.
--   * Broker: the rest of broker/broker.js. `State` (Broker/Types) has the in-memory maps, the
--     mailbox files, the registry file, the log and the delivery chains; one function per handler,
--     named after it (`handleRegister` is `handle_register`), takes the time and the generated
--     lease token as arguments. A delivery is two steps: a push or a registration puts a job on the
--     recipient's chain (`enqueueDelivery`), and `finish_delivery` takes the first job off with what
--     happened on the socket (`attemptForward`). `step` and `run` (Broker) are histories of these
--     with the collector (`gcTick`) and restarts (`loadMailboxFromDisk`). Launch is `main`, which
--     gives way to another broker.
--   * Address: where the broker listens and the client looks for it.
--   * Auth: adapters/session-auth.js. Framing: the buffering of lines that `handleConnection` and
--     `_onData` share, on chunks of bytes; Decoder is `chunk.toString()`, which decodes each chunk on
--     its own, and Written sets it against the encoding of Auth. Client: requests, answers and delays of client/client.js, and in
--     Lifecycle how it connects, reconnects and unregisters, as segments between its awaits.
--   * Sidecar: sanitising, rendering, deduplication and `handleRequest` of the sidecars, and in
--     Start `startSidecar` with `start`, `stop` and the clean-up after a start that fails.
--   * Handover: a delivery from `attemptForward` of the broker through `handleRequest` of a sidecar
--     and back, with the frame and the answer as JSON values; Registered is what the broker makes
--     of the registration of a sidecar, and Profiled of the profile that a wrapper keeps.
--   * Control: adapters/session-control.js, with the gate and the connection, the log (Log) and the
--     server (Server). Sockets: the two files of a session that the sidecars and the control server
--     share.
--   * Wrapper: `enableBus` and `disableBus` of adapters/claude-pty/wrapper.js as segments between
--     their awaits, with its control requests, the agent's exit and signals in Session.
--   * Codex: adapters/codex-pty/wrapper.js. Thread is `waitForThreadId`, Tools the command lines that
--     it runs, and Bus its control requests as segments between their awaits, with the watch for a
--     thread; `step` and `run` are its histories.
--
-- Parameters. `Config` holds SHA-256, ISO times, and `JSON.stringify` and `JSON.parse` on mailbox
-- entries; `string_of` is JavaScript's text of a value that is neither text nor nullish; the parser
-- of answers is an argument of the client's functions. Nothing is assumed of them but what a
-- theorem's hypotheses say.
--
-- Bounds and fuel. `cut_lines` runs on fuel, which is the length of the buffer: every round takes a
-- newline off it, and the theorems on framing show that this is enough for every input.
-- `wait_for_thread_id` runs on fuel, one for each round; rounds are a second apart, so that one more
-- than the seconds that are set is enough. All else is structural recursion. Numbers are natural
-- numbers; times are milliseconds. A number in a JSON value keeps its size only, since the code reads
-- nothing of it but its truth value.
--
-- Not modelled: sockets, files and timers as such, the start of processes, and the Python and shell
-- parts. `logEvent` keeps the events without their times, and a write to one of the broker's files
-- does not fail.
pub mod Address
pub mod Base
pub mod Value
pub mod Strings
pub mod Ids
pub mod Paths
pub mod Broker
pub mod Auth
pub mod Framing
pub mod Client
pub mod Sidecar
pub mod Control
pub mod Wrapper
pub mod Codex
pub mod Handover
pub mod Sockets
