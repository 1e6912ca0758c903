-- ===== src/Lib.antt =====
-- The verification library of Plane, which runs backends in containers on drones and routes traffic to
-- them.
--
-- A client asks the controller for a backend. The scheduler picks a drone from the status messages that
-- drones send (Controller/Scheduler, controller/src/scheduler.rs), and the loop around it sends the
-- drone a spawn request and answers the client (Controller/Loop, controller/src/lib.rs). On the drone,
-- the executor starts a task for the backend that leads it through its states (Drone/Executor,
-- drone/src/agent/executor.rs), over an engine (Drone/Docker, drone/src/agent/engines/docker) and a
-- database that the proxy reads (Drone/Database, drone/src/database.rs), while the agent publishes
-- whether the drone is ready (Drone/Agent, drone/src/agent/mod.rs). The proxy forwards requests to
-- the backends that are ready and tracks which are in use (Drone/Proxy, drone/src/proxy), so that idle
-- ones are swept. A drone keeps its cluster's certificate fresh (Drone/Cert, drone/src/cert and
-- drone/src/proxy/certs.rs; Drone/Keys, drone/src/keys.rs). The controller's DNS server answers with the
-- records that drones set (Controller/Dns, controller/src/dns), which it keeps in expiring stores (Ttl,
-- controller/src/ttl_store). Identifiers, messages, retries, the client of NATS and the log are shared
-- (Types, core/src/types.rs; Messages, core/src/messages; Core/Retry, core/src/retry.rs; Core/Nats,
-- core/src/nats.rs; Core/NatsConnection, core/src/nats_connection.rs; Core/Logging,
-- core/src/logging.rs). The configuration of a process decides which loops it runs (Controller/Start,
-- controller/src/plan.rs and run.rs; Drone/Config and Drone/Start, drone/src/config.rs, plan.rs and
-- run.rs). The loops of an agent take in its requests (Drone/Agent/Requests) and report on a backend
-- while it runs (Drone/Agent/Monitor, drone/src/agent/backend.rs), and the command line asks for
-- backends, drains drones and lists what the streams hold (Cli, cli/src/main.rs). An agent starts by
-- registering its drone (Drone/Agent/Run), a proxy accepts connections with TLS (Drone/Proxy/Tls and
-- Drone/Proxy/Server), and a process reads its configuration first (Core/Cli, core/src/cli.rs).
--
-- Each module has the state as a record and a function for each operation, by the source's name. A text
-- is the list of its code points, a map an association list with one entry for a key, and a time a
-- number: nanoseconds in the scheduler, seconds elsewhere. What a clock, a random choice, NATS, Docker,
-- ACME, SQLite or a crate answers is an argument, so a theorem holds for every answer. Concurrent tasks
-- appear as sequences of events or turns in the order in which they take effect; a signal that drops a
-- step of the executor is a turn, with what the dropped step may have written. The unsigned counters of
-- the connection tracker (32 bits) and of the retries (16 bits) wrap around.
--
-- The client of NATS records what it asks of the server as a list of requests, and the server is a
-- function from the requests so far and the next one to its answer. The interface of a message, with
-- its encoders and decoders, is a record (`TypedMessage`), and so is that of one with a stream
-- (`JetStreamable`), with the law that the configuration has the stream's name, which the four messages
-- that have a stream fill (Messages/Streams). The client's calls are not interleaved with each other.
--
-- Loops run over the list of what they read, and a loop that has read all of it is one that still waits.
-- Three kinds of loop take fuel. The retries take 65536 rounds, one for each value of their counter,
-- and `Core.Retry.do_with_retry-Retried` shows that the fuel is never used up. The loop of `get_all` over
-- the batches of a consumer, and the loops of the agent's listeners over their subscriptions, end on
-- fuel that exceeds the number of messages, as the theorems about them show.
--
-- Not modelled: sockets, the TLS protocol, the copying of bytes, the encodings of messages, the parsing of
-- configuration files and arguments, signals, the output of the log, and the runtime that runs and
-- aborts tasks. The statistics are computed in an abstract type of floats (Messages/Stats).
--
-- Prelude holds what the modules share, and Examples runs of the code at concrete inputs.
pub mod Prelude
pub mod Types
pub mod Core
pub mod Messages
pub mod Ttl
pub mod Cli
pub mod Controller
pub mod Drone
pub mod Examples
