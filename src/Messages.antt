-- ===== src/Messages.antt =====
-- core/src/messages: what the components send one another over NATS, and the subjects.
pub mod Agent
pub mod Scheduler
pub mod Dns
pub mod Logging
pub mod Cert
pub mod Subjects
pub mod Streams
pub mod Stats
