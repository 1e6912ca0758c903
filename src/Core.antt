-- ===== src/Core.antt =====
-- core/src: what the controller and the drone share.
pub mod Retry
pub mod Nats
pub mod NatsConnection
pub mod Logging
pub mod Cli
