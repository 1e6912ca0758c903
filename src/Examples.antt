-- ===== src/Examples.antt =====
-- Runs of the modelled code at concrete inputs.
pub mod Agent
pub mod Commands
pub mod Controller
pub mod Core
pub mod Nats
pub mod Drone
pub mod Engine
pub mod Start
