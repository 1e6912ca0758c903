-- ===== src/Messages/Logging.antt =====
-- core/src/messages/logging.rs: who writes a log message. Its other fields are passed through.
use spawner.Types.{DroneId}

pub data Component : Type 0 where
  controller : Component
  drone : DroneId → Component
