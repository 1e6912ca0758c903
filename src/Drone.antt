-- ===== src/Drone.antt =====
-- drone/src: the daemon that runs backends.
pub mod Database
pub mod Executor
pub mod Agent
pub mod Proxy
pub mod Keys
pub mod Cert
pub mod Docker
pub mod Config
pub mod Start
