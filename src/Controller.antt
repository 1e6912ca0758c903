-- ===== src/Controller.antt =====
-- controller/src: the controller, which schedules backends on drones and answers DNS queries.
pub mod Scheduler
pub mod Loop
pub mod Dns
pub mod Start
