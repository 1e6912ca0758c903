-- ===== src/Drone/Proxy.antt =====
-- drone/src/proxy/mod.rs: the proxy, and the loop that records which backends are in use.
pub mod Tracker
pub mod Service
pub mod Tls
pub mod Server
use spawner.Prelude.{ℕ, List, [], ◌∷◌, Bool, map, if◌then◌else◌}
use spawner.Prelude.Text.{Text}
use spawner.Drone.Database.{DroneDatabase, reset_last_active_times}
use spawner.Drone.Proxy.Tracker.{ConnectionTracker, get_and_clear_active_backends}

-- One round of the loop of `record_connections`. `recorded` is whether the database takes the
-- updates, all at the time `now`; a failure is only logged.
unfoldable pub record_connections :
    DroneDatabase → ConnectionTracker → ℕ → Bool → DroneDatabase × ConnectionTracker
unfolding get_and_clear_active_backends reset_last_active_times
record_connections db tracker now recorded =
    let (backends, tracker') = get_and_clear_active_backends tracker in
    (if recorded then reset_last_active_times db (map (λ b. (b, now)) backends) else db, tracker')
