-- ===== src/Drone/Agent.antt =====
-- drone/src/agent/mod.rs: the loops that advertise a drone and drain it.
pub mod Draining
pub mod Monitor
pub mod Requests
pub mod Ready
pub mod Run
use spawner.Prelude.{ℕ, ◌%◌, Option, none, some, Bool, true, not, if◌then◌else◌}
use spawner.Prelude.Result.{Result, ok, err}
use spawner.Prelude.Text.{Text}
use spawner.Types.{DroneId, ClusterName}
use spawner.Messages.Agent.{DroneStatusMessage}
use spawner.Messages.Scheduler.{DrainDrone}
use spawner.Drone.Database.{DroneDatabase, running_backends}

-- What the loops share: the drone's names, and the value of the watch channel.
pub record Agent : Type 0 where
  pub drone_id : DroneId
  pub cluster : ClusterName
  pub ready : Bool

-- The agent as `run_agent` starts it.
abbrev pub start : DroneId → ClusterName → Agent
start drone_id cluster = record { drone_id = drone_id; cluster = cluster; ready = true }

-- The message that a round of `ready_loop` publishes. The count of backends is cast to 32 bits.
unfoldable pub ready_round : Text → DroneDatabase → Agent → DroneStatusMessage
ready_round version db agent = record {
  drone_id = agent.drone_id;
  cluster = agent.cluster;
  drone_version = version;
  ready = agent.ready;
  running_backends = some (running_backends db.backends % 4294967296);
}

-- A message of `listen_for_drain`. `responded` is whether the response was sent, without which the
-- loop ends; `delivered` whether the channel takes the value.
unfoldable pub drain : Agent → DrainDrone → Bool → Bool → Option Agent
drain agent request responded delivered =
    if responded
    then some (if delivered then record agent { ready = not request.drain } else agent)
    else none
