-- ===== src/Messages/Scheduler.antt =====
-- core/src/messages/scheduler.rs. `random` is the identifier that `BackendId::new_random` makes.
use spawner.Prelude.{ℕ, List, Option, none, Bool}
use spawner.Prelude.Text.{Text}
use spawner.Types.{DroneId, BackendId, ClusterName}
use spawner.Messages.Agent.{DockerExecutableConfig, SpawnRequest}
use mathlib.Core.Option as Opt

pub record ScheduleRequest : Type 0 where
  pub cluster : ClusterName
  pub backend_id : Option BackendId
  pub max_idle_secs : ℕ
  pub metadata : List (Text × Text)
  pub executable : DockerExecutableConfig
  pub require_bearer_token : Bool

unfoldable pub schedule : ScheduleRequest → DroneId → BackendId → SpawnRequest
schedule r drone random = record {
  drone_id = drone;
  backend_id = Opt.get_or r.backend_id random;
  max_idle_secs = r.max_idle_secs;
  metadata = r.metadata;
  executable = r.executable;
  bearer_token = none;
}

pub data ScheduleResponse : Type 0 where
  scheduled : DroneId → BackendId → Option Text → ScheduleResponse
  no_drone_available : ScheduleResponse

pub record DrainDrone : Type 0 where
  pub drone : DroneId
  pub cluster : ClusterName
  pub drain : Bool
