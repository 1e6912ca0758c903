-- ===== src/Controller/Scheduler.antt =====
-- controller/src/scheduler.rs. An instant is a number of nanoseconds from the earliest instant of
-- `chrono`; `choose` is the random choice of `rand`.
pub mod History
use spawner.Prelude.{
  ℕ, ◌-◌, ◌*◌, List, [], ◌∷◌, map, filter, Option, none, some, Bool, ite, dec_lt, dec_le,
  if◌then◌else◌,
}
use spawner.Prelude.Assoc
use spawner.Prelude.Result.{Result, ok, err, ok_or}
use spawner.Types.{DroneId, ClusterName, DroneId_discrete, ClusterName_discrete}
use spawner.Messages.Agent.{DroneStatusMessage}
use mathlib.Core.Option as Opt

pub record Scheduler : Type 0 where
  pub last_status : List (ClusterName × List (DroneId × ℕ))

pub data SchedulerError : Type 0 where
  no_drone_available : SchedulerError

unfoldable pub default : Scheduler
default = record { last_status = [] }

-- `entry(cluster).or_default()`.
abbrev pub cluster_map : Scheduler → ClusterName → List (DroneId × ℕ)
cluster_map s c = Opt.get_or (Assoc.get ClusterName_discrete c s.last_status) []

unfoldable pub update_status : Scheduler → ℕ → DroneStatusMessage → Scheduler
update_status s timestamp status =
    let drones = cluster_map s status.cluster in
    record {
      last_status =
          Assoc.insert ClusterName_discrete status.cluster
            (if status.ready
              then Assoc.insert DroneId_discrete status.drone_id timestamp drones
              else Assoc.remove DroneId_discrete status.drone_id drones)
            s.last_status;
    }

abbrev pub second : ℕ
second = 1_000_000_000

-- `checked_sub_signed`.
abbrev pub checked_sub : ℕ → ℕ → Option ℕ
checked_sub t d = ite (dec_le d t) (some (t - d)) none

abbrev pub drone_ids : ℕ → List (DroneId × ℕ) → List DroneId
drone_ids threshold drones = map (λ d. d.0) (filter (λ d. dec_lt threshold d.1) drones)

-- The outer `none` is the panic of `unwrap`.
unfoldable pub schedule :
    (List DroneId → Option DroneId)
    → Scheduler
    → ClusterName
    → ℕ
    → Option (Result SchedulerError DroneId)
schedule choose s cluster now = elim (checked_sub now (5 * second)) [
  | none ↦ none
  | some threshold ↦ elim (Assoc.get ClusterName_discrete cluster s.last_status) [
    | none ↦ some (err no_drone_available)
    | some drones ↦ some (ok_or (choose (drone_ids threshold drones)) no_drone_available)
  ]
]
