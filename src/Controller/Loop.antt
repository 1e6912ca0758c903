-- ===== src/Controller/Loop.antt =====
-- `run_scheduler` of controller/src/lib.rs: the loop over status messages and schedule requests. The
-- events stand in the order in which `select!` takes them.
pub mod Responses
use spawner.Prelude.{ℕ, List, [], ◌∷◌, Option, none, some, Bool, true, false}
use spawner.Prelude.Result.{Result, ok, err}
use spawner.Prelude.Text.{Text}
use spawner.Types.{DroneId, BackendId}
use spawner.Messages.Agent.{DroneStatusMessage, SpawnRequest}
use spawner.Messages.Scheduler as Messages
use spawner.Messages.Scheduler.{ScheduleRequest, ScheduleResponse, scheduled, no_drone_available}
use spawner.Controller.Scheduler as Scheduler
use spawner.Controller.Scheduler.{update_status}

-- What surrounds the handling of a request: the clock, the fresh identifier, the answer of NATS to
-- the spawn request, and whether the response could be sent.
pub record Surroundings : Type 0 where
  pub now : ℕ
  pub random : BackendId
  pub drone : SpawnRequest → Result Text Bool
  pub responds : Bool

pub data Event : Type 0 where
  status : Option DroneStatusMessage → ℕ → Event
  request : Option ScheduleRequest → Surroundings → Event

pub data Exit : Type 0 where
  waiting : Scheduler.Scheduler → Exit
  failed panicked : Exit

module _ (choose : List DroneId → Option DroneId) where
  unfoldable pub answer : SpawnRequest → Result Text Bool → ScheduleResponse
  answer spawn (ok true) = scheduled spawn.drone_id spawn.backend_id none
  answer spawn (ok false) = no_drone_available
  answer spawn (err e) = no_drone_available

  unfoldable pub handle_request :
      Scheduler.Scheduler → ScheduleRequest → Surroundings → Option ScheduleResponse
  handle_request s r around = elim (Scheduler.schedule choose s r.cluster around.now) [
    | none ↦ none
    | some (ok d) ↦
        let spawn = Messages.schedule r d around.random in some (answer spawn (around.drone spawn))
    | some (err e) ↦ some no_drone_available
  ]

  abbrev pub add_response :
      ScheduleResponse → List ScheduleResponse × Exit → List ScheduleResponse × Exit
  add_response r (rs, exit) = (r ∷ rs, exit)

  -- The responses that are sent, and how the loop ends when the events run out.
  unfoldable pub run : Scheduler.Scheduler → List Event → List ScheduleResponse × Exit
  run s [] = ([], waiting s)
  run s (status none now ∷ events) = ([], failed)
  run s (status (some m) now ∷ events) = run (update_status s now m) events
  run s (request none around ∷ events) = ([], failed)
  run s (request (some r) around ∷ events) =
      let rest = run s events in
      elim (handle_request s r around) [
        | none ↦ ([], panicked)
        | some response ↦ elim around.responds [
          | true ↦ add_response response rest
          | false ↦ ([], failed)
        ]
      ]
