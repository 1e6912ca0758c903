-- ===== src/Controller/Loop/Responses.antt =====
-- What the scheduler loop answers.
use spawner.Prelude.{ℕ, suc, ◌≡◌, List, [], ◌∷◌, Option, none, some, true, length, arith}
use spawner.Prelude.Result.{ok}
use spawner.Prelude.Text.{Text}
use spawner.Types.{DroneId, BackendId}
use spawner.Messages.Agent.{DroneStatusMessage}
use spawner.Messages.Scheduler as Messages
use spawner.Messages.Scheduler.{ScheduleRequest, ScheduleResponse, scheduled, no_drone_available}
use spawner.Controller.Scheduler as Scheduler
use spawner.Controller.Scheduler.History as History
use spawner.Controller.Loop.{
  Surroundings, Event, status, request, waiting, answer, handle_request, run,
}
use mathlib.Core.Option as Opt

abbrev pub statuses : List Event → List (ℕ × DroneStatusMessage)
statuses [] = []
statuses (status none now ∷ events) = statuses events
statuses (status (some m) now ∷ events) = (now, m) ∷ statuses events
statuses (request r around ∷ events) = statuses events

abbrev pub requests : List Event → ℕ
requests [] = 0
requests (status m now ∷ events) = requests events
requests (request r around ∷ events) = suc (requests events)

module _ (choose : List DroneId → Option DroneId) where
  -- The response says that a drone is scheduled exactly if the scheduler picked that drone, and that
  -- drone accepted the spawn request which is made for it; the backend is then the one that the
  -- request asks for, or a fresh one, and no bearer token is given.
  pub handle_request_scheduled :
      (s : Scheduler.Scheduler) (r : ScheduleRequest) (around : Surroundings) (d : DroneId)
      (b : BackendId) (token : Option Text)
      → (handle_request choose s r around ≡ some (scheduled d b token)
          → (Scheduler.schedule choose s r.cluster around.now ≡ some (ok d))
            × (around.drone (Messages.schedule r d around.random) ≡ ok true)
            × (b ≡ Opt.get_or r.backend_id around.random)
            × (token ≡ none))
        × ((Scheduler.schedule choose s r.cluster around.now ≡ some (ok d))
            → (around.drone (Messages.schedule r d around.random) ≡ ok true)
            → handle_request choose s r around
              ≡ some (scheduled d (Opt.get_or r.backend_id around.random) none))
  unfolding handle_request answer Messages.schedule
  handle_request_scheduled s r around d b token = (λ h. ground arith, λ h a. ground arith)

  -- A loop that is still waiting has taken in every status message and answered every request.
  pub run_waiting :
      (s s' : Scheduler.Scheduler) (events : List Event)
      → (run choose s events).1 ≡ waiting s'
      → (s' ≡ History.run s (statuses events)) × (length (run choose s events).0 ≡ requests events)
  unfolding run History.run
  run_waiting s s' [] h = ground arith
  run_waiting s s' (status none now ∷ events) h = ground arith
  run_waiting s s' (status (some m) now ∷ events) h =
      run_waiting (Scheduler.update_status s now m) s' events h
  run_waiting s s' (request none around ∷ events) h = ground arith
  run_waiting s s' (request (some r) around ∷ events) h = ground (arith, run_waiting s s' events)
