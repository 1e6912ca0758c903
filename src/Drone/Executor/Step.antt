-- ===== src/Drone/Executor/Step.antt =====
-- Which states follow which.
use spawner.Prelude.{ℕ, ◌<◌, ◌≡◌, some, Bool, true, false, arith}
use spawner.Prelude.Result.{ok}
use spawner.Messages.Agent.{
  BackendState, SpawnRequest, loading, error_loading, starting, error_starting, ready, failed,
  exited, swept, terminated,
}
use spawner.Drone.Database.{DroneDatabase}
use spawner.Drone.Executor.{Limits, Answers, step, step_starting, step_ready}
use spawner.Drone.Executor.Idle.{wait_idle_swept}

-- The life of a backend. All but a swept one can be terminated.
abbrev pub edge : BackendState → BackendState → Bool
edge loading starting = true
edge loading error_loading = true
edge starting ready = true
edge starting error_starting = true
edge ready failed = true
edge ready exited = true
edge ready swept = true
edge swept terminated = false
edge _ terminated = true
edge _ _ = false

-- How far a state is from the end.
abbrev pub rank : BackendState → ℕ
rank loading = 4
rank starting = 3
rank ready = 2
rank _ = 1

step_ready-edge :
    (l : Limits) (spawn : SpawnRequest) (a : Answers) (t : BackendState)
    → step_ready l spawn a ≡ some (ok (some t))
    → edge ready t ≡ true
unfolding step_ready
step_ready-edge l spawn a t h =
    ground (arith, wait_idle_swept l spawn.max_idle_secs a.rounds (some t))

step_starting-edge :
    (db : DroneDatabase) (spawn : SpawnRequest) (a : Answers) (t : BackendState)
    → (step_starting db spawn a).1 ≡ some (ok (some t))
    → edge starting t ≡ true
unfolding step_starting
step_starting-edge db spawn a t h = ground arith

-- A step that finds a next state follows an edge.
pub step-edge :
    (l : Limits) (db : DroneDatabase) (spawn : SpawnRequest) (s : BackendState) (a : Answers)
    (t : BackendState)
    → (step l db spawn s a).1 ≡ some (ok (some t))
    → edge s t ≡ true
unfolding step
step-edge l db spawn loading a t h = ground arith
step-edge l db spawn starting a t h = step_starting-edge db spawn a t h
step-edge l db spawn ready a t h = step_ready-edge l spawn a t h
step-edge l db spawn _ a t h = ground arith

-- A step that ends well brings the backend nearer to its end.
pub step-rank :
    (l : Limits) (db : DroneDatabase) (spawn : SpawnRequest) (s : BackendState) (a : Answers)
    (t : BackendState)
    → (step l db spawn s a).1 ≡ some (ok (some t))
    → rank t < rank s
step-rank l db spawn loading a t h = ground (arith, step-edge l db spawn loading a t h)
step-rank l db spawn starting a t h = ground (arith, step-edge l db spawn starting a t h)
step-rank l db spawn ready a t h = ground (arith, step-edge l db spawn ready a t h)
step-rank l db spawn _ a t h = unfold step in ground arith
