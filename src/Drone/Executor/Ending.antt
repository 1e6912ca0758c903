-- ===== src/Drone/Executor/Ending.antt =====
-- How a task ends, and when.
use spawner.Prelude.{ℕ, ◌+◌, ◌≤◌, ◌<◌, ◌≡◌, ◌≢◌, refl, List, [], ◌∷◌, Option, none, some, arith, ap}
use spawner.Prelude.Assoc
use spawner.Prelude.Result.{Result, ok, err}
use spawner.Prelude.Text.{Text}
use spawner.Types.{BackendId, BackendId_discrete}
use spawner.Messages.Agent.{BackendState, SpawnRequest, starting, swept, terminated, running}
use spawner.Drone.Database.{DroneDatabase}
use spawner.Drone.Executor.{
  Limits, Answers, Error, interrupt, terminate, World, Logged, Phase, active, ended, lost, Outcome,
  Turn, steps, signals, sender_lost, step, enter, fail, finish, leave, after_step, take_turn, run,
  run_backend, step_starting, EngineBackendStatus,
}
use spawner.Drone.Executor.Step.{rank, step-rank}

-- An ended task has left the maps. One that runs, or has returned because its channel is gone, still
-- has its listener there.
abbrev pub Registered : BackendId → World × Phase → Type 0
Registered b (w, ended) =
    (Assoc.get BackendId_discrete b w.monitors ≡ none)
    × (Assoc.get BackendId_discrete b w.listeners ≡ none)
Registered b (w, active s) = Assoc.get BackendId_discrete b w.listeners ≡ some tt
Registered b (w, lost) = Assoc.get BackendId_discrete b w.listeners ≡ some tt

abbrev HasListener : BackendId → World → Type 0
HasListener b w = Assoc.get BackendId_discrete b w.listeners ≡ some tt

abbrev pub listening : World → SpawnRequest → World
listening w spawn = record w {
  listeners = Assoc.insert BackendId_discrete spawn.backend_id tt w.listeners;
}

abbrev is_complete : DroneDatabase × Outcome → ℕ
is_complete (db, none) = 0
is_complete (db, some r) = 1

abbrev completes : Limits → SpawnRequest → World → BackendState → Turn → ℕ
completes l spawn w s (steps a log) = is_complete (step l w.db spawn s a)
completes l spawn w s _ = 0

-- How many steps of the task run to their end, well or with an error.
unfoldable pub completed : Limits → SpawnRequest → World × Phase → List Turn → ℕ
completed l spawn p [] = 0
completed l spawn (w, active s) (t ∷ turns) =
    completes l spawn w s t + completed l spawn (take_turn l spawn w s t) turns
completed l spawn (w, ended) (t ∷ turns) = 0
completed l spawn (w, lost) (t ∷ turns) = 0

-- What is left of a task.
abbrev left : Phase → ℕ
left (active s) = rank s
left ended = 0
left lost = 0

finish-left :
    (w : World) (spawn : SpawnRequest) (s : BackendState) (r : Result Error (Option BackendState))
    (log : Logged)
    → ((t : BackendState) → r ≡ ok (some t) → rank t < rank s)
    → left (finish w spawn s r log).1 < rank s
unfolding finish enter fail
finish-left w spawn s (ok (some t)) log h = h t refl
finish-left w spawn s (ok none) log h = ground arith
finish-left w spawn s (err x) log h = ground arith

after_step-left :
    (w : World) (spawn : SpawnRequest) (s : BackendState) (p : DroneDatabase × Outcome)
    (log : Logged)
    → ((t : BackendState) → p.1 ≡ some (ok (some t)) → rank t < rank s)
    → is_complete p + left (after_step w spawn s p log).1 ≤ rank s
after_step-left w spawn s (db, none) log h = omega arith
after_step-left w spawn s (db, some r) log h =
    omega (arith, finish-left (record w { db = db }) spawn s r log (λ t e. h t (ap some e)))

take_turn-left :
    (l : Limits) (spawn : SpawnRequest) (w : World) (s : BackendState) (t : Turn)
    → completes l spawn w s t + left (take_turn l spawn w s t).1 ≤ rank s
unfolding take_turn
take_turn-left l spawn w s (steps a log) =
    after_step-left w spawn s (step l w.db spawn s a) log (step-rank l w.db spawn s a)
take_turn-left l spawn w swept (signals x written log) = omega arith
take_turn-left l spawn w swept sender_lost = omega arith
take_turn-left l spawn w s (signals interrupt written log) = omega arith
take_turn-left l spawn w s (signals terminate written log) = unfold finish enter in ground arith
take_turn-left l spawn w s sender_lost = ground arith

completed-left :
    (l : Limits) (spawn : SpawnRequest) (p : World × Phase) (turns : List Turn)
    → completed l spawn p turns + left (run l spawn p turns).1 ≤ left p.1
unfolding completed run
completed-left l spawn p [] = omega arith
completed-left l spawn (w, active s) (t ∷ turns) =
    omega
      (arith, take_turn-left l spawn w s t, completed-left l spawn (take_turn l spawn w s t) turns)
completed-left l spawn (w, ended) (t ∷ turns) = omega arith
completed-left l spawn (w, lost) (t ∷ turns) = omega arith

-- A task makes progress by its steps: once as many steps have run to their end as the first state is
-- far from the end (four from `loading`), the task has stopped, however often it was interrupted or
-- told to terminate.
pub run_backend_stops :
    (l : Limits) (spawn : SpawnRequest) (w : World) (from s : BackendState) (turns : List Turn)
    → rank from ≤ completed l spawn (listening w spawn, active from) turns
    → (run_backend l spawn w from turns).1 ≢ active s
unfolding run_backend
run_backend_stops l spawn w from s turns h e =
    ground (arith, completed-left l spawn (listening w spawn, active from) turns)

-- A terminate signal moves a backend to `terminated` from every state but `swept`, also from a state
-- in which it had already ended otherwise; from `swept` it moves it nowhere.
pub take_turn-terminate :
    (l : Limits) (spawn : SpawnRequest) (w : World) (s : BackendState) (written : Option (Text × ℕ))
    (log : Logged)
    → let p = take_turn l spawn w s (signals terminate written log) in
      (s ≢ swept → p.1 ≡ active terminated) × (s ≡ swept → p ≡ (w, active swept))
unfolding take_turn finish enter
take_turn-terminate l spawn w swept written log = ((λ n. absurd (n refl)), λ _. refl)
take_turn-terminate l spawn w s written log = ((λ _. refl), λ e. ground arith)

-- Where the port of a running container does not answer, the task ends and changes neither the state
-- that is stored nor what is published: the backend stays `starting`.
pub port_error_unchanged :
    (l : Limits) (spawn : SpawnRequest) (w : World) (a : Answers) (log : Logged) (addr : Text)
    (e : Error)
    → a.status ≡ ok (EngineBackendStatus.running addr)
    → a.port ≡ err e
    → take_turn l spawn w starting (steps a log) ≡ (leave w spawn.backend_id, ended)
unfolding take_turn finish fail step step_starting
port_error_unchanged l spawn w a log addr e h k = rw (h, k) refl
