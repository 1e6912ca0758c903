-- ===== src/Drone/Executor.antt =====
-- drone/src/agent/executor.rs and engine.rs: the task that leads one backend through its states. What
-- the engine, the database, NATS and the clock answer is part of each turn; the turns stand in the
-- order in which the task takes them.
pub mod Idle
pub mod Step
pub mod Run
pub mod Ending
pub mod Stored
use spawner.Prelude.{
  ℕ, ◌+◌, ◌-◌, ◌<◌, List, [], ◌∷◌, ◌++◌, Option, none, some, Bool, true, false, ite, dec_lt, dec_le,
  if◌then◌else◌,
}
use spawner.Prelude.Assoc
use spawner.Prelude.Result.{Result, ok, err, ◌>>=◌, ◌>>◌}
use spawner.Prelude.Text.{Text}
use spawner.Types.{BackendId, BackendId_discrete}
use spawner.Messages.Agent as Agent
use spawner.Messages.Agent.{
  SpawnRequest, TerminationRequest, BackendState, loading, error_loading, starting, error_starting,
  ready, timed_out_before_ready, swept,
}
use spawner.Drone.Database as Database
use spawner.Drone.Database.{DroneDatabase, DbError}

-- A `SocketAddr` is given by the text that it prints as.
pub data EngineBackendStatus : Type 0 where
  unknown exited failed terminated : EngineBackendStatus
  running : Text → EngineBackendStatus

pub data Signal : Type 0 where
  interrupt terminate : Signal

pub data Error : Type 0 where
  engine port stop checked_add out_of_range : Error
  database : DbError → Error

-- One round of the wait for idleness: the last activity that the database reports, and the clock as
-- it is read for the comparison and then for the sleep.
pub record Round : Type 0 where
  pub last_active : Result Error ℕ
  pub now : ℕ
  pub later : ℕ

-- `max_instant` is the latest instant that `chrono` represents, `max_duration` the longest duration.
pub record Limits : Type 0 where
  pub max_instant : ℕ
  pub max_duration : ℕ

unfoldable pub next_check : Limits → ℕ → ℕ → Result Error ℕ
next_check l last_active max_idle =
    ite (dec_le max_idle l.max_duration)
      (ite (dec_le (last_active + max_idle) l.max_instant) (ok (last_active + max_idle))
        (err checked_add))
      (err out_of_range)

-- `none` while the rounds run out: the task still sleeps.
unfoldable pub wait_idle : Limits → ℕ → List Round → Option (Result Error (Option BackendState))
wait_idle l max_idle [] = none
wait_idle l max_idle (r ∷ rounds) =
    let rest = wait_idle l max_idle rounds in
    elim (r.last_active >>= λ t. next_check l t max_idle) [
      | err e ↦ some (err e)
      | ok check ↦
          ite (dec_lt check r.now) (some (ok (some swept)))
            (ite (dec_lt check r.later) (some (err out_of_range)) rest)
    ]

-- The answers to the calls that one step makes.
pub record Answers : Type 0 where
  pub load : Result Error (Unit {0})
  pub status : Result Error EngineBackendStatus
  pub port : Result Error (Unit {0})
  pub route : Result Error (Unit {0})
  pub now : ℕ
  pub rounds : List Round
  pub stop : Result Error (Unit {0})

abbrev pub Outcome : Type 0
Outcome = Option (Result Error (Option BackendState))

-- The route is written if SQLite does not fail otherwise.
unfoldable pub insert_route :
    DroneDatabase → SpawnRequest → Text → Answers → DroneDatabase × Outcome
insert_route db spawn addr a = elim a.route [
  | err e ↦ (db, some (err e))
  | ok u ↦ elim (Database.insert_proxy_route db spawn.backend_id spawn.backend_id.id addr a.now) [
    | err e ↦ (db, some (err (database e)))
    | ok db' ↦ (db', some (ok (some ready)))
  ]
]

unfoldable pub step_starting : DroneDatabase → SpawnRequest → Answers → DroneDatabase × Outcome
unfolding insert_route
step_starting db spawn a = elim a.status [
  | err e ↦ (db, some (err e))
  | ok (running addr) ↦ elim a.port [
    | err e ↦ (db, some (err e))
    | ok u ↦ insert_route db spawn addr a
  ]
  | ok other ↦ (db, some (ok (some error_starting)))
]

unfoldable pub step_ready : Limits → SpawnRequest → Answers → Outcome
step_ready l spawn a = elim a.status [
  | err e ↦ some (err e)
  | ok failed ↦ some (ok (some Agent.failed))
  | ok exited ↦ some (ok (some Agent.exited))
  | ok terminated ↦ some (ok (some swept))
  | ok other ↦ wait_idle l spawn.max_idle_secs a.rounds
]

abbrev pub step_stop : Answers → Outcome
step_stop a = elim a.stop [ err e ↦ some (err stop) | ok u ↦ some (ok none) ]

unfoldable pub step :
    Limits → DroneDatabase → SpawnRequest → BackendState → Answers → DroneDatabase × Outcome
unfolding step_starting step_ready
step l db spawn loading a =
    (db, elim a.load [ err e ↦ some (err e) | ok u ↦ some (ok (some starting)) ])
step l db spawn starting a = step_starting db spawn a
step l db spawn ready a = (db, step_ready l spawn a)
step l db spawn _ a = (db, step_stop a)

-- The maps that the tasks of a drone share, and the calls of `publish_jetstream` with their success.
pub record World : Type 0 where
  pub db : DroneDatabase
  pub monitors : List (BackendId × Unit {0})
  pub listeners : List (BackendId × Unit {0})
  pub published : List (BackendState × Bool)

-- Whether the database and NATS take an update. A failure is only logged.
pub record Logged : Type 0 where
  pub stored : Bool
  pub sent : Bool

unfoldable pub update_backend_state : World → SpawnRequest → BackendState → Logged → World
update_backend_state w spawn state log = record w {
  db = if log.stored then Database.update_backend_state w.db spawn.backend_id state else w.db;
  published = w.published ++ (state, log.sent) ∷ [];
}

abbrev pub monitor : World → BackendId → World
monitor w b = record w { monitors = Assoc.insert BackendId_discrete b tt w.monitors }

abbrev pub leave : World → BackendId → World
leave w b = record w {
  monitors = Assoc.remove BackendId_discrete b w.monitors;
  listeners = Assoc.remove BackendId_discrete b w.listeners;
}

-- The task is in a state, or it has ended, or it has returned because its channel is gone.
pub data Phase : Type 0 where
  active : BackendState → Phase
  ended lost : Phase

unfoldable pub enter : World → SpawnRequest → BackendState → Logged → World × Phase
unfolding update_backend_state
enter w spawn state log = (
  update_backend_state (if Agent.running state then monitor w spawn.backend_id else w) spawn state
      log,
  active state,
)

unfoldable pub fail : World → SpawnRequest → BackendState → Logged → World × Phase
unfolding update_backend_state
fail w spawn loading log =
    (leave (update_backend_state w spawn error_loading log) spawn.backend_id, ended)
fail w spawn state log = (leave w spawn.backend_id, ended)

unfoldable pub finish :
    World
    → SpawnRequest
    → BackendState
    → Result Error (Option BackendState)
    → Logged
    → World × Phase
finish w spawn state (ok (some new)) log = enter w spawn new log
finish w spawn state (ok none) log = (leave w spawn.backend_id, ended)
finish w spawn state (err e) log = fail w spawn state log

-- A step runs to its end or not yet, or a signal drops it. A step that is dropped in the state
-- `starting` may have written its route already, to the address that is given.
pub data Turn : Type 0 where
  steps : Answers → Logged → Turn
  signals : Signal → Option (Text × ℕ) → Logged → Turn
  sender_lost : Turn

abbrev pub after_step :
    World → SpawnRequest → BackendState → DroneDatabase × Outcome → Logged → World × Phase
after_step w spawn state (db, none) log = (record w { db = db }, active state)
after_step w spawn state (db, some next) log = finish (record w { db = db }) spawn state next log

unfoldable pub drop_step : World → SpawnRequest → BackendState → Option (Text × ℕ) → World
drop_step w spawn starting (some (addr, now)) =
    elim (Database.insert_proxy_route w.db spawn.backend_id spawn.backend_id.id addr now) [
      | err e ↦ w
      | ok db ↦ record w { db = db }
    ]
drop_step w spawn _ _ = w

-- While a backend is swept the task does not listen.
unfoldable pub take_turn : Limits → SpawnRequest → World → BackendState → Turn → World × Phase
take_turn l spawn w state (steps a log) = after_step w spawn state (step l w.db spawn state a) log
take_turn l spawn w swept (signals s written log) = (w, active swept)
take_turn l spawn w swept sender_lost = (w, active swept)
take_turn l spawn w state (signals interrupt written log) =
    (drop_step w spawn state written, active state)
take_turn l spawn w state (signals terminate written log) =
    finish (drop_step w spawn state written) spawn state (ok (some Agent.terminated)) log
take_turn l spawn w state sender_lost = (w, lost)

-- The loop of `run_backend`.
unfoldable pub run : Limits → SpawnRequest → World × Phase → List Turn → World × Phase
run l spawn p [] = p
run l spawn (w, active state) (t ∷ turns) = run l spawn (take_turn l spawn w state t) turns
run l spawn (w, ended) (t ∷ turns) = (w, ended)
run l spawn (w, lost) (t ∷ turns) = (w, lost)

unfoldable pub run_backend :
    Limits → SpawnRequest → World → BackendState → List Turn → World × Phase
unfolding run
run_backend l spawn w state turns =
    run l spawn
      (
        record w { listeners = Assoc.insert BackendId_discrete spawn.backend_id tt w.listeners },
        active state,
      )
      turns

-- `inserted` is whether SQLite takes the row, beside the constraint on its name.
unfoldable pub start_backend :
    Limits → (SpawnRequest → Text) → SpawnRequest → World → Bool → Bool → List Turn → World × Phase
unfolding run_backend
start_backend l serialize spawn w inserted sent turns =
    let db =
      if inserted
      then (elim (Database.insert_backend serialize w.db spawn) [ err e ↦ w.db | ok db ↦ db ])
      else w.db in
    run_backend l spawn (record w { db = db; published = w.published ++ (loading, sent) ∷ [] })
      loading turns

-- `delivered` is whether the channel takes the signal.
unfoldable pub kill_backend : World → TerminationRequest → Bool → Option Signal
kill_backend w r delivered = elim (Assoc.get BackendId_discrete r.backend_id w.listeners) [
  | none ↦ none
  | some u ↦ if delivered then some terminate else none
]

-- An event of `listen_for_container_events`: the signal to a listener, if the backend has one and its
-- channel has room.
unfoldable pub interrupt_backend : World → BackendId → Bool → Option Signal
interrupt_backend w b delivered = elim (Assoc.get BackendId_discrete b w.listeners) [
  | none ↦ none
  | some u ↦ if delivered then some interrupt else none
]

-- The tasks that `resume_backends` spawns, after the monitors of the running ones are there.
unfoldable pub resume : World → List Database.Backend → World × List (SpawnRequest × BackendState)
resume w [] = (w, [])
resume w (b ∷ backends) =
    let rest = resume (if Agent.running b.state then monitor w b.backend_id else w) backends in
    (rest.0, (b.spec, b.state) ∷ rest.1)

unfoldable pub resume_backends :
    (Text → Option SpawnRequest)
    → World
    → Result DbError (World × List (SpawnRequest × BackendState))
unfolding resume
resume_backends deserialize w = elim (Database.get_backends deserialize w.db.backends) [
  | err e ↦ err e
  | ok backends ↦ ok (resume w backends)
]
