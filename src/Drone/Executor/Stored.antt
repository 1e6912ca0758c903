-- ===== src/Drone/Executor/Stored.antt =====
-- The state of a task, the database and the proxy, where the database takes every update.
use spawner.Prelude.{
  ℕ, ◌≡◌, ◌≢◌, refl, sym, ap, ◌∙◌, List, Option, none, some, true, All, ◌⊎◌, inl, inr, arith,
  Option-cases, subst, if_cases,
}
use spawner.Prelude.Result.{Result, ok, err, Result-cases}
use spawner.Prelude.Text.{Text}
use spawner.Types.{BackendId}
use spawner.Messages.Agent as Agent
use spawner.Messages.Agent.{
  BackendState, SpawnRequest, to_string, loading, error_loading, starting, ready, swept, terminated,
}
use spawner.Drone.Database as Database
use spawner.Drone.Database.{
  DroneDatabase, BackendRow, find_backend, set_state, text_eq, insert_proxy_route, get_proxy_route,
}
use spawner.Drone.Database.Routes.{find_backend-set_state}
use spawner.Drone.Database.History.{after}
use spawner.Drone.Database.OwnNames.{Inv, insert_proxy_route-Inv, ready_of_name, routed_ready}
use spawner.Drone.Executor.{
  Limits, Answers, Error, interrupt, terminate, World, Logged, Phase, active, Outcome, Turn, steps,
  signals, sender_lost, step, step_starting, insert_route, enter, fail, finish, drop_step,
  after_step, update_backend_state, monitor, take_turn, run_backend, EngineBackendStatus,
}
use spawner.Drone.Executor.Run.{run_inv}

abbrev state_of : Option BackendRow → Option Text
state_of none = none
state_of (some r) = some r.state

-- The state that is stored under a name.
abbrev pub stored_state : DroneDatabase → Text → Option Text
stored_state db n = state_of (find_backend n db.backends)

abbrev pub IsStored : BackendId → BackendState → DroneDatabase → Type 0
IsStored b s db = Inv db × (stored_state db b.id ≡ some (to_string s))

update-IsStored :
    (db : DroneDatabase) (b : BackendId) (s t : BackendState)
    → IsStored b s db
    → IsStored b t (Database.update_backend_state db b t)
unfolding Database.update_backend_state
update-IsStored db b s t (v, e) = (
  record { unique = v.unique; own_name = v.own_name },
  elim (Option-cases (find_backend b.id db.backends)) [
    | inl f ↦ absurd (ground arith)
    | inr (r, f) ↦ ground (arith, find_backend-set_state (to_string t) b.id b.id db.backends)
  ],
)

-- A route of a backend's own name leaves what is stored of the backends.
route-backends :
    (db : DroneDatabase) (b : BackendId) (addr : Text) (now : ℕ)
    → (after db (insert_proxy_route db b b.id addr now)).backends ≡ db.backends
unfolding insert_proxy_route
route-backends db b addr now = elim (Option-cases (find_backend b.id db.backends)) [
  | inl f ↦ rw (after, f) refl
  | inr (r, f) ↦ rw (after, f) refl
]

route-IsStored :
    (db : DroneDatabase) (b : BackendId) (s : BackendState) (addr : Text) (now : ℕ)
    → IsStored b s db
    → IsStored b s (after db (insert_proxy_route db b b.id addr now))
route-IsStored db b s addr now (v, e) = (
  insert_proxy_route-Inv db b addr now v,
  ap (λ rows. state_of (find_backend b.id rows)) (route-backends db b addr now) ∙ e,
)

abbrev Wrote : BackendId → DroneDatabase → DroneDatabase → Type 0
Wrote b db db' =
    (db' ≡ db)
    ⊎ ((addr : Text) × (now : ℕ) × (db' ≡ after db (insert_proxy_route db b b.id addr now)))

insert_route-Wrote :
    (db : DroneDatabase) (spawn : SpawnRequest) (addr : Text) (a : Answers)
    → Wrote spawn.backend_id db (insert_route db spawn addr a).0
unfolding insert_route
insert_route-Wrote db spawn addr a = elim (Result-cases a.route) [
  | inl (u, e) ↦
      elim (Result-cases (insert_proxy_route db spawn.backend_id spawn.backend_id.id addr a.now)) [
        | inl (db', f) ↦ inr (addr, a.now, rw (insert_route, e, f) refl)
        | inr (x, f) ↦ inl (rw (insert_route, e, f) refl)
      ]
  | inr (x, e) ↦ inl (rw (insert_route, e) refl)
]

step_starting-Wrote :
    (db : DroneDatabase) (spawn : SpawnRequest) (a : Answers)
    → Wrote spawn.backend_id db (step_starting db spawn a).0
unfolding step_starting
step_starting-Wrote db spawn a = elim (Result-cases a.status) [
  | inl (EngineBackendStatus.running addr, e) ↦ elim (Result-cases a.port) [
    | inl (u, f) ↦ rw (step_starting, e, f) (insert_route-Wrote db spawn addr a)
    | inr (x, f) ↦ inl (rw (step_starting, e, f) refl)
  ]
  | inl (EngineBackendStatus.unknown, e) ↦ inl (rw (step_starting, e) refl)
  | inl (EngineBackendStatus.exited, e) ↦ inl (rw (step_starting, e) refl)
  | inl (EngineBackendStatus.failed, e) ↦ inl (rw (step_starting, e) refl)
  | inl (EngineBackendStatus.terminated, e) ↦ inl (rw (step_starting, e) refl)
  | inr (x, e) ↦ inl (rw (step_starting, e) refl)
]

Wrote-IsStored :
    (db db' : DroneDatabase) (b : BackendId) (s : BackendState)
    → Wrote b db db'
    → IsStored b s db
    → IsStored b s db'
Wrote-IsStored db db' b s (inl e) k = subst (IsStored b s) (sym e) k
Wrote-IsStored db db' b s (inr (addr, now, e)) k =
    subst (IsStored b s) (sym e) (route-IsStored db b s addr now k)

-- The database takes the updates of a turn.
abbrev pub IsTaken : Turn → Type 0
IsTaken (steps a log) = log.stored ≡ true
IsTaken (signals s written log) = log.stored ≡ true
IsTaken sender_lost = Unit

-- A task that runs is in the state that is stored.
abbrev Agrees : BackendId → World × Phase → Type 0
Agrees b (w, active s) = IsStored b s w.db
Agrees b (w, _) = Unit

enter-Agrees :
    (w : World) (spawn : SpawnRequest) (s t : BackendState) (log : Logged)
    → log.stored ≡ true
    → IsStored spawn.backend_id s w.db
    → Agrees spawn.backend_id (enter w spawn t log)
unfolding enter update_backend_state
enter-Agrees w spawn s t log e k = rw (e) (
    update-IsStored _ spawn.backend_id s t (
      if_cases (λ v. IsStored spawn.backend_id s v.db) (Agent.running t)
        (monitor w spawn.backend_id) w (λ _. k) (λ _. k)))

finish-Agrees :
    (w : World) (spawn : SpawnRequest) (s : BackendState)
    (next : Result Error (Option BackendState)) (log : Logged)
    → log.stored ≡ true
    → IsStored spawn.backend_id s w.db
    → Agrees spawn.backend_id (finish w spawn s next log)
unfolding finish fail
finish-Agrees w spawn s (ok (some t)) log e k = enter-Agrees w spawn s t log e k
finish-Agrees w spawn s (ok none) log e k = tt
finish-Agrees w spawn loading (err x) log e k = tt
finish-Agrees w spawn s (err x) log e k = tt

after_step-Agrees :
    (w : World) (spawn : SpawnRequest) (s : BackendState) (p : DroneDatabase × Outcome)
    (log : Logged)
    → log.stored ≡ true
    → Wrote spawn.backend_id w.db p.0
    → IsStored spawn.backend_id s w.db
    → Agrees spawn.backend_id (after_step w spawn s p log)
after_step-Agrees w spawn s (db, none) log e d k = Wrote-IsStored w.db db spawn.backend_id s d k
after_step-Agrees w spawn s (db, some next) log e d k =
    finish-Agrees (record w { db = db }) spawn s next log e
      (Wrote-IsStored w.db db spawn.backend_id s d k)

step-Wrote :
    (l : Limits) (db : DroneDatabase) (spawn : SpawnRequest) (s : BackendState) (a : Answers)
    → Wrote spawn.backend_id db (step l db spawn s a).0
unfolding step
step-Wrote l db spawn starting a = step_starting-Wrote db spawn a
step-Wrote l db spawn _ a = inl refl

drop_step-IsStored :
    (w : World) (spawn : SpawnRequest) (s t : BackendState) (written : Option (Text × ℕ))
    → IsStored spawn.backend_id t w.db
    → IsStored spawn.backend_id t (drop_step w spawn s written).db
unfolding drop_step
drop_step-IsStored w spawn starting t (some (addr, now)) k =
    elim (Result-cases (insert_proxy_route w.db spawn.backend_id spawn.backend_id.id addr now)) [
      | inl (db, e) ↦
          rw (drop_step, e)
            (subst (λ r. IsStored spawn.backend_id t (after w.db r)) e
              (route-IsStored w.db spawn.backend_id t addr now k))
      | inr (x, e) ↦ rw (drop_step, e) k
    ]
drop_step-IsStored w spawn s t _ k = k

take_turn-Agrees :
    (l : Limits) (spawn : SpawnRequest) (w : World) (s : BackendState) (t : Turn)
    → IsTaken t
    → IsStored spawn.backend_id s w.db
    → Agrees spawn.backend_id (take_turn l spawn w s t)
unfolding take_turn
take_turn-Agrees l spawn w s (steps a log) e k =
    after_step-Agrees w spawn s (step l w.db spawn s a) log e (step-Wrote l w.db spawn s a) k
take_turn-Agrees l spawn w swept (signals x written log) e k = k
take_turn-Agrees l spawn w swept sender_lost e k = k
take_turn-Agrees l spawn w s (signals interrupt written log) e k =
    drop_step-IsStored w spawn s s written k
take_turn-Agrees l spawn w s (signals terminate written log) e k =
    finish-Agrees (drop_step w spawn s written) spawn s (ok (some terminated)) log e
      (drop_step-IsStored w spawn s s written k)
take_turn-Agrees l spawn w s sender_lost e k = tt

running_stored :
    (l : Limits) (spawn : SpawnRequest) (w : World) (from : BackendState) (turns : List Turn)
    → All IsTaken turns
    → IsStored spawn.backend_id from w.db
    → Agrees spawn.backend_id (run_backend l spawn w from turns)
unfolding run_backend
running_stored l spawn w from turns q k =
    run_inv (Agrees spawn.backend_id) IsTaken l spawn
      (λ v s t e h. take_turn-Agrees l spawn v s t e h) turns _ q k

-- From a database in which the task's first state is stored, each subdomain and each address has one
-- route, and routes are to backends of the subdomain's name: while the database takes every update,
-- and no other task writes to it, the state of a task that still runs is the one that is stored; and
-- if the proxy finds a route for the backend's name, that state is ready.
pub run_backend_routed :
    (l : Limits) (spawn : SpawnRequest) (w w' : World) (from s : BackendState) (turns : List Turn)
    → Inv w.db
    → stored_state w.db spawn.backend_id.id ≡ some (to_string from)
    → All IsTaken turns
    → run_backend l spawn w from turns ≡ (w', active s)
    → (stored_state w'.db spawn.backend_id.id ≡ some (to_string s))
      × (get_proxy_route w'.db spawn.backend_id.id ≢ none → s ≡ ready)
run_backend_routed l spawn w w' from s turns v e q f =
    let (v', e') =
      subst (Agrees spawn.backend_id) f (running_stored l spawn w from turns q (v, e)) in
    (
      e',
      λ n. elim (Option-cases (get_proxy_route w'.db spawn.backend_id.id)) [
        | inl g ↦ absurd (n g)
        | inr (addr, g) ↦
            let (row, h, i) = routed_ready w'.db spawn.backend_id.id addr v' g in
            ready_of_name s (ground (arith, e', h, i))
      ],
    )
