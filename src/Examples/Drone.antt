-- ===== src/Examples/Drone.antt =====
-- The theorems of the drone's executor and database at concrete inputs.
use spawner.Prelude.{
  In, ℕ, ◌+◌, ◌≤◌, ◌<◌, ◌≡◌, ◌≢◌, refl, List, [], ◌∷◌, ◌++◌, ap, Option, none, some, Bool, true,
  false, All, ◌↔◌, arith,
}
use spawner.Prelude.Assoc
use spawner.Prelude.Result.{Result, ok, err}
use spawner.Prelude.Text.{Text, codes, Text_discrete}
use spawner.Messages.Agent as Agent
use spawner.Messages.Agent.{
  BackendState, SpawnRequest, loading, starting, ready, swept, terminated, to_string,
  timed_out_before_ready,
}
use spawner.Drone.Database as Database
use spawner.Drone.Database.{
  DroneDatabase, BackendRow, RouteRow, find_backend, get_proxy_route, insert_proxy_route,
}
use spawner.Types.{BackendId}
use spawner.Drone.Database.History as Calls
use spawner.Drone.Database.History.{empty, run_routed_ready, run_one_address}
use spawner.Drone.Executor as Executor
use spawner.Drone.Executor.{
  EngineBackendStatus, Limits, Round, Answers, Logged, World, Phase, Turn, steps, signals, active,
  ended, wait_idle, take_turn, leave, run_backend, Error, out_of_range,
}
use spawner.Drone.Executor.Idle.{wait_idle_recent, wait_idle_ends, wait_idle_fails_iff, Races}
use spawner.Drone.Executor.Run.{Follows, run_backend-Follows, run_backend_in_time}
use spawner.Drone.Executor.Stored.{stored_state, run_backend_routed}
use spawner.Drone.Executor.Ending.{run_backend_stops, completed, listening}

abbrev spawn : SpawnRequest
spawn = record {
  drone_id = record { id = codes "d1" };
  max_idle_secs = 30;
  backend_id = record { id = codes "b1" };
  metadata = [];
  executable = record {
    image = codes "image";
    env = [];
    credentials = none;
    resource_limits = record {
      cpu_period = none;
      cpu_period_percent = none;
      cpu_time_limit = none;
    };
  };
  bearer_token = none;
}

abbrev serialize : SpawnRequest → Text
serialize s = s.backend_id.id

abbrev calls : List Calls.Call
calls =
    Calls.inserts spawn
    ∷ Calls.routes spawn.backend_id (codes "web") (codes "10.0.0.1:8080") 7
    ∷ Calls.updates spawn.backend_id ready
    ∷ []

routed :
    get_proxy_route (Calls.run serialize empty calls) (codes "web") ≡ some (codes "10.0.0.1:8080")
unfolding Calls.run get_proxy_route Database.find_route Calls.step Database.update_backend_state
    insert_proxy_route find_backend Database.insert_backend spawner.Prelude.Text.Text_discrete
    Database.drop_conflicts Database.set_state Agent.to_string
routed = refl

run_routed_ready_example :
    (b : BackendId) × (now : ℕ) × In
      (Calls.routes b (codes "web") (codes "10.0.0.1:8080") now)
      calls
    × (row : BackendRow) × (find_backend b.id (Calls.run serialize empty calls).backends ≡ some row)
    × (row.state ≡ codes "Ready")
run_routed_ready_example =
    run_routed_ready serialize calls (codes "web") (codes "10.0.0.1:8080") routed

run_one_address_example : codes "web" ≡ codes "web"
run_one_address_example =
    run_one_address serialize calls (codes "web") (codes "web") (codes "10.0.0.1:8080") routed
      routed

abbrev loaded : DroneDatabase
loaded = record {
  backends = record { name = codes "b1"; spec = codes "b1"; state = codes "Starting" } ∷ [];
  routes =
      record { backend = codes "b0"; subdomain = codes "b0"; address = codes "a"; last_active = 1 }
      ∷ [];
}

abbrev with_route : DroneDatabase
with_route = record loaded {
  routes =
      record { backend = codes "b1"; subdomain = codes "b1"; address = codes "a"; last_active = 5 }
      ∷ [];
}

route_inserted :
    insert_proxy_route loaded spawn.backend_id spawn.backend_id.id (codes "a") 5 ≡ ok with_route
unfolding insert_proxy_route find_backend spawner.Prelude.Text.Text_discrete Database.drop_conflicts
route_inserted = refl

abbrev limits : Limits
limits = record { max_instant = 1000000; max_duration = 1000000 }

abbrev recent : Round
recent = record { last_active = ok 100; now = 110; later = 110 }

abbrev idle : Round
idle = record { last_active = ok 100; now = 131; later = 131 }

abbrev torn : Round
torn = record { last_active = ok 100; now = 130; later = 131 }

abbrev value_of : Result Error ℕ → ℕ
value_of (ok t) = t
value_of (err e) = 0

wait_idle_recent_example : wait_idle limits 30 (recent ∷ []) ≢ some (ok (some swept))
wait_idle_recent_example =
    wait_idle_recent limits 30 (recent ∷ []) ((λ t e. omega (arith, ap value_of e)), tt)
      (some swept)

wait_idle_ends_example : wait_idle limits 30 (recent ∷ idle ∷ []) ≡ some (ok (some swept))
wait_idle_ends_example =
    wait_idle_ends limits 30 (recent ∷ []) [] idle 100
      ((100, refl, (omega arith, omega arith), omega arith, omega arith), tt) refl
      (omega arith, omega arith) (omega arith)

wait_idle_fails_iff_example :
    (wait_idle limits 30 (torn ∷ []) ≡ some (err out_of_range))
    ↔ ((out_of_range ≡ out_of_range) × Races limits 30 (torn ∷ []))
wait_idle_fails_iff_example =
    wait_idle_fails_iff limits 30 (torn ∷ []) out_of_range
      ((100, refl, (omega arith, omega arith)), tt)

abbrev world : World
world = record { db = loaded; monitors = []; listeners = []; published = [] }

abbrev answers : Answers
answers = record {
  load = ok tt;
  status = ok (EngineBackendStatus.running (codes "a"));
  port = ok tt;
  route = ok tt;
  now = 5;
  rounds = idle ∷ [];
  stop = ok tt;
}

abbrev logged : Logged
logged = record { stored = true; sent = true }

abbrev turns : List Turn
turns =
    steps answers logged
    ∷ steps answers logged
    ∷ signals Executor.interrupt none logged
    ∷ steps answers logged
    ∷ steps answers logged
    ∷ []

run_backend-Follows_example : Follows loading (run_backend limits spawn world loading turns)
run_backend-Follows_example = run_backend-Follows limits spawn world loading turns refl

run_backend_in_time_example :
    All
      (λ e. e.0 ≢ timed_out_before_ready)
      (run_backend limits spawn world loading turns).0.published
run_backend_in_time_example = run_backend_in_time limits spawn world loading turns refl

four_steps : completed limits spawn (listening world spawn, active loading) turns ≡ 4
unfolding completed Executor.step take_turn Executor.finish Executor.enter insert_proxy_route
    find_backend Database.update_backend_state Database.set_state Agent.running
    spawner.Prelude.Text.Text_discrete wait_idle Executor.next_check spawner.Prelude.dec_le
    spawner.Prelude.dec_lt
four_steps = refl

run_backend_stops_example : (run_backend limits spawn world loading turns).1 ≢ active ready
run_backend_stops_example =
    run_backend_stops limits spawn world loading ready turns (omega (arith, four_steps))

abbrev routing : List Turn
routing = steps answers logged ∷ signals Executor.interrupt none logged ∷ []

abbrev routed_world : World
routed_world = record {
  db = record loaded {
    backends = record { name = codes "b1"; spec = codes "b1"; state = codes "Ready" } ∷ [];
    routes =
        record {
          backend = codes "b1";
          subdomain = codes "b1";
          address = codes "a";
          last_active = 5;
        }
        ∷ [];
  };
  monitors = (spawn.backend_id, tt) ∷ [];
  listeners = (spawn.backend_id, tt) ∷ [];
  published = (ready, true) ∷ [];
}

routing_ready : run_backend limits spawn world starting routing ≡ (routed_world, active ready)
unfolding run_backend take_turn Executor.step insert_proxy_route find_backend Text_discrete
    Executor.finish Executor.enter Executor.drop_step Database.update_backend_state Agent.running
    Database.set_state Database.drop_conflicts Assoc.insert Assoc.remove Agent.to_string
routing_ready = refl

run_backend_routed_example :
    (stored_state routed_world.db spawn.backend_id.id ≡ some (to_string ready))
    × (get_proxy_route routed_world.db spawn.backend_id.id ≢ none → ready ≡ ready)
unfolding find_backend to_string Text_discrete
run_backend_routed_example =
    run_backend_routed limits spawn world routed_world starting ready routing
      (record { unique = (tt, tt); own_name = (refl, tt) }) refl (refl, (refl, tt)) routing_ready

abbrev closed_port : Answers
closed_port = record answers { port = err Executor.port }
