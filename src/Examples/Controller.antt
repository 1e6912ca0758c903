-- ===== src/Examples/Controller.antt =====
-- The controller's theorems at concrete inputs.
use spawner.Prelude.{
  ℕ, ◌+◌, ◌*◌, ◌≤◌, ◌<◌, ◌≡◌, ◌≢◌, ◌↔◌, refl, List, [], ◌∷◌, ◌++◌, Option, none, some, Bool, true,
  false, ℕ_discrete, In, inl, inr, filter, dec_lt, arith, length,
}
use spawner.Prelude.Assoc
use spawner.Prelude.Result.{ok}
use spawner.Prelude.Text.{Text, codes}
use spawner.Prelude.Text.Laws.{lacks-In}
use spawner.Types.{DroneId, BackendId, ClusterName}
use spawner.Messages.Agent.{DroneStatusMessage}
use spawner.Messages.Scheduler.{ScheduleRequest}
use spawner.Messages.Dns as DnsMessages
use spawner.Messages.Dns.{SetDnsRecord}
use spawner.Ttl.TtlMap
use spawner.Ttl.TtlMap.{value_of}
use spawner.Ttl.TtlMap.Sweep.{live}
use spawner.Ttl.TtlMap.History as MapHistory
use spawner.Ttl.TtlList.History as ListHistory
use spawner.Ttl.Multistore
use spawner.Ttl.Multistore.History as StoreHistory
use spawner.Controller.Scheduler
use spawner.Controller.Scheduler.{second, schedule}
use spawner.Controller.Scheduler.History.{
  after, seen_after, schedule_live, schedule_finds, IsChoice, last_seen,
}
use spawner.Controller.Loop.{Surroundings, Event, run, status, waiting}
use spawner.Controller.Loop.Responses.{run_waiting, statuses, requests}
use spawner.Messages.Scheduler.{DrainDrone}
use spawner.Drone.Database.{DroneDatabase}
use spawner.Drone.Agent.{Agent, start, ready_round, drain}
use spawner.Drone.Agent.Ready.{ready_finds}
use spawner.Drone.Agent.Draining.{drained_unscheduled}
use spawner.Controller.Dns as Dns
use spawner.Controller.Dns.{RecordKey, RecordKey_discrete, RecordType, Reply}
use spawner.Controller.Dns.Calls as Calls
use spawner.Controller.Dns.Answers.{run_address, handle_request-code, reply}
use spawner.Controller.Dns.Rname.{format_rname, read_rname, read-format_rname}

abbrev map_calls : List (MapHistory.Call ℕ ℕ)
map_calls = MapHistory.inserts 1 5 10 ∷ MapHistory.reads 1 20 ∷ MapHistory.inserts 1 6 30 ∷ []

get-run_example :
    (TtlMap.get ℕ_discrete (MapHistory.run ℕ_discrete (TtlMap.new 60) map_calls) 1 75).0
    ≡ value_of (live 75 (MapHistory.latest ℕ_discrete 60 (λ j. none) map_calls 1))
get-run_example =
    MapHistory.get-run ℕ_discrete 60 75 1 map_calls
      (omega arith, (omega arith, (omega arith, omega arith)))

abbrev list_calls : List (ListHistory.Call ℕ)
list_calls = ListHistory.pushes 5 10 ∷ ListHistory.reads 20 ∷ ListHistory.pushes 6 15 ∷ []

abbrev store_calls : List (StoreHistory.Call ℕ ℕ)
store_calls =
    StoreHistory.inserts 1 5 10 10 ∷ StoreHistory.reads 1 20 ∷ StoreHistory.inserts 1 6 30 30 ∷ []

iter-IsReadOf_example :
    StoreHistory.IsReadOf 75
      (StoreHistory.log ℕ_discrete 60 (λ j. none) store_calls 1)
      (Multistore.iter ℕ_discrete
        (StoreHistory.run ℕ_discrete (Multistore.new 60) store_calls)
        1
        75).0
iter-IsReadOf_example =
    StoreHistory.iter-IsReadOf ℕ_discrete 60 75 1 store_calls (omega arith, omega arith)

abbrev late_read : List (StoreHistory.Call ℕ ℕ)
late_read = StoreHistory.reads 1 1000 ∷ []

run_inserted_kept_example :
    Assoc.get ℕ_discrete 1
      (StoreHistory.run ℕ_discrete
        (Multistore.insert ℕ_discrete
          (StoreHistory.run ℕ_discrete (Multistore.new 60) [])
          1
          5
          10
          10)
        late_read).inner.inner_map
    ≢ none
run_inserted_kept_example =
    StoreHistory.run_inserted_kept {V = ℕ} ℕ_discrete 60 [] late_read 1 5 10 10

abbrev choose : List DroneId → Option DroneId
choose [] = none
choose (d ∷ ids) = some d

choose-IsChoice : IsChoice choose
choose-IsChoice = record { member = chosen; finds = empty }
  where
    chosen : (l : List DroneId) (d : DroneId) → choose l ≡ some d → In d l
    chosen [] d e = ground arith
    chosen (x ∷ l) d e = inl (ground arith)

    empty : (l : List DroneId) → choose l ≡ none → l ≡ []
    empty [] e = refl
    empty (x ∷ l) e = ground arith

abbrev cluster : ClusterName
cluster = record { hostname = codes "plane.test" }

abbrev drone : DroneId
drone = record { id = codes "d1" }

abbrev status_message : DroneStatusMessage
status_message = record {
  drone_id = drone;
  cluster = cluster;
  drone_version = codes "0.2.0";
  ready = true;
  running_backends = some 0;
}

abbrev messages : List (ℕ × DroneStatusMessage)
messages = (6 * second, status_message) ∷ []

scheduled_drone : schedule choose (after messages) cluster (10 * second) ≡ some (ok drone)
unfolding schedule spawner.Prelude.dec_le Assoc.get spawner.Controller.Scheduler.History.run
    Scheduler.update_status Assoc.insert spawner.Types.ClusterName_discrete dec_lt
scheduled_drone = refl

seen_drone : seen_after messages cluster drone ≡ some (6 * second)
unfolding last_seen spawner.Types.ClusterName_discrete spawner.Types.DroneId_discrete
seen_drone = refl

schedule_live_example :
    (t : ℕ) × (seen_after messages cluster drone ≡ some t) × (10 * second < t + 5 * second)
schedule_live_example =
    schedule_live choose choose-IsChoice messages cluster (10 * second) drone (omega arith)
      scheduled_drone

schedule_finds_example :
    (d' : DroneId) × (schedule choose (after messages) cluster (10 * second) ≡ some (ok d'))
schedule_finds_example =
    schedule_finds choose choose-IsChoice messages cluster (10 * second) drone (6 * second)
      (omega arith) seen_drone (omega arith)

abbrev backend : BackendId
backend = record { id = codes "b1" }

abbrev no_token : Option Text
no_token = none

abbrev schedule_request : ScheduleRequest
schedule_request = record {
  cluster = cluster;
  backend_id = some (record { id = codes "b1" });
  max_idle_secs = 30;
  metadata = [];
  executable = record {
    image = codes "image";
    env = [];
    credentials = none;
    resource_limits = record {
      cpu_period = none;
      cpu_period_percent = none;
      cpu_time_limit = none;
    };
  };
  require_bearer_token = false;
}

abbrev around : Surroundings
around = record {
  now = 10 * second;
  random = record { id = codes "r" };
  drone = λ _. ok true;
  responds = true;
}

abbrev events : List Event
events = status (some status_message) (6 * second) ∷ []

waiting_run : (run choose Scheduler.default events).1 ≡ waiting (after messages)
unfolding run spawner.Controller.Scheduler.History.run Scheduler.update_status
waiting_run = refl

run_waiting_example :
    (after messages ≡ after (statuses events))
    × (length (run choose Scheduler.default events).0 ≡ requests events)
run_waiting_example = run_waiting choose Scheduler.default (after messages) events waiting_run

abbrev parse_ip : Text → Option Text
parse_ip t = some t

abbrev key : RecordKey
key = record { cluster = cluster; name = codes "b1" }

abbrev a_message : SetDnsRecord
a_message = record {
  cluster = cluster;
  kind = DnsMessages.a;
  name = codes "b1";
  value = codes "12.12.12.12";
}

abbrev dns_events : List Calls.Event
dns_events = Calls.sets a_message 10 10 ∷ []

key_name : Dns.split_name (codes "b1.plane.test.") ≡ some key
unfolding Dns.split_name
key_name = refl

run_address_example :
    (Dns.handle_request
      (Calls.run parse_ip (Dns.new none) dns_events)
      (codes "b1.plane.test.")
      RecordType.a
      70).0
    ≡ reply (
        Dns.answers_of (codes "b1.plane.test.") (
          value_of (
            live 70 (
              MapHistory.latest RecordKey_discrete DnsMessages.ttl
                (λ j. none)
                (Calls.address_calls parse_ip dns_events)
                key))))
run_address_example =
    run_address parse_ip none 70 (codes "b1.plane.test.") key dns_events (omega arith, omega arith)
      key_name

handle_request-code_example :
    let r = (Dns.handle_request (Dns.new none) (codes "plane") RecordType.soa 70).0 in
    (r.code ≡ Dns.nx_domain ↔ (¬ In b'.' (codes "plane")))
    × (r.code ≡ Dns.serv_fail ↔ (
        (Dns.split_name (codes "plane") ≢ none)
        × (RecordType.soa ≡ RecordType.soa)
        × ((Dns.new none).soa_email ≡ none)))
    × (r.code ≢ Dns.no_error → r.answers ≡ [])
handle_request-code_example = handle_request-code (Dns.new none) (codes "plane") RecordType.soa 70

read-format_rname_example :
    (name : Text) × (format_rname (codes "foo.bar@baz.com") ≡ ok name)
    × (read_rname name ≡ some (codes "foo.bar", codes "baz.com"))
unfolding ℕ_discrete
read-format_rname_example =
    read-format_rname (codes "foo.bar") (codes "baz.com") (lacks-In b'@' (codes "foo.bar") refl)
      (lacks-In b'\\' (codes "foo.bar") refl)

abbrev agent : Agent
agent = start drone cluster

abbrev draining : Agent
draining = record agent { ready = false }

abbrev drain_request : DrainDrone
drain_request = record { cluster = cluster; drone = drone; drain = true }

abbrev no_backends : DroneDatabase
no_backends = record { backends = []; routes = [] }

drains : drain agent drain_request true true ≡ some draining
unfolding drain
drains = refl

drained_unscheduled_example :
    schedule choose
      (after (messages ++ (7 * second, ready_round (codes "0.2.0") no_backends draining) ∷ []))
      cluster
      (10 * second)
    ≢ some (ok drone)
drained_unscheduled_example =
    drained_unscheduled choose choose-IsChoice messages [] (7 * second) (10 * second)
      (codes "0.2.0") no_backends agent draining drain_request refl drains tt (omega arith)

ready_finds_example :
    (d : DroneId) × (schedule choose
        (after (messages ++ (7 * second, ready_round (codes "0.2.0") no_backends agent) ∷ []))
        cluster
        (11 * second)
      ≡ some (ok d))
ready_finds_example =
    ready_finds choose choose-IsChoice messages [] (7 * second) (11 * second) (codes "0.2.0")
      no_backends agent refl tt (omega arith) (omega arith)
