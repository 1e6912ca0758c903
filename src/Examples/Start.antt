-- ===== src/Examples/Start.antt =====
-- The theorems of connecting, starting and logging at concrete inputs.
use spawner.Prelude.{
  ℕ, ◌+◌, ◌≤◌, ◌≡◌, ◌↔◌, refl, List, [], ◌∷◌, ◌++◌, Option, none, some, true, false, length,
}
use spawner.Prelude.Result.{Result, ok, panicked, returned, Outcome}
use spawner.Prelude.Text.{Text, codes}
use spawner.Messages.Logging.{controller}
use spawner.Core.NatsConnection.{
  Url, NatsConnectionSpec, user_and_password, ConnectOptions, from_url, connect_with_retry,
  server_addrs, connect_with_retry_panics,
}
use spawner.Core.Logging.{debug, LogEvent, init, channel_size}
use spawner.Core.Logging.Delivery.{Step, event, attach, round, run, messages, run_delivered}
use spawner.Drone.Config.{DroneConfig, literal, socket}

abbrev url : Url
url = record { username = codes "u"; password = some (codes "p"); host_str = some (codes "h") }

abbrev spec : NatsConnectionSpec
spec = record { auth = some (user_and_password (codes "u") (codes "p")); hosts = codes "h" ∷ [] }

abbrev parse_url : Text → Result Text Url
parse_url text = ok url

abbrev connects : ℕ → List Text → ConnectOptions → Result Text Text
connects n addrs options = ok (codes "client")

connect_with_retry_panics_example :
    (connect_with_retry {A = Text} ok connects spec ≡ panicked)
    ↔ ((p : Text) × (some (codes "p") ≡ some p))
unfolding from_url server_addrs
connect_with_retry_panics_example =
    connect_with_retry_panics parse_url ok connects (codes "nats://u:p@h") url spec (codes "h" ∷ [])
      refl refl refl

abbrev config : DroneConfig
config = record {
  drone_id = none;
  db_path = codes "drone.sqlite3";
  cluster_domain = codes "a.b";
  nats = none;
  cert = none;
  acme = none;
  agent = some (record {
    docker = record { runtime = none; connection = socket (codes "s"); network = none };
    ip = literal (codes "10.0.0.1");
  });
  proxy = none;
}

abbrev client : NatsConnectionSpec → Outcome Text Text
client _ = returned (ok (codes "client"))

abbrev open_db : Text → Result Text Text
open_db path = ok path

abbrev parse : Text → Option Text
parse t = none

abbrev logged : LogEvent Text
logged = record {
  target = codes "agent";
  name = codes "event";
  level = codes "INFO";
  time = 3;
  recorded = debug (codes "message") (codes "started") ∷ [];
  span = none;
}

abbrev steps : List (Step Text)
steps = event logged ∷ attach ∷ event logged ∷ round false ∷ round true ∷ []

run_delivered_example :
    let l = run parse (λ t. t) controller init steps in
    (length l.waiting ≤ channel_size)
    × (l.warnings + l.errors ≡ 0
        → l.published ++ l.waiting ≡ messages parse (λ t. t) controller steps)
    × (length (l.published ++ l.waiting) + (l.warnings + l.errors)
        ≡ length (messages parse (λ t. t) controller steps))
run_delivered_example = run_delivered parse (λ t. t) controller steps
