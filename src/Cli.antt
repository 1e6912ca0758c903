-- ===== src/Cli.antt =====
-- cli/src/main.rs: the commands, as requests of the client of NATS and the lines that are printed,
-- without their colours. `show_time` prints a time.
pub mod Commands
use spawner.Prelude.{
  ◌*◌, ℕ, zero, suc, List, [], ◌∷◌, ◌++◌, map, length, Option, none, some, Bool, true, false, not,
  if◌then◌else◌,
}
use spawner.Prelude.Result.{Result, ok, err}
use spawner.Prelude.Text.{Text, codes}
use spawner.Types.{DroneId, BackendId, ClusterName}
use spawner.Messages.Agent as Agent
use spawner.Messages.Agent.{DroneStatusMessage, BackendStateMessage, TerminationRequest}
use spawner.Messages.Dns as Dns
use spawner.Messages.Dns.{SetDnsRecord}
use spawner.Messages.Scheduler.{
  ScheduleRequest, ScheduleResponse, scheduled, no_drone_available, DrainDrone,
}
use spawner.Messages.Subjects.{
  state_subject, schedule_subject, drain_subject, termination_subject, state_subscribe_subject,
}
use spawner.Messages.Streams.{
  Serde, typed, status_stream, state_stream, dns_stream, status_subscribe_subject,
  dns_subscribe_subject, state_wildcard_subject,
}
use spawner.Core.Nats.{
  Batch, Server, Request, TypedNats, NoReply, SubscribeSubject, deliver_last_per_subject, Call,
  pure, ◌>>=◌, request_message, subscribe_jetstream,
}
use spawner.Core.Nats.Fetch.{get_all}
use spawner.Core.Nats.Subscriptions.{next_jetstream}

pub data Command : Type 0 where
  list_drones list_dns : Command
  spawn : Text → Text → ℕ → Command
  status : Option Text → Command
  drain : Text → Text → Bool → Command
  terminate : Text → Text → Command

-- `spawn`, with the cluster, the image and the timeout in seconds.
unfoldable pub schedule_request : Text → Text → ℕ → ScheduleRequest
schedule_request cluster image timeout = record {
  cluster = record { hostname = cluster };
  backend_id = none;
  max_idle_secs = timeout * 1000000000;
  metadata = [];
  executable = record {
    image = image;
    env = [];
    credentials = none;
    resource_limits = record {
      cpu_period = none;
      cpu_period_percent = none;
      cpu_time_limit = none;
    };
  };
  require_bearer_token = false;
}

unfoldable pub drain_request : Text → Text → Bool → DrainDrone
drain_request drone cluster cancel = record {
  drone = record { id = drone };
  cluster = record { hostname = cluster };
  drain = not cancel;
}

unfoldable pub termination_request : Text → Text → TerminationRequest
termination_request cluster backend = record {
  cluster_id = record { hostname = cluster };
  backend_id = record { id = backend };
}

abbrev tab : Text
tab = 9 ∷ []

abbrev token_line : Option Text → List Text
token_line none = []
token_line (some t) = (codes "Bearer token: " ++ t) ∷ []

-- Where no drone is available, nothing is printed, and an error is logged.
unfoldable pub scheduled_lines : Text → ScheduleResponse → List Text
scheduled_lines cluster (scheduled drone b token) =
    codes "Backend scheduled."
    ∷ (codes "URL: https://" ++ (b.id ++ (codes "." ++ cluster)))
    ∷ (codes "Drone: " ++ drone.id)
    ∷ (codes "Backend ID: " ++ b.id)
    ∷ token_line token
scheduled_lines cluster no_drone_available = []

unfoldable pub drone_line : DroneStatusMessage → Text
drone_line m = m.drone_id.id ++ (tab ++ m.cluster.hostname)

unfoldable pub dns_line : SetDnsRecord → Text
dns_line m =
    m.name
    ++ (codes "." ++ (m.cluster.hostname ++ (tab ++ (Dns.to_string m.kind ++ (tab ++ m.value)))))

unfoldable pub state_line : (ℕ → Text) → BackendStateMessage → Text
state_line show_time m =
    m.backend.id ++ (tab ++ (Agent.to_string m.state ++ (tab ++ show_time m.time)))

unfoldable pub state_subject_of : Option Text → SubscribeSubject BackendStateMessage
state_subject_of (some b) = record { subject = state_subscribe_subject (record { id = b }) }
state_subject_of none = state_wildcard_subject

-- The messages of the program, and how they are encoded.
pub record Serdes : Type 0 where
  pub schedule : Serde ScheduleRequest ScheduleResponse
  pub drain : Serde DrainDrone Unit
  pub terminate : Serde TerminationRequest Unit
  pub state : Serde BackendStateMessage NoReply
  pub status : Serde DroneStatusMessage NoReply
  pub dns : Serde SetDnsRecord NoReply

-- The lines of a result that the fuel was enough for.
abbrev listed : {T : Type 0} → (ℕ → Text) → (T → Text) → Option (List T) → List Text
listed heading line none = []
listed heading line (some vs) = heading (length vs) ∷ map line vs

module _ (server : Server) (new_inbox : List Request → Text) (serdes : Serdes)
    (show_time show_count : ℕ → Text) where
  -- The loop over the subscription, on fuel: a line for each message.
  unfoldable pub print_states : ℕ → Batch → List Text
  print_states zero stream = []
  print_states (suc fuel) stream =
      let (first, rest, acknowledged) = next_jetstream (typed state_subject serdes.state) stream in
      let lines = print_states fuel rest in
      elim first [ none ↦ [] | some m ↦ state_line show_time m ∷ lines ]

  unfoldable pub run_command : ℕ → Command → Call (List Text)
  run_command fuel (status backend) =
      subscribe_jetstream server new_inbox (state_stream serdes.state) (state_subject_of backend)
      >>= (λ stream. pure (ok (print_states fuel stream)))
  run_command fuel list_drones =
      get_all server fuel (status_stream serdes.status) status_subscribe_subject
        deliver_last_per_subject
      >>= (λ drones. pure (
          ok
            (listed (λ n. codes "Found " ++ (show_count n ++ codes " drones:")) drone_line drones)))
  run_command fuel (spawn cluster image timeout) =
      request_message server (typed schedule_subject serdes.schedule)
        (schedule_request cluster image timeout)
      >>= (λ result. pure (ok (scheduled_lines cluster result)))
  run_command fuel list_dns =
      get_all server fuel (dns_stream serdes.dns) dns_subscribe_subject deliver_last_per_subject
      >>= (λ results. pure (
          ok (
            listed (λ n. codes "Found " ++ (show_count n ++ codes " DNS records:")) dns_line
              results)))
  run_command fuel (terminate cluster backend) =
      request_message server (typed termination_subject serdes.terminate)
        (termination_request cluster backend)
      >>= (λ _. pure (ok (codes "Terminated successfully" ∷ [])))
  run_command fuel (drain drone cluster cancel) =
      request_message server (typed drain_subject serdes.drain) (drain_request drone cluster cancel)
      >>= (λ _. pure (
          ok (
            (if not cancel
              then codes "Draining started on drone."
              else codes "Draining cancelled on drone.")
            ∷ [])))
