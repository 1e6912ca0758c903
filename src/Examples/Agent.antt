-- ===== src/Examples/Agent.antt =====
-- The theorems of the agent's loops, the streams and the commands at concrete inputs.
use spawner.Prelude.{◌≡◌, refl, List, [], ◌∷◌, ◌++◌, Option, none, some, Bool, true, All, arith}
use spawner.Prelude.Result.{Result, ok, err}
use spawner.Prelude.Text.{Text, codes, to_lowercase}
use spawner.Types.{DroneId, BackendId, ClusterName}
use spawner.Messages.Agent.{
  DroneLogMessage, DroneStatusMessage, BackendStateMessage, SpawnRequest, stdout, ready,
}
use spawner.Messages.Dns as Dns
use spawner.Messages.Dns.{SetDnsRecord}
use spawner.Messages.Subjects.{
  log_subject, status_subject, state_subject, dns_subject, spawn_subject,
}
use spawner.Messages.Streams.{
  log_config, status_config, state_config, dns_config, log_wildcard_subject,
  status_subscribe_subject, state_wildcard_subject, dns_subscribe_subject,
}
use spawner.Messages.Streams.Matching.{IsMatch, published-IsMatch}
use spawner.Core.Nats.{
  Bytes, Message, TypedMessage, publish, publish_with_reply, subscribe, request,
  get_or_create_stream, get_stream, create_pull_consumer, create_push_consumer, consumer_messages,
  jetstream_publish, Server, new,
}
use spawner.Controller.Dns as DnsServer
use spawner.Controller.Dns.{RecordType, RData, handle_request, record_of}
use spawner.Controller.Dns.Calls.{Event, sets, queries, run}
use spawner.Controller.Dns.Answers.{reply}
use spawner.Drone.Agent.Monitor.{dns_message}
use spawner.Drone.Agent.Monitor.Resolving.{backend_resolves}
use spawner.Drone.Agent.Requests.{Listened, listen_for_spawn_requests, spawn_closed}
use spawner.Drone.Agent.Requests.Answering.{answerable, listen_for_spawn_requests-answerable}

abbrev backend : BackendId
backend = record { id = codes "b1" }

abbrev drone : DroneId
drone = record { id = codes "d1" }

abbrev cluster : ClusterName
cluster = record { hostname = codes "a.b" }

abbrev log : DroneLogMessage
log = record { backend_id = backend; kind = stdout; text = codes "hello" }

abbrev status : DroneStatusMessage
status = record {
  drone_id = drone;
  cluster = cluster;
  drone_version = codes "0.1";
  ready = true;
  running_backends = some 1;
}

abbrev state : BackendStateMessage
state = record { state = ready; backend = backend; time = 5 }

abbrev dns : SetDnsRecord
dns = dns_message backend cluster (codes "10.0.0.1")

published-IsMatch_example :
    All (λ p. IsMatch p (log_subject log)) (log_wildcard_subject.subject ∷ log_config.subjects)
    × All
        (λ p. IsMatch p (status_subject status))
        (status_subscribe_subject.subject ∷ status_config.subjects)
    × All
        (λ p. IsMatch p (state_subject state))
        (state_wildcard_subject.subject ∷ state_config.subjects)
    × All (λ p. IsMatch p (dns_subject dns)) (dns_subscribe_subject.subject ∷ dns_config.subjects)
published-IsMatch_example =
    published-IsMatch log status state dns (λ m. ground arith) (λ m. ground arith)
      (λ m. ground arith)

abbrev earlier : List Event
earlier = queries (codes "b1.a.b.") RecordType.a 3 ∷ []

abbrev later : List Event
later = queries (codes "b1.a.b.") RecordType.a 30 ∷ []

backend_resolves_example :
    (handle_request
      (run some
        (DnsServer.new none)
        (earlier ++ sets (dns_message backend cluster (codes "10.0.0.1")) 10 10 ∷ later))
      (to_lowercase (codes "B1.A.b."))
      RecordType.a
      60).0
    ≡ reply (record_of (to_lowercase (codes "B1.A.b.")) (RData.a (codes "10.0.0.1")) ∷ [])
unfolding Dns.send_period to_lowercase
backend_resolves_example =
    backend_resolves some to_lowercase none backend cluster (codes "10.0.0.1") (codes "10.0.0.1")
      (codes "B1.A.b.") earlier later 10 10 60 (λ m. ground arith) refl refl refl
      (omega arith, (omega arith, (omega arith, omega arith))) (tt, tt) (omega arith)

abbrev request_of : Bytes → SpawnRequest
request_of b = record {
  drone_id = drone;
  max_idle_secs = 300;
  backend_id = record { id = b };
  metadata = [];
  executable = record {
    image = codes "image";
    env = [];
    credentials = none;
    resource_limits = record {
      cpu_period = none;
      cpu_period_percent = none;
      cpu_time_limit = none;
    };
  };
  bearer_token = none;
}

-- A request is encoded as its backend's identifier, which is not empty.
abbrev request_from : Bytes → Result Text SpawnRequest
request_from [] = err (codes "empty")
request_from (c ∷ b) = ok (request_of (c ∷ b))

abbrev spawns : TypedMessage SpawnRequest Bool
spawns = record {
  subject_of = spawn_subject;
  to_vec = λ m. ok m.backend_id.id;
  from_slice = request_from;
  response_to_vec = λ b. ok (1 ∷ []);
  response_from_slice = λ b. ok true;
}

abbrev message : Bytes → Option Text → Message
message b reply = record { subject = codes "drone.d1.spawn"; reply = reply; payload = b }

abbrev arriving : List Message
arriving =
    message (codes "b1") (some (codes "inbox"))
    ∷ message [] none
    ∷ message (codes "b2") none
    ∷ message (codes "b3") (some (codes "inbox"))
    ∷ []

-- A server that grants every request.
abbrev granting : Server
granting rs (publish _ _) = ok tt
granting rs (publish_with_reply _ _ _) = ok tt
granting rs (subscribe _) = ok arriving
granting rs (request _ b) = ok (message b none)
granting rs (get_or_create_stream _) = ok tt
granting rs (get_stream _) = ok tt
granting rs (create_pull_consumer _ _ _) = ok (λ n. ok [])
granting rs (create_push_consumer _ _ _) = ok tt
granting rs (consumer_messages _) = ok []
granting rs (jetstream_publish _ _) = ok tt

listen_for_spawn_requests-answerable_example :
    (l : Listened SpawnRequest) × (listen_for_spawn_requests granting spawns drone (ok tt) 5 new
      ≡ some l)
    × (l.handled ≡ (answerable request_from spawn_closed arriving).0)
    × (l.error ≡ (answerable request_from spawn_closed arriving).1)
listen_for_spawn_requests-answerable_example =
    listen_for_spawn_requests-answerable granting spawns drone 5 new (1 ∷ []) arriving refl
      (λ rs subject. refl) refl (omega arith)

answerable_first : (answerable request_from spawn_closed arriving).0 ≡ request_of (codes "b1") ∷ []
answerable_first = refl
