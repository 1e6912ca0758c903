-- ===== src/Messages/Streams.antt =====
-- core/src/messages: the four messages that have a JetStream, its name and configuration, and the
-- subjects that are subscribed to by a wildcard. How a message is encoded, `serde`, is a parameter.
pub mod Matching
use spawner.Prelude.{ℕ, ◌≡◌, refl, List, [], ◌∷◌, Option, none, some, Bool, true, false}
use spawner.Prelude.Result.{Result}
use spawner.Prelude.Text.{Text, codes}
use spawner.Types.{BackendId}
use spawner.Messages.Agent.{
  DroneLogMessage, DroneStatusMessage, DroneConnectRequest, BackendState, BackendStateMessage,
}
use spawner.Messages.Scheduler.{ScheduleRequest}
use spawner.Messages.Cert.{SetAcmeDnsRecord}
use spawner.Messages.Dns.{SetDnsRecord, ttl_seconds}
use spawner.Messages.Subjects.{log_subject, status_subject, state_subject, dns_subject}
use spawner.Core.Nats.{Bytes, NoReply, TypedMessage, StreamConfig, JetStreamable, SubscribeSubject}

-- `..Config::default()`.
abbrev default_config : Text → List Text → StreamConfig
default_config name subjects = record {
  name = name;
  subjects = subjects;
  max_messages_per_subject = none;
  max_age = none;
}

pub record Serde (T R : Type 0) : Type 0 where
  pub to_vec : T → Result Text Bytes
  pub from_slice : Bytes → Result Text T
  pub response_to_vec : R → Result Text Bytes
  pub response_from_slice : Bytes → Result Text R

abbrev pub typed : {T R : Type 0} → (T → Text) → Serde T R → TypedMessage T R
typed subject serde = record {
  subject_of = subject;
  to_vec = serde.to_vec;
  from_slice = serde.from_slice;
  response_to_vec = serde.response_to_vec;
  response_from_slice = serde.response_from_slice;
}

unfoldable pub log_stream_name : Text
log_stream_name = codes "backend_log"

unfoldable pub log_config : StreamConfig
log_config = default_config log_stream_name (codes "backend.*.log" ∷ [])

unfoldable pub status_stream_name : Text
status_stream_name = codes "drone_status"

unfoldable pub status_config : StreamConfig
status_config = record (default_config status_stream_name (codes "drone.*.status" ∷ [])) {
  max_messages_per_subject = some 1;
  max_age = some 5;
}

unfoldable pub state_stream_name : Text
state_stream_name = codes "backend_status"

unfoldable pub state_config : StreamConfig
state_config = default_config state_stream_name (codes "backend.*.status" ∷ [])

unfoldable pub dns_stream_name : Text
dns_stream_name = codes "dns_record"

unfoldable pub dns_config : StreamConfig
dns_config = record (default_config dns_stream_name (codes "cluster.*.dns.*" ∷ [])) {
  max_age = some ttl_seconds;
}

-- The implementations of the interface.
module _ {R : Type 0} where
  unfoldable pub log_stream : Serde DroneLogMessage R → JetStreamable DroneLogMessage R
  unfolding log_config
  log_stream serde = record {
    message = typed log_subject serde;
    stream_name = log_stream_name;
    config = log_config;
    config_name = refl;
  }

  unfoldable pub status_stream : Serde DroneStatusMessage R → JetStreamable DroneStatusMessage R
  unfolding status_config
  status_stream serde = record {
    message = typed status_subject serde;
    stream_name = status_stream_name;
    config = status_config;
    config_name = refl;
  }

  unfoldable pub state_stream : Serde BackendStateMessage R → JetStreamable BackendStateMessage R
  unfolding state_config
  state_stream serde = record {
    message = typed state_subject serde;
    stream_name = state_stream_name;
    config = state_config;
    config_name = refl;
  }

  unfoldable pub dns_stream : Serde SetDnsRecord R → JetStreamable SetDnsRecord R
  unfolding dns_config
  dns_stream serde = record {
    message = typed dns_subject serde;
    stream_name = dns_stream_name;
    config = dns_config;
    config_name = refl;
  }

unfoldable pub log_wildcard_subject : SubscribeSubject DroneLogMessage
log_wildcard_subject = record { subject = codes "backend.*.log" }

unfoldable pub status_subscribe_subject : SubscribeSubject DroneStatusMessage
status_subscribe_subject = record { subject = codes "drone.*.status" }

unfoldable pub connect_subscribe_subject : SubscribeSubject DroneConnectRequest
connect_subscribe_subject = record { subject = codes "drone.register" }

unfoldable pub state_wildcard_subject : SubscribeSubject BackendStateMessage
state_wildcard_subject = record { subject = codes "backend.*.status" }

unfoldable pub dns_subscribe_subject : SubscribeSubject SetDnsRecord
dns_subscribe_subject = record { subject = codes "cluster.*.dns.*" }

unfoldable pub schedule_subscribe_subject : SubscribeSubject ScheduleRequest
schedule_subscribe_subject = record { subject = codes "cluster.*.schedule" }

unfoldable pub acme_subscribe_subject : SubscribeSubject SetAcmeDnsRecord
acme_subscribe_subject = record { subject = codes "acme.set_dns_record" }

-- `BackendStateMessage::new`, at the time `now`.
unfoldable pub new_state_message : ℕ → BackendState → BackendId → BackendStateMessage
new_state_message now s b = record { state = s; backend = b; time = now }

unfoldable pub default_ready : Bool
default_ready = true
