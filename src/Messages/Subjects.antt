-- ===== src/Messages/Subjects.antt =====
-- The subject of every message, and the subjects that are subscribed to.
use spawner.Prelude.{◌≡◌, [], ◌∷◌, ◌++◌, In, arith, ap, ◌∙◌}
use spawner.Prelude.Text.{Text, codes, split}
use spawner.Prelude.Text.Laws.{split-append, split_whole}
use spawner.Types.{DroneId, BackendId, ClusterName, subject_name, subject_name_one_token}
use spawner.Messages.Agent.{
  DroneLogMessage, DroneStatusMessage, DroneConnectRequest, SpawnRequest, TerminationRequest,
  BackendStateMessage,
}
use spawner.Messages.Scheduler.{ScheduleRequest, DrainDrone}
use spawner.Messages.Dns as Dns
use spawner.Messages.Dns.{SetDnsRecord}
use spawner.Messages.Logging.{Component, controller, drone}
use spawner.Messages.Cert.{SetAcmeDnsRecord}

unfoldable pub log_subject : DroneLogMessage → Text
log_subject m = codes "backend." ++ (m.backend_id.id ++ codes ".log")

unfoldable pub log_subscribe_subject : BackendId → Text
log_subscribe_subject b = codes "backend." ++ (b.id ++ codes ".log")

unfoldable pub status_subject : DroneStatusMessage → Text
status_subject m = codes "drone." ++ (m.drone_id.id ++ codes ".status")

unfoldable pub connect_subject : DroneConnectRequest → Text
connect_subject m = codes "drone.register"

unfoldable pub spawn_subject : SpawnRequest → Text
spawn_subject m = codes "drone." ++ (m.drone_id.id ++ codes ".spawn")

unfoldable pub spawn_subscribe_subject : DroneId → Text
spawn_subscribe_subject d = codes "drone." ++ (d.id ++ codes ".spawn")

unfoldable pub termination_subject : TerminationRequest → Text
termination_subject m =
    codes "cluster."
    ++ (subject_name m.cluster_id ++ (codes ".backend." ++ (m.backend_id.id ++ codes ".terminate")))

unfoldable pub termination_subscribe_subject : ClusterName → Text
termination_subscribe_subject c =
    codes "cluster." ++ (subject_name c ++ codes ".backend.*.terminate")

unfoldable pub state_subject : BackendStateMessage → Text
state_subject m = codes "backend." ++ (m.backend.id ++ codes ".status")

unfoldable pub state_subscribe_subject : BackendId → Text
state_subscribe_subject b = codes "backend." ++ (b.id ++ codes ".status")

unfoldable pub schedule_subject : ScheduleRequest → Text
schedule_subject m = codes "cluster." ++ (subject_name m.cluster ++ codes ".schedule")

unfoldable pub drain_subject : DrainDrone → Text
drain_subject m =
    codes "cluster."
    ++ (subject_name m.cluster ++ (codes ".drone." ++ (m.drone.id ++ codes ".drain")))

unfoldable pub drain_subscribe_subject : DroneId → ClusterName → Text
drain_subscribe_subject d c =
    codes "cluster." ++ (subject_name c ++ (codes ".drone." ++ (d.id ++ codes ".drain")))

unfoldable pub dns_subject : SetDnsRecord → Text
dns_subject m =
    codes "cluster." ++ (subject_name m.cluster ++ (codes ".dns." ++ Dns.to_string m.kind))

unfoldable pub component_subject : Component → Text
component_subject controller = codes "logs.controller"
component_subject (drone d) = codes "logs.drone." ++ d.id

unfoldable pub acme_subject : SetAcmeDnsRecord → Text
acme_subject m = codes "acme.set_dns_record"

abbrev IsWord : Text → Type 0
IsWord t = ¬ In b'.' t

cluster-IsWord : IsWord (codes "cluster")
cluster-IsWord m = ground arith

backend-IsWord : IsWord (codes "backend")
backend-IsWord m = ground arith

-- The subject of a termination request has five tokens, and agrees in all but the fourth, the
-- backend, with the subject that a drone of that cluster subscribes to, which has the wildcard `*`
-- there. The backend's identifier is taken to hold no dot; the cluster's name may hold any.
pub termination_tokens :
    (m : TerminationRequest)
    → ¬ In b'.' m.backend_id.id
    → (split b'.' (termination_subject m)
        ≡ codes "cluster"
          ∷ subject_name m.cluster_id
          ∷ codes "backend"
          ∷ m.backend_id.id
          ∷ codes "terminate"
          ∷ [])
      × (split b'.' (termination_subscribe_subject m.cluster_id)
          ≡ codes "cluster"
            ∷ subject_name m.cluster_id
            ∷ codes "backend"
            ∷ codes "*"
            ∷ codes "terminate"
            ∷ [])
unfolding termination_subject termination_subscribe_subject
termination_tokens m h = (
  split-append b'.' (codes "cluster") _ cluster-IsWord
      ∙ ap (◌∷◌ (codes "cluster")) (
          split-append b'.' (subject_name m.cluster_id) _ (subject_name_one_token m.cluster_id)
          ∙ ap (◌∷◌ (subject_name m.cluster_id)) (
              split-append b'.' (codes "backend") _ backend-IsWord
              ∙ ap (◌∷◌ (codes "backend")) (
                  split-append b'.' m.backend_id.id _ h
                  ∙ ap (◌∷◌ m.backend_id.id)
                      (split_whole b'.' (codes "terminate") (λ x. ground arith))))),
  split-append b'.' (codes "cluster") _ cluster-IsWord
      ∙ ap (◌∷◌ (codes "cluster")) (
          split-append b'.' (subject_name m.cluster_id) _ (subject_name_one_token m.cluster_id)
          ∙ ap (◌∷◌ (subject_name m.cluster_id)) (
              split-append b'.' (codes "backend") _ backend-IsWord
              ∙ ap (◌∷◌ (codes "backend")) (
                  split-append b'.' (codes "*") _ (λ x. ground arith)
                  ∙ ap (◌∷◌ (codes "*"))
                      (split_whole b'.' (codes "terminate") (λ x. ground arith))))),
)
