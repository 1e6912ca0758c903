-- ===== src/Messages/Streams/Matching.antt =====
-- The subjects that a stream or a subscription with wildcards takes in. `IsMatch` is the rule of
-- NATS: a subject is a list of tokens between dots, and `*` stands for any one token.
use spawner.Prelude.{◌≡◌, refl, ap, ◌∙◌, List, [], ◌∷◌, ◌++◌, In, All, ◌⊎◌, inl, inr, arith}
use spawner.Prelude.Text.{Text, codes, split}
use spawner.Prelude.Text.Laws.{split-append, split_whole}
use spawner.Types.{subject_name, subject_name_one_token}
use spawner.Messages.Agent.{
  DroneLogMessage, DroneStatusMessage, BackendStateMessage, TerminationRequest,
}
use spawner.Messages.Dns as Dns
use spawner.Messages.Scheduler.{ScheduleRequest}
use spawner.Messages.Dns.{SetDnsRecord, a, txt}
use spawner.Messages.Subjects.{
  log_subject, status_subject, state_subject, dns_subject, schedule_subject, termination_subject,
  termination_subscribe_subject, termination_tokens,
}
use spawner.Messages.Streams.{
  log_config, status_config, state_config, dns_config, log_wildcard_subject,
  status_subscribe_subject, state_wildcard_subject, dns_subscribe_subject,
  schedule_subscribe_subject,
}

abbrev Tokens : List Text → List Text → Type 0
Tokens [] [] = Unit
Tokens (p ∷ ps) (t ∷ ts) = ((p ≡ codes "*") ⊎ (p ≡ t)) × Tokens ps ts
Tokens _ _ = ⊥

abbrev pub IsMatch : Text → Text → Type 0
IsMatch pattern subject = Tokens (split b'.' pattern) (split b'.' subject)

three_tokens :
    (x id y : Text)
    → ¬ In b'.' x
    → ¬ In b'.' id
    → ¬ In b'.' y
    → split b'.' (x ++ b'.' ∷ (id ++ b'.' ∷ y)) ≡ x ∷ id ∷ y ∷ []
three_tokens x id y hx hi hy =
    split-append b'.' x _ hx
    ∙ ap (◌∷◌ x) (split-append b'.' id _ hi ∙ ap (◌∷◌ id) (split_whole b'.' y hy))

-- A subject of three tokens is matched by the same with a wildcard in the middle.
pub middle_wildcard :
    (x id y : Text)
    → ¬ In b'.' x
    → ¬ In b'.' id
    → ¬ In b'.' y
    → IsMatch (x ++ b'.' ∷ (codes "*" ++ b'.' ∷ y)) (x ++ b'.' ∷ (id ++ b'.' ∷ y))
middle_wildcard x id y hx hi hy =
    rw (three_tokens x (codes "*") y hx (λ m. ground arith) hy, three_tokens x id y hx hi hy)
      (inr refl, (inl refl, (inr refl, tt)))

cluster_dns :
    (name kind : Text)
    → ¬ In b'.' name
    → ¬ In b'.' kind
    → split b'.' (codes "cluster." ++ (name ++ (codes ".dns." ++ kind)))
      ≡ codes "cluster" ∷ name ∷ codes "dns" ∷ kind ∷ []
cluster_dns name kind hn hk =
    split-append b'.' (codes "cluster") _ (λ m. ground arith)
    ∙ ap (◌∷◌ (codes "cluster")) (
        split-append b'.' name _ hn
        ∙ ap (◌∷◌ name) (
            split-append b'.' (codes "dns") kind (λ m. ground arith)
            ∙ ap (◌∷◌ (codes "dns")) (split_whole b'.' kind hk)))

kind_one_token : (k : Dns.DnsRecordType) → ¬ In b'.' (Dns.to_string k)
unfolding Dns.to_string
kind_one_token a m = ground arith
kind_one_token txt m = ground arith

dns-IsMatch : (d : SetDnsRecord) → IsMatch (codes "cluster.*.dns.*") (dns_subject d)
unfolding dns_subject
dns-IsMatch d =
    rw
      (
        cluster_dns (codes "*") (codes "*") (λ m. ground arith) (λ m. ground arith),
        cluster_dns (subject_name d.cluster) (Dns.to_string d.kind)
            (subject_name_one_token d.cluster) (kind_one_token d.kind),
      )
      (inr refl, (inl refl, (inr refl, (inl refl, tt))))

backend_one_token : ¬ In b'.' (codes "backend")
backend_one_token m = ground arith

-- Each message that has a JetStream is published under a subject that its stream takes in, and that
-- whoever subscribes to the wildcard is sent, if the identifier in it holds no dot; the name of a
-- cluster may hold any.
pub published-IsMatch :
    (l : DroneLogMessage) (u : DroneStatusMessage) (s : BackendStateMessage) (d : SetDnsRecord)
    → ¬ In b'.' l.backend_id.id
    → ¬ In b'.' u.drone_id.id
    → ¬ In b'.' s.backend.id
    → All (λ p. IsMatch p (log_subject l)) (log_wildcard_subject.subject ∷ log_config.subjects)
      × All
          (λ p. IsMatch p (status_subject u))
          (status_subscribe_subject.subject ∷ status_config.subjects)
      × All
          (λ p. IsMatch p (state_subject s))
          (state_wildcard_subject.subject ∷ state_config.subjects)
      × All (λ p. IsMatch p (dns_subject d)) (dns_subscribe_subject.subject ∷ dns_config.subjects)
unfolding log_subject status_subject state_subject dns_subject log_config status_config state_config
    dns_config log_wildcard_subject status_subscribe_subject state_wildcard_subject
    dns_subscribe_subject
published-IsMatch l u s d hl hu hs =
    let log =
      middle_wildcard (codes "backend") l.backend_id.id (codes "log") backend_one_token hl
        (λ m. ground arith) in
    let status =
      middle_wildcard (codes "drone") u.drone_id.id (codes "status") (λ m. ground arith) hu
        (λ m. ground arith) in
    let state =
      middle_wildcard (codes "backend") s.backend.id (codes "status") backend_one_token hs
        (λ m. ground arith) in
    let dns = dns-IsMatch d in
    ((log, (log, tt)), (status, (status, tt)), (state, (state, tt)), (dns, (dns, tt)))

-- The subjects that the controller and the agents subscribe to for requests take in the requests.
pub termination-IsMatch :
    (m : TerminationRequest)
    → ¬ In b'.' m.backend_id.id
    → IsMatch (termination_subscribe_subject m.cluster_id) (termination_subject m)
termination-IsMatch m h =
    let (e, f) = termination_tokens m h in
    rw (e, f) (inr refl, (inr refl, (inr refl, (inl refl, (inr refl, tt)))))

pub schedule-IsMatch :
    (m : ScheduleRequest) → IsMatch schedule_subscribe_subject.subject (schedule_subject m)
unfolding schedule_subject schedule_subscribe_subject
schedule-IsMatch m =
    middle_wildcard (codes "cluster") (subject_name m.cluster) (codes "schedule")
      (λ x. ground arith) (subject_name_one_token m.cluster) (λ x. ground arith)
