-- ===== src/Drone/Agent/Monitor.antt =====
-- drone/src/agent/backend.rs: the loops that report on a backend while it runs. The task of a loop
-- runs until the monitor that owns it is dropped, which aborts it; a stream is what it yields until
-- it ends or the task is aborted.
pub mod Resolving
use spawner.Prelude.{ℕ, zero, suc, List, [], ◌∷◌, ◌++◌, ◌≡◌, refl, sym, ap, ◌∙◌, map, inl, inr}
use mathlib.Core.List.{append_assoc}
use spawner.Prelude.Result.{Result, ok, err, Result-cases}
use spawner.Prelude.Text.{Text}
use spawner.Types.{BackendId, ClusterName}
use spawner.Messages.Dns.{SetDnsRecord, DnsRecordType}
use spawner.Messages.Streams.{Serde, dns_stream}
use spawner.Core.Nats.{
  Bytes, Server, TypedNats, TypedMessage, Request, publish, send, pure, next_call, publish_message,
  publish_jetstream,
}

unfoldable pub dns_message : BackendId → ClusterName → Text → SetDnsRecord
dns_message b cluster ip = record {
  cluster = cluster;
  kind = DnsRecordType.a;
  name = b.id;
  value = ip;
}

module _ (server : Server) where
  -- The client after as many rounds; the error of a round is logged.
  unfoldable pub dns_loop :
      {R : Type 0}
      → Serde SetDnsRecord R
      → BackendId
      → ClusterName
      → Text
      → ℕ
      → TypedNats
      → TypedNats
  dns_loop serde b cluster ip zero s = s
  dns_loop serde b cluster ip (suc n) s =
      dns_loop serde b cluster ip n
        (publish_jetstream server (dns_stream serde) (dns_message b cluster ip) s).0

  -- `log_loop` and `stats_loop`: what the stream yields is published, and an error is logged.
  unfoldable pub report_loop : {T R : Type 0} → TypedMessage T R → List T → TypedNats → TypedNats
  report_loop t [] s = s
  report_loop t (v ∷ stream) s = report_loop t stream (publish_message server t v s).0

  module _ {T R : Type 0} (t : TypedMessage T R) where
    -- The requests to publish values, the newest first.
    abbrev pub reports : List T → List Request
    reports [] = []
    reports (v ∷ vs) = elim (t.to_vec v) [
      | ok bytes ↦ reports vs ++ publish (t.subject_of v) bytes ∷ []
      | err e ↦ reports vs
    ]

    publish_message-ok :
        (v : T) (s : TypedNats) (bytes : Bytes)
        → t.to_vec v ≡ ok bytes
        → (publish_message server t v s).0.sent ≡ publish (t.subject_of v) bytes ∷ s.sent
    unfolding publish_message send
    publish_message-ok v s bytes e = rw (e) refl

    publish_message-err :
        (v : T) (s : TypedNats) (x : Text)
        → t.to_vec v ≡ err x
        → (publish_message server t v s).0.sent ≡ s.sent
    unfolding publish_message send
    publish_message-err v s x e = rw (e) refl

    -- A loop publishes in order, under its subject, each value that can be encoded, whatever the
    -- server answers, and nothing else.
    pub report_loop-reports :
        (stream : List T) (s : TypedNats) → (report_loop t stream s).sent ≡ reports stream ++ s.sent
    unfolding report_loop
    report_loop-reports [] s = refl
    report_loop-reports (v ∷ stream) s =
        report_loop-reports stream (publish_message server t v s).0
        ∙ elim (Result-cases (t.to_vec v)) [
          | inl (bytes, e) ↦
              ap (λ q. reports stream ++ q) (publish_message-ok v s bytes e)
              ∙ sym (append_assoc (reports stream) (publish (t.subject_of v) bytes ∷ []) s.sent)
              ∙ rw (reports, e) refl
          | inr (x, e) ↦
              ap (λ q. reports stream ++ q) (publish_message-err v s x e) ∙ rw (reports, e) refl
        ]
