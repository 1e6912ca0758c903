-- ===== src/Controller/Dns/Answers.antt =====
-- What the DNS server answers after any messages and queries.
use spawner.Prelude.{
  ℕ, List, [], ◌∷◌, ◌++◌, Option, none, some, ◌≡◌, ◌≢◌, refl, In, inl, inr, arith, Option-cases, ap,
  ◌∙◌, ◌↔◌,
}
use spawner.Prelude.Text.{Text, codes, split_once, strip_suffix}
use spawner.Prelude.Text.Laws.{split_once_at, split_once-none, none-split_once, strip_suffix-append}
use spawner.Messages.Dns as Messages
use spawner.Messages.Dns.{SetDnsRecord, DnsRecordType}
use spawner.Ttl.TtlMap
use spawner.Ttl.TtlMap.{TtlMap, value_of}
use spawner.Ttl.TtlMap.Sweep.{live}
use spawner.Ttl.TtlMap.History as MapHistory
use spawner.Ttl.Multistore
use spawner.Ttl.Multistore.History as StoreHistory
use spawner.Controller.Dns.{
  ClusterDnsServer, RecordKey, RecordKey_discrete, Record, RecordType, Reply, new, split_name,
  lookup, lookup_a, lookup_txt, lookup_soa, handle_request, answers_of, all_answers_of, reply_of,
  nx_domain, serv_fail, no_error, or_dns_error,
}
use spawner.Controller.Dns.Calls.{
  Event, InOrder, run, run-calls, address_calls, text_calls, address_calls-InOrder,
  text_calls-InOrder, do_lookup-none, do_lookup-some,
}

abbrev pub reply : List Record → Reply
reply answers = record { code = no_error; answers = answers }

lookup_answers :
    (s : ClusterDnsServer) (name : Text) (key : RecordKey) (time : ℕ)
    → split_name name ≡ some key
    → ((handle_request s name RecordType.a time).0
        ≡ reply (answers_of name (TtlMap.get RecordKey_discrete s.a_record_map key time).0))
      × ((handle_request s name RecordType.txt time).0
          ≡ reply (
              all_answers_of name (Multistore.iter RecordKey_discrete s.txt_record_map key time).0))
unfolding handle_request lookup lookup_a lookup_txt
lookup_answers s name key time e = (
  ap (λ p. reply_of p.0) (do_lookup-some s name key RecordType.a time e),
  ap (λ p. reply_of p.0) (do_lookup-some s name key RecordType.txt time e),
)

module _ (parse_ip : Text → Option Text) (soa_email : Option Text) where
  -- After any messages and queries in the order of time, a query for the address of a name is
  -- answered with the address that the last message for the name's cluster and host set, until it
  -- expires, and with no records otherwise, whatever was set for other names or of other kinds.
  pub run_address :
      (until : ℕ) (name : Text) (key : RecordKey) (events : List Event)
      → InOrder 0 until events
      → split_name name ≡ some key
      → (handle_request (run parse_ip (new soa_email) events) name RecordType.a until).0 ≡ record {
        code = no_error;
        answers = answers_of name (
            value_of (
              live until (
                MapHistory.latest RecordKey_discrete Messages.ttl
                  (λ j. none)
                  (address_calls parse_ip events)
                  key)));
      }
  unfolding new
  run_address until name key events o e =
      (lookup_answers (run parse_ip (new soa_email) events) name key until e).0
      ∙ ap (λ x. reply (answers_of name x))
          (ap (λ m. (TtlMap.get RecordKey_discrete m key until).0)
              (run-calls parse_ip (new soa_email) events).0
            ∙ MapHistory.get-run RecordKey_discrete Messages.ttl until key
                (address_calls parse_ip events) (address_calls-InOrder parse_ip 0 until events o))

  -- After any messages and queries in the order of time, a query for the texts of a name is
  -- answered with the texts that were set for the name's cluster and host, in the order in which
  -- they came, less the expired ones before the first that is live.
  pub run_text :
      (until : ℕ) (name : Text) (key : RecordKey) (events : List Event)
      → InOrder 0 until events
      → split_name name ≡ some key
      → (handle_request (run parse_ip (new soa_email) events) name RecordType.txt until).0
        ≡ reply (
            all_answers_of name (
              StoreHistory.read_log RecordKey_discrete until (
                StoreHistory.log RecordKey_discrete Messages.ttl
                  (λ j. none)
                  (text_calls parse_ip events)
                  key)))
  unfolding new
  run_text until name key events o e =
      (lookup_answers (run parse_ip (new soa_email) events) name key until e).1
      ∙ ap (λ x. reply (all_answers_of name x))
          (ap (λ m. (Multistore.iter RecordKey_discrete m key until).0)
              (run-calls parse_ip (new soa_email) events).1
            ∙ StoreHistory.iter-log RecordKey_discrete Messages.ttl until key
                (text_calls parse_ip events) (text_calls-InOrder parse_ip 0 until events o))

split_name-none : (name : Text) → (split_name name ≡ none) ↔ (¬ In b'.' name)
unfolding split_name
split_name-none name = elim (Option-cases (split_once b'.' name)) [
  | inl e ↦ (λ _. none-split_once b'.' name e, λ _. rw (split_name, e) refl)
  | inr ((host, rest), e) ↦ elim (Option-cases (strip_suffix (codes ".") rest)) [
    | inl f ↦ (
      λ q. absurd (ground (arith, rw (split_name, e, f) at q)),
      λ n. absurd (ground (arith, split_once-none b'.' name n)),
    )
    | inr (c, f) ↦ (
      λ q. absurd (ground (arith, rw (split_name, e, f) at q)),
      λ n. absurd (ground (arith, split_once-none b'.' name n)),
    )
  ]
]

lookup-code :
    (s : ClusterDnsServer) (name : Text) (key : RecordKey) (t : RecordType) (time : ℕ)
    → let r = reply_of (lookup s name key t time).0 in
      (r.code ≢ nx_domain)
      × (r.code ≡ serv_fail ↔ ((t ≡ RecordType.soa) × (s.soa_email ≡ none)))
      × (r.code ≢ no_error → r.answers ≡ [])
unfolding lookup lookup_soa or_dns_error
lookup-code s name key RecordType.soa time = elim (Option-cases s.soa_email) [
  | inl e ↦
      rw (lookup, lookup_soa, e, or_dns_error)
        (λ q. ground arith, (λ _. (refl, refl), λ _. refl), λ _. refl)
  | inr (x, e) ↦
      rw (lookup, lookup_soa, e, or_dns_error)
        (λ q. ground arith, (λ q. ground arith, λ q. ground arith), λ n. absurd (n refl))
]
lookup-code s name key RecordType.a time =
    (λ q. ground arith, (λ q. ground arith, λ q. ground arith), λ n. absurd (n refl))
lookup-code s name key _ time =
    (λ q. ground arith, (λ q. ground arith, λ q. ground arith), λ n. absurd (n refl))

-- A query fails exactly in two cases: the name has no dot, or it asks for a SOA record where no email
-- is configured; and then the reply has no records.
pub handle_request-code :
    (s : ClusterDnsServer) (name : Text) (t : RecordType) (time : ℕ)
    → let r = (handle_request s name t time).0 in
      (r.code ≡ nx_domain ↔ (¬ In b'.' name))
      × (r.code ≡ serv_fail
          ↔ ((split_name name ≢ none) × (t ≡ RecordType.soa) × (s.soa_email ≡ none)))
      × (r.code ≢ no_error → r.answers ≡ [])
unfolding handle_request
handle_request-code s name t time = elim (Option-cases (split_name name)) [
  | inl e ↦ rw (do_lookup-none s name t time e) (
    (λ _. (split_name-none name).0 e, λ _. refl),
    (λ q. ground arith, λ q. absurd (q.0 e)),
    λ _. refl,
  )
  | inr (key, e) ↦
      let (a, b, c) = lookup-code s name key t time in
      rw (do_lookup-some s name key t time e) (
        (λ q. absurd (a q), λ n. absurd (ground (arith, (split_name-none name).1 n))),
        (λ q. (λ f. ground arith, (b.0 q).0, (b.0 q).1), λ q. b.1 (q.1, q.2)),
        c,
      )
]

-- A host and a cluster make a name, with a final dot or without, that is split into the two again.
pub split_name_parts :
    (host cluster : Text)
    → (¬ In b'.' host)
    → (split_name (host ++ b'.' ∷ (cluster ++ codes "."))
        ≡ some (record { cluster = record { hostname = cluster }; name = host }))
      × (strip_suffix (codes ".") cluster ≡ none
          → split_name (host ++ b'.' ∷ cluster)
            ≡ some (record { cluster = record { hostname = cluster }; name = host }))
unfolding split_name
split_name_parts host cluster n = (
  rw
      (
        split_name,
        split_once_at b'.' host (cluster ++ codes ".") n,
        strip_suffix-append (codes ".") cluster,
      )
      refl,
  λ e. rw (split_name, split_once_at b'.' host cluster n, e) refl,
)
