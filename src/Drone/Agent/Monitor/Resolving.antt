-- ===== src/Drone/Agent/Monitor/Resolving.antt =====
-- The messages of the DNS loop, taken in by the DNS server: a backend's name resolves to its drone.
use spawner.Prelude.{
  ℕ, ◌+◌, ◌≤◌, ◌≡◌, ◌≢◌, refl, sym, ap, subst, ◌∙◌, List, [], ◌∷◌, ◌++◌, Option, none, some, In,
  All, All-append, arith, if_neg, dec_lt,
}
use mathlib.Core.List.{append_assoc}
use spawner.Prelude.Text.{Text, codes}
use spawner.Types.{BackendId, ClusterName}
use spawner.Messages.Dns as Messages
use spawner.Messages.Dns.{SetDnsRecord, DnsRecordType, send_period, ttl_buffer_seconds}
use spawner.Ttl.TtlMap.{value_of}
use spawner.Ttl.TtlMap.Sweep.{live}
use spawner.Ttl.TtlMap.History as MapHistory
use spawner.Ttl.TtlMap.Latest.{IsOther, latest_inserted}
use spawner.Controller.Dns.{
  RecordKey, RecordKey_discrete, RecordType, RData, key_of, new, split_name, handle_request,
  answers_of, record_of,
}
use spawner.Controller.Dns.Calls.{
  Event, sets, queries, InOrder, run, set_call, query_call, address_calls,
}
use spawner.Controller.Dns.Answers.{reply, run_address, split_name_parts}
use spawner.Drone.Agent.Monitor.{dns_message}

-- An event that sets nothing for the key.
abbrev pub IsOtherEvent : RecordKey → Event → Type 0
IsOtherEvent key (sets v time now) = key ≢ key_of v
IsOtherEvent key (queries name t time) = Unit

-- The name by which a backend is asked for.
abbrev pub backend_name : BackendId → ClusterName → Text
backend_name b cluster = b.id ++ b'.' ∷ (cluster.hostname ++ codes ".")

abbrev pub backend_key : BackendId → ClusterName → RecordKey
backend_key b cluster = record { cluster = cluster; name = b.id }

module _ (parse_ip : Text → Option Text) where
  set_call-IsOther :
      (key : RecordKey) (v : SetDnsRecord) (time : ℕ) (k : DnsRecordType) (o : Option Text)
      → key ≢ key_of v
      → All (IsOther RecordKey_discrete Messages.ttl key) (set_call parse_ip v time k o)
  set_call-IsOther key v time DnsRecordType.a none h = tt
  set_call-IsOther key v time DnsRecordType.a (some ip) h = (h, tt)
  set_call-IsOther key v time DnsRecordType.txt o h = tt

  query_call-IsOther :
      (key : RecordKey) (t : RecordType) (o : Option RecordKey) (time : ℕ)
      → All (IsOther RecordKey_discrete Messages.ttl key) (query_call t o time)
  query_call-IsOther key RecordType.a none time = tt
  query_call-IsOther key RecordType.a (some k) time = (tt, tt)
  query_call-IsOther key _ o time = tt

  address_calls-IsOther :
      (key : RecordKey) (events : List Event)
      → All (IsOtherEvent key) events
      → All (IsOther RecordKey_discrete Messages.ttl key) (address_calls parse_ip events)
  address_calls-IsOther key [] h = tt
  address_calls-IsOther key (sets v time now ∷ events) (h, hs) =
      All-append _ _ _ (set_call-IsOther key v time v.kind (parse_ip v.value) h)
        (address_calls-IsOther key events hs)
  address_calls-IsOther key (queries name t time ∷ events) (h, hs) =
      All-append _ _ _ (query_call-IsOther key t (split_name name) time)
        (address_calls-IsOther key events hs)

  address_calls-append :
      (xs ys : List Event)
      → address_calls parse_ip (xs ++ ys) ≡ address_calls parse_ip xs ++ address_calls parse_ip ys
  address_calls-append [] ys = refl
  address_calls-append (sets v time now ∷ xs) ys =
      ap (λ q. set_call parse_ip v time v.kind (parse_ip v.value) ++ q) (address_calls-append xs ys)
      ∙ sym (append_assoc _ (address_calls parse_ip xs) (address_calls parse_ip ys))
  address_calls-append (queries name t time ∷ xs) ys =
      ap (λ q. query_call t (split_name name) time ++ q) (address_calls-append xs ys)
      ∙ sym (append_assoc _ (address_calls parse_ip xs) (address_calls parse_ip ys))

  -- A query in the form in which the server keeps names.
  name_resolves :
      (soa_email : Option Text) (b : BackendId) (cluster : ClusterName) (ip address : Text)
      (before others : List Event) (t now until : ℕ)
      → ¬ In b'.' b.id
      → parse_ip ip ≡ some address
      → InOrder 0 until (before ++ sets (dns_message b cluster ip) t now ∷ others)
      → All (IsOtherEvent (backend_key b cluster)) others
      → until ≤ t + send_period + ttl_buffer_seconds
      → (handle_request
          (run parse_ip (new soa_email) (before ++ sets (dns_message b cluster ip) t now ∷ others))
          (backend_name b cluster)
          RecordType.a
          until).0
        ≡ reply (record_of (backend_name b cluster) (RData.a address) ∷ [])
  unfolding send_period Messages.ttl dns_message
  name_resolves soa_email b cluster ip address before others t now until hb hp o h u =
      let events = before ++ sets (dns_message b cluster ip) t now ∷ others in
      let key = backend_key b cluster in
      let e : MapHistory.latest RecordKey_discrete Messages.ttl (λ j. none)
            (address_calls parse_ip events) key
          ≡ some (t + Messages.ttl, RData.a address) =
        ap (λ cs. MapHistory.latest RecordKey_discrete Messages.ttl (λ j. none) cs key)
          (address_calls-append before (sets (dns_message b cluster ip) t now ∷ others)
            ∙ ap
                (λ a.
                  address_calls parse_ip before
                  ++ (set_call parse_ip (dns_message b cluster ip) t DnsRecordType.a a
                      ++ address_calls parse_ip others))
                hp)
        ∙ latest_inserted RecordKey_discrete Messages.ttl (address_calls parse_ip before)
            (address_calls parse_ip others) key (RData.a address) t (λ j. none)
            (address_calls-IsOther key others h) in
      run_address parse_ip soa_email until (backend_name b cluster) key events o
        (split_name_parts b.id cluster.hostname hb).0
      ∙ ap (λ l. reply (answers_of (backend_name b cluster) (value_of (live until l)))) e
      ∙ ap (λ l. reply (answers_of (backend_name b cluster) (value_of l)))
          (if_neg (dec_lt (t + Messages.ttl) until) (λ lt. omega arith) _ _)

  -- `lower` is how `LowerName` writes a name: the server reads the name of a query in that form. Once
  -- the DNS server has taken in, in the order of time, a message of the DNS loop of a backend whose
  -- identifier holds no dot, whose name in its cluster is in that form, and whose drone's address can
  -- be parsed, a query for the name, in any spelling with the same form, is answered with that address
  -- and nothing else, until the next message is more than ten seconds late, if no other message sets
  -- that name; whatever came before.
  pub backend_resolves :
      (lower : Text → Text) (soa_email : Option Text) (b : BackendId) (cluster : ClusterName)
      (ip address name : Text) (before others : List Event) (t now until : ℕ)
      → ¬ In b'.' b.id
      → lower (backend_name b cluster) ≡ backend_name b cluster
      → lower name ≡ lower (backend_name b cluster)
      → parse_ip ip ≡ some address
      → InOrder 0 until (before ++ sets (dns_message b cluster ip) t now ∷ others)
      → All (IsOtherEvent (backend_key b cluster)) others
      → until ≤ t + send_period + ttl_buffer_seconds
      → (handle_request
          (run parse_ip (new soa_email) (before ++ sets (dns_message b cluster ip) t now ∷ others))
          (lower name)
          RecordType.a
          until).0
        ≡ reply (record_of (lower name) (RData.a address) ∷ [])
  backend_resolves lower soa_email b cluster ip address name before others t now until hb hl hn hp o
        h u =
      subst
        (λ n.
          (handle_request
            (run parse_ip (new soa_email)
              (before ++ sets (dns_message b cluster ip) t now ∷ others))
            n RecordType.a until).0
          ≡ reply (record_of n (RData.a address) ∷ []))
        (sym (hn ∙ hl))
        (name_resolves soa_email b cluster ip address before others t now until hb hp o h u)
