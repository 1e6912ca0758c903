-- ===== src/Controller/Dns/Calls.antt =====
-- The calls that messages and queries make on the maps of the DNS server.
use spawner.Prelude.{
  ℕ, ◌≤◌, List, [], ◌∷◌, ◌++◌, Option, none, some, ◌≡◌, refl, inl, inr, arith, Option-cases, ap,
  ◌∙◌, sym, ◌⊎◌, foldl-append, All,
}
use spawner.Prelude.Result.{err}
use spawner.Prelude.Text.{Text, codes}
use spawner.Messages.Dns.{SetDnsRecord, DnsRecordType}
use spawner.Ttl.TtlMap.{TtlMap}
use spawner.Ttl.TtlMap.History as MapHistory
use spawner.Ttl.Multistore
use spawner.Ttl.Multistore.History as StoreHistory
use spawner.Controller.Dns.{
  ClusterDnsServer, RecordKey, RecordKey_discrete, RData, RecordType, set_record, key_of,
  split_name, lookup, lookup_a, lookup_txt, do_lookup, handle_request, nx_domain, or_dns_error,
}

-- A message of the subscription, with the clock as it is read twice, or a query.
pub data Event : Type 0 where
  sets : SetDnsRecord → ℕ → ℕ → Event
  queries : Text → RecordType → ℕ → Event

abbrev pub time_of : Event → ℕ
time_of (sets v time now) = time
time_of (queries name t time) = time

abbrev pub InOrder : ℕ → ℕ → List Event → Type 0
InOrder now until [] = now ≤ until
InOrder now until (e ∷ events) = (now ≤ time_of e) × InOrder (time_of e) until events

pub do_lookup-none :
    (s : ClusterDnsServer) (name : Text) (t : RecordType) (time : ℕ)
    → split_name name ≡ none
    → do_lookup s name t time ≡ (
      err (record { code = nx_domain; message = codes "Invalid name for this server " ++ name }),
      s,
    )
unfolding do_lookup or_dns_error
do_lookup-none s name t time e = rw (do_lookup, e, or_dns_error) refl

pub do_lookup-some :
    (s : ClusterDnsServer) (name : Text) (key : RecordKey) (t : RecordType) (time : ℕ)
    → split_name name ≡ some key
    → do_lookup s name t time ≡ lookup s name key t time
unfolding do_lookup or_dns_error
do_lookup-some s name key t time e = rw (do_lookup, e, or_dns_error) refl

-- The call on the map of addresses, and the call on the store of texts, that a query makes.
abbrev pub query_call : RecordType → Option RecordKey → ℕ → List (MapHistory.Call RecordKey RData)
query_call RecordType.a (some k) time = MapHistory.reads k time ∷ []
query_call _ o time = []

abbrev pub text_query_call :
    RecordType → Option RecordKey → ℕ → List (StoreHistory.Call RecordKey RData)
text_query_call RecordType.txt (some k) time = StoreHistory.reads k time ∷ []
text_query_call _ o time = []

lookup-calls :
    (s : ClusterDnsServer) (name : Text) (key : RecordKey) (t : RecordType) (time : ℕ)
    → ((lookup s name key t time).1.a_record_map
        ≡ MapHistory.run RecordKey_discrete s.a_record_map (query_call t (some key) time))
      × ((lookup s name key t time).1.txt_record_map
          ≡ StoreHistory.run RecordKey_discrete s.txt_record_map
              (text_query_call t (some key) time))
unfolding lookup lookup_a lookup_txt MapHistory.run MapHistory.step StoreHistory.run
    StoreHistory.step
lookup-calls s name key RecordType.a time = (refl, refl)
lookup-calls s name key RecordType.txt time = (refl, refl)
lookup-calls s name key RecordType.soa time = (refl, refl)
lookup-calls s name key RecordType.caa time = (refl, refl)
lookup-calls s name key RecordType.aaaa time = (refl, refl)
lookup-calls s name key RecordType.other time = (refl, refl)

kind-cases : (k : DnsRecordType) → (k ≡ DnsRecordType.a) ⊎ (k ≡ DnsRecordType.txt)
kind-cases DnsRecordType.a = inl refl
kind-cases DnsRecordType.txt = inr refl

module _ (parse_ip : Text → Option Text) where
  pub step : ClusterDnsServer → Event → ClusterDnsServer
  step s (sets v time now) = set_record parse_ip s v time now
  step s (queries name t time) = (handle_request s name t time).1

  pub run : ClusterDnsServer → List Event → ClusterDnsServer
  run s [] = s
  run s (e ∷ events) = run (step s e) events

  abbrev pub set_call :
      SetDnsRecord → ℕ → DnsRecordType → Option Text → List (MapHistory.Call RecordKey RData)
  set_call v time DnsRecordType.a (some ip) = MapHistory.inserts (key_of v) (RData.a ip) time ∷ []
  set_call v time _ o = []

  abbrev pub text_set_call :
      SetDnsRecord → ℕ → ℕ → DnsRecordType → List (StoreHistory.Call RecordKey RData)
  text_set_call v time now DnsRecordType.txt =
      StoreHistory.inserts (key_of v) (RData.txt (v.value ∷ [])) time now ∷ []
  text_set_call v time now _ = []

  -- The calls on the map of addresses that events make: a message that carries an address sets it.
  abbrev pub address_calls : List Event → List (MapHistory.Call RecordKey RData)
  address_calls [] = []
  address_calls (sets v time now ∷ events) =
      set_call v time v.kind (parse_ip v.value) ++ address_calls events
  address_calls (queries name t time ∷ events) =
      query_call t (split_name name) time ++ address_calls events

  -- The calls on the store of texts.
  abbrev pub text_calls : List Event → List (StoreHistory.Call RecordKey RData)
  text_calls [] = []
  text_calls (sets v time now ∷ events) = text_set_call v time now v.kind ++ text_calls events
  text_calls (queries name t time ∷ events) =
      text_query_call t (split_name name) time ++ text_calls events

  set_record-calls :
      (s : ClusterDnsServer) (v : SetDnsRecord) (time now : ℕ)
      → ((set_record parse_ip s v time now).a_record_map
          ≡ MapHistory.run RecordKey_discrete s.a_record_map
              (set_call v time v.kind (parse_ip v.value)))
        × ((set_record parse_ip s v time now).txt_record_map
            ≡ StoreHistory.run RecordKey_discrete s.txt_record_map
                (text_set_call v time now v.kind))
  unfolding set_record MapHistory.run MapHistory.step StoreHistory.run StoreHistory.step
  set_record-calls s v time now = elim (kind-cases v.kind) [
    | inl k ↦ elim (Option-cases (parse_ip v.value)) [
      | inl e ↦ rw (set_record, k, e) (refl, refl)
      | inr (ip, e) ↦ rw (set_record, k, e) (refl, refl)
    ]
    | inr k ↦ rw (set_record, k) (refl, refl)
  ]

query_call-none :
    (t : RecordType) (time : ℕ) → (query_call t none time ≡ []) × (text_query_call t none time ≡ [])
query_call-none RecordType.a time = (refl, refl)
query_call-none RecordType.txt time = (refl, refl)
query_call-none _ time = (refl, refl)

handle_request-calls :
    (s : ClusterDnsServer) (name : Text) (t : RecordType) (time : ℕ)
    → ((handle_request s name t time).1.a_record_map
        ≡ MapHistory.run RecordKey_discrete s.a_record_map (query_call t (split_name name) time))
      × ((handle_request s name t time).1.txt_record_map
          ≡ StoreHistory.run RecordKey_discrete s.txt_record_map
              (text_query_call t (split_name name) time))
unfolding handle_request MapHistory.run StoreHistory.run
handle_request-calls s name t time = elim (Option-cases (split_name name)) [
  | inl e ↦
      let (p, q) = query_call-none t time in
      rw (do_lookup-none s name t time e, e, p, q) (refl, refl)
  | inr (key, e) ↦ rw (do_lookup-some s name key t time e, e) (lookup-calls s name key t time)
]

map_append :
    (xs ys : List (MapHistory.Call RecordKey RData)) (m : TtlMap RecordKey RData)
    → MapHistory.run RecordKey_discrete m (xs ++ ys)
      ≡ MapHistory.run RecordKey_discrete (MapHistory.run RecordKey_discrete m xs) ys
unfolding MapHistory.run
map_append =
    foldl-append (MapHistory.run RecordKey_discrete) (λ s. refl)
      (MapHistory.step RecordKey_discrete) (λ s c cs. refl)

store_append :
    (xs ys : List (StoreHistory.Call RecordKey RData))
    (m : Multistore.TtlMultistore RecordKey RData)
    → StoreHistory.run RecordKey_discrete m (xs ++ ys)
      ≡ StoreHistory.run RecordKey_discrete (StoreHistory.run RecordKey_discrete m xs) ys
unfolding StoreHistory.run
store_append =
    foldl-append (StoreHistory.run RecordKey_discrete) (λ s. refl)
      (StoreHistory.step RecordKey_discrete) (λ s c cs. refl)

module _ (parse_ip : Text → Option Text) where
  pub run-calls :
      (s : ClusterDnsServer) (events : List Event)
      → ((run parse_ip s events).a_record_map
          ≡ MapHistory.run RecordKey_discrete s.a_record_map (address_calls parse_ip events))
        × ((run parse_ip s events).txt_record_map
            ≡ StoreHistory.run RecordKey_discrete s.txt_record_map (text_calls parse_ip events))
  unfolding run step MapHistory.run StoreHistory.run
  run-calls s [] = (refl, refl)
  run-calls s (sets v time now ∷ events) =
      let (p, q) = set_record-calls parse_ip s v time now in
      let (p', q') = run-calls (step parse_ip s (sets v time now)) events in
      (
        p'
            ∙ ap (λ m. MapHistory.run RecordKey_discrete m (address_calls parse_ip events)) p
            ∙ sym (
                map_append (set_call parse_ip v time v.kind (parse_ip v.value))
                  (address_calls parse_ip events) s.a_record_map),
        q'
            ∙ ap (λ m. StoreHistory.run RecordKey_discrete m (text_calls parse_ip events)) q
            ∙ sym (
                store_append (text_set_call parse_ip v time now v.kind) (text_calls parse_ip events)
                  s.txt_record_map),
      )
  run-calls s (queries name t time ∷ events) =
      let (p, q) = handle_request-calls s name t time in
      let (p', q') = run-calls (step parse_ip s (queries name t time)) events in
      (
        p'
            ∙ ap (λ m. MapHistory.run RecordKey_discrete m (address_calls parse_ip events)) p
            ∙ sym (
                map_append (query_call t (split_name name) time) (address_calls parse_ip events)
                  s.a_record_map),
        q'
            ∙ ap (λ m. StoreHistory.run RecordKey_discrete m (text_calls parse_ip events)) q
            ∙ sym (
                store_append (text_query_call t (split_name name) time) (text_calls parse_ip events)
                  s.txt_record_map),
      )

map_order_weaken :
    (now t until : ℕ) (calls : List (MapHistory.Call RecordKey RData))
    → now ≤ t
    → MapHistory.InOrder t until calls
    → MapHistory.InOrder now until calls
map_order_weaken now t until [] h o = omega arith
map_order_weaken now t until (c ∷ calls) h (le, o) = (omega arith, o)

map_order_append :
    (now t until : ℕ) (xs calls : List (MapHistory.Call RecordKey RData))
    → now ≤ t
    → All (λ c. MapHistory.time_of c ≡ t) xs
    → MapHistory.InOrder t until calls
    → MapHistory.InOrder now until (xs ++ calls)
map_order_append now t until [] calls h q o = map_order_weaken now t until calls h o
map_order_append now t until (c ∷ xs) calls h (e, q) o =
    (omega arith, map_order_append (MapHistory.time_of c) t until xs calls (omega arith) q o)

store_order_weaken :
    (now t until : ℕ) (calls : List (StoreHistory.Call RecordKey RData))
    → now ≤ t
    → StoreHistory.InOrder t until calls
    → StoreHistory.InOrder now until calls
store_order_weaken now t until [] h o = omega arith
store_order_weaken now t until (StoreHistory.inserts k v u n ∷ calls) h o =
    store_order_weaken now t until calls h o
store_order_weaken now t until (StoreHistory.reads k u ∷ calls) h (le, o) = (omega arith, o)

query_call_time :
    (t : RecordType) (o : Option RecordKey) (time : ℕ)
    → All (λ c. MapHistory.time_of c ≡ time) (query_call t o time)
query_call_time RecordType.a (some k) time = (refl, tt)
query_call_time RecordType.a none time = tt
query_call_time _ o time = tt

module _ (parse_ip : Text → Option Text) where
  set_call_time :
      (v : SetDnsRecord) (time : ℕ) (k : DnsRecordType) (o : Option Text)
      → All (λ c. MapHistory.time_of c ≡ time) (set_call parse_ip v time k o)
  set_call_time v time DnsRecordType.a (some ip) = (refl, tt)
  set_call_time v time DnsRecordType.a none = tt
  set_call_time v time DnsRecordType.txt o = tt

  pub address_calls-InOrder :
      (now until : ℕ) (events : List Event)
      → InOrder now until events
      → MapHistory.InOrder now until (address_calls parse_ip events)
  address_calls-InOrder now until [] h = h
  address_calls-InOrder now until (sets v time n ∷ events) (h, o) =
      map_order_append now time until (set_call parse_ip v time v.kind (parse_ip v.value)) _ h
        (set_call_time v time v.kind (parse_ip v.value)) (address_calls-InOrder time until events o)
  address_calls-InOrder now until (queries name t time ∷ events) (h, o) =
      map_order_append now time until (query_call t (split_name name) time) _ h
        (query_call_time t (split_name name) time) (address_calls-InOrder time until events o)

  text_query_order :
      (now time until : ℕ) (t : RecordType) (o : Option RecordKey)
      (calls : List (StoreHistory.Call RecordKey RData))
      → now ≤ time
      → StoreHistory.InOrder time until calls
      → StoreHistory.InOrder now until (text_query_call t o time ++ calls)
  text_query_order now time until RecordType.txt (some k) calls h o = (h, o)
  text_query_order now time until _ _ calls h o = store_order_weaken now time until calls h o

  text_set_order :
      (now time n until : ℕ) (v : SetDnsRecord) (k : DnsRecordType)
      (calls : List (StoreHistory.Call RecordKey RData))
      → now ≤ time
      → StoreHistory.InOrder time until calls
      → StoreHistory.InOrder now until (text_set_call parse_ip v time n k ++ calls)
  text_set_order now time n until v DnsRecordType.txt calls h o =
      store_order_weaken now time until calls h o
  text_set_order now time n until v DnsRecordType.a calls h o =
      store_order_weaken now time until calls h o

  pub text_calls-InOrder :
      (now until : ℕ) (events : List Event)
      → InOrder now until events
      → StoreHistory.InOrder now until (text_calls parse_ip events)
  text_calls-InOrder now until [] h = h
  text_calls-InOrder now until (sets v time n ∷ events) (h, o) =
      text_set_order now time n until v v.kind _ h (text_calls-InOrder time until events o)
  text_calls-InOrder now until (queries name t time ∷ events) (h, o) =
      text_query_order now time until t (split_name name) _ h
        (text_calls-InOrder time until events o)
