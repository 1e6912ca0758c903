-- ===== src/Controller/Dns.antt =====
-- controller/src/dns: the DNS server of the clusters, and the name that the plan gives its SOA email.
-- `parse_ip` is the standard library's parser of addresses; a clock that a handler reads is an
-- argument.
pub mod Rname
pub mod Calls
pub mod Answers
pub mod Serve
use spawner.Prelude.{ℕ, List, [], ◌∷◌, ◌++◌, map, Option, none, some, ite}
use spawner.Prelude.Result.{Result, ok, err, ◌>>=◌, ◌>>◌, ok_or}
use spawner.Prelude.Text.{Text, Text_discrete, codes, split_once, strip_suffix}
use spawner.Types.{ClusterName}
use spawner.Messages.Dns as Messages
use spawner.Messages.Dns.{SetDnsRecord, DnsRecordType}
use spawner.Ttl.TtlMap
use spawner.Ttl.TtlMap.{TtlMap}
use spawner.Ttl.Multistore
use spawner.Ttl.Multistore.{TtlMultistore}

abbrev pub dns_record_ttl : ℕ
dns_record_ttl = 60

pub record RecordKey : Type 0 where
  pub cluster : ClusterName
  pub name : Text

unfoldable pub RecordKey_discrete : Discrete RecordKey
unfolding Text_discrete
RecordKey_discrete = hlevel Text_discrete

pub record Soa : Type 0 where
  pub mname : Text
  pub rname : Text
  pub serial : ℕ
  pub refresh : ℕ
  pub retry : ℕ
  pub expire : ℕ
  pub minimum : ℕ

pub data RData : Type 0 where
  a : Text → RData
  txt : List Text → RData
  soa : Soa → RData

pub record Record : Type 0 where
  pub name : Text
  pub ttl : ℕ
  pub rdata : RData

pub data RecordType : Type 0 where
  a txt soa caa aaaa other : RecordType

pub data ResponseCode : Type 0 where
  no_error nx_domain serv_fail : ResponseCode

pub record DnsError : Type 0 where
  pub code : ResponseCode
  pub message : Text

pub record ClusterDnsServer : Type 0 where
  pub a_record_map : TtlMap RecordKey RData
  pub txt_record_map : TtlMultistore RecordKey RData
  pub soa_email : Option Text

unfoldable pub new : Option Text → ClusterDnsServer
unfolding Messages.ttl
new soa_email = record {
  a_record_map = TtlMap.new Messages.ttl;
  txt_record_map = Multistore.new Messages.ttl;
  soa_email = soa_email;
}

abbrev pub key_of : SetDnsRecord → RecordKey
key_of v = record { cluster = v.cluster; name = v.name }

-- The body of the subscription's loop. `time` and `now` are the clock, as it is read for the call and
-- by `get_or_insert_with` in it.
unfoldable pub set_record :
    (Text → Option Text) → ClusterDnsServer → SetDnsRecord → ℕ → ℕ → ClusterDnsServer
set_record parse_ip s v time now = elim v.kind [
  | DnsRecordType.a ↦ elim (parse_ip v.value) [
    | none ↦ s
    | some ip ↦ record s {
      a_record_map = TtlMap.insert RecordKey_discrete s.a_record_map (key_of v) (a ip) time;
    }
  ]
  | DnsRecordType.txt ↦ record s {
    txt_record_map =
        Multistore.insert RecordKey_discrete s.txt_record_map (key_of v) (txt (v.value ∷ [])) time
          now;
  }
]

unfoldable pub or_dns_error : {A : Type 0} → Option A → ResponseCode → Text → Result DnsError A
or_dns_error (some v) code message = ok v
or_dns_error none code message = err (record { code = code; message = message })

-- The host name and the cluster of a name, with its final dot or without.
unfoldable pub split_name : Text → Option RecordKey
unfolding split_once strip_suffix
split_name name = elim (split_once b'.' name) [
  | none ↦ none
  | some (hostname, cluster_name) ↦ elim (strip_suffix (codes ".") cluster_name) [
    | none ↦ some (record { cluster = record { hostname = cluster_name }; name = hostname })
    | some stripped ↦ some (record { cluster = record { hostname = stripped }; name = hostname })
  ]
]

abbrev pub record_of : Text → RData → Record
record_of name rdata = record { name = name; ttl = dns_record_ttl; rdata = rdata }

abbrev pub answers_of : Text → Option RData → List Record
answers_of name none = []
answers_of name (some rdata) = record_of name rdata ∷ []

abbrev pub all_answers_of : Text → Option (List RData) → List Record
all_answers_of name none = []
all_answers_of name (some rdatas) = map (record_of name) rdatas

unfoldable pub lookup_txt : ClusterDnsServer → Text → RecordKey → ℕ → List Record × ClusterDnsServer
lookup_txt s name key time =
    let (found, m) = Multistore.iter RecordKey_discrete s.txt_record_map key time in
    (all_answers_of name found, record s { txt_record_map = m })

unfoldable pub lookup_a : ClusterDnsServer → Text → RecordKey → ℕ → List Record × ClusterDnsServer
lookup_a s name key time =
    let (found, m) = TtlMap.get RecordKey_discrete s.a_record_map key time in
    (answers_of name found, record s { a_record_map = m })

unfoldable pub lookup_soa : ClusterDnsServer → Text → Result DnsError (List Record)
unfolding or_dns_error
lookup_soa s name = do
  soa_record ← or_dns_error s.soa_email serv_fail (codes "SOA record email not set in config.")
  ok (
      record_of name (
        soa (record {
          mname = name;
          rname = soa_record;
          serial = 1;
          refresh = 7200;
          retry = 7200;
          expire = 7200;
          minimum = 7200;
        }))
      ∷ [])

abbrev pub answer_with :
    List Record × ClusterDnsServer → Result DnsError (List Record) × ClusterDnsServer
answer_with (records, s) = (ok records, s)

unfoldable pub lookup :
    ClusterDnsServer
    → Text
    → RecordKey
    → RecordType
    → ℕ
    → Result DnsError (List Record) × ClusterDnsServer
unfolding lookup_txt lookup_a lookup_soa
lookup s name key txt time = answer_with (lookup_txt s name key time)
lookup s name key a time = answer_with (lookup_a s name key time)
lookup s name key soa time = (lookup_soa s name, s)
lookup s name key caa time = (ok [], s)
lookup s name key aaaa time = (ok [], s)
lookup s name key other time = (ok [], s)

-- `name` is the name of the query as `LowerName` writes it, in lower case.
unfoldable pub do_lookup :
    ClusterDnsServer → Text → RecordType → ℕ → Result DnsError (List Record) × ClusterDnsServer
unfolding split_name or_dns_error lookup
do_lookup s name query_type time =
    elim (or_dns_error (split_name name) nx_domain
      (codes "Invalid name for this server " ++ name)) [
        | err e ↦ (err e, s)
        | ok key ↦ lookup s name key query_type time
      ]

pub record Reply : Type 0 where
  pub code : ResponseCode
  pub answers : List Record

abbrev pub reply_of : Result DnsError (List Record) → Reply
reply_of (ok answers) = record { code = no_error; answers = answers }
reply_of (err e) = record { code = e.code; answers = [] }

unfoldable pub handle_request : ClusterDnsServer → Text → RecordType → ℕ → Reply × ClusterDnsServer
handle_request s name query_type time =
    let p = do_lookup s name query_type time in (reply_of p.0, p.1)
