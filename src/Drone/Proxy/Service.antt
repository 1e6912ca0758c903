-- ===== src/Drone/Proxy/Service.antt =====
-- drone/src/proxy/service.rs. The crates `http` and `hyper` are the fields of `Http`. Headers are in
-- their order, with the names in lower case, as `http` keeps them.
pub mod Forwarding
pub mod Sending
use spawner.Prelude.{
  ℕ, List, [], ◌∷◌, ◌++◌, Option, none, some, Bool, true, false, ite, ℕ_discrete, if◌then◌else◌,
}
use spawner.Prelude.Result.{Result, ok, err, ◌>>=◌, ◌>>◌, ok_or}
use spawner.Prelude.Text.{
  Text, Text_discrete, codes, split_once, strip_suffix, contains, to_lowercase,
}
use spawner.Drone.Database.{DroneDatabase, get_proxy_route, text_eq}
use spawner.Drone.Proxy.Tracker.{
  ConnectionTracker, track_request, increment_connections, decrement_connections,
}

abbrev pub upgrade : Text
upgrade = codes "upgrade"

pub record Uri : Type 0 where
  pub scheme : Option Text
  pub authority : Option Text
  pub path_and_query : Option Text

pub record Request : Type 0 where
  pub method : Text
  pub uri : Uri
  pub headers : List (Text × Text)
  pub body : Text

pub record Response : Type 0 where
  pub status : ℕ
  pub headers : List (Text × Text)
  pub body : Text

pub data ProxyError : Type 0 where
  not_utf8 database bad_authority bad_uri cloning upstream upgrading : ProxyError

-- `from_utf8` reads bytes and `to_str` a header's value; `authority` is `Authority::from_str`;
-- `from_parts` is `Uri::from_parts`; the `build` functions finish a builder; `request` is the client's
-- call; `upgraded` is whether a response that switches protocols can be upgraded.
pub record Http : Type 0 where
  pub from_utf8 : Text → Option Text
  pub to_str : Text → Option Text
  pub authority : Text → Option Text
  pub from_parts : Uri → Option Uri
  pub build_request : Request → Option Request
  pub build_response : Response → Option Response
  pub request : Request → Option Response
  pub upgraded : Bool

-- `headers().get`: the first value of a name.
unfoldable pub header : Text → List (Text × Text) → Option Text
header name [] = none
header name ((n, v) ∷ headers) = ite (Text_discrete n name) (some v) (header name headers)

unfoldable pub clone_request : Http → Request → Result ProxyError Request
clone_request h r = ok_or (h.build_request (record r { body = [] })) cloning

unfoldable pub clone_response : Http → Response → Result ProxyError Response
clone_response h r = ok_or (h.build_response (record r { body = [] })) cloning

unfoldable pub rewrite_uri : Http → Text → Uri → Result ProxyError Uri
rewrite_uri h authority uri = do
  a ← ok_or (h.authority authority) bad_authority
  ok_or (h.from_parts (record uri { authority = some a; scheme = some (codes "http") })) bad_uri

-- What a request leads to: the tracker, the requests that were sent upstream, whether the task that
-- relays an upgraded connection is spawned, and the result.
pub record Served : Type 0 where
  pub tracker : ConnectionTracker
  pub sent : List Request
  pub relayed : Bool
  pub result : Result ProxyError Response

abbrev pub switching_protocols : ℕ
switching_protocols = 101

unfoldable pub upgrade_response : Http → Response → Bool × Result ProxyError Response
unfolding clone_response
upgrade_response h response =
    ite (ℕ_discrete response.status switching_protocols)
      (elim (clone_response h response) [
        | err e ↦ (false, err e)
        | ok clone ↦ if h.upgraded then (true, ok clone) else (false, err upgrading)
      ])
      (false, ok response)

unfoldable pub handle_upgrade : Http → ConnectionTracker → Request → Served
unfolding clone_request upgrade_response
handle_upgrade h tracker req = elim (clone_request h req) [
  | err e ↦ record { tracker = tracker; sent = []; relayed = false; result = err e }
  | ok clone ↦ elim (h.request clone) [
    | none ↦ record { tracker = tracker; sent = clone ∷ []; relayed = false; result = err upstream }
    | some response ↦
        let p = upgrade_response h response in
        record { tracker = tracker; sent = clone ∷ []; relayed = p.0; result = p.1 }
  ]
]

-- The task that `handle_upgrade` spawns: the tracker while the connection is relayed, and after it.
-- `accepted` is whether the request can be upgraded.
unfoldable pub relay : Bool → Text → ConnectionTracker → ConnectionTracker × ConnectionTracker
relay accepted backend tracker =
    if accepted
    then (
      increment_connections tracker backend,
      decrement_connections (increment_connections tracker backend) backend,
    )
    else (tracker, tracker)

unfoldable pub is_upgrade : Http → Request → Bool
unfolding contains to_lowercase header
is_upgrade h req = elim (header (codes "connection") req.headers) [
  | none ↦ false
  | some connection ↦
      contains upgrade (to_lowercase (elim (h.to_str connection) [ none ↦ [] | some s ↦ s ]))
]

unfoldable pub forward : Http → ConnectionTracker → Request → Served
unfolding handle_upgrade is_upgrade
forward h tracker req = if is_upgrade h req then handle_upgrade h tracker req else record {
  tracker = tracker;
  sent = req ∷ [];
  relayed = false;
  result = ok_or (h.request req) upstream;
}

abbrev pub not_found : ℕ
not_found = 404

unfoldable pub refuse : Http → ConnectionTracker → Served
refuse h tracker = record {
  tracker = tracker;
  sent = [];
  relayed = false;
  result =
      ok_or
        (h.build_response (record {
          status = not_found;
          headers = (codes "access-control-allow-origin", codes "*") ∷ [];
          body = [];
        }))
        cloning;
}

abbrev pub fails : ConnectionTracker → ProxyError → Served
fails tracker e = record { tracker = tracker; sent = []; relayed = false; result = err e }

-- If the host includes a port, it is stripped.
unfoldable pub strip_port : Text → Text
unfolding split_once
strip_port host = elim (split_once b':' host) [ none ↦ host | some p ↦ p.0 ]

unfoldable pub subdomain_of : Text → Text → Option Text
unfolding strip_suffix strip_port
subdomain_of cluster host = strip_suffix (codes "." ++ cluster) (strip_port host)

-- `reads` is whether the database can be read.
unfoldable pub handle_routed :
    Http → DroneDatabase → ConnectionTracker → Bool → Request → Text → Served
unfolding rewrite_uri forward refuse
handle_routed h db tracker reads req subdomain =
    if reads
    then (elim (get_proxy_route db subdomain) [
      | none ↦ refuse h tracker
      | some addr ↦
          let tracker' = track_request tracker subdomain in
          elim (rewrite_uri h addr req.uri) [
            | err e ↦ fails tracker' e
            | ok uri ↦ forward h tracker' (record req { uri = uri })
          ]
    ])
    else fails tracker database

unfoldable pub handle : Http → DroneDatabase → Text → ConnectionTracker → Bool → Request → Served
unfolding header subdomain_of handle_routed refuse
handle h db cluster tracker reads req = elim (header (codes "host") req.headers) [
  | none ↦ refuse h tracker
  | some bytes ↦ elim (h.from_utf8 bytes) [
    | none ↦ fails tracker not_utf8
    | some host ↦ elim (subdomain_of cluster host) [
      | none ↦ refuse h tracker
      | some subdomain ↦ handle_routed h db tracker reads req subdomain
    ]
  ]
]
