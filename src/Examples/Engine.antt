-- ===== src/Examples/Engine.antt =====
-- The theorems of the proxy, the certificates and the Docker engine at concrete inputs.
use spawner.Prelude.{
  ℕ, ◌+◌, ◌≤◌, ◌<◌, ◌≡◌, ◌≢◌, ◌↔◌, ◌⊎◌, refl, List, [], ◌∷◌, ◌++◌, Option, none, some, Bool, true,
  false, In, inl, inr, length, arith,
}
use spawner.Prelude.Assoc
use spawner.Prelude.Result.{ok}
use spawner.Prelude.Text.{Text, Text_discrete, codes}
use spawner.Types.{BackendId, ClusterName, to_resource_name}
use spawner.Drone.Database.{DroneDatabase, get_proxy_route, find_route}
use spawner.Drone.Proxy.Tracker.{default, get_and_clear_active_backends}
use spawner.Drone.Proxy.Tracker.History as Tracker
use spawner.Drone.Proxy.Tracker.History.{run_reported}
use spawner.Drone.Proxy.Service.{
  Http, Uri, Request, header, handle, strip_port, rewrite_uri, is_upgrade, subdomain_of,
  handle_routed, forward,
}
use spawner.Drone.Proxy.Service.Forwarding.{IsRouted, KeepsParts, host_of, handle-IsRouted}
use spawner.Drone.Proxy.Service.Sending.{IsRoutable}
use spawner.Drone.Keys.{KeyCertPathPair, Files}
use spawner.Drone.Cert.{
  refresh_if_not_valid, sleep_after, waits, refreshes, refresh_margin, max_sleep, write_files,
  concat, write_files_cert, refresh_iff, sleep_after_margin,
}
use spawner.Drone.Cert.Watcher as Watcher
use spawner.Drone.Cert.Acme.{Order, Authorization, Announced, get_certificate, get_certificate-ok}
use spawner.Drone.Docker.Events.{interrupts, event_type, die, interrupts_iff}

abbrev tracker_calls : List Tracker.Call
tracker_calls =
    Tracker.opens (codes "b1")
    ∷ Tracker.opens (codes "b1")
    ∷ Tracker.collects
    ∷ Tracker.closes (codes "b1")
    ∷ []

paired : Tracker.IsPaired (codes "b1") 0 tracker_calls
unfolding Text_discrete
paired = (omega arith, (omega arith, ((λ _. omega arith), tt)))

run_reported_example :
    In (codes "b1") (get_and_clear_active_backends (Tracker.run default tracker_calls)).0 ↔ (
      (0 < Tracker.open_after (codes "b1") 0 tracker_calls)
      ⊎ (Tracker.requested_after (codes "b1") false tracker_calls ≡ true))
run_reported_example = run_reported (codes "b1") tracker_calls paired

abbrev http : Http
http = record {
  from_utf8 = λ t. some t;
  to_str = λ t. some t;
  authority = λ t. some t;
  from_parts = λ u. some u;
  build_request = λ r. some r;
  build_response = λ r. some r;
  request = λ r. some (record { status = 200; headers = []; body = [] });
  upgraded = true;
}

keeps : KeepsParts http
keeps r out e = ground arith

abbrev db : DroneDatabase
db = record {
  backends = record { name = codes "b1"; spec = []; state = codes "Ready" } ∷ [];
  routes =
      record {
        backend = codes "b1";
        subdomain = codes "b1";
        address = codes "10.0.0.1:8080";
        last_active = 5;
      }
      ∷ [];
}

abbrev request_to : Text → Request
request_to host = record {
  method = codes "GET";
  uri = record { scheme = none; authority = none; path_and_query = some (codes "/") };
  headers = (codes "host", host) ∷ [];
  body = [];
}

abbrev target : Uri
target = record {
  scheme = some (codes "http");
  authority = some (codes "10.0.0.1:8080");
  path_and_query = some (codes "/");
}

abbrev forwarded : Request
forwarded = record (request_to (codes "b1.plane.test:80")) { uri = target }

stripped : strip_port (codes "b1.plane.test:80") ≡ host_of (codes "b1") (codes "plane.test")
unfolding strip_port
stripped = refl

route : get_proxy_route db (codes "b1") ≡ some (codes "10.0.0.1:8080")
unfolding get_proxy_route spawner.Drone.Database.find_route Text_discrete
    spawner.Drone.Database.find_backend
route = refl

host_header :
    header (codes "host") (request_to (codes "b1.plane.test:80")).headers
    ≡ some (codes "b1.plane.test:80")
unfolding header Text_discrete
host_header = refl

routable : IsRoutable http db (codes "plane.test") (request_to (codes "b1.plane.test:80"))
routable = record {
  bytes = codes "b1.plane.test:80";
  host = codes "b1.plane.test:80";
  subdomain = codes "b1";
  address = codes "10.0.0.1:8080";
  authority = codes "10.0.0.1:8080";
  uri = target;
  has_header = host_header;
  decodes = refl;
  names = stripped;
  route = route;
  parses = refl;
  target = refl;
}

sent_first :
    In forwarded
      (handle http db
        (codes "plane.test")
        default
        true
        (request_to (codes "b1.plane.test:80"))).sent
unfolding handle header subdomain_of strip_port handle_routed forward rewrite_uri is_upgrade
    get_proxy_route spawner.Drone.Database.find_route Text_discrete
    spawner.Drone.Database.find_backend
sent_first = inl refl

handle-IsRouted_example :
    IsRouted http db
      (codes "plane.test")
      default
      (request_to (codes "b1.plane.test:80"))
      forwarded
      (handle http db (codes "plane.test") default true (request_to (codes "b1.plane.test:80")))
handle-IsRouted_example =
    handle-IsRouted http db (codes "plane.test") default true
      (request_to (codes "b1.plane.test:80")) forwarded keeps sent_first

abbrev no_routes : DroneDatabase
no_routes = record { backends = []; routes = [] }

unrouted : (sub addr : Text) → get_proxy_route no_routes sub ≢ some addr
unfolding get_proxy_route find_route
unrouted sub addr e = ground arith

write_files_cert_example :
    (3 ≤ 2 → (write_files (codes "k", codes "old") (codes "k2") (codes "c1" ∷ [])).1 ≡ codes "c1")
    × (2 < 3 → (write_files (codes "k", codes "old") (codes "k2") (codes "c1" ∷ [])).1 ≢ codes "c1")
write_files_cert_example = write_files_cert (codes "k") (codes "old") (codes "k2") (codes "c1" ∷ [])

far_off : refresh_if_not_valid (some 2000000) 10 (ok tt) ≡ waits 703990
unfolding refresh_if_not_valid spawner.Prelude.dec_lt
far_off = refl

abbrev paths : KeyCertPathPair
paths = record { key_path = codes "/keys/k.pem"; cert_path = codes "/certs/c.pem" }

abbrev files : Text → Files
files key = record {
  certs = λ p. some (codes "c2" ∷ []);
  keys = λ p. some (key ∷ []);
  supported = λ k. some k;
}

abbrev event_of : Text → Watcher.Event
event_of p = record { close_write = true; paths = p ∷ [] }

abbrev written : List (Files × Watcher.Event)
written =
    (files (codes "k1"), event_of paths.cert_path)
    ∷ (files (codes "k2"), event_of paths.key_path)
    ∷ []

abbrev order : Order
order = record {
  authorizations = some (
      record {
        challenge = some (some (codes "v"));
        accepted = some true;
        published = true;
        challenge_valid = true;
        authorization_valid = true;
      }
      ∷ []);
  ready = true;
  pkey = some (codes "k");
  valid = true;
  certificate = some (codes "c" ∷ []);
}

abbrev cluster : ClusterName
cluster = record { hostname = codes "plane.test" }

obtained : (get_certificate cluster order).1 ≡ ok (codes "k", codes "c" ∷ [])
unfolding get_certificate spawner.Drone.Cert.Acme.authorize_all spawner.Drone.Cert.Acme.authorize
    spawner.Drone.Cert.Acme.finish_order
obtained = refl

get_certificate-ok_example :
    (auths : List Authorization) × (order.authorizations ≡ some auths)
    × Announced cluster auths (get_certificate cluster order).0
    × (order.ready ≡ true)
    × (order.valid ≡ true)
    × (order.certificate ≡ some (codes "c" ∷ []))
    × ((codes "c" ∷ []) ≢ [])
get_certificate-ok_example = get_certificate-ok cluster order (codes "k") (codes "c" ∷ []) obtained

abbrev backend : BackendId
backend = record { id = codes "b1" }

abbrev attributes : List (Text × Text)
attributes = (codes "name", codes "plane-b1") ∷ []

interrupts_iff_example :
    interrupts (some (record { action = some (codes "die"); attributes = some attributes }))
      ≡ some backend
    ↔ ((event_type (codes "die") ≡ some die)
        × (Assoc.get Text_discrete (codes "name") attributes ≡ some (to_resource_name backend)))
interrupts_iff_example = interrupts_iff (codes "die") attributes backend
