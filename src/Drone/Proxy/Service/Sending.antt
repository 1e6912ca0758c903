-- ===== src/Drone/Proxy/Service/Sending.antt =====
-- Which requests the proxy sends on.
use spawner.Prelude.{some, ◌≡◌}
use mathlib.Core.Option as Opt
use spawner.Prelude.Text.{Text, codes}
use spawner.Drone.Database.{DroneDatabase, get_proxy_route}
use spawner.Drone.Proxy.Service.{Http, Uri, Request, header, strip_port}
use spawner.Drone.Proxy.Service.Forwarding.{host_of}

-- The Host header names a subdomain with a route, whose address makes a URI with the request's.
pub record IsRoutable (h : Http) (db : DroneDatabase) (cluster : Text) (req : Request)
    : Type 0 where
  pub bytes : Text
  pub host : Text
  pub subdomain : Text
  pub address : Text
  pub authority : Text
  pub uri : Uri
  pub has_header : header (codes "host") req.headers ≡ some bytes
  pub decodes : h.from_utf8 bytes ≡ some host
  pub names : strip_port host ≡ host_of subdomain cluster
  pub route : get_proxy_route db subdomain ≡ some address
  pub parses : h.authority address ≡ some authority
  pub target :
      h.from_parts (record req.uri { authority = some authority; scheme = some (codes "http") })
      ≡ some uri

abbrev pub Builds : Http → Type 0
Builds h = (r : Request) → h.build_request r ≡ some r
