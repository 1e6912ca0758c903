-- ===== src/Drone/Proxy/Service/Forwarding.antt =====
-- Where the proxy sends requests.
use spawner.Prelude.{
  [], ◌∷◌, ◌++◌, none, some, Bool, true, false, ◌≡◌, ◌≢◌, refl, In, arith, Option-cases, Bool-cases,
  inl, inr, ◌∙◌, ap,
}
use spawner.Prelude.Result.{ok, Result-cases}
use spawner.Prelude.Text.{Text, codes, strip_suffix}
use spawner.Prelude.Text.Laws.{
  strip_suffix-append, strip_suffix_sound, split_once_at, split_once-none,
}
use spawner.Drone.Database.{DroneDatabase, get_proxy_route}
use spawner.Drone.Proxy.Tracker.{ConnectionTracker, track_request}
use spawner.Drone.Proxy.Service.{
  Http, Uri, Request, Served, header, rewrite_uri, forward, handle_upgrade, handle_routed, handle,
  refuse, subdomain_of, strip_port, clone_request, is_upgrade,
}

abbrev pub host_of : Text → Text → Text
host_of sub cluster = sub ++ (codes "." ++ cluster)

strip_port-plain : (host : Text) → ¬ In b':' host → strip_port host ≡ host
unfolding strip_port
strip_port-plain host h = rw (strip_port, split_once-none b':' host h) refl

strip_port-port : (host port : Text) → ¬ In b':' host → strip_port (host ++ b':' ∷ port) ≡ host
unfolding strip_port
strip_port-port host port h = rw (strip_port, split_once_at b':' host port h) refl

pub strip_port-subdomain :
    (cluster host sub : Text)
    → strip_port host ≡ host_of sub cluster
    → subdomain_of cluster host ≡ some sub
unfolding subdomain_of
strip_port-subdomain cluster host sub h =
    ap (strip_suffix (codes "." ++ cluster)) h ∙ strip_suffix-append (codes "." ++ cluster) sub

-- A host `sub.cluster` without a colon, alone or followed by a port, names the subdomain `sub`.
pub subdomain_of-host :
    (cluster sub port : Text)
    → ¬ In b':' (host_of sub cluster)
    → (subdomain_of cluster (host_of sub cluster) ≡ some sub)
      × (subdomain_of cluster ((host_of sub cluster) ++ b':' ∷ port) ≡ some sub)
subdomain_of-host cluster sub port h = (
  strip_port-subdomain cluster _ sub (strip_port-plain (host_of sub cluster) h),
  strip_port-subdomain cluster _ sub (strip_port-port (host_of sub cluster) port h),
)

-- The builder of `http` keeps what it is given.
abbrev pub KeepsParts : Http → Type 0
KeepsParts h = (r out : Request) → h.build_request r ≡ some out → out ≡ r

-- A request that goes to the address of the route of the subdomain that its host names, and to
-- nothing else changed but the body.
pub record IsRouted (h : Http) (db : DroneDatabase) (cluster : Text) (tracker : ConnectionTracker)
    (req out : Request) (served : Served) : Type 0 where
  pub subdomain : Text
  pub address : Text
  pub authority : Text
  pub bytes : Text
  pub host : Text
  pub header : header (codes "host") req.headers ≡ some bytes
  pub decodes : h.from_utf8 bytes ≡ some host
  pub names : strip_port host ≡ host_of subdomain cluster
  pub route : get_proxy_route db subdomain ≡ some address
  pub parses : h.authority address ≡ some authority
  pub target :
      h.from_parts (record req.uri { authority = some authority; scheme = some (codes "http") })
      ≡ some out.uri
  pub method : out.method ≡ req.method
  pub headers : out.headers ≡ req.headers
  pub tracked : served.tracker ≡ track_request tracker subdomain

record SameParts (req out : Request) : Type 0 where
  uri : out.uri ≡ req.uri
  method : out.method ≡ req.method
  headers : out.headers ≡ req.headers

clone_request-SameParts :
    (h : Http)
    → KeepsParts h
    → (req out : Request) → clone_request h req ≡ ok out
    → SameParts req out
unfolding clone_request
clone_request-SameParts h k req out e =
    elim (Option-cases (h.build_request (record req { body = [] }))) [
      | inl n ↦ absurd (ground arith)
      | inr (r, n) ↦
          let same : out ≡ record req { body = [] } = ground (arith, k _ r n) in
          record {
            uri = ap (λ x. x.uri) same;
            method = ap (λ x. x.method) same;
            headers = ap (λ x. x.headers) same;
          }
    ]

handle_upgrade-SameParts :
    (h : Http)
    → KeepsParts h
    → (t : ConnectionTracker) (req out : Request) → In out (handle_upgrade h t req).sent
    → SameParts req out × ((handle_upgrade h t req).tracker ≡ t)
unfolding handle_upgrade
handle_upgrade-SameParts h k t req out i = elim (Result-cases (clone_request h req)) [
  | inl (c, e) ↦ elim (Option-cases (h.request c)) [
    | inl f ↦ elim (rw (handle_upgrade, e, f) at i) [
      | inl q ↦ (clone_request-SameParts h k req out (rw q e), rw (handle_upgrade, e, f) refl)
      | inr q ↦ elim q [ ]
    ]
    | inr (r, f) ↦ elim (rw (handle_upgrade, e, f) at i) [
      | inl q ↦ (clone_request-SameParts h k req out (rw q e), rw (handle_upgrade, e, f) refl)
      | inr q ↦ elim q [ ]
    ]
  ]
  | inr (x, e) ↦ elim (rw (handle_upgrade, e) at i) [ ]
]

forward-SameParts :
    (h : Http)
    → KeepsParts h
    → (t : ConnectionTracker) (req out : Request) → In out (forward h t req).sent
    → SameParts req out × ((forward h t req).tracker ≡ t)
unfolding forward
forward-SameParts h k t req out i = elim (Bool-cases (is_upgrade h req)) [
  | inl e ↦ rw (forward, e) (handle_upgrade-SameParts h k t req out (rw (forward, e) at i))
  | inr e ↦ elim (rw (forward, e) at i) [
    | inl q ↦
        rw (forward, e)
          (
            record {
              uri = ap (λ x. x.uri) q;
              method = ap (λ x. x.method) q;
              headers = ap (λ x. x.headers) q;
            },
            refl,
          )
    | inr q ↦ elim q [ ]
  ]
]

rewrite_uri-cases :
    (h : Http) (addr : Text) (uri uri' : Uri)
    → rewrite_uri h addr uri ≡ ok uri'
    → (a : Text) × (h.authority addr ≡ some a)
      × (h.from_parts (record uri { authority = some a; scheme = some (codes "http") }) ≡ some uri')
unfolding rewrite_uri
rewrite_uri-cases h addr uri uri' e = elim (Option-cases (h.authority addr)) [
  | inl f ↦ absurd (ground arith)
  | inr (a, f) ↦
      elim (Option-cases
        (h.from_parts (record uri { authority = some a; scheme = some (codes "http") }))) [
          | inl g ↦ absurd (ground arith)
          | inr (u, g) ↦ (a, f, ground arith)
        ]
]

handle_routed-IsRouted :
    (h : Http) (db : DroneDatabase) (cluster : Text) (tracker : ConnectionTracker) (reads : Bool)
    (req out : Request) (sub bytes host : Text)
    → KeepsParts h
    → header (codes "host") req.headers ≡ some bytes
    → h.from_utf8 bytes ≡ some host
    → strip_port host ≡ host_of sub cluster
    → In out (handle_routed h db tracker reads req sub).sent
    → IsRouted h db cluster tracker req out (handle_routed h db tracker reads req sub)
unfolding handle_routed refuse
handle_routed-IsRouted h db cluster tracker false req out sub bytes host k b u n i = elim i [ ]
handle_routed-IsRouted h db cluster tracker true req out sub bytes host k b u n i =
    elim (Option-cases (get_proxy_route db sub)) [
      | inl e ↦ elim (rw (handle_routed, e) at i) [ ]
      | inr (addr, e) ↦ elim (Result-cases (rewrite_uri h addr req.uri)) [
        | inr (x, f) ↦ elim (rw (handle_routed, e, f) at i) [ ]
        | inl (uri, f) ↦
            let (p, q) =
              forward-SameParts h k (track_request tracker sub) (record req { uri = uri }) out
                (rw (handle_routed, e, f) at i) in
            let (a, parses, target) = rewrite_uri-cases h addr req.uri uri f in
            rw (handle_routed, e, f)
              (record {
                subdomain = sub;
                address = addr;
                authority = a;
                bytes = bytes;
                host = host;
                header = b;
                decodes = u;
                names = n;
                route = e;
                parses = parses;
                target = rw p.uri target;
                method = p.method;
                headers = p.headers;
                tracked = q;
              })
      ]
    ]

subdomain_of_sound :
    (cluster host sub : Text)
    → subdomain_of cluster host ≡ some sub
    → strip_port host ≡ host_of sub cluster
unfolding subdomain_of
subdomain_of_sound cluster host sub e =
    strip_suffix_sound (codes "." ++ cluster) (strip_port host) e

-- Where the builder of requests keeps what it is given: whatever the proxy sends upstream, it
-- sends to the address of the route of the subdomain that the request's Host header names, with the
-- method and the headers of the request, after it has tracked the request.
pub handle-IsRouted :
    (h : Http) (db : DroneDatabase) (cluster : Text) (tracker : ConnectionTracker) (reads : Bool)
    (req out : Request)
    → KeepsParts h
    → In out (handle h db cluster tracker reads req).sent
    → IsRouted h db cluster tracker req out (handle h db cluster tracker reads req)
unfolding handle handle_routed
handle-IsRouted h db cluster tracker reads req out k i =
    elim (Option-cases (header (codes "host") req.headers)) [
      | inl e ↦ elim (rw (handle, e) at i) [ ]
      | inr (bytes, e) ↦ elim (Option-cases (h.from_utf8 bytes)) [
        | inl f ↦ elim (rw (handle, e, f) at i) [ ]
        | inr (host, f) ↦ elim (Option-cases (subdomain_of cluster host)) [
          | inl g ↦ elim (rw (handle, e, f, g) at i) [ ]
          | inr (sub, g) ↦
              rw (handle, e, f, g)
                (handle_routed-IsRouted h db cluster tracker reads req out sub bytes host k e f
                  (subdomain_of_sound cluster host sub g) (rw (handle, e, f, g) at i))
        ]
      ]
    ]

-- With a database that can be read, a request whose host, if it has one, is UTF-8 and names no
-- subdomain with a route is answered as not found: nothing is sent and nothing is tracked, whether
-- the host is missing, or of another cluster, or the backend is not ready.
pub handle_refuses :
    (h : Http) (db : DroneDatabase) (cluster : Text) (tracker : ConnectionTracker) (req : Request)
    → ((bytes host sub addr : Text)
        → header (codes "host") req.headers ≡ some bytes
        → h.from_utf8 bytes ≡ some host
        → strip_port host ≡ host_of sub cluster
        → get_proxy_route db sub ≢ some addr)
    → ((bytes : Text) → header (codes "host") req.headers ≡ some bytes → h.from_utf8 bytes ≢ none)
    → handle h db cluster tracker true req ≡ refuse h tracker
unfolding handle handle_routed
handle_refuses h db cluster tracker req n u =
    elim (Option-cases (header (codes "host") req.headers)) [
      | inl e ↦ rw (handle, e) refl
      | inr (bytes, e) ↦ elim (Option-cases (h.from_utf8 bytes)) [
        | inl f ↦ absurd (u bytes e f)
        | inr (host, f) ↦ elim (Option-cases (subdomain_of cluster host)) [
          | inl g ↦ rw (handle, e, f, g) refl
          | inr (sub, g) ↦ elim (Option-cases (get_proxy_route db sub)) [
            | inl r ↦ rw (handle, e, f, g, handle_routed, r) refl
            | inr (addr, r) ↦
                absurd (n bytes host sub addr e f (subdomain_of_sound cluster host sub g) r)
          ]
        ]
      ]
    ]
