-- ===== src/Drone/Proxy/Server.antt =====
-- drone/src/proxy/mod.rs and service.rs: the server that the proxy runs, and the service that it makes
-- for a connection; that `Server::bind` panics where the port is taken is left out. The database and the tracker are shared by all services.
use spawner.Prelude.{Option, none, some}
use spawner.Prelude.Result.{Result, ok, err}
use spawner.Prelude.Text.{Text, codes, context}
use spawner.Drone.Keys.{KeyCertPathPair}
use spawner.Drone.Proxy.Tls.{TlsStream}

-- `D` is the database's handle, `T` the tracker's, `C` the HTTP client's.
pub record MakeProxyService (D T C : Type 0) : Type 0 where
  pub db : D
  pub client : C
  pub cluster : Text
  pub connection_tracker : T

pub record ProxyService (D T C : Type 0) : Type 0 where
  pub db : D
  pub client : C
  pub cluster : Text
  pub connection_tracker : T
  pub remote_ip : Text

-- What the server runs on: a certificate that is watched, or none.
pub data Served : Type 0 where
  with_tls : KeyCertPathPair → Served
  without_tls : Served

module _ {D T C : Type 0} where
  unfoldable pub new : D → Text → T → C → MakeProxyService D T C
  new db cluster tracker client = record {
    db = db;
    client = client;
    cluster = cluster;
    connection_tracker = tracker;
  }

  unfoldable pub call : MakeProxyService D T C → Text → ProxyService D T C
  call m remote_ip = record {
    db = m.db;
    client = m.client;
    cluster = m.cluster;
    connection_tracker = m.connection_tracker;
    remote_ip = remote_ip;
  }

  unfoldable pub call_tls :
      {H S : Type 0} → MakeProxyService D T C → TlsStream H S → ProxyService D T C
  call_tls m stream = call m stream.remote_ip

-- The server ends with an error: `refresher`, `bound` and `ended` are how building the refresher,
-- binding the port for HTTPS, and the server itself end.
abbrev after_server : Result Text Unit → Text
after_server (ok u) = codes "Server should not have terminated, but did."
after_server (err e) = e

abbrev after_bind : Result Text Unit → Result Text Unit → Text
after_bind (err e) ended = e
after_bind (ok u) ended = after_server (context (codes "Error from TLS proxy.") ended)

abbrev after_refresher : Result Text Unit → Result Text Unit → Result Text Unit → Text
after_refresher (err e) bound ended = e
after_refresher (ok u) bound ended =
    after_bind (context (codes "Error binding port for HTTPS.") bound) ended

unfoldable pub run_server :
    Option KeyCertPathPair
    → (KeyCertPathPair → Result Text Unit)
    → Result Text Unit
    → (Served → Result Text Unit)
    → Text
run_server (some key_pair) refresher bound ended =
    after_refresher (context (codes "Error building cert refresher.") (refresher key_pair)) bound
      (ended (with_tls key_pair))
run_server none refresher bound ended =
    after_server (context (codes "Error from non-TLS proxy.") (ended without_tls))
