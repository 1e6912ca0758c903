-- ===== src/Drone/Cert/Watcher.antt =====
-- drone/src/proxy/certs.rs: the certificate that the proxy serves. `notify` delivers events, and each
-- is handled with what the files hold then.
pub mod Serving
use spawner.Prelude.{
  List, [], ◌∷◌, Option, none, some, Bool, true, false, ◌≡◌, refl, if◌then◌else◌, ite, ap, ◌∙◌,
}
use spawner.Prelude.Result.{ok, err, to_option}
use spawner.Prelude.Text.{Text, Text_discrete}
use spawner.Drone.Keys.{
  KeyCertPathPair, Files, CertifiedKey, load_certs, load_private_key, load_certified_key,
}

-- The receiver's value, and the two variables of the closure.
pub record CertRefresher : Type 0 where
  pub receiver : Option CertifiedKey
  pub private_key : Option Text
  pub certificate : Option (List Text)

-- Whether an event says that a file was closed after writing, and its paths.
pub record Event : Type 0 where
  pub close_write : Bool
  pub paths : List Text

-- `try_to_update_certs`, whose error is only logged.
unfoldable pub new : Files → KeyCertPathPair → CertRefresher
new files p = record {
  receiver = to_option (load_certified_key files p);
  private_key = none;
  certificate = none;
}

unfoldable pub member : Text → List Text → Bool
unfolding Text_discrete
member p [] = false
member p (q ∷ paths) = ite (Text_discrete q p) true (member p paths)

-- The key and the certificate that the closure holds after it has looked at an event, and whether it
-- goes on.
unfoldable pub load_key : Files → KeyCertPathPair → Event → CertRefresher → CertRefresher × Bool
unfolding member
load_key files p ev s =
    if member p.key_path ev.paths
    then (elim (load_private_key files p.key_path) [
      | ok key ↦ (record s { private_key = some key }, true)
      | err e ↦ (s, false)
    ])
    else (s, true)

unfoldable pub load_cert : Files → KeyCertPathPair → Event → CertRefresher → CertRefresher × Bool
unfolding member
load_cert files p ev s =
    if member p.cert_path ev.paths
    then (elim (load_certs files p.cert_path) [
      | ok cert ↦ (record s { certificate = some cert }, true)
      | err e ↦ (s, false)
    ])
    else (s, true)

abbrev pub certify : Files → Option Text → List Text → CertRefresher → CertRefresher
certify files none cert s = s
certify files (some key) cert s = record s { receiver = some (record { cert = cert; key = key }) }

abbrev pub publish : Files → Option Text → Option (List Text) → CertRefresher → CertRefresher
publish files (some key) (some cert) s = certify files (files.supported key) cert s
publish files _ _ s = s

unfoldable pub send : Files → CertRefresher → CertRefresher
send files s = publish files s.private_key s.certificate s

abbrev pub after_cert : Files → CertRefresher × Bool → CertRefresher
after_cert files (s, true) = send files s
after_cert files (s, false) = s

abbrev pub after_key : Files → KeyCertPathPair → Event → CertRefresher × Bool → CertRefresher
after_key files p ev (s, true) = after_cert files (load_cert files p ev s)
after_key files p ev (s, false) = s

unfoldable pub handle_event : Files → KeyCertPathPair → CertRefresher → Event → CertRefresher
handle_event files p s ev =
    if ev.close_write then after_key files p ev (load_key files p ev s) else s

-- `CertResolver::resolve`, for any greeting of a client.
unfoldable pub resolve : CertRefresher → Option CertifiedKey
resolve s = s.receiver

-- The callback over a sequence of events, each with what the files hold then.
unfoldable pub run : KeyCertPathPair → CertRefresher → List (Files × Event) → CertRefresher
run p s [] = s
run p s ((files, ev) ∷ events) = run p (handle_event files p s ev) events
