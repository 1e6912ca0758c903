-- ===== src/Drone/Cert/Watcher/Serving.antt =====
-- What the proxy serves while its files are written.
use spawner.Prelude.{List, Option, none, some, true, ◌≡◌, In, ◌⊎◌}
use spawner.Prelude.Result.{ok}
use spawner.Prelude.Text.{Text}
use spawner.Drone.Keys.{KeyCertPathPair, Files, CertifiedKey, load_certs, load_private_key}
use spawner.Drone.Cert.Watcher.{CertRefresher, Event, member}

module _ (p : KeyCertPathPair) (events : List (Files × Event)) where
  -- Read from a file when an event said that it was written.
  abbrev pub IsReadKey : Text → Type 0
  IsReadKey key =
      (files : Files) × (ev : Event) × In (files, ev) events
      × (ev.close_write ≡ true)
      × (member p.key_path ev.paths ≡ true)
      × (load_private_key files p.key_path ≡ ok key)

  abbrev pub IsReadCert : List Text → Type 0
  IsReadCert cert =
      (files : Files) × (ev : Event) × In (files, ev) events
      × (ev.close_write ≡ true)
      × (member p.cert_path ev.paths ≡ true)
      × (load_certs files p.cert_path ≡ ok cert)

  -- What is served is what was served at the start, or a certificate and the signer of a key that were
  -- both read since.
  abbrev pub IsServed : Option CertifiedKey → Option CertifiedKey → Type 0
  IsServed start served =
      (served ≡ start)
      ⊎ ((cert : List Text) × (key : Text) × (signer : Text) × (files : Files) × IsReadCert cert
          × IsReadKey key
          × (files.supported key ≡ some signer)
          × (served ≡ some (record { cert = cert; key = signer })))

  abbrev HasKey : Option Text → Type 0
  HasKey none = Unit
  HasKey (some key) = IsReadKey key

  abbrev HasCert : Option (List Text) → Type 0
  HasCert none = Unit
  HasCert (some cert) = IsReadCert cert

  record Inv (start : Option CertifiedKey) (s : CertRefresher) : Type 0 where
    key : HasKey s.private_key
    cert : HasCert s.certificate
    served : IsServed start s.receiver
