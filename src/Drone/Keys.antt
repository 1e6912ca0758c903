-- ===== src/Drone/Keys.antt =====
-- drone/src/keys.rs. `parent` is `Path::parent`, and the files are read by the functions of `Files`.
use spawner.Prelude.{List, [], ◌∷◌, Option, none, some, ite, ◌≡◌, refl, if_pos}
use spawner.Prelude.Result.{Result, ok, err, ◌>>=◌, ok_or}
use spawner.Prelude.Text.{Text, Text_discrete}

pub record KeyCertPathPair : Type 0 where
  pub key_path : Text
  pub cert_path : Text

pub data KeyError : Type 0 where
  not_readable not_single not_supported : KeyError

-- `certs` and `keys` open a file and read what PEM says in it, `supported` is `any_supported_type`.
pub record Files : Type 0 where
  pub certs : Text → Option (List Text)
  pub keys : Text → Option (List Text)
  pub supported : Text → Option Text

pub record CertifiedKey : Type 0 where
  pub cert : List Text
  pub key : Text

unfoldable pub load_certs : Files → Text → Result KeyError (List Text)
load_certs files filename = ok_or (files.certs filename) not_readable

abbrev pub single : List Text → Result KeyError Text
single (key ∷ []) = ok key
single _ = err not_single

unfoldable pub load_private_key : Files → Text → Result KeyError Text
load_private_key files filename = do keys ← ok_or (files.keys filename) not_readable; single keys

unfoldable pub load_certified_key : Files → KeyCertPathPair → Result KeyError CertifiedKey
unfolding load_certs load_private_key
load_certified_key files p = do
  certificate ← load_certs files p.cert_path
  private_key ← load_private_key files p.key_path
  key ← ok_or (files.supported private_key) not_supported
  ok (record { cert = certificate; key = key })

-- `none` is the panic at the root of the file system.
unfoldable pub parent_paths : (Text → Option Text) → KeyCertPathPair → Option (List Text)
unfolding Text_discrete
parent_paths parent p = elim (parent p.key_path) [
  | none ↦ none
  | some key_parent_dir ↦ elim (parent p.key_path) [
    | none ↦ none
    | some certificate_parent_dir ↦ some (
        ite (Text_discrete key_parent_dir certificate_parent_dir) (key_parent_dir ∷ [])
          (key_parent_dir ∷ certificate_parent_dir ∷ []))
  ]
]

-- The directories to watch are one at most, that of the key, whatever the path of the certificate is.
pub parent_paths_key_only :
    (parent : Text → Option Text) (p : KeyCertPathPair) (dir : Text)
    → parent p.key_path ≡ some dir
    → parent_paths parent p ≡ some (dir ∷ [])
unfolding parent_paths
parent_paths_key_only parent p dir e =
    rw (parent_paths, e, e, if_pos (Text_discrete dir dir) refl) refl
