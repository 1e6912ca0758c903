-- ===== src/Core/NatsConnection.antt =====
-- core/src/nats_connection.rs. `parse_url` is `Url::parse`, `parse_host` is `ServerAddr::from_str`,
-- and `connect n` is what the n-th attempt to connect with those options yields. The client that is
-- made of a connection is the connection.
use spawner.Prelude.{
  ℕ, ◌≡◌, ◌≢◌, refl, sym, ap, ◌∙◌, List, [], ◌∷◌, Option, none, some, ite, ◌↔◌, arith, ite_cases,
}
use spawner.Prelude.Result.{Result, ok, err, ◌>>=◌, Outcome, panicked, returned}
use spawner.Prelude.Text.{Text, codes, Text_discrete}
use spawner.Core.Retry.{do_with_retry}

pub data NatsAuthorization : Type 0 where
  token : Text → NatsAuthorization
  user_and_password : Text → Text → NatsAuthorization

pub record NatsConnectionSpec : Type 0 where
  pub auth : Option NatsAuthorization
  pub hosts : List Text

-- What is read of a parsed `Url`.
pub record Url : Type 0 where
  pub username : Text
  pub password : Option Text
  pub host_str : Option Text

abbrev auth_from : Text → Option Text → Option NatsAuthorization
auth_from username (some password) = some (user_and_password username password)
auth_from username none = ite (Text_discrete username []) none (some (token username))

abbrev auth_of : Url → Option NatsAuthorization
auth_of url = auth_from url.username url.password

abbrev host_of : Option Text → Text
host_of (some host) = host
host_of none = codes "localhost"

unfoldable pub from_url : (Text → Result Text Url) → Text → Result Text NatsConnectionSpec
unfolding Text_discrete
from_url parse_url url = do
  parsed ← parse_url url
  ok (record { auth = auth_of parsed; hosts = host_of parsed.host_str ∷ [] })

pub data ConnectOptions : Type 0 where
  default : ConnectOptions
  with_token : Text → ConnectOptions

abbrev options_of : Option NatsAuthorization → Option ConnectOptions
options_of none = some default
options_of (some (token t)) = some (with_token t)
options_of (some (user_and_password u p)) = none

-- `none` is the panic of `todo!`.
unfoldable pub connect_options : NatsConnectionSpec → Option ConnectOptions
connect_options spec = options_of spec.auth

-- `collect` into a `Result`.
unfoldable pub server_addrs :
    {A : Type 0} → (Text → Result Text A) → List Text → Result Text (List A)
server_addrs parse_host [] = ok []
server_addrs parse_host (h ∷ hosts) = do
  a ← parse_host h
  rest ← server_addrs parse_host hosts
  ok (a ∷ rest)

module _ {A C : Type 0} (parse_host : Text → Result Text A) where
  -- The options are made for each attempt: the first panics, or none does.
  abbrev attempt :
      (List A → ConnectOptions → Outcome Text C)
      → Option ConnectOptions
      → Result Text (List A)
      → Outcome Text C
  attempt k o (err e) = returned (err e)
  attempt k none (ok addrs) = panicked
  attempt k (some options) (ok addrs) = k addrs options

  abbrev result_of : Option (Result Text C × ℕ) → Result Text C
  result_of none = err (codes "still retrying")
  result_of (some (r, calls)) = r

  unfoldable pub connect_with_retry :
      (ℕ → List A → ConnectOptions → Result Text C) → NatsConnectionSpec → Outcome Text C
  connect_with_retry connect spec =
      attempt
        (λ addrs options. returned (result_of (do_with_retry (λ n. connect n addrs options) 30)))
        (connect_options spec) (server_addrs parse_host spec.hosts)

  unfoldable pub connect_once :
      (List A → ConnectOptions → Result Text C) → NatsConnectionSpec → Outcome Text C
  connect_once connect spec =
      attempt (λ addrs options. returned (connect addrs options)) (connect_options spec)
        (server_addrs parse_host spec.hosts)

  attempt-panicked :
      (k : List A → ConnectOptions → Result Text C) (o : Option ConnectOptions) (addrs : List A)
      → attempt (λ addrs options. returned (k addrs options)) o (ok addrs) ≡ panicked ↔ (o ≡ none)
  attempt-panicked k none addrs = (λ _. refl, λ _. refl)
  attempt-panicked k (some options) addrs = (λ q. ground arith, λ q. ground arith)

abbrev spec_auth : Result Text NatsConnectionSpec → Option NatsAuthorization
spec_auth (ok spec) = spec.auth
spec_auth (err e) = none

from_url-ok :
    (parse_url : Text → Result Text Url) (text : Text) (url : Url)
    → parse_url text ≡ ok url
    → from_url parse_url text
      ≡ ok (record { auth = auth_of url; hosts = host_of url.host_str ∷ [] })
unfolding from_url
from_url-ok parse_url text url e = rw (e) refl

options-auth_from :
    (username : Text) (password : Option Text)
    → options_of (auth_from username password) ≡ none ↔ ((p : Text) × (password ≡ some p))
options-auth_from username (some p) = (λ _. (p, refl), λ _. refl)
options-auth_from username none = (
  λ q. absurd (
      ite_cases (λ o. options_of o ≢ none) (Text_discrete username []) none (some (token username))
        (λ _ e. ground arith) (λ _ e. ground arith) q),
  λ q. ground (arith, q.1),
)

-- For a URL that can be parsed and hosts that can, connecting panics, before any attempt, exactly
-- if the URL holds a password: what `from_url` accepts, `connect_options` does not support.
pub connect_with_retry_panics :
    {A C : Type 0} (parse_url : Text → Result Text Url) (parse_host : Text → Result Text A)
    (connect : ℕ → List A → ConnectOptions → Result Text C) (text : Text) (url : Url)
    (spec : NatsConnectionSpec) (addrs : List A)
    → parse_url text ≡ ok url
    → from_url parse_url text ≡ ok spec
    → server_addrs parse_host spec.hosts ≡ ok addrs
    → (connect_with_retry parse_host connect spec ≡ panicked)
      ↔ ((p : Text) × (url.password ≡ some p))
unfolding from_url connect_with_retry connect_options
connect_with_retry_panics parse_url parse_host connect text url spec addrs e f h =
    let q : spec.auth ≡ auth_of url = ap spec_auth (sym f ∙ from_url-ok parse_url text url e) in
    let (there, back) = options-auth_from url.username url.password in
    let (i, j) =
      attempt-panicked parse_host
        (λ addrs options. result_of parse_host (do_with_retry (λ n. connect n addrs options) 30))
        (options_of (auth_of url)) addrs in
    rw (h, q) (λ p. there (i p), λ p. j (back p))
