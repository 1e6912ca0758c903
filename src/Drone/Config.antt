-- ===== src/Drone/Config.antt =====
-- drone/src/config.rs and drone/src/ip.rs: the configuration of a drone process. Addresses and paths
-- are texts.
use spawner.Prelude.{ℕ, Option}
use spawner.Prelude.Result.{Result, ok, err}
use spawner.Prelude.Text.{Text, codes}
use spawner.Types.{DroneId}
use spawner.Core.NatsConnection.{NatsConnectionSpec}
use spawner.Drone.Keys.{KeyCertPathPair}

pub data DockerConnection : Type 0 where
  socket http : Text → DockerConnection

unfoldable pub default_connection : DockerConnection
default_connection = socket (codes "/var/run/docker.sock")

pub record DockerConfig : Type 0 where
  pub runtime : Option Text
  pub connection : DockerConnection
  pub network : Option Text

pub data IpSource : Type 0 where
  literal api : Text → IpSource

-- `get` is what a GET request to the URL yields as text, `parse_ip` the parser of addresses.
unfoldable pub get_ip :
    (Text → Result Text Text) → (Text → Result Text Text) → IpSource → Result Text Text
get_ip get parse_ip (literal ip) = ok ip
get_ip get parse_ip (api url) = elim (get url) [ err e ↦ err e | ok body ↦ parse_ip body ]

pub record AcmeConfiguration : Type 0 where
  pub server : Text
  pub admin_email : Text
  pub eab : Option (Text × Text)

pub record ProxyConfig : Type 0 where
  pub bind_ip : Text
  pub https_port : ℕ

unfoldable pub default_bind_address : Text
default_bind_address = codes "0.0.0.0"

unfoldable pub default_https_port : ℕ
default_https_port = 443

pub record AgentConfig : Type 0 where
  pub docker : DockerConfig
  pub ip : IpSource

pub record DroneConfig : Type 0 where
  pub drone_id : Option DroneId
  pub db_path : Text
  pub cluster_domain : Text
  pub nats : Option NatsConnectionSpec
  pub cert : Option KeyCertPathPair
  pub acme : Option AcmeConfiguration
  pub agent : Option AgentConfig
  pub proxy : Option ProxyConfig

unfoldable pub default_db_path : Text
default_db_path = codes "drone.sqlite3"
