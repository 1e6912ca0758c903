-- ===== src/Drone/Agent/Run.antt =====
-- drone/src/agent/mod.rs and engines/docker/mod.rs: how an agent starts: it connects to Docker, finds its
-- address, registers, and runs its loops until one of them ends.
use spawner.Prelude.{ℕ, ◌≤◌, ◌<◌, ◌≡◌, refl, ◌∷◌, Option, none, some, arith}
use spawner.Prelude.Result.{Result, ok, err}
use spawner.Prelude.Text.{Text, codes}
use spawner.Messages.Agent.{DroneConnectRequest}
use spawner.Messages.Streams.{Serde, typed}
use spawner.Messages.Subjects.{connect_subject}
use spawner.Core.Nats.{Bytes, NoReply, Server, TypedNats, publish, publish_message, send}
use spawner.Core.Retry.{do_with_retry, do_with_retry_finds, IsOk}
use spawner.Drone.Config.{DockerConfig, DockerConnection, socket, http}
use spawner.Drone.Start.{AgentOptions}

-- `K` is a connection of `bollard`.
pub record DockerInterface (K : Type 0) : Type 0 where
  pub docker : K
  pub runtime : Option Text
  pub network : Option Text

abbrev pub interface_of :
    {K : Type 0} → DockerConfig → Result Text K → Result Text (DockerInterface K)
interface_of config (err e) = err e
interface_of config (ok docker) =
    ok (record { docker = docker; runtime = config.runtime; network = config.network })

abbrev connected :
    {K : Type 0}
    → (Text → Result Text K)
    → (Text → Result Text K)
    → DockerConnection
    → Result Text K
connected with_unix with_http (socket path) = with_unix path
connected with_unix with_http (http url) = with_http url

unfoldable pub try_new :
    {K : Type 0}
    → (Text → Result Text K)
    → (Text → Result Text K)
    → DockerConfig
    → Result Text (DockerInterface K)
try_new with_unix with_http config =
    interface_of config (connected with_unix with_http config.connection)

abbrev select_loops :
    {K : Type 0}
    → (DockerInterface K → Text → TypedNats → TypedNats × Text)
    → DockerInterface K
    → Text
    → TypedNats × Result Text Unit
    → TypedNats × Text
select_loops select docker ip (s, err e) = (s, e)
select_loops select docker ip (s, ok u) = select docker ip s

abbrev pub connect_request : {D : Type 0} → AgentOptions TypedNats D → Text → DroneConnectRequest
connect_request options ip = record {
  drone_id = options.drone_id;
  cluster = options.cluster_domain;
  ip = ip;
}

-- `select` is what the loops do until the first of them ends, with its error.
module _ {K D : Type 0} (server : Server) (serde : Serde DroneConnectRequest NoReply)
    (select : DockerInterface K → Text → TypedNats → TypedNats × Text) where
  unfoldable pub register :
      AgentOptions TypedNats D
      → DockerInterface K
      → Option (Result Text Text × ℕ)
      → Option (TypedNats × Text)
  register options docker none = none
  register options docker (some (err e, n)) = some (options.nats, e)
  register options docker (some (ok ip, n)) = some (
      select_loops select docker ip (
        publish_message server (typed connect_subject serde) (connect_request options ip)
          options.nats))

  -- `docker` is what `try_new` yields, `get_ip n` the n-th attempt to find the address.
  unfoldable pub run_agent :
      Result Text (DockerInterface K)
      → (ℕ → Result Text Text)
      → AgentOptions TypedNats D
      → Option (TypedNats × Text)
  run_agent (err e) get_ip options = some (options.nats, e)
  run_agent (ok docker) get_ip options = register options docker (do_with_retry get_ip 10)

  -- Where Docker is reached, one of the first ten attempts finds an address, and the request is
  -- encoded and sent: the loops run with the address of the first attempt that succeeded, after that
  -- request alone.
  pub run_agent_registers :
      (docker : DockerInterface K) (get_ip : ℕ → Result Text Text)
      (options : AgentOptions TypedNats D) (n : ℕ) (ip : Text) (bytes : Bytes)
      → 1 ≤ n
      → n ≤ 10
      → ((m : ℕ) → 1 ≤ m → m < n → ¬ IsOk (get_ip m))
      → get_ip n ≡ ok ip
      → serde.to_vec (connect_request options ip) ≡ ok bytes
      → server options.nats.sent (publish (codes "drone.register") bytes) ≡ ok tt
      → run_agent (ok docker) get_ip options
        ≡ some (
            select docker ip (record {
              created = options.nats.created;
              sent = publish (codes "drone.register") bytes ∷ options.nats.sent;
            }))
  unfolding run_agent register publish_message send connect_subject
  run_agent_registers docker get_ip options n ip bytes i j failed e encoded answered =
      rw (do_with_retry_finds get_ip 10 n ip (omega arith) i j failed e, encoded, answered) refl
