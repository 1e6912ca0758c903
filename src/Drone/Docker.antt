-- ===== src/Drone/Docker.antt =====
-- drone/src/agent/engines/docker: the engine that runs backends in Docker. What Docker answers, through
-- `bollard`, is an argument.
pub mod Events
pub mod Streams
use spawner.Prelude.{
  ℕ, ◌+◌, ◌*◌, ◌/◌, ◌≤◌, min, List, [], ◌∷◌, ◌++◌, map, Option, none, some, Bool, true, false, ◌≡◌,
  ◌≢◌, refl, ite, ℕ_discrete, if◌then◌else◌, length, ◌↔◌, inl, inr, arith, Option-cases, Bool-cases,
  ◌⊎◌,
}
use mathlib.Core.Option as Opt
use spawner.Prelude.Result.{Result, ok, err, ◌>>=◌, ◌>>◌, ok_or, Result-cases}
use spawner.Prelude.Text.{Text, codes}
use spawner.Types.{BackendId, to_resource_name}
use spawner.Messages.Agent.{ResourceLimits, SpawnRequest}
use spawner.Drone.Executor.{EngineBackendStatus, unknown, running, exited, failed, terminated}

-- An error of Docker's, with the status code if it is a response.
pub data DockerError : Type 0 where
  response : ℕ → DockerError
  other : DockerError

pub data InspectError : Type 0 where
  docker : DockerError → InspectError
  no_state no_running no_network_settings no_networks not_one_network no_ip not_parsed :
      InspectError

unfoldable pub allow_not_found : {A : Type 0} → Result DockerError A → Result DockerError (Unit {0})
allow_not_found (ok v) = ok tt
allow_not_found (err (response code)) = ite (ℕ_discrete code 404) (ok tt) (err (response code))
allow_not_found (err other) = err other

-- The calls that are made are the second component: whether the container is asked to be removed.
unfoldable pub stop_container :
    Result DockerError (Unit {0})
    → Result DockerError (Unit {0})
    → Result DockerError (Unit {0}) × Bool
unfolding allow_not_found
stop_container stopped removed = elim (allow_not_found stopped) [
  | err e ↦ (err e, false)
  | ok u ↦ (allow_not_found removed, true)
]

abbrev pub container_port : ℕ
container_port = 8080

pub record ContainerState : Type 0 where
  pub running : Option Bool
  pub exit_code : Option ℕ

pub record NetworkSettings : Type 0 where
  pub ip_address : Option Text
  pub networks : Option (List (Option Text))

pub record Container : Type 0 where
  pub state : Option ContainerState
  pub network_settings : Option NetworkSettings

abbrev pub network_ip :
    (Text → Option Text) → Option (List (Option Text)) → Result InspectError Text
network_ip parse none = err no_networks
network_ip parse (some (none ∷ [])) = err no_ip
network_ip parse (some (some ip ∷ [])) = ok_or (parse ip) not_parsed
network_ip parse (some _) = err not_one_network

-- `parse` reads an address. The address of the settings counts unless it is empty.
abbrev pub settings_ip :
    (Text → Option Text) → Option Text → Option (List (Option Text)) → Result InspectError Text
settings_ip parse none networks = network_ip parse networks
settings_ip parse (some []) networks = network_ip parse networks
settings_ip parse (some (c ∷ ip)) networks = ok_or (parse (c ∷ ip)) not_parsed

unfoldable pub get_ip_of_container : (Text → Option Text) → Container → Result InspectError Text
get_ip_of_container parse c = do
  network_settings ← ok_or c.network_settings no_network_settings
  settings_ip parse network_settings.ip_address network_settings.networks

-- `socket ip port` is the text of a `SocketAddr`.
abbrev pub status_of :
    (Text → Option Text)
    → (Text → ℕ → Text)
    → Container
    → Bool
    → Option ℕ
    → Result InspectError EngineBackendStatus
status_of parse socket c true exit_code =
    get_ip_of_container parse c >>= λ ip. ok (running (socket ip container_port))
status_of parse socket c false none = ok terminated
status_of parse socket c false (some code) = ite (ℕ_discrete code 0) (ok exited) (ok failed)

abbrev pub inspected :
    (Text → Option Text) → (Text → ℕ → Text) → Container → Result InspectError EngineBackendStatus
inspected parse socket c = do
  state ← ok_or c.state no_state
  is_running ← ok_or state.running no_running
  status_of parse socket c is_running state.exit_code

unfoldable pub backend_status :
    (Text → Option Text)
    → (Text → ℕ → Text)
    → Result DockerError Container
    → Result InspectError EngineBackendStatus
unfolding get_ip_of_container
backend_status parse socket (ok c) = inspected parse socket c
backend_status parse socket (err (response code)) =
    ite (ℕ_discrete code 404) (ok unknown) (err (docker (response code)))
backend_status parse socket (err other) = err (docker other)

-- Of whole seconds.
unfoldable pub as_minutes : ℕ → ℕ
as_minutes secs = secs / 60

pub record HostConfig : Type 0 where
  pub cpu_period : Option ℕ
  pub cpu_quota : Option ℕ
  pub ulimits : Option ℕ

abbrev pub nanos_per_micro : ℕ
nanos_per_micro = 1000

-- Of durations in nanoseconds, of which `max_nanos` is the longest.
abbrev pub quota_of : ℕ → Option ℕ → ℕ → ℕ
quota_of max_nanos none percent = min (100000000 * percent) max_nanos / 100 / nanos_per_micro
quota_of max_nanos (some cpu_period) percent =
    min (cpu_period * percent) max_nanos / 100 / nanos_per_micro

unfoldable pub host_config : ℕ → ResourceLimits → HostConfig
unfolding as_minutes
host_config max_nanos l = record {
  cpu_period = Opt.map (λ d. d / nanos_per_micro) l.cpu_period;
  cpu_quota = Opt.map (quota_of max_nanos l.cpu_period) l.cpu_period_percent;
  ulimits = Opt.map (λ d. as_minutes (d / 1000000000)) l.cpu_time_limit;
}

pub record Config : Type 0 where
  pub image : Text
  pub env : List Text
  pub labels : List (Text × Text)
  pub host_config : HostConfig

unfoldable pub container_config : ℕ → Text → Text → List (Text × Text) → ResourceLimits → Config
container_config max_nanos name image env limits = record {
  image = image;
  env = map (λ e. e.0 ++ codes "=" ++ e.1) env;
  labels = (codes "dev.plane.managed", codes "true") ∷ (codes "dev.plane.backend", name) ∷ [];
  host_config = host_config max_nanos limits;
}

pub data DockerCall : Type 0 where
  pulls : Text → DockerCall
  creates : Text → Config → DockerCall
  starts : Text → DockerCall

-- `created` is the identifier of the new container.
unfoldable pub run_container :
    Text
    → Config
    → Result DockerError Text
    → Result DockerError (Unit {0})
    → List DockerCall × Result DockerError (Unit {0})
run_container name config created started = elim created [
  | err e ↦ (creates name config ∷ [], err e)
  | ok id ↦ (creates name config ∷ starts id ∷ [], started)
]

-- `pulled` are the answers of the stream that pulling an image yields.
unfoldable pub pull_image : List (Result DockerError (Unit {0})) → Result DockerError (Unit {0})
pull_image [] = ok tt
pull_image (ok u ∷ rest) = pull_image rest
pull_image (err e ∷ rest) = err e

unfoldable pub load :
    ℕ
    → SpawnRequest
    → List (Result DockerError (Unit {0}))
    → Result DockerError Text
    → Result DockerError (Unit {0})
    → List DockerCall × Result DockerError (Unit {0})
unfolding run_container pull_image container_config
load max_nanos spawn pulled created started =
    let name = to_resource_name spawn.backend_id in
    let x = spawn.executable in
    let run =
      run_container name (container_config max_nanos name x.image x.env x.resource_limits) created
        started in
    elim (pull_image pulled) [
      | err e ↦ (pulls x.image ∷ [], err e)
      | ok u ↦ (pulls x.image ∷ run.0, run.1)
    ]
