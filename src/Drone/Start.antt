-- ===== src/Drone/Start.antt =====
-- drone/src/plan.rs and drone/src/run.rs: what a drone process runs, by its configuration. An open
-- database and a connected client are what `open_db` and `connect` yield.
pub mod Lacking
use spawner.Prelude.{
  ℕ, ◌≡◌, ◌≢◌, refl, ap, List, [], ◌∷◌, ◌++◌, Option, none, some, ◌⊎◌, inl, inr, ◌↔◌, arith,
}
use spawner.Prelude.Result.{Result, ok, err, Outcome, panicked, returned, then_outcome, expect}
use spawner.Prelude.Text.{Text, codes}
use spawner.Types.{DroneId, ClusterName}
use spawner.Core.NatsConnection.{NatsConnectionSpec}
use spawner.Drone.Config.{
  DroneConfig, AcmeConfiguration, ProxyConfig, AgentConfig, DockerConfig, IpSource,
}
use spawner.Drone.Keys.{KeyCertPathPair}
use mathlib.Core.Option as Opt

pub record CertOptions (C : Type 0) : Type 0 where
  pub acme_server_url : Text
  pub email : Text
  pub cluster_domain : Text
  pub key_paths : KeyCertPathPair
  pub nats : C
  pub acme_eab_keypair : Option (Text × Text)

pub record ProxyOptions (D : Type 0) : Type 0 where
  pub cluster_domain : Text
  pub db : D
  pub bind_ip : Text
  pub bind_port : ℕ
  pub key_pair : Option KeyCertPathPair

pub record AgentOptions (C D : Type 0) : Type 0 where
  pub cluster_domain : ClusterName
  pub drone_id : DroneId
  pub db : D
  pub docker_options : DockerConfig
  pub nats : C
  pub ip : IpSource

pub record DronePlan (C D : Type 0) : Type 0 where
  pub proxy_options : Option (ProxyOptions D)
  pub agent_options : Option (AgentOptions C D)
  pub cert_options : Option (CertOptions C)
  pub nats : Option C
  pub drone_id : DroneId

unfoldable pub plan_nats :
    {C : Type 0}
    → (NatsConnectionSpec → Outcome Text C)
    → Option NatsConnectionSpec
    → Outcome Text (Option C)
plan_nats connect none = returned (ok none)
plan_nats connect (some spec) = then_outcome (connect spec) (λ c. returned (ok (some c)))

unfoldable pub plan_cert :
    {C : Type 0}
    → Text
    → Option KeyCertPathPair
    → Option C
    → Option AcmeConfiguration
    → Outcome Text (Option (CertOptions C))
plan_cert domain cert nats none = returned (ok none)
plan_cert domain cert nats (some acme) = then_outcome (expect cert) (λ key_paths.
    then_outcome (expect nats) (λ c. returned (
      ok (
        some (record {
          acme_server_url = acme.server;
          email = acme.admin_email;
          cluster_domain = domain;
          key_paths = key_paths;
          nats = c;
          acme_eab_keypair = acme.eab;
        })))))

unfoldable pub plan_proxy :
    {D : Type 0} → Text → Option KeyCertPathPair → D → Option ProxyConfig → Option (ProxyOptions D)
plan_proxy domain cert db none = none
plan_proxy domain cert db (some proxy) = some (record {
  cluster_domain = domain;
  db = db;
  bind_ip = proxy.bind_ip;
  bind_port = proxy.https_port;
  key_pair = cert;
})

module _ {C D : Type 0} where
  unfoldable pub plan_agent :
      Text → DroneId → Option C → D → Option AgentConfig → Outcome Text (Option (AgentOptions C D))
  plan_agent domain id nats db none = returned (ok none)
  plan_agent domain id nats db (some agent) = then_outcome (expect nats) (λ c. returned (
      ok (
        some (record {
          cluster_domain = record { hostname = domain };
          drone_id = id;
          db = db;
          docker_options = agent.docker;
          nats = c;
          ip = agent.ip;
        }))))

  -- `random` is the identifier that `DroneId::new_random` makes.
  unfoldable pub from_drone_config :
      (NatsConnectionSpec → Outcome Text C)
      → (Text → Result Text D)
      → DroneId
      → DroneConfig
      → Outcome Text (DronePlan C D)
  from_drone_config connect open_db random config =
      let id = Opt.get_or config.drone_id random in
      then_outcome (plan_nats connect config.nats) (λ nats.
        then_outcome (returned (open_db config.db_path)) (λ db.
          then_outcome (plan_cert config.cluster_domain config.cert nats config.acme) (λ cert.
            then_outcome (plan_agent config.cluster_domain id nats db config.agent) (λ agent.
              returned (
                ok (record {
                  proxy_options = plan_proxy config.cluster_domain config.cert db config.proxy;
                  agent_options = agent;
                  cert_options = cert;
                  nats = nats;
                  drone_id = id;
                }))))))

-- The loops of a drone process.
pub data Loop : Type 0 where
  refresh_loop serve run_agent : Loop

pub data Never : Type 0 where

abbrev if_some : {A : Type 0} → Option A → Loop → List Loop
if_some none l = []
if_some (some a) l = l ∷ []

-- `refreshed` is what the retries of the first refresh return, if there are options for it.
abbrev first_refresh :
    {C : Type 0} → (CertOptions C → Result Text Unit) → Option (CertOptions C) → Result Text Unit
first_refresh refreshed none = ok tt
first_refresh refreshed (some options) = refreshed options

-- `try_join_all` ends with the error of a loop, `failed`, unless there is none.
abbrev join : (List Loop → Text) → List Loop → Text
join failed [] = codes "No event loops selected."
join failed (l ∷ ls) = failed (l ∷ ls)

module _ {C D : Type 0} where
  unfoldable pub loops : DronePlan C D → List Loop
  loops plan =
      if_some plan.cert_options refresh_loop
      ++ (if_some plan.proxy_options serve ++ if_some plan.agent_options run_agent)

  abbrev run_plan :
      (CertOptions C → Result Text Unit) → (List Loop → Text) → DronePlan C D → Outcome Text Never
  run_plan refreshed failed plan =
      then_outcome (returned (first_refresh refreshed plan.cert_options))
        (λ _. returned (err (join failed (loops plan))))

  -- `configured` is what `init_cli` yields, `traced` what `TracingHandle::init` does. The handle is
  -- new, so that NATS is attached to it without an error.
  unfoldable pub drone_main :
      Result Text DroneConfig
      → (DroneId → Result Text Unit)
      → (NatsConnectionSpec → Outcome Text C)
      → (Text → Result Text D)
      → DroneId
      → (CertOptions C → Result Text Unit)
      → (List Loop → Text)
      → Outcome Text Never
  drone_main configured traced connect open_db random refreshed failed =
      then_outcome (returned configured) (λ config.
        let id = Opt.get_or config.drone_id random in
        then_outcome (returned (traced id)) (λ _.
          then_outcome
            (from_drone_config connect open_db random (record config { drone_id = some id }))
            (run_plan refreshed failed)))
