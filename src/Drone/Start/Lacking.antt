-- ===== src/Drone/Start/Lacking.antt =====
-- The configurations that a drone process cannot start with.
use spawner.Prelude.{Option, Bool, not, ◌&&◌, ◌||◌}
use mathlib.Core.Option as Opt
use spawner.Prelude.Result.{Result, ok, Outcome, returned, then_outcome}
use spawner.Prelude.Text.{Text, is_some}
use spawner.Types.{DroneId}
use spawner.Drone.Config.{DroneConfig, AcmeConfiguration, AgentConfig}
use spawner.Drone.Keys.{KeyCertPathPair}
use spawner.Drone.Start.{CertOptions, AgentOptions, DronePlan, plan_cert, plan_agent}

-- A part is configured without what it needs: certificates without their paths or NATS, or the agent
-- without NATS.
abbrev pub lacks : DroneConfig → Bool
lacks config =
    (is_some config.acme && (not (is_some config.cert) || not (is_some config.nats)))
    || (is_some config.agent && not (is_some config.nats))

abbrev lacks_with : DroneConfig → Bool → Bool
lacks_with config nats =
    (is_some config.acme && (not (is_some config.cert) || not nats))
    || (is_some config.agent && not nats)

module _ {C D : Type 0} (domain : Text) (id : DroneId) (db : D)
    (plan : Option (CertOptions C) → Option (AgentOptions C D) → DronePlan C D) where
  planned :
      Option KeyCertPathPair
      → Option C
      → Option AcmeConfiguration
      → Option AgentConfig
      → Outcome Text (DronePlan C D)
  planned cert nats acme agent =
      then_outcome (plan_cert domain cert nats acme)
        (λ c. then_outcome (plan_agent domain id nats db agent) (λ a. returned (ok (plan c a))))
