-- ===== src/Drone/Agent/Ready.antt =====
-- drone/src/agent/mod.rs: the loop that advertises a drone, and the start of an agent. A round of the
-- loop is the agent at its time, and what the database yields for it.
use spawner.Prelude.{
  ℕ, ◌+◌, ◌*◌, ◌≤◌, ◌<◌, ◌≡◌, ◌≢◌, List, [], ◌∷◌, ◌++◌, Option, none, some, true, All, arith,
}
use spawner.Prelude.Result.{Result, ok, err}
use spawner.Prelude.Text.{Text}
use spawner.Types.{DroneId}
use spawner.Messages.Agent.{DroneStatusMessage}
use spawner.Messages.Streams.{Serde, status_stream}
use spawner.Core.Nats.{Server, TypedNats, publish_jetstream}
use spawner.Core.Retry.{do_with_retry}
use spawner.Drone.Database.{DroneDatabase}
use spawner.Drone.Agent.{Agent, ready_round}
use spawner.Controller.Scheduler.{second, schedule}
use spawner.Controller.Scheduler.History.{after, IsChoice, schedule_finds}
use spawner.Drone.Agent.Draining.{ready_seen}

module _ {R : Type 0} (server : Server) (serde : Serde DroneStatusMessage R) (version : Text) where
  -- The client after the rounds, and the error of the database that ended the loop, if one did. An
  -- error of publishing is logged.
  unfoldable pub ready_loop :
      List (Agent × Result Text DroneDatabase) → TypedNats → TypedNats × Option Text
  ready_loop [] s = (s, none)
  ready_loop ((agent, err e) ∷ rounds) s = (s, some e)
  ready_loop ((agent, ok db) ∷ rounds) s =
      ready_loop rounds
        (publish_jetstream server (status_stream serde) (ready_round version db agent) s).0

-- `get n` is what the n-th request to the container yields; its answer is not looked at.
unfoldable pub wait_port_ready : (ℕ → Result Text Unit) → Option (Result Text Unit × ℕ)
wait_port_ready get = do_with_retry get 3000

-- The seconds between the rounds of `ready_loop`.
abbrev pub ready_period : ℕ
ready_period = 4

-- With a choice that picks an element of a slice that has one, and from five seconds after the
-- earliest instant on: once the scheduler has taken in a round of a drone that is ready, requests for
-- its cluster are given a drone, until the next round is a second late, whatever other drones say.
pub ready_finds :
    (choose : List DroneId → Option DroneId)
    → IsChoice choose
    → (messages others : List (ℕ × DroneStatusMessage)) (t now : ℕ) (version : Text)
      (db : DroneDatabase) (agent : Agent)
    → agent.ready ≡ true
    → All (λ m. m.1.drone_id ≢ agent.drone_id) others
    → 5 * second ≤ now
    → now < t + (ready_period + 1) * second
    → (d : DroneId) × (schedule choose
          (after (messages ++ (t, ready_round version db agent) ∷ others))
          agent.cluster
          now
        ≡ some (ok d))
unfolding ready_round
ready_finds choose choice messages others t now version db agent r h n lt =
    schedule_finds choose choice (messages ++ (t, ready_round version db agent) ∷ others)
      agent.cluster now agent.drone_id t n
      (ready_seen messages others t (ready_round version db agent) r h) (omega arith)
