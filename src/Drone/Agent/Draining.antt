-- ===== src/Drone/Agent/Draining.antt =====
-- A drone that drains is given no backends.
use spawner.Prelude.{
  ℕ, ◌*◌, ◌≤◌, ◌≡◌, ◌≢◌, refl, List, [], ◌∷◌, ◌++◌, Option, none, some, true, false, All,
  foldl-append, arith, ap, ◌∙◌,
}
use spawner.Prelude.Result.{ok}
use spawner.Prelude.Text.{Text}
use spawner.Types.{DroneId, ClusterName}
use spawner.Messages.Agent.{DroneStatusMessage}
use spawner.Messages.Scheduler.{DrainDrone}
use spawner.Drone.Database.{DroneDatabase}
use spawner.Drone.Agent.{Agent, ready_round, drain}
use spawner.Controller.Scheduler.{second, schedule}
use spawner.Controller.Scheduler.History.{
  Seen, note, last_seen, seen_after, after, IsChoice, schedule_live,
}

last_seen-append :
    (xs ys : List (ℕ × DroneStatusMessage)) (seen : Seen)
    → last_seen seen (xs ++ ys) ≡ last_seen (last_seen seen xs) ys
unfolding last_seen
last_seen-append = foldl-append last_seen (λ s. refl) (λ s m. note s m.0 m.1) (λ s m ms. refl)

last_seen_others :
    (seen : Seen) (others : List (ℕ × DroneStatusMessage)) (c : ClusterName) (d : DroneId)
    → All (λ m. m.1.drone_id ≢ d) others
    → last_seen seen others c d ≡ seen c d
unfolding last_seen
last_seen_others seen [] c d h = refl
last_seen_others seen ((t, m) ∷ others) c d (h, hs) =
    last_seen_others (note seen t m) others c d hs ∙ ground arith

-- What the scheduler knows of a drone is what its last message said.
message_seen :
    (messages others : List (ℕ × DroneStatusMessage)) (t : ℕ) (m : DroneStatusMessage)
    → All (λ o. o.1.drone_id ≢ m.drone_id) others
    → seen_after (messages ++ (t, m) ∷ others) m.cluster m.drone_id
      ≡ note (last_seen (λ c d. none) messages) t m m.cluster m.drone_id
unfolding last_seen
message_seen messages others t m h =
    ap (λ s. s m.cluster m.drone_id) (last_seen-append messages ((t, m) ∷ others) (λ c d. none))
    ∙ last_seen_others (note (last_seen (λ c d. none) messages) t m) others m.cluster m.drone_id h

unready_unseen :
    (messages others : List (ℕ × DroneStatusMessage)) (t : ℕ) (m : DroneStatusMessage)
    → m.ready ≡ false
    → All (λ o. o.1.drone_id ≢ m.drone_id) others
    → seen_after (messages ++ (t, m) ∷ others) m.cluster m.drone_id ≡ none
unready_unseen messages others t m r h = message_seen messages others t m h ∙ ground arith

pub ready_seen :
    (messages others : List (ℕ × DroneStatusMessage)) (t : ℕ) (m : DroneStatusMessage)
    → m.ready ≡ true
    → All (λ o. o.1.drone_id ≢ m.drone_id) others
    → seen_after (messages ++ (t, m) ∷ others) m.cluster m.drone_id ≡ some t
ready_seen messages others t m r h = message_seen messages others t m h ∙ ground arith

drain_unready :
    (agent agent' : Agent) (request : DrainDrone)
    → request.drain ≡ true
    → drain agent request true true ≡ some agent'
    → (agent'.ready ≡ false) × (agent'.drone_id ≡ agent.drone_id) × (agent'.cluster ≡ agent.cluster)
unfolding drain
drain_unready agent agent' request r q = (ground arith, ground arith, ground arith)

-- With a choice that picks an element of a slice that has one, and from five seconds after the
-- earliest instant on: once the scheduler has taken in a status message that a drone published
-- after it took in the instruction to drain, no request for its cluster is given to that drone,
-- until the drone itself publishes again.
pub drained_unscheduled :
    (choose : List DroneId → Option DroneId)
    → IsChoice choose
    → (messages others : List (ℕ × DroneStatusMessage)) (t now : ℕ) (version : Text)
      (db : DroneDatabase) (agent agent' : Agent) (request : DrainDrone)
    → request.drain ≡ true
    → drain agent request true true ≡ some agent'
    → All (λ m. m.1.drone_id ≢ agent.drone_id) others
    → 5 * second ≤ now
    → schedule choose
        (after (messages ++ (t, ready_round version db agent') ∷ others))
        agent.cluster
        now
      ≢ some (ok agent.drone_id)
unfolding ready_round
drained_unscheduled choose choice messages others t now version db agent agent' request r q h n e =
    let (u, i, c) = drain_unready agent agent' request r q in
    let m = ready_round version db agent' in
    let unseen = unready_unseen messages others t m u (rw i h) in
    let (v, f, _) =
      schedule_live choose choice (messages ++ (t, m) ∷ others) agent.cluster now agent.drone_id n
        e in
    ground (arith, rw (i, c) at unseen, f)
