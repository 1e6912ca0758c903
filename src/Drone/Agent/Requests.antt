-- ===== src/Drone/Agent/Requests.antt =====
-- drone/src/agent/mod.rs: the loops that listen for requests to spawn, to terminate and to drain. A
-- subscription is the messages that arrive until it ends; the loop over them runs on fuel.
pub mod Answering
use spawner.Prelude.{
  ℕ, zero, suc, ◌<◌, ◌≡◌, ◌≢◌, refl, sym, ap, subst, ◌∙◌, List, [], ◌∷◌, ◌++◌, Option, none, some,
  inl, inr, arith, Option-cases, length, Bool, true, not,
}
use spawner.Prelude.Result.{Result, ok, err, ok_or, Result-cases}
use spawner.Prelude.Text.{Text, codes}
use spawner.Types.{DroneId, ClusterName}
use spawner.Messages.Agent.{SpawnRequest, TerminationRequest}
use spawner.Messages.Scheduler.{DrainDrone}
use spawner.Messages.Subjects.{
  spawn_subscribe_subject, termination_subscribe_subject, drain_subscribe_subject,
}
use spawner.Core.Nats.{
  Bytes, Message, Server, TypedNats, TypedMessage, Request, publish, send, subscribe_to, pure,
  next_call,
}
use spawner.Core.Nats.Subscriptions.{MessageWithResponseHandle, next, next-ok, next-err, decoded}
use spawner.Core.Nats.Replies.{respond}

-- What a listener has handed on, in order, the client after it, and the error that it ended with.
pub record Listened (T : Type 0) : Type 0 where
  pub handled : List T
  pub client : TypedNats
  pub error : Text

abbrev pub handle_first : {T : Type 0} → T → Option (Listened T) → Option (Listened T)
handle_first v none = none
handle_first v (some l) =
    some (record { handled = v ∷ l.handled; client = l.client; error = l.error })

module _ {T R : Type 0} (server : Server) (t : TypedMessage T R) (response : R)
    (closed : Text) where
  -- What follows the response to a request, which the loop ends without.
  abbrev pub after_response :
      (List Message → TypedNats → Option (Listened T))
      → T
      → List Message
      → TypedNats × Result Text Unit
      → Option (Listened T)
  after_response continue v rest (s, err e) = some (record { handled = []; client = s; error = e })
  after_response continue v rest (s, ok u) = handle_first v (continue rest s)

  -- A round, after `next`: every request is responded to, and then handed on.
  unfoldable pub listen_round :
      (List Message → TypedNats → Option (Listened T))
      → TypedNats
      → Option (MessageWithResponseHandle T) × List Message
      → Option (Listened T)
  listen_round continue s (none, rest) = some (record { handled = []; client = s; error = closed })
  listen_round continue s (some h, rest) =
      after_response continue h.value rest (respond t server h response s)

  unfoldable pub listen : ℕ → List Message → TypedNats → Option (Listened T)
  listen zero ms s = none
  listen (suc fuel) ms s = listen_round (listen fuel) s (next t ms)

  -- From the subscription on; `resumed` is what must succeed before the loop.
  unfoldable pub listen_from :
      Result Text Unit → ℕ → TypedNats × Result Text (List Message) → Option (Listened T)
  listen_from resumed fuel (s, err e) = some (record { handled = []; client = s; error = e })
  listen_from (err e) fuel (s, ok ms) = some (record { handled = []; client = s; error = e })
  listen_from (ok u) fuel (s, ok ms) = listen fuel ms s

abbrev pub spawn_closed : Text
spawn_closed = codes "Spawn request subscription closed."

module _ (server : Server) where
  -- `resumed` is what `resume_backends` returns. The requests are the backends that are started.
  unfoldable pub listen_for_spawn_requests :
      TypedMessage SpawnRequest Bool
      → DroneId
      → Result Text Unit
      → ℕ
      → TypedNats
      → Option (Listened SpawnRequest)
  listen_for_spawn_requests t drone_id resumed fuel s =
      listen_from server t true spawn_closed resumed fuel (
        subscribe_to server {T = SpawnRequest}
          (record { subject = spawn_subscribe_subject drone_id }) s)

  -- The requests are the backends that are to be killed.
  unfoldable pub listen_for_termination_requests :
      TypedMessage TerminationRequest Unit
      → ClusterName
      → ℕ
      → TypedNats
      → Option (Listened TerminationRequest)
  listen_for_termination_requests t cluster fuel s =
      listen_from server t tt (codes "Termination request subscription closed.") (ok tt) fuel (
        subscribe_to server {T = TerminationRequest}
          (record { subject = termination_subscribe_subject cluster }) s)

  -- The values that the watch channel is sent are the negations of the requests' `drain`.
  unfoldable pub listen_for_drain :
      TypedMessage DrainDrone Unit
      → DroneId
      → ClusterName
      → ℕ
      → TypedNats
      → Option (Listened DrainDrone)
  listen_for_drain t drone_id cluster fuel s =
      listen_from server t tt (codes "Reached the end of DrainDrone subscription.") (ok tt) fuel (
        subscribe_to server {T = DrainDrone}
          (record { subject = drain_subscribe_subject drone_id cluster }) s)
