-- ===== src/Cli/Commands.antt =====
-- What the commands ask for, and who is asked.
use spawner.Prelude.{ℕ, ◌≡◌, refl, ap, ◌∙◌, List, ◌∷◌, some, Bool, true, false, not, In}
use spawner.Prelude.Result.{Result, ok, err}
use spawner.Prelude.Text.{Text}
use spawner.Messages.Subjects.{
  drain_subject, drain_subscribe_subject, termination_subject, termination_subscribe_subject,
  schedule_subject,
}
use spawner.Messages.Streams.{typed, schedule_subscribe_subject}
use spawner.Messages.Streams.Matching.{IsMatch, termination-IsMatch, schedule-IsMatch}
use spawner.Core.Nats.{
  Bytes, Server, Request, request, TypedNats, TypedMessage, pure, next_call, ◌>>=◌, send,
  send_to_anyhow, request_message,
}
use spawner.Cli.{
  spawn, drain, terminate, Serdes, run_command, schedule_request, drain_request,
  termination_request,
}
use spawner.Drone.Agent as Agent
use spawner.Drone.Agent.{Agent}

kept_sent :
    {A B : Type 0} (f : A → Result Text B) (p : TypedNats × Result Text A)
    → (next_call (λ a. pure (f a)) p).0 ≡ p.0
kept_sent f (s, ok a) = refl
kept_sent f (s, err e) = refl

-- A request sends one message, whatever the answer.
request_message-sent :
    {T R A : Type 0} (server : Server) (t : TypedMessage T R) (value : T) (s : TypedNats)
    (bytes : Bytes) (f : R → Result Text A)
    → t.to_vec value ≡ ok bytes
    → ((request_message server t value >>= (λ r. pure (f r))) s).0.sent
      ≡ request (t.subject_of value) bytes ∷ s.sent
unfolding request_message send_to_anyhow send
request_message-sent server t value s bytes f e =
    ap (λ s. s.sent) (kept_sent f (request_message server t value s))
    ∙ ap (λ s. s.sent)
        (kept_sent (λ m. t.response_from_slice m.payload)
          (next_call (λ bytes. send_to_anyhow server (request (t.subject_of value) bytes))
            (pure (t.to_vec value) s)))
    ∙ ap
        (λ r.
          (next_call (λ bytes. send_to_anyhow server (request (t.subject_of value) bytes))
            (s, r)).0.sent)
        e

not-not : (b : Bool) → not (not b) ≡ b
not-not true = refl
not-not false = refl

module _ (server : Server) (new_inbox : List Request → Text) (serdes : Serdes)
    (show_time show_count : ℕ → Text) where
  -- The commands `drain`, `terminate` and `spawn` send one request each, if it can be encoded,
  -- whatever is answered: to the subject that the drone of that name in that cluster subscribes to
  -- for instructions to drain, and to one that the drones of the cluster, and the controller, take
  -- in; and an agent that takes in the instruction is ready from then on exactly if it was to cancel.
  pub commands_reach :
      (fuel timeout : ℕ) (s : TypedNats) (cluster drone backend image : Text) (cancel : Bool)
      (drains terminates spawns : Bytes) (agent : Agent)
      → serdes.drain.to_vec (drain_request drone cluster cancel) ≡ ok drains
      → serdes.terminate.to_vec (termination_request cluster backend) ≡ ok terminates
      → serdes.schedule.to_vec (schedule_request cluster image timeout) ≡ ok spawns
      → ¬ In b'.' backend
      → let run = run_command server new_inbox serdes show_time show_count fuel in
        let terminated = termination_subject (termination_request cluster backend) in
        let scheduled = schedule_subject (schedule_request cluster image timeout) in
        ((run (drain drone cluster cancel) s).0.sent
          ≡ request
              (drain_subscribe_subject (record { id = drone }) (record { hostname = cluster }))
              drains
            ∷ s.sent)
        × (Agent.drain agent (drain_request drone cluster cancel) true true
            ≡ some (record agent { ready = cancel }))
        × ((run (terminate cluster backend) s).0.sent ≡ request terminated terminates ∷ s.sent)
        × IsMatch (termination_subscribe_subject (record { hostname = cluster })) terminated
        × ((run (spawn cluster image timeout) s).0.sent ≡ request scheduled spawns ∷ s.sent)
        × IsMatch schedule_subscribe_subject.subject scheduled
  unfolding run_command drain_request termination_request drain_subject drain_subscribe_subject
      Agent.drain
  commands_reach fuel timeout s cluster drone backend image cancel drains terminates spawns agent d
        t p n =
      (
        request_message-sent server (typed drain_subject serdes.drain)
            (drain_request drone cluster cancel) s drains _ d,
        ap (λ r. some (record agent { ready = r })) (not-not cancel),
        request_message-sent server (typed termination_subject serdes.terminate)
            (termination_request cluster backend) s terminates _ t,
        termination-IsMatch (termination_request cluster backend) n,
        request_message-sent server (typed schedule_subject serdes.schedule)
            (schedule_request cluster image timeout) s spawns _ p,
        schedule-IsMatch (schedule_request cluster image timeout),
      )
