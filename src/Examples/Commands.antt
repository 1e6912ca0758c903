-- ===== src/Examples/Commands.antt =====
-- The theorem of the commands at a concrete input.
use spawner.Prelude.{ℕ, ◌≡◌, refl, List, [], ◌∷◌, some, true, false, arith}
use spawner.Prelude.Result.{Result, ok, err}
use spawner.Prelude.Text.{Text, codes}
use spawner.Messages.Subjects.{
  drain_subscribe_subject, termination_subject, termination_subscribe_subject, schedule_subject,
}
use spawner.Messages.Streams.{Serde, schedule_subscribe_subject}
use spawner.Messages.Streams.Matching.{IsMatch}
use spawner.Core.Nats.{Bytes, Request, request, Server, new}
use spawner.Drone.Agent as Loops
use spawner.Drone.Agent.{Agent}
use spawner.Cli.{
  spawn, drain, terminate, Serdes, run_command, schedule_request, drain_request,
  termination_request,
}
use spawner.Cli.Commands.{commands_reach}

abbrev fails : {T : Type 0} → Bytes → Result Text T
fails b = err (codes "not decoded")

-- Every request is encoded as one byte, and nothing is decoded.
abbrev byte : {T R : Type 0} → ℕ → Serde T R
byte n = record {
  to_vec = λ m. ok (n ∷ []);
  from_slice = fails;
  response_to_vec = λ r. ok [];
  response_from_slice = fails;
}

abbrev serdes : Serdes
serdes = record {
  schedule = byte 3;
  drain = byte 1;
  terminate = byte 2;
  state = byte 4;
  status = byte 5;
  dns = byte 6;
}

abbrev refusing : Server
refusing rs r = err (codes "timeout")

abbrev inbox : List Request → Text
inbox rs = codes "inbox"

abbrev show : ℕ → Text
show n = codes "n"

abbrev agent : Agent
agent = Loops.start (record { id = codes "d1" }) (record { hostname = codes "a.b" })

commands_reach_example :
    let run = run_command refusing inbox serdes show show 3 in
    let terminated = termination_subject (termination_request (codes "a.b") (codes "b1")) in
    let scheduled = schedule_subject (schedule_request (codes "a.b") (codes "image") 300) in
    ((run (drain (codes "d1") (codes "a.b") false) new).0.sent
      ≡ request
          (drain_subscribe_subject (record { id = codes "d1" }) (record { hostname = codes "a.b" }))
          (1 ∷ [])
        ∷ new.sent)
    × (Loops.drain agent (drain_request (codes "d1") (codes "a.b") false) true true
        ≡ some (record agent { ready = false }))
    × ((run (terminate (codes "a.b") (codes "b1")) new).0.sent
        ≡ request terminated (2 ∷ []) ∷ new.sent)
    × IsMatch (termination_subscribe_subject (record { hostname = codes "a.b" })) terminated
    × ((run (spawn (codes "a.b") (codes "image") 300) new).0.sent
        ≡ request scheduled (3 ∷ []) ∷ new.sent)
    × IsMatch schedule_subscribe_subject.subject scheduled
commands_reach_example =
    commands_reach refusing inbox serdes show show 3 300 new (codes "a.b") (codes "d1") (codes "b1")
      (codes "image") false (1 ∷ []) (2 ∷ []) (3 ∷ []) agent refl refl refl (λ m. ground arith)
