-- ===== src/Drone/Executor/Run.antt =====
-- What a task does over all its turns.
use spawner.Prelude.{
  ℕ, ◌≡◌, ◌≢◌, refl, List, [], ◌∷◌, ◌++◌, Option, none, some, Bool, true, All, All-append, arith,
  ap,
}
use spawner.Prelude.Result.{Result, ok, err}
use spawner.Prelude.Text.{Text}
use spawner.Messages.Agent.{
  BackendState, SpawnRequest, loading, error_loading, starting, timed_out_before_ready, swept,
  terminated,
}
use spawner.Drone.Database.{DroneDatabase}
use spawner.Drone.Executor.{
  Limits, Error, interrupt, terminate, World, Logged, Phase, active, ended, lost, Outcome, Turn,
  steps, signals, sender_lost, step, enter, fail, finish, drop_step, after_step, take_turn, run,
  run_backend,
}
use spawner.Drone.Executor.Step.{edge, step-edge}

-- The states that were published, in order, lead from `from` to `to` along edges.
pub data Chain (from : BackendState) : List (BackendState × Bool) → BackendState → Type 0 where
  first : Chain from [] from
  follow :
      {l : List (BackendState × Bool)} {s : BackendState} (t : BackendState) (sent : Bool)
      → Chain from l s
      → edge s t ≡ true
      → Chain from (l ++ (t, sent) ∷ []) t

-- What holds of the world and the phase between two turns.
abbrev pub Follows : BackendState → World × Phase → Type 0
Follows from (w, active s) = Chain from w.published s
Follows from (w, ended) = (s : BackendState) × Chain from w.published s
Follows from (w, lost) = (s : BackendState) × Chain from w.published s

enter_active :
    (w : World) (spawn : SpawnRequest) (t : BackendState) (log : Logged)
    → enter w spawn t log ≡ ((enter w spawn t log).0, active t)
unfolding enter
enter_active w spawn t log = refl

enter_published :
    (w : World) (spawn : SpawnRequest) (t : BackendState) (log : Logged)
    → (enter w spawn t log).0.published ≡ w.published ++ (t, log.sent) ∷ []
unfolding enter
enter_published w spawn t log = ground arith

finish-Follows :
    (from : BackendState) (w : World) (spawn : SpawnRequest) (s : BackendState)
    (next : Result Error (Option BackendState)) (log : Logged)
    → ((t : BackendState) → next ≡ ok (some t) → edge s t ≡ true)
    → Chain from w.published s
    → Follows from (finish w spawn s next log)
unfolding finish fail
finish-Follows from w spawn s (ok (some t)) log e c =
    rw (enter_active w spawn t log)
      (rw (enter_published w spawn t log) (follow t log.sent c (e t refl)))
finish-Follows from w spawn s (ok none) log e c = (s, c)
finish-Follows from w spawn loading (err x) log e c =
    (error_loading, follow error_loading log.sent c refl)
finish-Follows from w spawn s (err x) log e c = (s, c)

drop_step_published :
    (w : World) (spawn : SpawnRequest) (s : BackendState) (written : Option (Text × ℕ))
    → (drop_step w spawn s written).published ≡ w.published
unfolding drop_step
drop_step_published w spawn starting (some (addr, now)) = ground arith
drop_step_published w spawn _ _ = refl

after_step-Follows :
    (from : BackendState) (w : World) (spawn : SpawnRequest) (s : BackendState)
    (p : DroneDatabase × Outcome) (log : Logged)
    → ((t : BackendState) → p.1 ≡ some (ok (some t)) → edge s t ≡ true)
    → Chain from w.published s
    → Follows from (after_step w spawn s p log)
after_step-Follows from w spawn s (db, none) log e c = c
after_step-Follows from w spawn s (db, some next) log e c =
    finish-Follows from (record w { db = db }) spawn s next log (λ t q. e t (ap some q)) c

take_turn-Follows :
    (l : Limits) (from : BackendState) (spawn : SpawnRequest) (w : World) (s : BackendState)
    (t : Turn)
    → Chain from w.published s
    → Follows from (take_turn l spawn w s t)
unfolding take_turn
take_turn-Follows l from spawn w s (steps a log) c =
    after_step-Follows from w spawn s (step l w.db spawn s a) log (step-edge l w.db spawn s a) c
take_turn-Follows l from spawn w swept (signals x written log) c = c
take_turn-Follows l from spawn w swept sender_lost c = c
take_turn-Follows l from spawn w s (signals interrupt written log) c =
    rw (drop_step_published w spawn s written) c
take_turn-Follows l from spawn w s (signals terminate written log) c =
    finish-Follows from (drop_step w spawn s written) spawn s (ok (some terminated)) log
      (λ t q. ground arith) (rw (drop_step_published w spawn s written) c)
take_turn-Follows l from spawn w s sender_lost c = (s, c)

-- What every turn keeps, a run keeps.
pub run_inv {ℓ} :
    (P : World × Phase → Type ℓ) (Q : Turn → Type 0) (l : Limits) (spawn : SpawnRequest)
    → ((w : World) (s : BackendState) (t : Turn)
        → Q t
        → P (w, active s)
        → P (take_turn l spawn w s t))
    → (turns : List Turn) (p : World × Phase) → All Q turns
    → P p
    → P (run l spawn p turns)
unfolding run
run_inv P Q l spawn keep [] p q h = h
run_inv P Q l spawn keep (t ∷ turns) (w, active s) (q, qs) h =
    run_inv P Q l spawn keep turns (take_turn l spawn w s t) qs (keep w s t q h)
run_inv P Q l spawn keep (t ∷ turns) (w, ended) q h = h
run_inv P Q l spawn keep (t ∷ turns) (w, lost) q h = h

abbrev pub Any : Turn → Type 0
Any t = Unit

pub All-Any : (turns : List Turn) → All Any turns
All-Any [] = tt
All-Any (t ∷ turns) = (tt, All-Any turns)

-- From where nothing is published yet: whatever the engine, the database, NATS and the clock
-- answer, and whichever signals arrive, the states that a task publishes lead from its first state
-- along the edges, and a task that still runs is in the state that it published last.
pub run_backend-Follows :
    (l : Limits) (spawn : SpawnRequest) (w : World) (from : BackendState) (turns : List Turn)
    → w.published ≡ []
    → Follows from (run_backend l spawn w from turns)
unfolding run_backend
run_backend-Follows l spawn w from turns e =
    run_inv (Follows from) Any l spawn (λ v s t _ c. take_turn-Follows l from spawn v s t c) turns _
      (All-Any turns) (rw e first)

-- No edge leads to the state that says that a backend was not ready in time.
Chain-in_time :
    (from : BackendState) {published : List (BackendState × Bool)} {s : BackendState}
    → Chain from published s
    → All (λ e. e.0 ≢ timed_out_before_ready) published
Chain-in_time from first = tt
Chain-in_time from (follow {l} {s} t sent c e) =
    All-append _ l _ (Chain-in_time from c) ((λ f. ground arith), tt)

published_in_time :
    (from : BackendState) (p : World × Phase)
    → Follows from p
    → All (λ e. e.0 ≢ timed_out_before_ready) p.0.published
published_in_time from (w, active s) c = Chain-in_time from c
published_in_time from (w, ended) (s, c) = Chain-in_time from c
published_in_time from (w, lost) (s, c) = Chain-in_time from c

-- From where nothing is published yet, a task never publishes that a backend timed out before it
-- was ready.
pub run_backend_in_time :
    (l : Limits) (spawn : SpawnRequest) (w : World) (from : BackendState) (turns : List Turn)
    → w.published ≡ []
    → All (λ e. e.0 ≢ timed_out_before_ready) (run_backend l spawn w from turns).0.published
run_backend_in_time l spawn w from turns e =
    published_in_time from (run_backend l spawn w from turns)
      (run_backend-Follows l spawn w from turns e)
