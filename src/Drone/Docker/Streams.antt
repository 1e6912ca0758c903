-- ===== src/Drone/Docker/Streams.antt =====
-- drone/src/agent/engines/docker: the streams of a backend's log and statistics, and how it is
-- stopped. A stream is what it yields until it ends, and what Docker yields is an argument.
use spawner.Prelude.{
  ℕ, ◌≡◌, refl, ap, List, [], ◌∷◌, Option, none, some, Bool, true, false, inl, inr, Option-cases,
}
use spawner.Prelude.Result.{Result, ok, err}
use spawner.Prelude.Text.{Text}
use spawner.Types.{BackendId, to_resource_name}
use spawner.Messages.Agent.{DroneLogMessage, LogOutput, from_log_message}
use spawner.Messages.Stats.{Floats, Stats, BackendStatsMessage, from_stats_messages}
use spawner.Drone.Docker.{DockerError, stop_container}
use spawner.Drone.Docker.Events.{Poll, pending, ready, poll_next}
use spawner.Prelude.Result.{to_option}

abbrev keep : {A : Type 0} → Option A → List A → List A
keep none xs = xs
keep (some x) xs = x ∷ xs

unfoldable pub log_stream :
    {E : Type 0}
    → (List ℕ → Option Text)
    → BackendId
    → List (Result E LogOutput)
    → List DroneLogMessage
log_stream from_utf8 b [] = []
log_stream from_utf8 b (err e ∷ logs) = log_stream from_utf8 b logs
log_stream from_utf8 b (ok output ∷ logs) =
    keep (from_log_message from_utf8 b output) (log_stream from_utf8 b logs)

-- For each tick, the first item of Docker's statistics, if there is one.
unfoldable pub get_stats : {E S : Type 0} → List (Option (Result E S)) → List S
get_stats [] = []
get_stats (none ∷ ticks) = get_stats ticks
get_stats (some (err e) ∷ ticks) = get_stats ticks
get_stats (some (ok s) ∷ ticks) = s ∷ get_stats ticks

module _ {S A : Type 0} (measure : S → S → Option A) where
  -- What a poll adds; the flag is whether it panicked.
  abbrev add_item : Option (Poll A) → List A × Bool → List A × Bool
  add_item none rest = ([], true)
  add_item (some pending) rest = rest
  add_item (some (ready none)) rest = ([], false)
  add_item (some (ready (some v))) rest = (v ∷ rest.0, rest.1)

  -- The polls of a `StatsStream` over reports that are there, and how they end.
  unfoldable pub poll_all : Option S → List S → List A × Bool
  poll_all last [] = ([], false)
  poll_all last (s ∷ stats) =
      let p = poll_next measure last (ready (some s)) in
      let rest = poll_all p.last stats in add_item p.poll rest

  -- A measurement for each two reports in a row, up to the first two that cannot be measured.
  abbrev pub measured : S → List S → List A × Bool
  measured last [] = ([], false)
  measured last (s ∷ stats) = elim (measure last s) [
    | none ↦ ([], true)
    | some v ↦ (v ∷ (measured s stats).0, (measured s stats).1)
  ]

  poll_all-measured : (last : S) (stats : List S) → poll_all (some last) stats ≡ measured last stats
  unfolding poll_all poll_next
  poll_all-measured last [] = refl
  poll_all-measured last (s ∷ stats) = elim (Option-cases (measure last s)) [
    | inl e ↦ rw (poll_all, poll_next, measured, e) refl
    | inr (v, e) ↦
        rw (poll_all, poll_next, measured, e) (ap (λ p. (v ∷ p.0, p.1)) (poll_all-measured s stats))
  ]

-- `unwrap` of `from_stats_messages`.
abbrev pub measure_stats :
    {F : Type 0} → Floats F → BackendId → Stats → Stats → Option (BackendStatsMessage F)
measure_stats f b prev cur = to_option (from_stats_messages f b prev cur)

unfoldable pub stats_stream :
    {E F : Type 0}
    → Floats F
    → BackendId
    → List (Option (Result E Stats))
    → List (BackendStatsMessage F) × Bool
stats_stream f b ticks = poll_all (measure_stats f b) none (get_stats ticks)

-- Docker is asked by the backend's resource name, for which `stopped` and `removed` are its answers.
unfoldable pub stop :
    (Text → Result DockerError (Unit {0}))
    → (Text → Result DockerError (Unit {0}))
    → BackendId
    → Result DockerError (Unit {0}) × Bool
stop stopped removed b =
    stop_container (stopped (to_resource_name b)) (removed (to_resource_name b))

abbrev first_measured : {S A : Type 0} → (S → S → Option A) → List S → List A × Bool
first_measured measure [] = ([], false)
first_measured measure (s ∷ stats) = measured measure s stats

-- The statistics of a backend are one message for each two reports in a row that Docker gave, in
-- order, up to the first two that cannot be measured, on which the stream panics; ticks that Docker
-- answered with an error or not at all are passed over.
pub stats_stream-measured :
    {E F : Type 0} (f : Floats F) (b : BackendId) (ticks : List (Option (Result E Stats)))
    → stats_stream f b ticks ≡ first_measured (measure_stats f b) (get_stats ticks)
unfolding stats_stream
stats_stream-measured f b ticks = all (get_stats ticks)
  where
    all :
        (stats : List Stats)
        → poll_all (measure_stats f b) none stats ≡ first_measured (measure_stats f b) stats
    all [] = unfold poll_all in refl
    all (s ∷ stats) = unfold poll_all poll_next in poll_all-measured (measure_stats f b) s stats
