-- ===== src/Drone/Executor/Idle.antt =====
-- The wait of a ready backend for the end of its idle time.
use spawner.Prelude.{
  ℕ, ◌+◌, ◌≤◌, ◌<◌, ◌≡◌, ◌≢◌, List, [], ◌∷◌, ◌++◌, Option, some, All, inl, inr, arith, ◌⊎◌, ◌↔◌,
  ite, dec_lt,
}
use spawner.Prelude.Result.{ok, err, Result-cases}
use spawner.Messages.Agent.{BackendState, swept}
use spawner.Drone.Executor.{Error, out_of_range, Round, Limits, next_check, wait_idle}

-- The wait ends well in one way only.
pub wait_idle_swept :
    (l : Limits) (max_idle : ℕ) (rounds : List Round) (next : Option BackendState)
    → wait_idle l max_idle rounds ≡ some (ok next)
    → next ≡ some swept
unfolding wait_idle
wait_idle_swept l max_idle [] next h = cc
wait_idle_swept l max_idle (r ∷ rounds) next h =
    ground (arith, wait_idle_swept l max_idle rounds next)

-- The last activity was read as `t`, and the idle time has not passed since.
abbrev pub IsRecent : ℕ → Round → Type 0
IsRecent max_idle r = (t : ℕ) → r.last_active ≡ ok t → r.now ≤ t + max_idle

-- A backend is swept for idleness only in a round whose clock is past the last recorded activity by
-- more than the idle time: while every round finds recent activity, it is not swept.
pub wait_idle_recent :
    (l : Limits) (max_idle : ℕ) (rounds : List Round)
    → All (IsRecent max_idle) rounds
    → (next : Option BackendState) → wait_idle l max_idle rounds ≢ some (ok next)
unfolding wait_idle next_check
wait_idle_recent l max_idle [] h next e = cc
wait_idle_recent l max_idle (r ∷ rounds) (h, hs) next e = elim (Result-cases r.last_active) [
  | inl (t, f) ↦ ground (arith, h t f, wait_idle_recent l max_idle rounds hs next)
  | inr (x, f) ↦ ground arith
]

-- The deadline of a round can be represented.
abbrev pub IsRepresentable : Limits → ℕ → ℕ → Type 0
IsRepresentable l t max_idle = (max_idle ≤ l.max_duration) × (t + max_idle ≤ l.max_instant)

-- A round after which the task sleeps on.
abbrev pub IsAsleep : Limits → ℕ → Round → Type 0
IsAsleep l max_idle r =
    (t : ℕ) × (r.last_active ≡ ok t)
    × IsRepresentable l t max_idle
    × (r.now ≤ t + max_idle)
    × (r.later ≤ t + max_idle)

-- However often the task sleeps on, it sweeps the backend in the first round whose clock is past
-- the last recorded activity by more than the idle time, if `chrono` can represent the deadline.
pub wait_idle_ends :
    (l : Limits) (max_idle : ℕ) (before rest : List Round) (r : Round) (t : ℕ)
    → All (IsAsleep l max_idle) before
    → r.last_active ≡ ok t
    → IsRepresentable l t max_idle
    → t + max_idle < r.now
    → wait_idle l max_idle (before ++ r ∷ rest) ≡ some (ok (some swept))
unfolding wait_idle next_check
wait_idle_ends l max_idle [] rest r t asleep e (d, i) past = ground arith
wait_idle_ends l max_idle (b ∷ before) rest r t ((u, f, (d', i'), now, later), asleep) e (d, i)
      past =
    ground (arith, wait_idle_ends l max_idle before rest r t asleep e (d, i) past)

-- The last activity can be read, and the deadline can be represented.
abbrev pub IsReadable : Limits → ℕ → Round → Type 0
IsReadable l max_idle r = (t : ℕ) × (r.last_active ≡ ok t) × IsRepresentable l t max_idle

-- The clock passes the deadline between the two times that the round reads it.
abbrev pub IsRacing : Limits → ℕ → Round → Type 0
IsRacing l max_idle r =
    (t : ℕ) × (r.last_active ≡ ok t)
    × IsRepresentable l t max_idle
    × (r.now ≤ t + max_idle)
    × (t + max_idle < r.later)

-- A round races, and the task sleeps on in all rounds before it.
abbrev pub Races : Limits → ℕ → List Round → Type 0
Races l max_idle [] = ⊥
Races l max_idle (r ∷ rounds) =
    IsRacing l max_idle r ⊎ (IsAsleep l max_idle r × Races l max_idle rounds)

round_decides :
    (l : Limits) (max_idle : ℕ) (r : Round) (rounds : List Round) (t : ℕ)
    → r.last_active ≡ ok t
    → IsRepresentable l t max_idle
    → wait_idle l max_idle (r ∷ rounds)
      ≡ ite (dec_lt (t + max_idle) r.now) (some (ok (some swept))) (
          ite
            (dec_lt (t + max_idle) r.later)
            (some (err out_of_range))
            (wait_idle l max_idle rounds))
unfolding wait_idle next_check
round_decides l max_idle r rounds t e (d, i) = ground arith

-- While the last activity can be read in every round and `chrono` can represent the deadlines, the
-- wait ends with an error exactly if it comes to a round in which the clock passes the deadline
-- between the two times that it is read; the error is one of conversion, and the backend is not swept.
pub wait_idle_fails_iff :
    (l : Limits) (max_idle : ℕ) (rounds : List Round) (x : Error)
    → All (IsReadable l max_idle) rounds
    → (wait_idle l max_idle rounds ≡ some (err x)) ↔ ((x ≡ out_of_range) × Races l max_idle rounds)
unfolding wait_idle
wait_idle_fails_iff l max_idle [] x h = (λ e. ground arith, λ h. elim h.1 [ ])
wait_idle_fails_iff l max_idle (r ∷ rounds) x ((t, e, i), hs) =
    let step = round_decides l max_idle r rounds t e i in
    let (there, back) = wait_idle_fails_iff l max_idle rounds x hs in
    elim (dec_lt (t + max_idle) r.now) [
      | yes past ↦ (λ f. ground arith, λ f. ground arith)
      | no early ↦ (λ f. ground arith, λ f. ground arith)
    ]
