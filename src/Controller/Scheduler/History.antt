-- ===== src/Controller/Scheduler/History.antt =====
-- Which drones the scheduler picks after a history of status messages.
use spawner.Prelude.{
  ite_cases, if_cases, sym, ◌∙◌, ℕ, ◌+◌, ◌-◌, ◌*◌, ◌≤◌, ◌<◌, ◌≡◌, refl, ◌⊎◌, inl, inr, List, [],
  ◌∷◌, Option, none, some, ite, dec_lt, if_pos, if_neg, In, arith, Option-cases, if◌then◌else◌,
}
use spawner.Prelude.Assoc
use spawner.Prelude.Result.{ok, err}
use spawner.Types.{DroneId, ClusterName, DroneId_discrete, ClusterName_discrete}
use spawner.Messages.Agent.{DroneStatusMessage}
use spawner.Controller.Scheduler.{
  Scheduler, no_drone_available, default, update_status, cluster_map, second, drone_ids, schedule,
}

unfoldable pub run : Scheduler → List (ℕ × DroneStatusMessage) → Scheduler
run s [] = s
run s ((t, m) ∷ messages) = run (update_status s t m) messages

-- When the drone last said, as the last thing about that cluster, that it is ready.
abbrev pub Seen : Type 0
Seen = ClusterName → DroneId → Option ℕ

abbrev pub note : Seen → ℕ → DroneStatusMessage → Seen
note seen t m = λ c d.
    ite (ClusterName_discrete c m.cluster)
      (ite (DroneId_discrete d m.drone_id) (if m.ready then some t else none) (seen c d)) (seen c d)

unfoldable pub last_seen : Seen → List (ℕ × DroneStatusMessage) → Seen
last_seen seen [] = seen
last_seen seen ((t, m) ∷ messages) = last_seen (note seen t m) messages

pub record Tracks (s : Scheduler) (seen : Seen) : Type 0 where
  pub same :
      (c : ClusterName) (d : DroneId) → Assoc.get DroneId_discrete d (cluster_map s c) ≡ seen c d
  pub maps : (c : ClusterName) → Assoc.IsMap DroneId_discrete (cluster_map s c)

cluster_map-update_status :
    (s : Scheduler) (t : ℕ) (m : DroneStatusMessage) (c : ClusterName)
    → cluster_map (update_status s t m) c
      ≡ ite
          (ClusterName_discrete c m.cluster)
          (if m.ready
            then Assoc.insert DroneId_discrete m.drone_id t (cluster_map s m.cluster)
            else Assoc.remove DroneId_discrete m.drone_id (cluster_map s m.cluster))
          (cluster_map s c)
unfolding update_status
cluster_map-update_status s t m c = ground (
  arith,
  Assoc.get-insert ClusterName_discrete c m.cluster
      (if m.ready
        then Assoc.insert DroneId_discrete m.drone_id t (cluster_map s m.cluster)
        else Assoc.remove DroneId_discrete m.drone_id (cluster_map s m.cluster))
      s.last_status,
)

Tracks-update_status :
    {s : Scheduler} {seen : Seen} (t : ℕ) (m : DroneStatusMessage)
    → Tracks s seen
    → Tracks (update_status s t m) (note seen t m)
Tracks-update_status {s} {seen} t m r = record {
  same = λ c d. rw (cluster_map-update_status s t m c) (
      ground (
        arith,
        Assoc.get-insert DroneId_discrete d m.drone_id t (cluster_map s m.cluster),
        Assoc.get-remove DroneId_discrete d m.drone_id (cluster_map s m.cluster),
        r.same c d,
        r.same m.cluster d,
      ));
  maps = λ c. rw (cluster_map-update_status s t m c) (
      ite_cases (Assoc.IsMap DroneId_discrete) (ClusterName_discrete c m.cluster) _ _
        (λ _.
          if_cases (Assoc.IsMap DroneId_discrete) m.ready _ _
            (λ _. Assoc.insert-IsMap DroneId_discrete m.drone_id t _ (r.maps m.cluster))
            (λ _. Assoc.remove-IsMap DroneId_discrete m.drone_id _ (r.maps m.cluster)))
        (λ _. r.maps c));
}

Tracks-run :
    (s : Scheduler) (messages : List (ℕ × DroneStatusMessage)) {seen : Seen}
    → Tracks s seen
    → Tracks (run s messages) (last_seen seen messages)
unfolding run last_seen
Tracks-run s [] r = r
Tracks-run s ((t, m) ∷ messages) r =
    Tracks-run (update_status s t m) messages (Tracks-update_status t m r)

abbrev pub after : List (ℕ × DroneStatusMessage) → Scheduler
after messages = run default messages

abbrev pub seen_after : List (ℕ × DroneStatusMessage) → Seen
seen_after messages = last_seen (λ c d. none) messages

after-Tracks :
    (messages : List (ℕ × DroneStatusMessage)) → Tracks (after messages) (seen_after messages)
after-Tracks messages = Tracks-run default messages new
  where
    new : Tracks default (λ c d. none)
    new = unfold default Assoc.get in record { same = λ c d. refl; maps = λ c. tt }

-- `choose` picks an element of the slice, and fails on the empty slice only.
pub record IsChoice (choose : List DroneId → Option DroneId) : Type 0 where
  pub member : (l : List DroneId) (d : DroneId) → choose l ≡ some d → In d l
  pub finds : (l : List DroneId) → choose l ≡ none → l ≡ []

In_of_drone_ids :
    (threshold : ℕ) (d : DroneId) (drones : List (DroneId × ℕ))
    → In d (drone_ids threshold drones)
    → (t : ℕ) × In (d, t) drones × (threshold < t)
In_of_drone_ids threshold d [] h = elim h [ ]
In_of_drone_ids threshold d ((j, u) ∷ drones) h = elim (dec_lt threshold u) [
  | yes lt ↦ elim (rw (if_pos (dec_lt threshold u) lt) at h) [
    | inl e ↦ (u, inl (ground arith), lt)
    | inr m ↦ let (t, i, g) = In_of_drone_ids threshold d drones m in (t, inr i, g)
  ]
  | no ge ↦
      let (t, i, g) =
        In_of_drone_ids threshold d drones (rw (if_neg (dec_lt threshold u) ge) at h) in
      (t, inr i, g)
]

drone_ids-In :
    (threshold : ℕ) (d : DroneId) (t : ℕ) (drones : List (DroneId × ℕ))
    → In (d, t) drones
    → threshold < t
    → In d (drone_ids threshold drones)
drone_ids-In threshold d t [] h lt = elim h [ ]
drone_ids-In threshold d t ((j, u) ∷ drones) (inl e) lt =
    let lt' : threshold < u = ground arith in
    rw (if_pos (dec_lt threshold u) lt') (inl (ground arith))
drone_ids-In threshold d t ((j, u) ∷ drones) (inr h) lt = elim (dec_lt threshold u) [
  | yes l ↦ rw (if_pos (dec_lt threshold u) l) (inr (drone_ids-In threshold d t drones h lt))
  | no g ↦ rw (if_neg (dec_lt threshold u) g) (drone_ids-In threshold d t drones h lt)
]

module _ (choose : List DroneId → Option DroneId) (choice : IsChoice choose) where
  schedule_picks :
      (s : Scheduler) (c : ClusterName) (now : ℕ)
      → 5 * second ≤ now
      → ((choose (drone_ids (now - 5 * second) (cluster_map s c)) ≡ none)
          × (schedule choose s c now ≡ some (err no_drone_available)))
        ⊎ ((d : DroneId) × (choose (drone_ids (now - 5 * second) (cluster_map s c)) ≡ some d)
            × (schedule choose s c now ≡ some (ok d)))
  unfolding schedule
  schedule_picks s c now h =
      elim (Option-cases (choose (drone_ids (now - 5 * second) (cluster_map s c)))) [
        | inl e ↦ inl (e, ground arith)
        | inr (d, e) ↦ elim (Option-cases (Assoc.get ClusterName_discrete c s.last_status)) [
          | inl f ↦ absurd (rw (f) at (choice.member _ d e))
          | inr (drones, f) ↦ inr (d, e, ground arith)
        ]
      ]

  -- With a choice that picks an element of a slice that has one, and from five seconds after the
  -- earliest instant on: after any status messages, a drone that the scheduler picks for a cluster
  -- is one whose last message about that cluster said that it is ready, less than five seconds
  -- ago.
  pub schedule_live :
      (messages : List (ℕ × DroneStatusMessage)) (c : ClusterName) (now : ℕ) (d : DroneId)
      → 5 * second ≤ now
      → schedule choose (after messages) c now ≡ some (ok d)
      → (t : ℕ) × (seen_after messages c d ≡ some t) × (now < t + 5 * second)
  schedule_live messages c now d h e = elim (schedule_picks (after messages) c now h) [
    | inl (_, f) ↦ absurd (ground arith)
    | inr (d', p, f) ↦
        let same : d' ≡ d = ground arith in
        let r = after-Tracks messages in
        let (t, i, lt) =
          In_of_drone_ids (now - 5 * second) d (cluster_map (after messages) c)
            (choice.member _ d (rw (← same) p)) in
        (t, sym (r.same c d) ∙ Assoc.get_of_In DroneId_discrete d t _ (r.maps c) i, omega arith)
  ]

  -- With a choice that picks an element of a slice that has one, and from five seconds after the
  -- earliest instant on: while a drone's last message about a cluster said that it is ready, less
  -- than five seconds ago, a request for that cluster is given a drone.
  pub schedule_finds :
      (messages : List (ℕ × DroneStatusMessage)) (c : ClusterName) (now : ℕ) (d : DroneId) (t : ℕ)
      → 5 * second ≤ now
      → seen_after messages c d ≡ some t
      → now < t + 5 * second
      → (d' : DroneId) × (schedule choose (after messages) c now ≡ some (ok d'))
  schedule_finds messages c now d t h e lt = elim (schedule_picks (after messages) c now h) [
    | inl (p, _) ↦
        let r = after-Tracks messages in
        absurd (
          rw (choice.finds _ p) at (
            drone_ids-In (now - 5 * second) d t (cluster_map (after messages) c)
              (Assoc.In_of_get DroneId_discrete d t _ (r.same c d ∙ e)) (omega arith)))
    | inr (d', p, f) ↦ (d', f)
  ]
