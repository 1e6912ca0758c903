-- ===== src/Drone/Proxy/Tracker.antt =====
-- drone/src/proxy/connection_tracker.rs. A set is a map to the unit type; the iteration order of the
-- maps is that of the lists. The counts are `u32`, with their wrap-around.
pub mod History
use spawner.Prelude.{ℕ, ◌+◌, ◌%◌, List, [], ◌∷◌, Option, none, some, map, ite, ℕ_discrete}
use spawner.Prelude.Assoc
use spawner.Prelude.Text.{Text, Text_discrete}

abbrev pub u32_size : ℕ
u32_size = 4294967296

abbrev pub DashMultiset : Type 0
DashMultiset = List (Text × ℕ)

unfoldable pub add : DashMultiset → Text → DashMultiset
add map backend = elim (Assoc.get Text_discrete backend map) [
  | none ↦ Assoc.insert Text_discrete backend 1 map
  | some d ↦ Assoc.insert Text_discrete backend ((d + 1) % u32_size) map
]

unfoldable pub remove : DashMultiset → Text → DashMultiset
remove map backend = elim (Assoc.get Text_discrete backend map) [
  | none ↦ map
  | some d ↦
      let d' = (d + 4294967295) % u32_size in
      ite (ℕ_discrete d' 0) (Assoc.remove Text_discrete backend map)
        (Assoc.insert Text_discrete backend d' map)
]

pub record ConnectionTracker : Type 0 where
  pub request_events : List (Text × Unit {0})
  pub long_lived_connections : DashMultiset

abbrev pub default : ConnectionTracker
default = record { request_events = []; long_lived_connections = [] }

unfoldable pub track_request : ConnectionTracker → Text → ConnectionTracker
track_request t backend = record t {
  request_events = Assoc.insert Text_discrete backend tt t.request_events;
}

unfoldable pub increment_connections : ConnectionTracker → Text → ConnectionTracker
increment_connections t backend = record t {
  long_lived_connections = add t.long_lived_connections backend;
}

unfoldable pub decrement_connections : ConnectionTracker → Text → ConnectionTracker
decrement_connections t backend = record t {
  long_lived_connections = remove t.long_lived_connections backend;
}

unfoldable pub insert_keys : DashMultiset → List (Text × Unit {0}) → List (Text × Unit {0})
insert_keys [] events = events
insert_keys ((conn, d) ∷ conns) events =
    insert_keys conns (Assoc.insert Text_discrete conn tt events)

-- The clone of the events is a clone of a reference: it is the same set.
unfoldable pub get_and_clear_active_backends : ConnectionTracker → List Text × ConnectionTracker
unfolding insert_keys
get_and_clear_active_backends t =
    let request_events = insert_keys t.long_lived_connections t.request_events in
    (map (λ d. d.0) request_events, record t { request_events = [] })
