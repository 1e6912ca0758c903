-- ===== src/Drone/Database.antt =====
-- drone/src/database.rs, with the tables of drone/migrations. A table is the list of its rows in the
-- order of insertion. `unixepoch()` is the argument `now`. An operation that SQLite can fail for
-- another reason than a constraint has that failure among the answers of its caller's environment.
pub mod Routes
pub mod History
pub mod OwnNames
use spawner.Prelude.{
  ℕ, suc, List, [], ◌∷◌, ◌++◌, map, filter, Option, none, some, Bool, true, false, not, ◌||◌, ◌&&◌,
  ite, if◌then◌else◌,
}
use spawner.Prelude.Result.{Result, ok, err, ◌>>=◌, ◌>>◌}
use spawner.Prelude.Text.{Text, codes, Text_discrete}
use spawner.Types.{BackendId}
use spawner.Messages.Agent.{BackendState, SpawnRequest, to_string, from_str}

pub record BackendRow : Type 0 where
  pub name : Text
  pub spec : Text
  pub state : Text

pub record RouteRow : Type 0 where
  pub backend : Text
  pub subdomain : Text
  pub address : Text
  pub last_active : ℕ

pub record DroneDatabase : Type 0 where
  pub backends : List BackendRow
  pub routes : List RouteRow

pub record Backend : Type 0 where
  pub backend_id : BackendId
  pub state : BackendState
  pub spec : SpawnRequest

pub data DbError : Type 0 where
  unique_violation foreign_key_violation row_not_found bad_spec : DbError
  bad_state : Text → DbError

abbrev pub text_eq : Text → Text → Bool
text_eq s t = ite (Text_discrete s t) true false

unfoldable pub find_backend : Text → List BackendRow → Option BackendRow
find_backend n [] = none
find_backend n (r ∷ rows) = ite (Text_discrete r.name n) (some r) (find_backend n rows)

-- `serialize` is `serde_json::to_string`. The name is the primary key.
unfoldable pub insert_backend :
    (SpawnRequest → Text) → DroneDatabase → SpawnRequest → Result DbError DroneDatabase
insert_backend serialize db spec = elim (find_backend spec.backend_id.id db.backends) [
  | some r ↦ err unique_violation
  | none ↦ ok (record db {
    backends =
        db.backends
        ++ record { name = spec.backend_id.id; spec = serialize spec; state = codes "Loading" }
          ∷ [];
  })
]

abbrev pub is_live : Text → Bool
is_live state =
    text_eq state (codes "Loading")
    || (text_eq state (codes "Starting") || text_eq state (codes "Ready"))

unfoldable pub running_backends : List BackendRow → ℕ
running_backends [] = 0
running_backends (r ∷ rows) =
    if is_live r.state then suc (running_backends rows) else running_backends rows

abbrev pub read_backend : (Text → Option SpawnRequest) → BackendRow → Result DbError Backend
read_backend deserialize r = elim (deserialize r.spec) [
  | none ↦ err bad_spec
  | some spec ↦ elim (from_str r.state) [
    | err s ↦ err (bad_state s)
    | ok state ↦ ok (record { backend_id = record { id = r.name }; state = state; spec = spec })
  ]
]

-- `collect` into a `Result` stops at the first row that cannot be read.
unfoldable pub get_backends :
    (Text → Option SpawnRequest) → List BackendRow → Result DbError (List Backend)
get_backends deserialize [] = ok []
get_backends deserialize (r ∷ rows) = do
  b ← read_backend deserialize r
  rest ← get_backends deserialize rows
  ok (b ∷ rest)

unfoldable pub set_state : Text → Text → List BackendRow → List BackendRow
set_state state n [] = []
set_state state n (r ∷ rows) =
    (if text_eq r.name n then record r { state = state } else r) ∷ set_state state n rows

-- An update that matches no row is no error.
unfoldable pub update_backend_state : DroneDatabase → BackendId → BackendState → DroneDatabase
update_backend_state db b state = record db {
  backends = set_state (to_string state) b.id db.backends;
}

-- The joined row is kept where the backend's state is 'Ready'; a route without a backend has no
-- state.
abbrev pub backend_ready : List BackendRow → Text → Bool
backend_ready rows n = elim (find_backend n rows) [
  | none ↦ false
  | some b ↦ text_eq b.state (codes "Ready")
]

unfoldable pub find_route : List BackendRow → Text → List RouteRow → Option Text
find_route rows sub [] = none
find_route rows sub (r ∷ routes) =
    if text_eq r.subdomain sub && backend_ready rows r.backend
    then some r.address
    else find_route rows sub routes

unfoldable pub get_proxy_route : DroneDatabase → Text → Option Text
get_proxy_route db sub = find_route db.backends sub db.routes

-- `insert or replace`: the rows that hold the subdomain or the address go.
unfoldable pub drop_conflicts : Text → Text → List RouteRow → List RouteRow
drop_conflicts sub addr [] = []
drop_conflicts sub addr (r ∷ routes) =
    if text_eq r.subdomain sub || text_eq r.address addr
    then drop_conflicts sub addr routes
    else r ∷ drop_conflicts sub addr routes

-- The backend is a foreign key, which `sqlx` has SQLite enforce.
unfoldable pub insert_proxy_route :
    DroneDatabase → BackendId → Text → Text → ℕ → Result DbError DroneDatabase
insert_proxy_route db b sub addr now = elim (find_backend b.id db.backends) [
  | none ↦ err foreign_key_violation
  | some row ↦ ok (record db {
    routes =
        drop_conflicts sub addr db.routes
        ++ record { backend = b.id; subdomain = sub; address = addr; last_active = now } ∷ [];
  })
]

unfoldable pub touch : Text → ℕ → List RouteRow → List RouteRow
touch sub now [] = []
touch sub now (r ∷ routes) =
    (if text_eq r.subdomain sub then record r { last_active = now } else r) ∷ touch sub now routes

-- One update for each subdomain, each with the time at which it runs.
unfoldable pub reset_last_active_times : DroneDatabase → List (Text × ℕ) → DroneDatabase
reset_last_active_times db [] = db
reset_last_active_times db ((sub, now) ∷ subs) =
    reset_last_active_times (record db { routes = touch sub now db.routes }) subs

unfoldable pub last_active_of : Text → List RouteRow → Option ℕ
last_active_of n [] = none
last_active_of n (r ∷ routes) =
    if text_eq r.backend n then some r.last_active else last_active_of n routes

unfoldable pub get_backend_last_active : DroneDatabase → BackendId → Result DbError ℕ
get_backend_last_active db b = elim (last_active_of b.id db.routes) [
  | none ↦ err row_not_found
  | some t ↦ ok t
]
