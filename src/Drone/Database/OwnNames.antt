-- ===== src/Drone/Database/OwnNames.antt =====
-- The routes that the executor inserts: a backend's subdomain is its identifier.
use spawner.Prelude.{
  ℕ, ◌≡◌, ◌≢◌, refl, sym, ◌∙◌, List, [], ◌∷◌, ◌++◌, none, some, inl, inr, All, All-append, All-In,
  arith, Option-cases,
}
use spawner.Prelude.Result.{ok}
use spawner.Prelude.Text.{Text, codes}
use spawner.Types.{BackendId}
use spawner.Messages.Agent.{BackendState, ready, to_string}
use spawner.Drone.Database.{
  BackendRow, RouteRow, DroneDatabase, find_backend, set_state, update_backend_state, find_route,
  get_proxy_route, drop_conflicts, insert_proxy_route,
}
use spawner.Drone.Database.Routes.{
  IsUnique, OwnName, find_backend-set_state, drop_conflicts-All, drop_conflicts-clear,
  replace-IsUnique, find_route_sound,
}
use spawner.Drone.Database.History.{after, backend_ready_row}

pub record Inv (db : DroneDatabase) : Type 0 where
  pub unique : IsUnique db.routes
  pub own_name : OwnName db.routes

pub insert_proxy_route-Inv :
    (db : DroneDatabase) (b : BackendId) (addr : Text) (now : ℕ)
    → Inv db
    → Inv (after db (insert_proxy_route db b b.id addr now))
unfolding insert_proxy_route
insert_proxy_route-Inv db b addr now v = elim (Option-cases (find_backend b.id db.backends)) [
  | inl e ↦ rw (e, after) v
  | inr (r, e) ↦
      rw (e, after)
        (record {
          unique = replace-IsUnique b.id addr _ db.routes refl refl v.unique;
          own_name =
              All-append _ _ _ (drop_conflicts-All _ b.id addr db.routes v.own_name) (refl, tt);
        })
]

pub ready_of_name : (s : BackendState) → to_string s ≡ codes "Ready" → s ≡ ready
unfolding to_string
ready_of_name ready e = refl
ready_of_name _ e = ground arith

pub routed_ready :
    (db : DroneDatabase) (sub addr : Text)
    → Inv db
    → get_proxy_route db sub ≡ some addr
    → (row : BackendRow) × (find_backend sub db.backends ≡ some row) × (row.state ≡ codes "Ready")
unfolding get_proxy_route
routed_ready db sub addr v h =
    let (r, i, s, a, live) = find_route_sound db.backends sub addr db.routes h in
    let name : r.backend ≡ sub = sym (All-In _ db.routes r v.own_name i) ∙ s in
    backend_ready_row sub db.backends (rw name at live)

update-not_ready :
    (db : DroneDatabase) (b : BackendId) (s : BackendState) (addr : Text)
    → Inv db
    → s ≢ ready
    → get_proxy_route (update_backend_state db b s) b.id ≢ some addr
unfolding update_backend_state
update-not_ready db b s addr v h e =
    let (row, f, t) =
      routed_ready (update_backend_state db b s) b.id addr
        (record { unique = v.unique; own_name = v.own_name }) e in
    h (ready_of_name s (ground (arith, find_backend-set_state (to_string s) b.id b.id db.backends)))

-- Where routes have their backends' names, once a backend is moved to another state than `ready` its
-- subdomain is routed nowhere.
pub update_unrouted :
    (db : DroneDatabase) (b : BackendId) (s : BackendState)
    → Inv db
    → s ≢ ready
    → get_proxy_route (update_backend_state db b s) b.id ≡ none
update_unrouted db b s v h =
    elim (Option-cases (get_proxy_route (update_backend_state db b s) b.id)) [
      | inl e ↦ e
      | inr (addr, e) ↦ absurd (update-not_ready db b s addr v h e)
    ]

find_route-append :
    (rows : List BackendRow) (sub : Text) (xs ys : List RouteRow)
    → All (λ q. (q.subdomain ≢ sub)) xs
    → find_route rows sub (xs ++ ys) ≡ find_route rows sub ys
unfolding find_route
find_route-append rows sub [] ys h = refl
find_route-append rows sub (r ∷ xs) ys (h, hs) = ground (arith, find_route-append rows sub xs ys hs)

All-fst :
    (sub addr : Text) (xs : List RouteRow)
    → All (λ q. (q.subdomain ≢ sub) × (q.address ≢ addr)) xs
    → All (λ q. (q.subdomain ≢ sub)) xs
All-fst sub addr [] h = tt
All-fst sub addr (r ∷ xs) (h, hs) = (h.0, All-fst sub addr xs hs)

-- Once the route of a backend is inserted, moving the backend to `ready` routes its subdomain to the
-- new address, whatever routes the table held before.
pub insert-update_routed :
    (db db' : DroneDatabase) (b : BackendId) (addr : Text) (now : ℕ)
    → insert_proxy_route db b b.id addr now ≡ ok db'
    → get_proxy_route (update_backend_state db' b ready) b.id ≡ some addr
unfolding get_proxy_route update_backend_state insert_proxy_route find_route to_string
insert-update_routed db db' b addr now h = elim (Option-cases (find_backend b.id db.backends)) [
  | inl e ↦ absurd (ground arith)
  | inr (row, e) ↦
      let rows = set_state (to_string ready) b.id db.backends in
      let q : RouteRow = record {
        backend = b.id;
        subdomain = b.id;
        address = addr;
        last_active = now;
      } in
      let same : db' ≡ record db { routes = drop_conflicts b.id addr db.routes ++ q ∷ [] } =
        ground arith in
      rw same (
        find_route-append rows b.id (drop_conflicts b.id addr db.routes) (q ∷ [])
          (All-fst b.id addr _ (drop_conflicts-clear b.id addr db.routes))
        ∙ ground (arith, find_backend-set_state (to_string ready) b.id b.id db.backends))
]
