-- ===== src/Drone/Database/History.antt =====
-- The database under any sequence of the calls that the agent and the proxy make.
use spawner.Prelude.{
  ℕ, ◌≡◌, refl, sym, ap, subst, In, ◌∙◌, List, [], ◌∷◌, some, true, inl, inr, All, All-append,
  All-In, arith, Option-cases,
}
use spawner.Prelude.Result.{Result, ok, err}
use spawner.Prelude.Text.{Text, codes}
use spawner.Types.{BackendId}
use spawner.Messages.Agent.{BackendState, SpawnRequest}
use spawner.Drone.Database.{
  BackendRow, RouteRow, DroneDatabase, DbError, find_backend, insert_backend, update_backend_state,
  backend_ready, get_proxy_route, insert_proxy_route, touch, reset_last_active_times,
}
use spawner.Drone.Database.Routes.{
  IsUnique, drop_conflicts-All, touch-All, replace-IsUnique, touch-IsUnique, find_route_sound,
  IsUnique-address,
}

-- A route has a backend, a subdomain and an address. The executor gives it the backend's identifier
-- for a subdomain.
pub data Call : Type 0 where
  inserts : SpawnRequest → Call
  updates : BackendId → BackendState → Call
  routes : BackendId → Text → Text → ℕ → Call
  touches : List (Text × ℕ) → Call

abbrev pub empty : DroneDatabase
empty = record { backends = []; routes = [] }

-- A call that fails leaves the database as it was.
abbrev pub after : DroneDatabase → Result DbError DroneDatabase → DroneDatabase
after db (ok db') = db'
after db (err e) = db

module _ (serialize : SpawnRequest → Text) where
  unfoldable pub step : DroneDatabase → Call → DroneDatabase
  step db (inserts spec) = after db (insert_backend serialize db spec)
  step db (updates b s) = update_backend_state db b s
  step db (routes b sub addr now) = after db (insert_proxy_route db b sub addr now)
  step db (touches subs) = reset_last_active_times db subs

  unfoldable pub run : DroneDatabase → List Call → DroneDatabase
  run db [] = db
  run db (c ∷ calls) = run (step db c) calls

-- Where a table of routes keeps subdomains and addresses apart, it does so after every call.
insert_proxy_route-IsUnique :
    (db : DroneDatabase) (b : BackendId) (sub addr : Text) (now : ℕ)
    → IsUnique db.routes
    → IsUnique (after db (insert_proxy_route db b sub addr now)).routes
unfolding insert_proxy_route
insert_proxy_route-IsUnique db b sub addr now v =
    elim (Option-cases (find_backend b.id db.backends)) [
      | inl e ↦ rw (e, after) v
      | inr (r, e) ↦ rw (e, after) (replace-IsUnique sub addr _ db.routes refl refl v)
    ]

reset-IsUnique :
    (db : DroneDatabase) (subs : List (Text × ℕ))
    → IsUnique db.routes
    → IsUnique (reset_last_active_times db subs).routes
unfolding reset_last_active_times
reset-IsUnique db [] v = v
reset-IsUnique db ((sub, now) ∷ subs) v =
    reset-IsUnique (record db { routes = touch sub now db.routes }) subs
      (touch-IsUnique sub now db.routes v)

insert_backend-routes :
    (serialize : SpawnRequest → Text) (db : DroneDatabase) (spec : SpawnRequest)
    → (after db (insert_backend serialize db spec)).routes ≡ db.routes
unfolding insert_backend
insert_backend-routes serialize db spec = ground arith

run-IsUnique :
    (serialize : SpawnRequest → Text) (db : DroneDatabase) (calls : List Call)
    → IsUnique db.routes
    → IsUnique (run serialize db calls).routes
unfolding run step update_backend_state
run-IsUnique serialize db [] v = v
run-IsUnique serialize db (inserts spec ∷ calls) v =
    run-IsUnique serialize (after db (insert_backend serialize db spec)) calls
      (subst IsUnique (sym (insert_backend-routes serialize db spec)) v)
run-IsUnique serialize db (updates b s ∷ calls) v =
    run-IsUnique serialize (update_backend_state db b s) calls v
run-IsUnique serialize db (routes b sub addr now ∷ calls) v =
    run-IsUnique serialize (after db (insert_proxy_route db b sub addr now)) calls
      (insert_proxy_route-IsUnique db b sub addr now v)
run-IsUnique serialize db (touches subs ∷ calls) v =
    run-IsUnique serialize (reset_last_active_times db subs) calls (reset-IsUnique db subs v)

-- What holds of the backend, the subdomain and the address of each route that is inserted holds of
-- every route.
module _ (P : Text → Text → Text → Type 0) where
  abbrev Holds : RouteRow → Type 0
  Holds r = P r.backend r.subdomain r.address

  insert_proxy_route-Holds :
      (db : DroneDatabase) (b : BackendId) (sub addr : Text) (now : ℕ)
      → P b.id sub addr
      → All Holds db.routes
      → All Holds (after db (insert_proxy_route db b sub addr now)).routes
  unfolding insert_proxy_route
  insert_proxy_route-Holds db b sub addr now p v =
      elim (Option-cases (find_backend b.id db.backends)) [
        | inl e ↦ rw (e, after) v
        | inr (r, e) ↦
            rw (e, after) (All-append _ _ _ (drop_conflicts-All _ sub addr db.routes v) (p, tt))
      ]

  reset-Holds :
      (db : DroneDatabase) (subs : List (Text × ℕ))
      → All Holds db.routes
      → All Holds (reset_last_active_times db subs).routes
  unfolding reset_last_active_times
  reset-Holds db [] v = v
  reset-Holds db ((sub, now) ∷ subs) v =
      reset-Holds (record db { routes = touch sub now db.routes }) subs
        (touch-All _ sub now db.routes (λ r h. h) v)

  run-Holds :
      (serialize : SpawnRequest → Text) (db : DroneDatabase) (calls : List Call)
      → ((b : BackendId) (sub addr : Text) (now : ℕ)
          → In (routes b sub addr now) calls
          → P b.id sub addr)
      → All Holds db.routes
      → All Holds (run serialize db calls).routes
  unfolding run step update_backend_state
  run-Holds serialize db [] p v = v
  run-Holds serialize db (inserts spec ∷ calls) p v =
      run-Holds serialize (after db (insert_backend serialize db spec)) calls
        (λ b sub addr now i. p b sub addr now (inr i))
        (subst (All Holds) (sym (insert_backend-routes serialize db spec)) v)
  run-Holds serialize db (updates b s ∷ calls) p v =
      run-Holds serialize (update_backend_state db b s) calls
        (λ b sub addr now i. p b sub addr now (inr i)) v
  run-Holds serialize db (routes b sub addr now ∷ calls) p v =
      run-Holds serialize (after db (insert_proxy_route db b sub addr now)) calls
        (λ b sub addr now i. p b sub addr now (inr i))
        (insert_proxy_route-Holds db b sub addr now (p b sub addr now (inl refl)) v)
  run-Holds serialize db (touches subs ∷ calls) p v =
      run-Holds serialize (reset_last_active_times db subs) calls
        (λ b sub addr now i. p b sub addr now (inr i)) (reset-Holds db subs v)

pub backend_ready_row :
    (n : Text) (rows : List BackendRow)
    → backend_ready rows n ≡ true
    → (row : BackendRow) × (find_backend n rows ≡ some row) × (row.state ≡ codes "Ready")
backend_ready_row n rows live = elim (Option-cases (find_backend n rows)) [
  | inl e ↦ absurd (ground arith)
  | inr (row, e) ↦ (row, e, ground arith)
]

module _ (serialize : SpawnRequest → Text) (calls : List Call) where
  -- After any calls, two subdomains are never routed to one address: traffic for one subdomain
  -- does not reach another's, also where a container was given an address that an older route had.
  pub run_one_address :
      (sub sub' addr : Text)
      → get_proxy_route (run serialize empty calls) sub ≡ some addr
      → get_proxy_route (run serialize empty calls) sub' ≡ some addr
      → sub ≡ sub'
  unfolding get_proxy_route
  run_one_address sub sub' addr h h' =
      let db = run serialize empty calls in
      let (r, i, s, a, _) = find_route_sound db.backends sub addr db.routes h in
      let (r', i', s', a', _) = find_route_sound db.backends sub' addr db.routes h' in
      sym s
      ∙ ap (λ (x : RouteRow). x.subdomain)
          (IsUnique-address db.routes r r' (run-IsUnique serialize empty calls tt) i i'
            (a ∙ sym a'))
      ∙ s'

  -- After any calls, a subdomain that is routed to an address was given that address by one of the
  -- calls, as a route of a backend whose state is 'Ready' now.
  pub run_routed_ready :
      (sub addr : Text)
      → get_proxy_route (run serialize empty calls) sub ≡ some addr
      → (b : BackendId) × (now : ℕ) × In (routes b sub addr now) calls
        × (row : BackendRow) × (find_backend b.id (run serialize empty calls).backends ≡ some row)
        × (row.state ≡ codes "Ready")
  unfolding get_proxy_route
  run_routed_ready sub addr h =
      let db = run serialize empty calls in
      let (r, i, s, a, live) = find_route_sound db.backends sub addr db.routes h in
      let (row, f, t) = backend_ready_row r.backend db.backends live in
      let (b, now, e, at) =
        All-In _ db.routes r
          (run-Holds
            (λ n s a. (b : BackendId) × (now : ℕ) × (n ≡ b.id) × In (routes b s a now) calls)
            serialize empty calls (λ b s a now j. (b, now, refl, j)) tt)
          i in
      (
        b,
        now,
        subst (λ x. In (routes b x addr now) calls) s
            (subst (λ x. In (routes b r.subdomain x now) calls) a at),
        row,
        subst (λ n. find_backend n db.backends ≡ some row) e f,
        t,
      )
