-- ===== src/Drone/Database/Routes.antt =====
-- What the queries on the tables return after the updates.
use spawner.Prelude.{
  ℕ, ◌≡◌, ◌≢◌, refl, sym, ap, ◌∙◌, List, [], ◌∷◌, ◌++◌, none, some, true, inl, inr, ◌||◌, ◌&&◌,
  if◌then◌else◌, In, All, All-append, All-In, if_cases, arith, Bool-cases,
}
use spawner.Prelude.Text.{Text}
use spawner.Drone.Database.{
  BackendRow, RouteRow, text_eq, find_backend, set_state, backend_ready, find_route, drop_conflicts,
  touch,
}

-- No two routes share a subdomain or an address.
abbrev pub IsUnique : List RouteRow → Type 0
IsUnique [] = Unit
IsUnique (r ∷ routes) =
    All (λ q. (q.subdomain ≢ r.subdomain) × (q.address ≢ r.address)) routes × IsUnique routes

-- The executor routes the subdomain that a backend is called by.
abbrev pub OwnName : List RouteRow → Type 0
OwnName = All λ r. r.subdomain ≡ r.backend

pub find_backend-set_state :
    (state n m : Text) (rows : List BackendRow)
    → find_backend m (set_state state n rows) ≡ elim (find_backend m rows) [
      | none ↦ none
      | some r ↦ some (if text_eq m n then record r { state = state } else r)
    ]
unfolding find_backend set_state
find_backend-set_state state n m [] = refl
find_backend-set_state state n m (r ∷ rows) = ground (arith, find_backend-set_state state n m rows)

module _ (P : RouteRow → Type 0) where
  pub drop_conflicts-All :
      (sub addr : Text) (routes : List RouteRow)
      → All P routes
      → All P (drop_conflicts sub addr routes)
  unfolding drop_conflicts
  drop_conflicts-All sub addr [] h = tt
  drop_conflicts-All sub addr (r ∷ routes) (h, hs) =
      if_cases (All P) (text_eq r.subdomain sub || text_eq r.address addr)
        (drop_conflicts sub addr routes) (r ∷ drop_conflicts sub addr routes)
        (λ _. drop_conflicts-All sub addr routes hs)
        (λ _. (h, drop_conflicts-All sub addr routes hs))

  pub touch-All :
      (sub : Text) (now : ℕ) (routes : List RouteRow)
      → ((r : RouteRow) → P r → P (record r { last_active = now }))
      → All P routes
      → All P (touch sub now routes)
  unfolding touch
  touch-All sub now [] keep h = tt
  touch-All sub now (r ∷ routes) keep (h, hs) =
      (if_cases P _ _ _ (λ _. keep r h) (λ _. h), touch-All sub now routes keep hs)

pub drop_conflicts-clear :
    (sub addr : Text) (routes : List RouteRow)
    → All (λ q. (q.subdomain ≢ sub) × (q.address ≢ addr)) (drop_conflicts sub addr routes)
unfolding drop_conflicts
drop_conflicts-clear sub addr [] = tt
drop_conflicts-clear sub addr (r ∷ routes) =
    if_cases (All (λ q. (q.subdomain ≢ sub) × (q.address ≢ addr)))
      (text_eq r.subdomain sub || text_eq r.address addr) (drop_conflicts sub addr routes)
      (r ∷ drop_conflicts sub addr routes) (λ _. drop_conflicts-clear sub addr routes)
      (λ h. ((λ e. ground arith, λ e. ground arith), drop_conflicts-clear sub addr routes))

pub drop_conflicts-IsUnique :
    (sub addr : Text) (routes : List RouteRow)
    → IsUnique routes
    → IsUnique (drop_conflicts sub addr routes)
unfolding drop_conflicts
drop_conflicts-IsUnique sub addr [] h = tt
drop_conflicts-IsUnique sub addr (r ∷ routes) (h, hs) =
    if_cases IsUnique (text_eq r.subdomain sub || text_eq r.address addr)
      (drop_conflicts sub addr routes) (r ∷ drop_conflicts sub addr routes)
      (λ _. drop_conflicts-IsUnique sub addr routes hs)
      (λ _. (drop_conflicts-All _ sub addr routes h, drop_conflicts-IsUnique sub addr routes hs))

All-clear :
    (q : RouteRow) (routes : List RouteRow)
    → All (λ r. (r.subdomain ≢ q.subdomain) × (r.address ≢ q.address)) routes
    → IsUnique routes
    → IsUnique (routes ++ q ∷ [])
All-clear q [] c h = (tt, tt)
All-clear q (r ∷ routes) ((s, a), cs) (h, hs) = (
  All-append _ routes (q ∷ []) h ((λ e. s (sym e), λ e. a (sym e)), tt),
  All-clear q routes cs hs,
)

pub replace-IsUnique :
    (sub addr : Text) (q : RouteRow) (routes : List RouteRow)
    → q.subdomain ≡ sub
    → q.address ≡ addr
    → IsUnique routes
    → IsUnique (drop_conflicts sub addr routes ++ q ∷ [])
replace-IsUnique sub addr q routes e f h =
    All-clear q _ (rw (e, f) (drop_conflicts-clear sub addr routes))
      (drop_conflicts-IsUnique sub addr routes h)

pub touch-IsUnique :
    (sub : Text) (now : ℕ) (routes : List RouteRow)
    → IsUnique routes
    → IsUnique (touch sub now routes)
unfolding touch
touch-IsUnique sub now [] h = tt
touch-IsUnique sub now (r ∷ routes) (h, hs) = (
  if_cases
      (λ (x : RouteRow).
        All (λ q. (q.subdomain ≢ x.subdomain) × (q.address ≢ x.address)) (touch sub now routes))
      (text_eq r.subdomain sub) (record r { last_active = now }) r
      (λ _. touch-All _ sub now routes (λ q k. k) h) (λ _. touch-All _ sub now routes (λ q k. k) h),
  touch-IsUnique sub now routes hs,
)

-- What a route leads to is the address of a row of that subdomain, whose backend is ready.
pub find_route_sound :
    (rows : List BackendRow) (sub addr : Text) (routes : List RouteRow)
    → find_route rows sub routes ≡ some addr
    → (r : RouteRow) × In r routes
      × (r.subdomain ≡ sub)
      × (r.address ≡ addr)
      × (backend_ready rows r.backend ≡ true)
unfolding find_route
find_route_sound rows sub addr [] h = cc
find_route_sound rows sub addr (r ∷ routes) h =
    elim (Bool-cases (text_eq r.subdomain sub && backend_ready rows r.backend)) [
      | inl e ↦ (r, inl refl, ground arith, ground arith, ground arith)
      | inr e ↦
          let (q, i, a, b, c) = find_route_sound rows sub addr routes (ground arith) in
          (q, inr i, a, b, c)
    ]

pub IsUnique-address :
    (routes : List RouteRow) (q r : RouteRow)
    → IsUnique routes
    → In q routes
    → In r routes
    → q.address ≡ r.address
    → q ≡ r
IsUnique-address [] q r h i j e = elim i [ ]
IsUnique-address (p ∷ routes) q r (h, hs) (inl a) (inl b) e = a ∙ sym b
IsUnique-address (p ∷ routes) q r (h, hs) (inl a) (inr j) e =
    absurd ((All-In _ routes r h j).1 (sym e ∙ ap (λ (x : RouteRow). x.address) a))
IsUnique-address (p ∷ routes) q r (h, hs) (inr i) (inl b) e =
    absurd ((All-In _ routes q h i).1 (e ∙ ap (λ (x : RouteRow). x.address) b))
IsUnique-address (p ∷ routes) q r (h, hs) (inr i) (inr j) e = IsUnique-address routes q r hs i j e
