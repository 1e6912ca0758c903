-- ===== src/Ttl/TtlMap/History.antt =====
-- What a history of calls on a `TtlMap` returns.
use spawner.Prelude.{
  ℕ, ◌+◌, ◌≤◌, ◌≡◌, refl, List, [], ◌∷◌, ◌++◌, Option, none, some, ite, inl, inr, In,
  In-append_left, In-append_right, All, All-append, arith, Option-cases,
}
use spawner.Prelude.Assoc
use spawner.Ttl.TtlMap.{TtlMap, new, insert, compact, get, value_of}
use spawner.Ttl.TtlMap.Sweep.{
  IsSorted, live, get-sweep, is_due_of_expired, In-sweep, All-sweep, sweep-IsSorted,
}

pub data Call (K V : Type 0) : Type 0 where
  inserts : K → V → ℕ → Call K V
  reads : K → ℕ → Call K V

abbrev pub time_of : {K V : Type 0} → Call K V → ℕ
time_of (inserts k v t) = t
time_of (reads k t) = t

-- The calls come in the order of time, between `now` and `until`.
abbrev pub InOrder : {K V : Type 0} → ℕ → ℕ → List (Call K V) → Type 0
InOrder now until [] = now ≤ until
InOrder now until (c ∷ calls) = (now ≤ time_of c) × InOrder (time_of c) until calls

All-mono :
    {K : Type 0} (a b : ℕ) (queue : List (ℕ × K))
    → a ≤ b
    → All (λ (e : ℕ × K). e.0 ≤ a) queue
    → All (λ (e : ℕ × K). e.0 ≤ b) queue
All-mono a b [] h s = tt
All-mono a b (e ∷ queue) h (x, s) = (omega arith, All-mono a b queue h s)

IsSorted-snoc :
    {K : Type 0} (t : ℕ) (k : K) (queue : List (ℕ × K))
    → IsSorted queue
    → All (λ (e : ℕ × K). e.0 ≤ t) queue
    → IsSorted (queue ++ (t, k) ∷ [])
IsSorted-snoc t k [] s h = (tt, tt)
IsSorted-snoc t k ((u, j) ∷ queue) (a, s) (le, h) =
    (All-append _ queue ((t, k) ∷ []) a (le, tt), IsSorted-snoc t k queue s h)

module _ {K V : Type 0} (dec : Discrete K) where
  unfoldable pub step : TtlMap K V → Call K V → TtlMap K V
  step m (inserts k v t) = insert dec m k v t
  step m (reads k t) = (get dec m k t).1

  unfoldable pub run : TtlMap K V → List (Call K V) → TtlMap K V
  run m [] = m
  run m (c ∷ calls) = run (step m c) calls

  -- The last insertion of a key, with its expiry, after the calls. Nothing is ever forgotten.
  abbrev pub note : ℕ → (K → Option (ℕ × V)) → Call K V → K → Option (ℕ × V)
  note ttl last (inserts k v t) = λ j. ite (dec j k) (some (t + ttl, v)) (last j)
  note ttl last (reads k t) = last

  unfoldable pub latest : ℕ → (K → Option (ℕ × V)) → List (Call K V) → K → Option (ℕ × V)
  latest ttl last [] = last
  latest ttl last (c ∷ calls) = latest ttl (note ttl last c) calls

  pub record Tracks (now ttl : ℕ) (m : TtlMap K V) (last : K → Option (ℕ × V)) : Type 0 where
    pub same_ttl : m.ttl ≡ ttl
    pub swept : m.last_compaction ≤ now
    pub bounded : All (λ e. e.0 ≤ now + ttl) m.queue
    pub sorted : IsSorted m.queue
    pub queued :
        (k : K) (t : ℕ) (v : V) → Assoc.get dec k m.inner_map ≡ some (t, v) → In (t, k) m.queue
    pub same : (k : K) → Assoc.get dec k m.inner_map ≡ live m.last_compaction (last k)

  live_later : (c d : ℕ) (o : Option (ℕ × V)) → c ≤ d → live d (live c o) ≡ live d o
  live_later c d none h = refl
  live_later c d (some (t, v)) h = ground arith

  live-compact :
      {now ttl : ℕ} {m : TtlMap K V} {last : K → Option (ℕ × V)} (t : ℕ) (k : K)
      → now ≤ t
      → Tracks now ttl m last
      → Assoc.get dec k (compact dec m t).inner_map ≡ live t (last k)
  unfolding compact
  live-compact {m} {last} t k h r = elim (Option-cases (Assoc.get dec k m.inner_map)) [
    | inl e ↦
        rw (get-sweep dec t k m.queue m.inner_map, e)
          (ground
            (arith, live_later m.last_compaction t (last k) (omega (arith, r.swept)), r.same k))
    | inr ((u, v), e) ↦ ground (
      arith,
      get-sweep dec t k m.queue m.inner_map,
      r.same k,
      live_later m.last_compaction t (last k) (omega (arith, r.swept)),
      is_due_of_expired dec t k u m.queue r.sorted (r.queued k u v e),
    )
  ]

  survivor :
      {now ttl : ℕ} {m : TtlMap K V} {last : K → Option (ℕ × V)} (t : ℕ) (k : K) (u : ℕ) (v : V)
      → now ≤ t
      → Tracks now ttl m last
      → Assoc.get dec k (compact dec m t).inner_map ≡ some (u, v)
      → (Assoc.get dec k m.inner_map ≡ some (u, v)) × (t ≤ u)
  unfolding compact
  survivor {m} {last} t k u v h r e =
      ground (arith, live-compact t k h r, get-sweep dec t k m.queue m.inner_map)

  Tracks-get :
      {now ttl : ℕ} {m : TtlMap K V} {last : K → Option (ℕ × V)} (k : K) (t : ℕ)
      → now ≤ t
      → Tracks now ttl m last
      → Tracks t ttl (get dec m k t).1 last
  unfolding get compact
  Tracks-get {now} {ttl} {m} {last} k t h r = record {
    same_ttl = r.same_ttl;
    swept = omega arith;
    bounded =
        All-sweep dec _ t m.queue m.inner_map
          (All-mono (now + ttl) (t + ttl) m.queue (omega arith) r.bounded);
    sorted = sweep-IsSorted dec t m.queue m.inner_map r.sorted;
    queued = λ j u v e.
        let (kept, le) = survivor t j u v h r e in
        In-sweep dec t j u m.queue m.inner_map (r.queued j u v kept) le;
    same = λ j. live-compact t j h r;
  }

  Tracks-insert :
      {now ttl : ℕ} {m : TtlMap K V} {last : K → Option (ℕ × V)} (k : K) (v : V) (t : ℕ)
      → now ≤ t
      → Tracks now ttl m last
      → Tracks t ttl (insert dec m k v t) (λ j. ite (dec j k) (some (t + ttl, v)) (last j))
  unfolding insert
  Tracks-insert {now} {ttl} {m} {last} k v t h r = record {
    same_ttl = r.same_ttl;
    swept = omega (arith, r.swept);
    bounded =
        All-append _ m.queue _ (All-mono (now + ttl) (t + ttl) m.queue (omega arith) r.bounded)
          (omega (arith, r.same_ttl), tt);
    sorted =
        IsSorted-snoc _ k m.queue r.sorted
          (All-mono (now + ttl) (t + m.ttl) m.queue (omega (arith, r.same_ttl)) r.bounded);
    queued = λ j u w e. elim (dec j k) [
      | yes here ↦
          In-append_right _ m.queue _
            (ground (arith, Assoc.get-insert dec j k (t + m.ttl, v) m.inner_map))
      | no other ↦
          In-append_left _ m.queue _
            (r.queued j u w (ground (arith, Assoc.get-insert dec j k (t + m.ttl, v) m.inner_map)))
    ];
    same = λ j.
        ground (
          arith,
          Assoc.get-insert dec j k (t + m.ttl, v) m.inner_map,
          r.same j,
          r.same_ttl,
          r.swept,
        );
  }

  Tracks-step :
      {now ttl : ℕ} {m : TtlMap K V} {last : K → Option (ℕ × V)} (c : Call K V)
      → now ≤ time_of c
      → Tracks now ttl m last
      → Tracks (time_of c) ttl (step m c) (note ttl last c)
  unfolding step
  Tracks-step (inserts k v t) h r = Tracks-insert k v t h r
  Tracks-step (reads k t) h r = Tracks-get k t h r

  get-run_from :
      (k : K) (until : ℕ) (calls : List (Call K V)) {now ttl : ℕ} {m : TtlMap K V}
      {last : K → Option (ℕ × V)}
      → Tracks now ttl m last
      → InOrder now until calls
      → (get dec (run m calls) k until).0 ≡ value_of (live until (latest ttl last calls k))
  unfolding run latest get
  get-run_from k until [] r o = rw (live-compact until k o r)
  get-run_from k until (c ∷ calls) r (h, o) = get-run_from k until calls (Tracks-step c h r) o

  new-Tracks : (ttl : ℕ) → Tracks 0 ttl (new ttl) (λ k. none)
  unfolding new Assoc.get
  new-Tracks ttl = record {
    same_ttl = refl;
    swept = omega arith;
    bounded = tt;
    sorted = tt;
    queued = λ k t v e. cc;
    same = λ k. refl;
  }

  -- After any calls on a new map that come in the order of time, a read of a key at `until` yields
  -- the value of the last insertion of that key if `until` is not past its expiry, and nothing
  -- otherwise: compaction never drops a renewed or a live entry, and never leaves an expired one.
  pub get-run :
      (ttl until : ℕ) (k : K) (calls : List (Call K V))
      → InOrder 0 until calls
      → (get dec (run (new ttl) calls) k until).0
        ≡ value_of (live until (latest ttl (λ j. none) calls k))
  get-run ttl until k calls o = get-run_from k until calls (new-Tracks ttl) o
