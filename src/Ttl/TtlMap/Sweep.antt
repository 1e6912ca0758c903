-- ===== src/Ttl/TtlMap/Sweep.antt =====
-- What the compaction of a `TtlMap` removes.
use spawner.Prelude.{
  ℕ, ◌≤◌, ◌<◌, ◌≡◌, refl, List, [], ◌∷◌, Option, none, some, Bool, true, false, ite, dec_lt, dec_le,
  if_pos, if_neg, inl, inr, In, All, arith, if◌then◌else◌,
}
use spawner.Prelude.Assoc
use spawner.Ttl.TtlMap.{evict, sweep}

-- The queue stands in the order of expiry.
abbrev pub IsSorted {ℓ} : {K : Type ℓ} → List (ℕ × K) → Type 0
IsSorted [] = Unit
IsSorted ((t, k) ∷ queue) = All (λ e. t ≤ e.0) queue × IsSorted queue

-- The entry, unless it has expired.
abbrev pub live {ℓ} : {V : Type ℓ} → ℕ → Option (ℕ × V) → Option (ℕ × V)
live time none = none
live time (some (t, v)) = ite (dec_lt t time) none (some (t, v))

-- The key is popped.
pub is_due : {K : Type 0} (dec : Discrete K) → ℕ → K → List (ℕ × K) → Bool
is_due dec time k [] = false
is_due dec time k ((t, j) ∷ queue) =
    ite (dec_lt t time) (ite (dec k j) true (is_due dec time k queue)) false

In-expired :
    {K : Type 0} (t : ℕ) (j : K) (e : ℕ) (queue : List (ℕ × K))
    → All (λ x. t ≤ x.0) queue
    → In (e, j) queue
    → t ≤ e
In-expired t j e ((u, k) ∷ queue) (le, s) (inl p) = ground arith
In-expired t j e ((u, k) ∷ queue) (le, s) (inr p) = In-expired t j e queue s p
In-expired t j e [] s p = elim p [ ]

-- In a sorted queue every expired entry is popped.
pub is_due_of_expired :
    {K : Type 0} (dec : Discrete K) (time : ℕ) (j : K) (e : ℕ) (queue : List (ℕ × K))
    → IsSorted queue
    → In (e, j) queue
    → e < time
    → is_due dec time j queue ≡ true
unfolding is_due
is_due_of_expired dec time j e [] s p h = elim p [ ]
is_due_of_expired dec time j e ((t, k) ∷ queue) (a, s) (inl p) h = ground arith
is_due_of_expired dec time j e ((t, k) ∷ queue) (a, s) (inr p) h =
    ground (arith, In-expired t j e queue a p, is_due_of_expired dec time j e queue s p h)

module _ {K V : Type 0} (dec : Discrete K) where
  get-evict :
      (time : ℕ) (j k : K) (m : List (K × (ℕ × V)))
      → Assoc.get dec j (evict dec time k m)
        ≡ ite (dec j k) (live time (Assoc.get dec j m)) (Assoc.get dec j m)
  unfolding evict
  get-evict time j k m = ground (arith, Assoc.get-remove dec j k m)

  live-live : (time : ℕ) (o : Option (ℕ × V)) → live time (live time o) ≡ live time o
  live-live time none = refl
  live-live time (some (t, v)) = ground arith

  -- A key that is popped loses its entry if that has expired; every other key keeps its own.
  pub get-sweep :
      (time : ℕ) (j : K) (queue : List (ℕ × K)) (m : List (K × (ℕ × V)))
      → Assoc.get dec j (sweep dec time m queue).0
        ≡ (if is_due dec time j queue then live time (Assoc.get dec j m) else Assoc.get dec j m)
  unfolding sweep is_due
  get-sweep time j [] m = refl
  get-sweep time j ((t, k) ∷ queue) m = ground (
    arith,
    get-evict time j k m,
    live-live time (Assoc.get dec j m),
    get-sweep time j queue (evict dec time k m),
  )

  sweep_kept :
      (time t : ℕ) (k : K) (queue : List (ℕ × K)) (m : List (K × (ℕ × V)))
      → time ≤ t
      → sweep dec time m ((t, k) ∷ queue) ≡ (m, (t, k) ∷ queue)
  unfolding sweep
  sweep_kept time t k queue m h = if_pos (dec_le time t) h _ _

  sweep_popped :
      (time t : ℕ) (k : K) (queue : List (ℕ × K)) (m : List (K × (ℕ × V)))
      → ¬ (time ≤ t)
      → sweep dec time m ((t, k) ∷ queue) ≡ sweep dec time (evict dec time k m) queue
  unfolding sweep
  sweep_popped time t k queue m h = if_neg (dec_le time t) h _ _

  -- An entry that has not expired stays in the queue.
  pub In-sweep :
      (time : ℕ) (j : K) (e : ℕ) (queue : List (ℕ × K)) (m : List (K × (ℕ × V)))
      → In (e, j) queue
      → time ≤ e
      → In (e, j) (sweep dec time m queue).1
  In-sweep time j e [] m p h = elim p [ ]
  In-sweep time j e ((t, k) ∷ queue) m (inl p) h =
      let le : time ≤ t = ground arith in rw (sweep_kept time t k queue m le) (inl p)
  In-sweep time j e ((t, k) ∷ queue) m (inr p) h = elim (dec_le time t) [
    | yes le ↦ rw (sweep_kept time t k queue m le) (inr p)
    | no gt ↦
        rw (sweep_popped time t k queue m gt) (In-sweep time j e queue (evict dec time k m) p h)
  ]

  pub All-sweep :
      (P : ℕ × K → Type 0) (time : ℕ) (queue : List (ℕ × K)) (m : List (K × (ℕ × V)))
      → All P queue
      → All P (sweep dec time m queue).1
  All-sweep P time [] m h = unfold sweep in tt
  All-sweep P time ((t, k) ∷ queue) m (h, hs) = elim (dec_le time t) [
    | yes le ↦ rw (sweep_kept time t k queue m le) (h, hs)
    | no gt ↦ rw (sweep_popped time t k queue m gt) (All-sweep P time queue (evict dec time k m) hs)
  ]

  pub sweep-IsSorted :
      (time : ℕ) (queue : List (ℕ × K)) (m : List (K × (ℕ × V)))
      → IsSorted queue
      → IsSorted (sweep dec time m queue).1
  sweep-IsSorted time [] m h = unfold sweep in tt
  sweep-IsSorted time ((t, k) ∷ queue) m (a, s) = elim (dec_le time t) [
    | yes le ↦ rw (sweep_kept time t k queue m le) (a, s)
    | no gt ↦
        rw (sweep_popped time t k queue m gt) (sweep-IsSorted time queue (evict dec time k m) s)
  ]
