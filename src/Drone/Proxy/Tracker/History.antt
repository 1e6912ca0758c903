-- ===== src/Drone/Proxy/Tracker/History.antt =====
-- What the tracker reports after any sequence of calls.
use spawner.Prelude.{
  ℕ, ◌+◌, ◌-◌, ◌<◌, ◌≡◌, ◌↔◌, refl, List, [], ◌∷◌, Option, none, some, Bool, true, false, ◌||◌, ◌⊎◌,
  inl, inr, In, map, ite, arith, Option-cases, ◌%◌, ℕ_discrete, if_pos, if_neg, sym, ◌∙◌,
}
use spawner.Prelude.Assoc
use spawner.Prelude.Text.{Text, Text_discrete, is_some}
use spawner.Drone.Proxy.Tracker.{
  ConnectionTracker, default, DashMultiset, u32_size, add, remove, track_request,
  increment_connections, decrement_connections, insert_keys, get_and_clear_active_backends,
}

pub data Call : Type 0 where
  tracks opens closes : Text → Call
  collects : Call

pub step : ConnectionTracker → Call → ConnectionTracker
step t (tracks b) = track_request t b
step t (opens b) = increment_connections t b
step t (closes b) = decrement_connections t b
step t collects = (get_and_clear_active_backends t).1

pub run : ConnectionTracker → List Call → ConnectionTracker
run t [] = t
run t (c ∷ calls) = run (step t c) calls

-- The connections to `b` that are open after a call.
abbrev pub now_open : Text → ℕ → Call → ℕ
now_open b n (opens c) = ite (Text_discrete b c) (n + 1) n
now_open b n (closes c) = ite (Text_discrete b c) (n - 1) n
now_open b n _ = n

-- Whether a request to `b` came since the last collection.
abbrev pub now_requested : Text → Bool → Call → Bool
now_requested b r (tracks c) = ite (Text_discrete b c) true r
now_requested b r collects = false
now_requested b r _ = r

-- Each close follows an open, and fewer connections are open at a time than a `u32` counts.
abbrev pub IsPaired : Text → ℕ → List Call → Type 0
IsPaired b n [] = Unit
IsPaired b n (opens c ∷ calls) = (n + 1 < u32_size) × IsPaired b (now_open b n (opens c)) calls
IsPaired b n (closes c ∷ calls) = (b ≡ c → 0 < n) × IsPaired b (now_open b n (closes c)) calls
IsPaired b n (_ ∷ calls) = IsPaired b n calls

pub open_after : Text → ℕ → List Call → ℕ
open_after b n [] = n
open_after b n (c ∷ calls) = open_after b (now_open b n c) calls

pub requested_after : Text → Bool → List Call → Bool
requested_after b r [] = r
requested_after b r (c ∷ calls) = requested_after b (now_requested b r c) calls

-- The entry of a count is there as long as a connection is open.
abbrev Counts : Option ℕ → ℕ → Type 0
Counts none n = n ≡ 0
Counts (some d) n = (d ≡ n) × (0 < n) × (n < u32_size)

abbrev plus_one : Option ℕ → ℕ
plus_one none = 1
plus_one (some d) = (d + 1) % u32_size

abbrev minus_one : Option ℕ → Option ℕ
minus_one none = none
minus_one (some d) = let d' = (d + 4294967295) % u32_size in ite (ℕ_discrete d' 0) none (some d')

get-add :
    (m : DashMultiset) (b c : Text)
    → Assoc.get Text_discrete b (add m c)
      ≡ ite
          (Text_discrete b c)
          (some (plus_one (Assoc.get Text_discrete c m)))
          (Assoc.get Text_discrete b m)
unfolding add
get-add m b c = elim (Option-cases (Assoc.get Text_discrete c m)) [
  | inl e ↦ rw (add, e) (Assoc.get-insert Text_discrete b c 1 m)
  | inr (d, e) ↦ rw (add, e) (Assoc.get-insert Text_discrete b c ((d + 1) % u32_size) m)
]

get-remove :
    (m : DashMultiset) (b c : Text)
    → Assoc.get Text_discrete b (remove m c)
      ≡ ite
          (Text_discrete b c)
          (minus_one (Assoc.get Text_discrete c m))
          (Assoc.get Text_discrete b m)
unfolding remove
get-remove m b c = elim (Option-cases (Assoc.get Text_discrete c m)) [
  | inl e ↦ rw (remove, e) (ground arith)
  | inr (d, e) ↦ rw (e) (
      ground (
        arith,
        Assoc.get-remove Text_discrete b c m,
        Assoc.get-insert Text_discrete b c ((d + 4294967295) % u32_size) m,
      ))
]

Counts-plus_one :
    (o : Option ℕ) (n : ℕ) → n + 1 < u32_size → Counts o n → Counts (some (plus_one o)) (n + 1)
Counts-plus_one none n h i = ground arith
Counts-plus_one (some d) n h i = ground arith

Counts-minus_one : (o : Option ℕ) (n : ℕ) → 0 < n → Counts o n → Counts (minus_one o) (n - 1)
Counts-minus_one none n h i = ground arith
Counts-minus_one (some d) n h i = ground arith

add-Counts :
    (m : DashMultiset) (b c : Text) (n : ℕ)
    → n + 1 < u32_size
    → Counts (Assoc.get Text_discrete b m) n
    → Counts (Assoc.get Text_discrete b (add m c)) (now_open b n (opens c))
add-Counts m b c n h i = elim (Text_discrete b c) [
  | yes e ↦
      rw (get-add m b c, if_pos (Text_discrete b c) e, if_pos (Text_discrete b c) e, ← e)
        (Counts-plus_one _ n h i)
  | no e ↦ rw (get-add m b c, if_neg (Text_discrete b c) e, if_neg (Text_discrete b c) e) i
]

remove-Counts :
    (m : DashMultiset) (b c : Text) (n : ℕ)
    → (b ≡ c → 0 < n)
    → Counts (Assoc.get Text_discrete b m) n
    → Counts (Assoc.get Text_discrete b (remove m c)) (now_open b n (closes c))
remove-Counts m b c n h i = elim (Text_discrete b c) [
  | yes e ↦
      rw (get-remove m b c, if_pos (Text_discrete b c) e, if_pos (Text_discrete b c) e, ← e)
        (Counts-minus_one _ n (h e) i)
  | no e ↦ rw (get-remove m b c, if_neg (Text_discrete b c) e, if_neg (Text_discrete b c) e) i
]

insert_keys-is_some :
    (b : Text) (conns : DashMultiset) (events : List (Text × Unit {0}))
    → is_some (Assoc.get Text_discrete b (insert_keys conns events))
      ≡ is_some (Assoc.get Text_discrete b conns) || is_some (Assoc.get Text_discrete b events)
unfolding insert_keys Assoc.get
insert_keys-is_some b [] events = refl
insert_keys-is_some b ((c, d) ∷ conns) events = ground (
  arith,
  insert_keys-is_some b conns (Assoc.insert Text_discrete c tt events),
  Assoc.get-insert Text_discrete b c tt events,
)

In_keys :
    (b : Text) (m : List (Text × Unit {0}))
    → is_some (Assoc.get Text_discrete b m) ≡ true
    → In b (map (λ d. d.0) m)
unfolding Assoc.get
In_keys b [] h = ground arith
In_keys b ((c, u) ∷ m) h = elim (Text_discrete b c) [
  | yes e ↦ inl e
  | no e ↦ inr (In_keys b m (rw (if_neg (Text_discrete b c) e) at h))
]

keys_In :
    (b : Text) (m : List (Text × Unit {0}))
    → In b (map (λ d. d.0) m)
    → is_some (Assoc.get Text_discrete b m) ≡ true
unfolding Assoc.get
keys_In b [] h = elim h [ ]
keys_In b ((c, u) ∷ m) (inl e) = ground arith
keys_In b ((c, u) ∷ m) (inr h) = ground (arith, keys_In b m h)

record Inv (b : Text) (t : ConnectionTracker) (n : ℕ) (r : Bool) : Type 0 where
  counts : Counts (Assoc.get Text_discrete b t.long_lived_connections) n
  requested : is_some (Assoc.get Text_discrete b t.request_events) ≡ r

default-Inv : (b : Text) → Inv b default 0 false
unfolding Assoc.get
default-Inv b = record { counts = refl; requested = refl }

run-Inv :
    (b : Text) (calls : List Call) (t : ConnectionTracker) (n : ℕ) (r : Bool)
    → IsPaired b n calls
    → Inv b t n r
    → Inv b (run t calls) (open_after b n calls) (requested_after b r calls)
unfolding run open_after requested_after step track_request increment_connections
    decrement_connections get_and_clear_active_backends Assoc.get
run-Inv b [] t n r p v = v
run-Inv b (tracks c ∷ calls) t n r p v =
    run-Inv b calls (track_request t c) n (now_requested b r (tracks c)) p (record {
      counts = v.counts;
      requested =
          ground (arith, v.requested, Assoc.get-insert Text_discrete b c tt t.request_events);
    })
run-Inv b (opens c ∷ calls) t n r p v =
    run-Inv b calls (increment_connections t c) (now_open b n (opens c)) r p.1 (record {
      counts = add-Counts t.long_lived_connections b c n p.0 v.counts;
      requested = v.requested;
    })
run-Inv b (closes c ∷ calls) t n r p v =
    run-Inv b calls (decrement_connections t c) (now_open b n (closes c)) r p.1 (record {
      counts = remove-Counts t.long_lived_connections b c n p.0 v.counts;
      requested = v.requested;
    })
run-Inv b (collects ∷ calls) t n r p v =
    run-Inv b calls (get_and_clear_active_backends t).1 n false p
      (record { counts = v.counts; requested = refl })

Counts-is_some : (o : Option ℕ) (n : ℕ) → Counts o n → (is_some o ≡ true) ↔ (0 < n)
Counts-is_some none n h = (λ e. ground arith, λ e. ground arith)
Counts-is_some (some d) n h = (λ e. h.1, λ e. refl)

or_iff : (a b : Bool) → (a || b ≡ true) ↔ ((a ≡ true) ⊎ (b ≡ true))
or_iff true b = (λ e. inl refl, λ e. refl)
or_iff false b = (λ e. inr e, elim [ inl e ↦ ground arith | inr e ↦ e ])

-- After any calls whose closes follow opens, with fewer than 2 ^ 32 connections open at a time, the
-- tracker reports a backend exactly if a connection to it is open or a request to it came since the
-- last report.
pub run_reported :
    (b : Text) (calls : List Call)
    → IsPaired b 0 calls
    → In b (get_and_clear_active_backends (run default calls)).0
      ↔ ((0 < open_after b 0 calls) ⊎ (requested_after b false calls ≡ true))
unfolding get_and_clear_active_backends
run_reported b calls p =
    let t = run default calls in
    let v = run-Inv b calls default 0 false p (default-Inv b) in
    let k = Counts-is_some _ _ v.counts in
    let e = insert_keys-is_some b t.long_lived_connections t.request_events in
    let o = or_iff _ _ in
    (
      λ i. elim (o.0 (sym e ∙ keys_In b _ i)) [
        | inl x ↦ inl (k.0 x)
        | inr x ↦ inr (sym v.requested ∙ x)
      ],
      elim [
        | inl x ↦ In_keys b _ (e ∙ o.1 (inl (k.1 x)))
        | inr x ↦ In_keys b _ (e ∙ o.1 (inr (v.requested ∙ x)))
      ],
    )
