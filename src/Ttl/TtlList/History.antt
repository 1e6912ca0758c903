-- ===== src/Ttl/TtlList/History.antt =====
-- What a history of calls on a `TtlList` returns.
use spawner.Prelude.{
  ℕ, ◌+◌, ◌≤◌, ◌<◌, ◌≡◌, refl, List, [], ◌∷◌, ◌++◌, filter, dec_lt, if_pos, if_neg, arith,
}
use spawner.Ttl.TtlList.{TtlList, new, push, drop_expired, values, iter}

pub data Call {ℓ} (V : Type ℓ) : Type ℓ where
  pushes : V → ℕ → Call V
  reads : ℕ → Call V

abbrev pub IsSorted {ℓ} : {V : Type ℓ} → List (ℕ × V) → Type 0
IsSorted [] = Unit
IsSorted ((t, v) ∷ []) = Unit
IsSorted ((t, v) ∷ (u, w) ∷ items) = (t ≤ u) × IsSorted ((u, w) ∷ items)

module _ {ℓ} {V : Type ℓ} where
  pub run : TtlList V → List (Call V) → TtlList V
  run l [] = l
  run l (pushes v t ∷ calls) = run (push l v t) calls
  run l (reads t ∷ calls) = run (iter l t).1 calls

  -- Everything that was ever pushed, with its expiry.
  pub log : ℕ → List (ℕ × V) → List (Call V) → List (ℕ × V)
  log ttl entries [] = entries
  log ttl entries (pushes v t ∷ calls) = log ttl (entries ++ (t + ttl, v) ∷ []) calls
  log ttl entries (reads t ∷ calls) = log ttl entries calls

  -- The reads come in the order of time, from `now` to `until`. Pushes may bear any time.
  abbrev pub InOrder : ℕ → ℕ → List (Call V) → Type 0
  InOrder now until [] = now ≤ until
  InOrder now until (pushes v t ∷ calls) = InOrder now until calls
  InOrder now until (reads t ∷ calls) = (now ≤ t) × InOrder t until calls

  pub drop_expired-drop_expired :
      (s t : ℕ) (xs : List (ℕ × V)) → s ≤ t → drop_expired t (drop_expired s xs) ≡ drop_expired t xs
  unfolding drop_expired
  drop_expired-drop_expired s t [] h = refl
  drop_expired-drop_expired s t ((e, v) ∷ xs) h = ground (arith, drop_expired-drop_expired s t xs h)

  continue : ℕ → List (ℕ × V) → List (ℕ × V) → List (ℕ × V)
  continue t [] ys = drop_expired t ys
  continue t (x ∷ xs) ys = (x ∷ xs) ++ ys

  drop_expired-append :
      (t : ℕ) (xs ys : List (ℕ × V)) → drop_expired t (xs ++ ys) ≡ continue t (drop_expired t xs) ys
  unfolding drop_expired continue
  drop_expired-append t [] ys = refl
  drop_expired-append t ((e, v) ∷ xs) ys = elim (dec_lt t e) [
    | yes h ↦ rw (if_pos _ h, if_pos _ h)
    | no h ↦ rw (if_neg _ h, if_neg _ h) (drop_expired-append t xs ys)
  ]

  pub record Tracks (now ttl : ℕ) (l : TtlList V) (entries : List (ℕ × V)) : Type ℓ where
    pub same_ttl : l.ttl ≡ ttl
    pub same_drop : (t : ℕ) → now ≤ t → drop_expired t l.items ≡ drop_expired t entries

  pub Tracks-push :
      {now ttl : ℕ} {l : TtlList V} {entries : List (ℕ × V)} (v : V) (t : ℕ)
      → Tracks now ttl l entries
      → Tracks now ttl (push l v t) (entries ++ (t + ttl, v) ∷ [])
  unfolding push
  Tracks-push {l} {entries} v t h = record {
    same_ttl = h.same_ttl;
    same_drop = λ u le. rw (
      h.same_ttl,
      drop_expired-append u l.items,
      h.same_drop u le,
      drop_expired-append u entries,
    );
  }

  pub Tracks-iter :
      {now ttl : ℕ} {l : TtlList V} {entries : List (ℕ × V)} (t : ℕ)
      → now ≤ t
      → Tracks now ttl l entries
      → Tracks t ttl (iter l t).1 entries
  unfolding iter
  Tracks-iter {l} t le h = record {
    same_ttl = h.same_ttl;
    same_drop =
        λ u later. rw (drop_expired-drop_expired t u l.items later) (h.same_drop u (omega arith));
  }

  iter-run_from :
      (until : ℕ) (calls : List (Call V)) {now ttl : ℕ} {l : TtlList V} {entries : List (ℕ × V)}
      → Tracks now ttl l entries
      → InOrder now until calls
      → (iter (run l calls) until).0 ≡ values (drop_expired until (log ttl entries calls))
  unfolding run log iter
  iter-run_from until [] h o = rw (h.same_drop until o)
  iter-run_from until (pushes v t ∷ calls) h o = iter-run_from until calls (Tracks-push v t h) o
  iter-run_from until (reads t ∷ calls) h (le, o) = iter-run_from until calls (Tracks-iter t le h) o

  pub new-Tracks_from : (now ttl : ℕ) → Tracks now ttl (new ttl) []
  unfolding new
  new-Tracks_from now ttl = record { same_ttl = refl; same_drop = λ t le. refl }

  pub Tracks-later :
      {now t ttl : ℕ} {l : TtlList V} {entries : List (ℕ × V)}
      → now ≤ t
      → Tracks now ttl l entries
      → Tracks t ttl l entries
  Tracks-later le h = record {
    same_ttl = h.same_ttl;
    same_drop = λ u later. h.same_drop u (omega arith);
  }

  -- After any calls on a new list whose reads come in the order of time, a read at `until` yields
  -- what a list that never discards anything would yield when its expired head is dropped at
  -- `until`: no earlier compaction, and no push out of order, changes what is read.
  pub iter-run :
      (ttl until : ℕ) (calls : List (Call V))
      → InOrder 0 until calls
      → (iter (run (new ttl) calls) until).0 ≡ values (drop_expired until (log ttl [] calls))
  iter-run ttl until calls o = iter-run_from until calls (new-Tracks_from 0 ttl) o

  filter-all :
      (time u : ℕ) (w : V) (items : List (ℕ × V))
      → time < u
      → IsSorted ((u, w) ∷ items)
      → filter (λ (d : ℕ × V). dec_lt time d.0) items ≡ items
  filter-all time u w [] h s = refl
  filter-all time u w ((t, v) ∷ items) h (le, s) = ground (arith, filter-all time t v items)

  -- Where the entries stand in the order of their expiry, dropping the expired head drops all that
  -- is expired, and nothing else: an entry is kept exactly while `time` is before its expiry.
  pub drop_expired-filter :
      (time : ℕ) (items : List (ℕ × V))
      → IsSorted items
      → drop_expired time items ≡ filter (λ d. dec_lt time d.0) items
  unfolding drop_expired
  drop_expired-filter time [] s = refl
  drop_expired-filter time ((t, v) ∷ []) s = refl
  drop_expired-filter time ((t, v) ∷ (u, w) ∷ items) (le, s) = elim (dec_lt time t) [
    | yes h ↦ rw (if_pos _ h, if_pos _ h, filter-all time t v ((u, w) ∷ items) h (le, s))
    | no h ↦ rw (if_neg _ h, if_neg _ h) (drop_expired-filter time ((u, w) ∷ items) s)
  ]
