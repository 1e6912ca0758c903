-- ===== src/Ttl/Multistore/History.antt =====
-- What a history of calls on a `TtlMultistore` returns.
use spawner.Prelude.{
  ℕ, ◌+◌, ◌≤◌, ◌<◌, ◌≡◌, ◌≢◌, refl, sym, ap, subst, All, dec_lt, map, List, [], ◌∷◌, ◌++◌, ◌∙◌,
  Option, none, some, ite, if_pos, if_neg, inl, inr, arith, Option-cases,
}
use spawner.Prelude.Assoc
use spawner.Ttl.TtlList
use spawner.Ttl.TtlList.{TtlList, push, values, drop_expired}
use spawner.Ttl.TtlList.History as ListHistory
use spawner.Ttl.TtlMap
use spawner.Ttl.TtlMap.{sweep}
use spawner.Ttl.Multistore.{TtlMultistore, new, insert, iter}
use mathlib.Core.Option as Opt

pub data Call (K V : Type 0) : Type 0 where
  inserts : K → V → ℕ → ℕ → Call K V
  reads : K → ℕ → Call K V

-- The reads come in the order of time, from `now` to `until`.
abbrev pub InOrder : {K V : Type 0} → ℕ → ℕ → List (Call K V) → Type 0
InOrder now until [] = now ≤ until
InOrder now until (inserts k v t n ∷ calls) = InOrder now until calls
InOrder now until (reads k t ∷ calls) = (now ≤ t) × InOrder t until calls

-- The pushes of one key, with their expiries.
abbrev pub Logs : Type 0 → Type 0 → Type 0
Logs K V = K → Option (List (ℕ × V))

-- A store's list for a key reads as the log of the key does.
abbrev pub Matches : {V : Type 0} → ℕ → ℕ → Option (ℕ × TtlList V) → Option (List (ℕ × V)) → Type 0
Matches now ttl none none = Unit
Matches now ttl (some (t, l)) (some entries) = ListHistory.Tracks now ttl l entries
Matches now ttl _ _ = ⊥

-- A value expires at the instant of its expiry.
abbrev pub IsFresh : {V : Type 0} → ℕ → List (ℕ × V) → Type 0
IsFresh time [] = Unit
IsFresh time ((expiry, v) ∷ entries) = time < expiry

-- What a read at a time yields of a log.
pub record IsRead {V : Type 0} (time : ℕ) (entries : List (ℕ × V)) (read : List V) : Type 0 where
  pub expired : List (ℕ × V)
  pub kept : List (ℕ × V)
  pub split : entries ≡ expired ++ kept
  pub over : All (λ e. e.0 ≤ time) expired
  pub fresh : IsFresh time kept
  pub yields : read ≡ map (λ e. e.1) kept

abbrev pub IsReadOf : {V : Type 0} → ℕ → Option (List (ℕ × V)) → Option (List V) → Type 0
IsReadOf time none none = Unit
IsReadOf time (some entries) (some read) = IsRead time entries read
IsReadOf time _ _ = ⊥

module _ {K V : Type 0} (dec : Discrete K) where
  unfoldable pub step : TtlMultistore K V → Call K V → TtlMultistore K V
  step s (inserts k v t n) = insert dec s k v t n
  step s (reads k t) = (iter dec s k t).1

  unfoldable pub run : TtlMultistore K V → List (Call K V) → TtlMultistore K V
  run s [] = s
  run s (c ∷ calls) = run (step s c) calls

  abbrev pub note : ℕ → Logs K V → Call K V → Logs K V
  note ttl logs (inserts k v t n) =
      λ j. ite (dec j k) (some (Opt.get_or (logs j) [] ++ (t + ttl, v) ∷ [])) (logs j)
  note ttl logs (reads k t) = logs

  pub log : ℕ → Logs K V → List (Call K V) → Logs K V
  log ttl logs [] = logs
  log ttl logs (c ∷ calls) = log ttl (note ttl logs c) calls

  -- `get_or_insert_with` queues nothing, so the map of a store never compacts.
  pub record Tracks (now ttl : ℕ) (s : TtlMultistore K V) (logs : Logs K V) : Type 0 where
    pub same_ttl : s.ttl ≡ ttl
    pub unqueued : s.inner.queue ≡ []
    pub same : (k : K) → Matches now ttl (Assoc.get dec k s.inner.inner_map) (logs k)

  abbrev pushed : ℕ → V → ℕ → ℕ → Option (ℕ × TtlList V) → Option (ℕ × TtlList V)
  pushed ttl v t n none = some (n, push (TtlList.new ttl) v t)
  pushed ttl v t n (some (e, l)) = some (e, push l v t)

  abbrev compacted : ℕ → Option (ℕ × TtlList V) → Option (ℕ × TtlList V)
  compacted t none = none
  compacted t (some (e, l)) = some (e, (TtlList.iter l t).1)

  abbrev found : TtlMultistore K V → K → Option (ℕ × TtlList V)
  found s k = Assoc.get dec k s.inner.inner_map

  found-insert :
      (s : TtlMultistore K V) (k : K) (v : V) (t n : ℕ) (j : K)
      → found (insert dec s k v t n) j ≡ ite (dec j k) (pushed s.ttl v t n (found s k)) (found s j)
  unfolding insert TtlMap.get_or_insert_with
  found-insert s k v t n j = elim (Option-cases (found s k)) [
    | inl e ↦
        rw (e, TtlMap.get_or_insert_with)
          (ground (
            arith,
            Assoc.get-insert dec j k (n, push (TtlList.new s.ttl) v t)
                (Assoc.insert dec k (n, TtlList.new s.ttl) s.inner.inner_map),
            Assoc.get-insert dec j k (n, TtlList.new s.ttl) s.inner.inner_map,
          ))
    | inr ((u, l), e) ↦
        rw (e, TtlMap.get_or_insert_with)
          (Assoc.get-insert dec j k (u, push l v t) s.inner.inner_map)
  ]

  insert_rest :
      (s : TtlMultistore K V) (k : K) (v : V) (t n : ℕ)
      → ((insert dec s k v t n).ttl ≡ s.ttl) × ((insert dec s k v t n).inner.queue ≡ s.inner.queue)
  unfolding insert TtlMap.get_or_insert_with
  insert_rest s k v t n = ground arith

  found-iter :
      (s : TtlMultistore K V) (k : K) (t : ℕ) (j : K)
      → s.inner.queue ≡ []
      → found (iter dec s k t).1 j ≡ ite (dec j k) (compacted t (found s k)) (found s j)
  unfolding iter TtlMap.get_mut TtlMap.compact sweep Assoc.get Assoc.insert
  found-iter s k t j q = elim (Option-cases (found s k)) [
    | inl e ↦ rw (q, e) (ground arith)
    | inr ((u, l), e) ↦
        rw (q, e) (Assoc.get-insert dec j k (u, (TtlList.iter l t).1) s.inner.inner_map)
  ]

  iter_rest :
      (s : TtlMultistore K V) (k : K) (t : ℕ)
      → s.inner.queue ≡ []
      → ((iter dec s k t).1.ttl ≡ s.ttl) × ((iter dec s k t).1.inner.queue ≡ [])
  unfolding iter TtlMap.get_mut TtlMap.compact sweep
  iter_rest s k t q = ground arith

  abbrev read : ℕ → Option (ℕ × TtlList V) → Option (List V)
  read t none = none
  read t (some (e, l)) = some (TtlList.iter l t).0

  iter_result :
      (s : TtlMultistore K V) (k : K) (t : ℕ)
      → s.inner.queue ≡ []
      → (iter dec s k t).0 ≡ read t (found s k)
  unfolding iter TtlMap.get_mut TtlMap.compact sweep Assoc.get
  iter_result s k t q = elim (Option-cases (found s k)) [
    | inl e ↦ rw (q, e)
    | inr ((u, l), e) ↦ rw (q, e)
  ]

  Matches-pushed :
      (now ttl : ℕ) (v : V) (t n : ℕ) (o : Option (ℕ × TtlList V)) (es : Option (List (ℕ × V)))
      → Matches now ttl o es
      → Matches now ttl (pushed ttl v t n o) (some (Opt.get_or es [] ++ (t + ttl, v) ∷ []))
  Matches-pushed now ttl v t n none none h =
      ListHistory.Tracks-push v t (ListHistory.new-Tracks_from now ttl)
  Matches-pushed now ttl v t n (some (u, l)) (some entries) h = ListHistory.Tracks-push v t h
  Matches-pushed now ttl v t n none (some entries) h = elim h [ ]
  Matches-pushed now ttl v t n (some (u, l)) none h = elim h [ ]

  Matches-compacted :
      (now ttl t : ℕ) (o : Option (ℕ × TtlList V)) (es : Option (List (ℕ × V)))
      → now ≤ t
      → Matches now ttl o es
      → Matches t ttl (compacted t o) es
  Matches-compacted now ttl t none none le h = tt
  Matches-compacted now ttl t (some (u, l)) (some entries) le h = ListHistory.Tracks-iter t le h
  Matches-compacted now ttl t none (some entries) le h = elim h [ ]
  Matches-compacted now ttl t (some (u, l)) none le h = elim h [ ]

  Matches-later :
      (now ttl t : ℕ) (o : Option (ℕ × TtlList V)) (es : Option (List (ℕ × V)))
      → now ≤ t
      → Matches now ttl o es
      → Matches t ttl o es
  Matches-later now ttl t none none le h = tt
  Matches-later now ttl t (some (u, l)) (some entries) le h = ListHistory.Tracks-later le h
  Matches-later now ttl t none (some entries) le h = elim h [ ]
  Matches-later now ttl t (some (u, l)) none le h = elim h [ ]

  Matches-ite :
      (now ttl : ℕ) {P : Type 0} (d : Dec P) (o o' : Option (ℕ × TtlList V))
      (es es' : Option (List (ℕ × V)))
      → (P → Matches now ttl o es)
      → ((¬ P) → Matches now ttl o' es')
      → Matches now ttl (ite d o o') (ite d es es')
  Matches-ite now ttl (yes p) o o' es es' f g = f p
  Matches-ite now ttl (no p) o o' es es' f g = g p

  Tracks-insert :
      {now ttl : ℕ} {s : TtlMultistore K V} {logs : Logs K V} (k : K) (v : V) (t n : ℕ)
      → Tracks now ttl s logs
      → Tracks now ttl (insert dec s k v t n) (note ttl logs (inserts k v t n))
  Tracks-insert {now} {ttl} {s} {logs} k v t n r = record {
    same_ttl = (insert_rest s k v t n).0 ∙ r.same_ttl;
    unqueued = (insert_rest s k v t n).1 ∙ r.unqueued;
    same = λ j.
        rw (found-insert s k v t n j, r.same_ttl)
          (Matches-ite now ttl (dec j k) _ _ _ _
            (λ here. rw here (Matches-pushed now ttl v t n _ _ (r.same k))) (λ other. r.same j));
  }

  Tracks-iter :
      {now ttl : ℕ} {s : TtlMultistore K V} {logs : Logs K V} (k : K) (t : ℕ)
      → now ≤ t
      → Tracks now ttl s logs
      → Tracks t ttl (iter dec s k t).1 logs
  Tracks-iter {now} {ttl} {s} {logs} k t le r = record {
    same_ttl = (iter_rest s k t r.unqueued).0 ∙ r.same_ttl;
    unqueued = (iter_rest s k t r.unqueued).1;
    same = λ j. rw (found-iter s k t j r.unqueued) (elim (dec j k) [
      | yes here ↦ rw (if_pos _ here, here) (Matches-compacted now ttl t _ _ le (r.same k))
      | no other ↦ rw (if_neg _ other) (Matches-later now ttl t _ _ le (r.same j))
    ]);
  }

  abbrev pub read_log : ℕ → Option (List (ℕ × V)) → Option (List V)
  read_log t none = none
  read_log t (some entries) = some (values (drop_expired t entries))

  read_of_Matches :
      (now ttl t : ℕ) (o : Option (ℕ × TtlList V)) (es : Option (List (ℕ × V)))
      → now ≤ t
      → Matches now ttl o es
      → read t o ≡ read_log t es
  unfolding TtlList.iter
  read_of_Matches now ttl t none none le h = refl
  read_of_Matches now ttl t (some (u, l)) (some entries) le h = rw (h.same_drop t le)
  read_of_Matches now ttl t none (some entries) le h = elim h [ ]
  read_of_Matches now ttl t (some (u, l)) none le h = elim h [ ]

  iter-run_from :
      (k : K) (until : ℕ) (calls : List (Call K V)) {now ttl : ℕ} {s : TtlMultistore K V}
      {logs : Logs K V}
      → Tracks now ttl s logs
      → InOrder now until calls
      → (iter dec (run s calls) k until).0 ≡ read_log until (log ttl logs calls k)
  unfolding run step log
  iter-run_from k until [] {now} {ttl} {s} r o =
      iter_result s k until r.unqueued ∙ read_of_Matches now ttl until _ _ o (r.same k)
  iter-run_from k until (inserts j v t n ∷ calls) r o =
      iter-run_from k until calls (Tracks-insert j v t n r) o
  iter-run_from k until (reads j t ∷ calls) r (le, o) =
      iter-run_from k until calls (Tracks-iter j t le r) o

  new-Tracks : (ttl : ℕ) → Tracks 0 ttl (new ttl) (λ k. none)
  unfolding new TtlMap.new Assoc.get
  new-Tracks ttl = record { same_ttl = refl; unqueued = refl; same = λ k. tt }

  -- A store reads as its log does.
  pub iter-log :
      (ttl until : ℕ) (k : K) (calls : List (Call K V))
      → InOrder 0 until calls
      → (iter dec (run (new ttl) calls) k until).0 ≡ read_log until (log ttl (λ j. none) calls k)
  iter-log ttl until k calls o = iter-run_from k until calls (new-Tracks ttl) o

  drop_expired-IsRead :
      (time : ℕ) (entries : List (ℕ × V)) → IsRead time entries (values (drop_expired time entries))
  unfolding drop_expired
  drop_expired-IsRead time [] = record {
    expired = [];
    kept = [];
    split = refl;
    over = tt;
    fresh = tt;
    yields = refl;
  }
  drop_expired-IsRead time ((e, v) ∷ entries) = elim (dec_lt time e) [
    | yes lt ↦
        rw (drop_expired, if_pos (dec_lt time e) lt)
          (record {
            expired = [];
            kept = (e, v) ∷ entries;
            split = refl;
            over = tt;
            fresh = lt;
            yields = refl;
          })
    | no ge ↦
        let r = drop_expired-IsRead time entries in
        rw (drop_expired, if_neg (dec_lt time e) ge)
          (record {
            expired = (e, v) ∷ r.expired;
            kept = r.kept;
            split = ap (λ x. (e, v) ∷ x) r.split;
            over = (omega arith, r.over);
            fresh = r.fresh;
            yields = r.yields;
          })
  ]

  read_log-IsReadOf :
      (time : ℕ) (logged : Option (List (ℕ × V))) → IsReadOf time logged (read_log time logged)
  read_log-IsReadOf time none = tt
  read_log-IsReadOf time (some entries) = drop_expired-IsRead time entries

  -- After any calls on a new store whose reads come in the order of time, a read of a key at `until`
  -- yields nothing if the key was never inserted. Otherwise what was inserted for that key, in the
  -- order of insertion and with its expiries, is a part that is expired at `until` and a rest that
  -- begins with a value that is not, and the read yields the values of the rest.
  pub iter-IsReadOf :
      (ttl until : ℕ) (k : K) (calls : List (Call K V))
      → InOrder 0 until calls
      → IsReadOf until (log ttl (λ j. none) calls k) (iter dec (run (new ttl) calls) k until).0
  iter-IsReadOf ttl until k calls o =
      subst (IsReadOf until (log ttl (λ j. none) calls k)) (sym (iter-log ttl until k calls o))
        (read_log-IsReadOf until (log ttl (λ j. none) calls k))

  Kept : TtlMultistore K V → K → Type 0
  Kept s k = (s.inner.queue ≡ []) × (found s k ≢ none)

  Kept-step : (s : TtlMultistore K V) (k : K) (c : Call K V) → Kept s k → Kept (step s c) k
  unfolding Kept step
  Kept-step s k (inserts j v t n) (q, h) =
      ((insert_rest s j v t n).1 ∙ q, λ e. ground (arith, found-insert s j v t n k))
  Kept-step s k (reads j t) (q, h) =
      ((iter_rest s j t q).1, λ e. ground (arith, found-iter s j t k q))

  Kept-run :
      (s : TtlMultistore K V) (k : K) (calls : List (Call K V)) → Kept s k → Kept (run s calls) k
  unfolding run
  Kept-run s k [] h = h
  Kept-run s k (c ∷ calls) h = Kept-run (step s c) k calls (Kept-step s k c h)

  unqueued-run :
      (s : TtlMultistore K V) (calls : List (Call K V))
      → s.inner.queue ≡ []
      → (run s calls).inner.queue ≡ []
  unfolding run step
  unqueued-run s [] q = q
  unqueued-run s (inserts j v t n ∷ calls) q =
      unqueued-run (step s (inserts j v t n)) calls ((insert_rest s j v t n).1 ∙ q)
  unqueued-run s (reads j t ∷ calls) q =
      unqueued-run (step s (reads j t)) calls (iter_rest s j t q).1

  -- A key that was inserted once keeps its entry for good: whatever calls follow, at whatever
  -- times, the map of the store still holds the key.
  pub run_inserted_kept :
      (ttl : ℕ) (before after : List (Call K V)) (k : K) (v : V) (t n : ℕ)
      → Assoc.get dec k (run (insert dec (run (new ttl) before) k v t n) after).inner.inner_map
        ≢ none
  unfolding Kept
  run_inserted_kept ttl before after k v t n =
      let s = run (new ttl) before in
      let q : s.inner.queue ≡ [] = unqueued-run (new ttl) before (new-Tracks ttl).unqueued in
      (Kept-run (insert dec s k v t n) k after
        ((insert_rest s k v t n).1 ∙ q, λ e. ground (arith, found-insert s k v t n k))).1
