-- ===== src/Ttl/TtlMap/Latest.antt =====
-- The last insertion of a key in a history of calls.
use spawner.Prelude.{
  ℕ, ◌+◌, ◌≡◌, ◌≢◌, refl, ap, ◌∙◌, List, [], ◌∷◌, ◌++◌, Option, some, if_pos, if_neg, All,
  foldl-append,
}
use spawner.Ttl.TtlMap.History.{Call, inserts, reads, note, latest}

module _ {K V : Type 0} (dec : Discrete K) (ttl : ℕ) where
  -- A call that does not insert the key.
  abbrev pub IsOther : K → Call K V → Type 0
  IsOther key (inserts k v t) = key ≢ k
  IsOther key (reads k t) = Unit

  latest_others :
      (key : K) (calls : List (Call K V)) (last : K → Option (ℕ × V))
      → All (IsOther key) calls
      → latest dec ttl last calls key ≡ last key
  unfolding latest
  latest_others key [] last h = refl
  latest_others key (inserts k v t ∷ calls) last (h, hs) =
      latest_others key calls (note dec ttl last (inserts k v t)) hs ∙ if_neg (dec key k) h _ _
  latest_others key (reads k t ∷ calls) last (h, hs) = latest_others key calls last hs

  pub latest_inserted :
      (before others : List (Call K V)) (key : K) (v : V) (t : ℕ) (last : K → Option (ℕ × V))
      → All (IsOther key) others
      → latest dec ttl last (before ++ inserts key v t ∷ others) key ≡ some (t + ttl, v)
  unfolding latest
  latest_inserted before others key v t last h =
      ap (λ l. l key)
        (foldl-append (latest dec ttl) (λ l. refl) (note dec ttl) (λ l c cs. refl) before
          (inserts key v t ∷ others) last)
      ∙ latest_others key others (note dec ttl (latest dec ttl last before) (inserts key v t)) h
      ∙ if_pos (dec key key) refl _ _
