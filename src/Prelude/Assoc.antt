-- ===== src/Prelude/Assoc.antt =====
-- `HashMap` and `DashMap` as association lists with one entry for a key.
use mathlib.Core.Path.{◌≡◌}
use mathlib.Core.Logic.{ite, if_pos, if_neg, inl, inr}
use spawner.Prelude.Lists.{In}
use mathlib.Core.Option.{Option, none, some}
use mathlib.Core.List.{List, [], ◌∷◌}
use native.Mathlib.Omega.{arith}

module _ {ℓ} {K V : Type ℓ} (dec : Discrete K) where
  unfoldable pub get : K → List (K × V) → Option V
  get k [] = none
  get k ((j, v) ∷ m) = ite (dec k j) (some v) (get k m)

  unfoldable pub remove : K → List (K × V) → List (K × V)
  remove k [] = []
  remove k ((j, v) ∷ m) = ite (dec k j) (remove k m) ((j, v) ∷ remove k m)

  unfoldable pub insert : K → V → List (K × V) → List (K × V)
  insert k v m = (k, v) ∷ remove k m

  pub get-remove : (j k : K) (m : List (K × V)) → get j (remove k m) ≡ ite (dec j k) none (get j m)
  unfolding get remove
  get-remove j k [] = ground arith
  get-remove j k ((i, v) ∷ m) = ground (arith, get-remove j k m)

  pub get-insert :
      (j k : K) (v : V) (m : List (K × V)) → get j (insert k v m) ≡ ite (dec j k) (some v) (get j m)
  unfolding get insert
  get-insert j k v m = ground (arith, get-remove j k m)

module _ {K V : Type 0} (dec : Discrete K) where
  -- A key has one entry at most.
  abbrev pub IsMap : List (K × V) → Type 0
  IsMap [] = Unit
  IsMap ((k, v) ∷ m) = (get dec k m ≡ none) × IsMap m

  pub remove-IsMap : (k : K) (m : List (K × V)) → IsMap m → IsMap (remove dec k m)
  unfolding remove
  remove-IsMap k [] h = tt
  remove-IsMap k ((j, v) ∷ m) (h, hs) = elim (dec k j) [
    | yes e ↦ rw (if_pos _ e) (remove-IsMap k m hs)
    | no e ↦ rw (if_neg _ e) (ground (arith, get-remove dec j k m), remove-IsMap k m hs)
  ]

  pub insert-IsMap : (k : K) (v : V) (m : List (K × V)) → IsMap m → IsMap (insert dec k v m)
  unfolding insert
  insert-IsMap k v m h = (ground (arith, get-remove dec k k m), remove-IsMap k m h)

  pub In_of_get : (k : K) (v : V) (m : List (K × V)) → get dec k m ≡ some v → In (k, v) m
  unfolding get
  In_of_get k v [] h = cc
  In_of_get k v ((j, w) ∷ m) h = elim (dec k j) [
    | yes e ↦ inl (ground arith)
    | no e ↦ inr (In_of_get k v m (ground arith))
  ]

  pub get_of_In : (k : K) (v : V) (m : List (K × V)) → IsMap m → In (k, v) m → get dec k m ≡ some v
  unfolding get
  get_of_In k v [] h i = elim i [ ]
  get_of_In k v ((j, w) ∷ m) (h, hs) (inl e) = ground arith
  get_of_In k v ((j, w) ∷ m) (h, hs) (inr i) = ground (arith, get_of_In k v m hs i)
