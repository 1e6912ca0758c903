-- ===== src/Ttl/TtlMap.antt =====
-- controller/src/ttl_store/ttl_map.rs. `SystemTime::now` is an argument.
pub mod Sweep
pub mod History
pub mod Latest
use spawner.Prelude.{ℕ, ◌+◌, List, [], ◌∷◌, ◌++◌, Option, none, some, ite, dec_lt, dec_le}
use spawner.Prelude.Assoc
use mathlib.Core.Option as Opt

pub record TtlMap {ℓ} (K V : Type ℓ) : Type ℓ where
  pub ttl : ℕ
  pub inner_map : List (K × (ℕ × V))
  pub queue : List (ℕ × K)
  pub last_compaction : ℕ

unfoldable pub new {ℓ} : {K V : Type ℓ} → ℕ → TtlMap K V
new ttl = record { ttl = ttl; inner_map = []; queue = []; last_compaction = 0 }

abbrev pub value_of {ℓ} : {V : Type ℓ} → Option (ℕ × V) → Option V
value_of none = none
value_of (some (t, v)) = some v

-- A mutable reference is the value that it points to, and the map after a write of a new one.
abbrev pub Ref {ℓ} : (K V : Type ℓ) → Type ℓ
Ref K V = V × (V → TtlMap K V)

module _ {ℓ} {K V : Type ℓ} (dec : Discrete K) where
  -- An insertion out of order is only logged.
  unfoldable pub insert : TtlMap K V → K → V → ℕ → TtlMap K V
  insert m key value time = record m {
    inner_map = Assoc.insert dec key (time + m.ttl, value) m.inner_map;
    queue = m.queue ++ (time + m.ttl, key) ∷ [];
  }

  -- The entry of a popped key goes if it has expired. A later `insert` may have renewed it.
  unfoldable pub evict : ℕ → K → List (K × (ℕ × V)) → List (K × (ℕ × V))
  evict time key map = elim (Assoc.get dec key map) [
    | none ↦ map
    | some (current_expiry, v) ↦ ite (dec_lt current_expiry time) (Assoc.remove dec key map) map
  ]

  -- The `while let` of `compact`.
  unfoldable pub sweep : ℕ → List (K × (ℕ × V)) → List (ℕ × K) → List (K × (ℕ × V)) × List (ℕ × K)
  sweep time map [] = (map, [])
  sweep time map ((t, key) ∷ queue) =
      ite (dec_le time t) (map, (t, key) ∷ queue) (sweep time (evict time key map) queue)

  unfoldable pub compact : TtlMap K V → ℕ → TtlMap K V
  compact m time = record m {
    inner_map = (sweep time m.inner_map m.queue).0;
    queue = (sweep time m.inner_map m.queue).1;
    last_compaction = time;
  }

  unfoldable pub get : TtlMap K V → K → ℕ → Option V × TtlMap K V
  get m key time = let m' = compact m time in (value_of (Assoc.get dec key m'.inner_map), m')

  ref : TtlMap K V → K → ℕ × V → Ref K V
  ref m key (t, v) = (v, λ v'. record m { inner_map = Assoc.insert dec key (t, v') m.inner_map })

  unfoldable pub get_or_insert_with : TtlMap K V → K → (Unit {0} → V) → ℕ → Ref K V
  unfolding ref
  get_or_insert_with m key func now = elim (Assoc.get dec key m.inner_map) [
    | none ↦
        ref (record m { inner_map = Assoc.insert dec key (now, func tt) m.inner_map }) key
          (now, func tt)
    | some d ↦ ref m key d
  ]

  unfoldable pub get_mut : TtlMap K V → K → ℕ → Option (Ref K V) × TtlMap K V
  unfolding ref
  get_mut m key time =
      let m' = compact m time in
      (elim (Assoc.get dec key m'.inner_map) [ none ↦ none | some d ↦ some (ref m' key d) ], m')
