-- ===== src/Ttl/Multistore.antt =====
-- controller/src/ttl_store/ttl_multistore.rs. `now` is the `SystemTime::now` of
-- `get_or_insert_with`.
pub mod History
use spawner.Prelude.{ℕ, List, Option, none, some}
use spawner.Ttl.TtlList
use spawner.Ttl.TtlList.{TtlList}
use spawner.Ttl.TtlMap
use spawner.Ttl.TtlMap.{TtlMap}

pub record TtlMultistore {ℓ} (K V : Type ℓ) : Type ℓ where
  pub inner : TtlMap K (TtlList V)
  pub ttl : ℕ

unfoldable pub new {ℓ} : {K V : Type ℓ} → ℕ → TtlMultistore K V
new ttl = record { inner = TtlMap.new ttl; ttl = ttl }

module _ {ℓ} {K V : Type ℓ} (dec : Discrete K) where
  unfoldable pub insert : TtlMultistore K V → K → V → ℕ → ℕ → TtlMultistore K V
  insert s key value time now =
      let (list, write) = TtlMap.get_or_insert_with dec s.inner key (λ _. TtlList.new s.ttl) now in
      record s { inner = write (TtlList.push list value time) }

  unfoldable pub iter : TtlMultistore K V → K → ℕ → Option (List V) × TtlMultistore K V
  iter s key time =
      let (found, m) = TtlMap.get_mut dec s.inner key time in
      elim found [
        | none ↦ (none, record s { inner = m })
        | some (list, write) ↦
            let (values, list') = TtlList.iter list time in
            (some values, record s { inner = write list' })
      ]
