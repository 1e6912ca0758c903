-- ===== src/Ttl/TtlList.antt =====
-- controller/src/ttl_store/ttl_list.rs.
pub mod History
use spawner.Prelude.{ℕ, ◌+◌, List, [], ◌∷◌, ◌++◌, map, ite, dec_lt}

pub record TtlList {ℓ} (V : Type ℓ) : Type ℓ where
  pub items : List (ℕ × V)
  pub ttl : ℕ
  pub last_compaction : ℕ

module _ {ℓ} {V : Type ℓ} where
  unfoldable pub new : ℕ → TtlList V
  new ttl = record { items = []; ttl = ttl; last_compaction = 0 }

  -- An insertion out of order is only logged.
  unfoldable pub push : TtlList V → V → ℕ → TtlList V
  push l value time = record l { items = l.items ++ (time + l.ttl, value) ∷ [] }

  -- The `while let` of `compact`.
  unfoldable pub drop_expired : ℕ → List (ℕ × V) → List (ℕ × V)
  drop_expired time [] = []
  drop_expired time ((t, v) ∷ items) =
      ite (dec_lt time t) ((t, v) ∷ items) (drop_expired time items)

  unfoldable pub compact : TtlList V → ℕ → TtlList V
  compact l time = record l { items = drop_expired time l.items; last_compaction = time }

  abbrev pub values : List (ℕ × V) → List V
  values = map (λ d. d.1)

  unfoldable pub iter : TtlList V → ℕ → List V × TtlList V
  unfolding compact
  iter l time = (values (compact l time).items, compact l time)
