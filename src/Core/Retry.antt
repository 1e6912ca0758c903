-- ===== src/Core/Retry.antt =====
-- core/src/retry.rs. `func n` is what the n-th call of the closure returns; the waits are left out.
use spawner.Prelude.{
  ℕ, zero, suc, ◌+◌, ◌%◌, ◌≤◌, ◌<◌, Option, none, some, ite, dec_le, ◌≡◌, refl, ◌⊎◌, inl, inr,
  arith, if_pos, if_neg, ◌∙◌, ap,
}
use spawner.Prelude.Result.{Result, ok, err, Result-cases}

-- The loop, with the number of the call that its result is from. `attempt` is a `u16`.
unfoldable pub retry_loop {ℓ} :
    {E T : Type ℓ} → (ℕ → Result E T) → ℕ → ℕ → ℕ → Option (Result E T × ℕ)
retry_loop func retries zero attempt = none
retry_loop func retries (suc fuel) attempt =
    let rest = retry_loop func retries fuel ((attempt + 1) % 65536) in
    elim (func attempt) [
      | ok value ↦ some (ok value, attempt)
      | err error ↦ ite (dec_le retries attempt) (some (err error, attempt)) rest
    ]

-- More rounds than a `u16` has values are never run.
unfoldable pub do_with_retry {ℓ} : {E T : Type ℓ} → (ℕ → Result E T) → ℕ → Option (Result E T × ℕ)
unfolding retry_loop
do_with_retry func retries = retry_loop func retries 65536 1

abbrev pub IsOk {ℓ} : {E T : Type ℓ} → Result E T → Type 0
IsOk (ok v) = Unit
IsOk (err e) = ⊥

-- The result is that of the first call that succeeds, or of the last one that is allowed.
pub record Retried {ℓ} {E T : Type ℓ} (func : ℕ → Result E T) (retries first : ℕ)
    (o : Option (Result E T × ℕ)) : Type ℓ where
  pub calls : ℕ
  pub returned : o ≡ some (func calls, calls)
  pub started : first ≤ calls
  pub failed : (n : ℕ) → first ≤ n → n < calls → ¬ IsOk (func n)
  pub ends : IsOk (func calls) ⊎ (retries ≤ calls)
  pub bounded : calls ≤ first ⊎ (calls ≤ retries)

not-IsOk {ℓ} : {E T : Type ℓ} (r : Result E T) (e : E) → r ≡ err e → ¬ IsOk r
not-IsOk r e h i = rw (h) at i

retry_loop_next {ℓ} :
    {E T : Type ℓ} (func : ℕ → Result E T) (retries fuel attempt : ℕ) (x : E)
    → func attempt ≡ err x
    → ¬ (retries ≤ attempt)
    → attempt + 1 < 65536
    → retry_loop func retries (suc fuel) attempt ≡ retry_loop func retries fuel (suc attempt)
unfolding retry_loop
retry_loop_next func retries fuel attempt x e gt h =
    let step : (attempt + 1) % 65536 ≡ suc attempt = omega arith in
    rw (retry_loop, e, if_neg (dec_le retries attempt) gt, step) refl

retry_loop-Retried {ℓ} :
    {E T : Type ℓ} (func : ℕ → Result E T) (retries fuel attempt : ℕ)
    → retries < 65536
    → attempt < 65536
    → 65536 < attempt + suc fuel
    → Retried func retries attempt (retry_loop func retries (suc fuel) attempt)
unfolding retry_loop
retry_loop-Retried func retries zero attempt h i j = absurd (omega arith)
retry_loop-Retried func retries (suc fuel) attempt h i j = elim (Result-cases (func attempt)) [
  | inl (v, e) ↦ record {
    calls = attempt;
    returned = rw (retry_loop, e) refl;
    started = omega arith;
    failed = λ n a b. absurd (omega arith);
    ends = inl (rw e tt);
    bounded = inl (omega arith);
  }
  | inr (x, e) ↦ elim (dec_le retries attempt) [
    | yes le ↦ record {
      calls = attempt;
      returned = rw (retry_loop, e, if_pos (dec_le retries attempt) le) refl;
      started = omega arith;
      failed = λ n a b. absurd (omega arith);
      ends = inr le;
      bounded = inl (omega arith);
    }
    | no gt ↦
        let r = retry_loop-Retried func retries fuel (suc attempt) h (omega arith) (omega arith) in
        record {
          calls = r.calls;
          returned =
              retry_loop_next func retries (suc fuel) attempt x e gt (omega arith) ∙ r.returned;
          started = omega (arith, r.started);
          failed = λ n a b. elim (dec_le n attempt) [
            | yes le ↦ let q : n ≡ attempt = omega arith in rw q (not-IsOk (func attempt) x e)
            | no g ↦ r.failed n (omega arith) b
          ];
          ends = r.ends;
          bounded = elim r.bounded [ inl b ↦ inr (omega arith) | inr b ↦ inr b ];
        }
  ]
]

-- For a number of retries that a `u16` holds, the retries end, after as many calls as are allowed,
-- or one if none are: every call but the last failed, and the result is what the last call
-- returned, a success unless the calls are used up.
pub do_with_retry-Retried {ℓ} :
    {E T : Type ℓ} (func : ℕ → Result E T) (retries : ℕ)
    → retries < 65536
    → Retried func retries 1 (do_with_retry func retries)
unfolding do_with_retry
do_with_retry-Retried func retries h =
    retry_loop-Retried func retries 65535 1 h (omega arith) (omega arith)

-- Where the n-th call succeeds, of as many as are allowed, and all earlier ones fail, its value is what
-- the retries return.
pub do_with_retry_finds {ℓ} :
    {E T : Type ℓ} (func : ℕ → Result E T) (retries n : ℕ) (v : T)
    → retries < 65536
    → 1 ≤ n
    → n ≤ retries
    → ((m : ℕ) → 1 ≤ m → m < n → ¬ IsOk (func m))
    → func n ≡ ok v
    → do_with_retry func retries ≡ some (ok v, n)
do_with_retry_finds func retries n v h i j failed e =
    let r = do_with_retry-Retried func retries h in
    elim (dec_le n r.calls) [
      | no lt ↦ elim r.ends [
        | inl good ↦ absurd (failed r.calls r.started (omega arith) good)
        | inr le ↦ absurd (omega arith)
      ]
      | yes le ↦ elim (dec_le r.calls n) [
        | no gt ↦ absurd (r.failed n i (omega arith) (rw e tt))
        | yes ge ↦
            let q : r.calls ≡ n = omega arith in
            r.returned ∙ ap (λ m. some (func m, m)) q ∙ ap (λ x. some (x, n)) e
      ]
    ]
