-- ===== src/Core/Nats/Subscriptions.antt =====
-- core/src/nats.rs: `TypedSubscription` and `JetstreamSubscription`. A subscription is the messages
-- that are still to arrive before it ends.
use spawner.Prelude.{
  ℕ, zero, suc, ◌≡◌, refl, sym, ap, ◌∙◌, List, [], ◌∷◌, ◌++◌, Option, none, some, inl, inr,
}
use mathlib.Core.List.{append_assoc}
use spawner.Prelude.Result.{Result, ok, err, Result-cases}
use spawner.Prelude.Text.{Text}
use spawner.Core.Nats.{Bytes, Message, Batch, TypedMessage}

-- The client that a handle responds through is the one of the subscription.
pub record MessageWithResponseHandle (T : Type 0) : Type 0 where
  pub value : T
  pub message : Message

-- The values that a decoder gives, of the messages that it decodes: what a subscriber is to see.
abbrev pub decoded : {T : Type 0} → (Bytes → Result Text T) → List Message → List T
decoded from_slice [] = []
decoded from_slice (m ∷ ms) = elim (from_slice m.payload) [
  | ok v ↦ v ∷ decoded from_slice ms
  | err e ↦ decoded from_slice ms
]

abbrev pub delivered : Batch → List Message
delivered [] = []
delivered (ok m ∷ ms) = m ∷ delivered ms
delivered (err e ∷ ms) = delivered ms

abbrev pub take {ℓ} : {A : Type ℓ} → ℕ → List A → List A
take zero xs = []
take (suc n) [] = []
take (suc n) (x ∷ xs) = x ∷ take n xs

module _ {T : Type 0} (from_slice : Bytes → Result Text T) (m : Message) (ms : List Message) where
  pub decoded-ok :
      (v : T)
      → from_slice m.payload ≡ ok v
      → decoded from_slice (m ∷ ms) ≡ v ∷ decoded from_slice ms
  decoded-ok v e = rw (decoded, e) refl

  pub decoded-err :
      (x : Text)
      → from_slice m.payload ≡ err x
      → decoded from_slice (m ∷ ms) ≡ decoded from_slice ms
  decoded-err x e = rw (decoded, e) refl

-- What is read after a call that returned something.
abbrev after : {H T S : Type 0} → (H → T) → (S → List T) → Option H × S → List T
after value k (none, rest) = []
after value k (some h, rest) = value h ∷ k rest

module _ {T R : Type 0} (t : TypedMessage T R) where
  unfoldable pub new_handle : Message → Result Text (MessageWithResponseHandle T)
  new_handle m = elim (t.from_slice m.payload) [
    | ok v ↦ ok (record { value = v; message = m })
    | err e ↦ err e
  ]

  -- The handle, and the rest of the subscription.
  unfoldable pub next : List Message → Option (MessageWithResponseHandle T) × List Message
  next [] = (none, [])
  next (m ∷ ms) = let rest = next ms in elim (new_handle m) [ ok v ↦ (some v, ms) | err e ↦ rest ]

  -- The value, the rest of the stream, and the messages that were acknowledged, in order. An
  -- acknowledgement that fails is logged.
  unfoldable pub next_jetstream : Batch → Option T × Batch × List Message
  next_jetstream [] = (none, [], [])
  next_jetstream (err e ∷ ms) = next_jetstream ms
  next_jetstream (ok m ∷ ms) =
      let rest = next_jetstream ms in
      elim (t.from_slice m.payload) [
        | ok v ↦ (some v, ms, m ∷ [])
        | err e ↦ (rest.0, rest.1, m ∷ rest.2)
      ]

  -- The values of `n` calls of `next`, those calls that return one.
  abbrev pub calls : ℕ → List Message → List T
  calls zero ms = []
  calls (suc n) ms = after (λ h. h.value) (calls n) (next ms)

  pub next-ok :
      (m : Message) (ms : List Message) (v : T)
      → t.from_slice m.payload ≡ ok v
      → next (m ∷ ms) ≡ (some (record { value = v; message = m }), ms)
  unfolding next new_handle
  next-ok m ms v e = rw (next, new_handle, e) refl

  pub next-err :
      (m : Message) (ms : List Message) (x : Text)
      → t.from_slice m.payload ≡ err x
      → next (m ∷ ms) ≡ next ms
  unfolding next new_handle
  next-err m ms x e = rw (next, new_handle, e) refl

  -- Calls of `next`, however many, return in order the first messages of the subscription that can
  -- be decoded, skipping the others, and nothing once there are no more.
  pub calls-decoded : (n : ℕ) (ms : List Message) → calls n ms ≡ take n (decoded t.from_slice ms)
  unfolding next new_handle
  calls-decoded zero ms = refl
  calls-decoded (suc n) [] = refl
  calls-decoded (suc n) (m ∷ ms) = elim (Result-cases (t.from_slice m.payload)) [
    | inl (v, e) ↦
        ap (after (λ h. h.value) (calls n)) (next-ok m ms v e)
        ∙ ap (◌∷◌ v) (calls-decoded n ms)
        ∙ ap (take (suc n)) (sym (decoded-ok t.from_slice m ms v e))
    | inr (x, e) ↦
        ap (after (λ h. h.value) (calls n)) (next-err m ms x e)
        ∙ calls-decoded (suc n) ms
        ∙ ap (take (suc n)) (sym (decoded-err t.from_slice m ms x e))
  ]

  abbrev pub values : ℕ → Batch → List T
  values zero ms = []
  values (suc n) ms = after (λ v. v) (values n) ((next_jetstream ms).0, (next_jetstream ms).1)

  next_jetstream-ok :
      (m : Message) (ms : Batch) (v : T)
      → t.from_slice m.payload ≡ ok v
      → next_jetstream (ok m ∷ ms) ≡ (some v, ms, m ∷ [])
  unfolding next_jetstream
  next_jetstream-ok m ms v e = rw (next_jetstream, e) refl

  next_jetstream-err :
      (m : Message) (ms : Batch) (x : Text)
      → t.from_slice m.payload ≡ err x
      → next_jetstream (ok m ∷ ms)
        ≡ ((next_jetstream ms).0, (next_jetstream ms).1, m ∷ (next_jetstream ms).2)
  unfolding next_jetstream
  next_jetstream-err m ms x e = rw (next_jetstream, e) refl

  abbrev pub left : ℕ → Batch → Batch
  left zero ms = ms
  left (suc n) ms = left n (next_jetstream ms).1

  abbrev pub acknowledged : ℕ → Batch → List Message
  acknowledged zero ms = []
  acknowledged (suc n) ms = (next_jetstream ms).2 ++ acknowledged n (next_jetstream ms).1

  values-decoded : (n : ℕ) (ms : Batch) → values n ms ≡ take n (decoded t.from_slice (delivered ms))
  unfolding next_jetstream
  values-decoded zero ms = refl
  values-decoded (suc n) [] = refl
  values-decoded (suc n) (err e ∷ ms) = values-decoded (suc n) ms
  values-decoded (suc n) (ok m ∷ ms) = elim (Result-cases (t.from_slice m.payload)) [
    | inl (v, e) ↦
        ap (λ p. after (λ v. v) (values n) (p.0, p.1)) (next_jetstream-ok m ms v e)
        ∙ ap (◌∷◌ v) (values-decoded n ms)
        ∙ ap (take (suc n)) (sym (decoded-ok t.from_slice m (delivered ms) v e))
    | inr (x, e) ↦
        ap (λ p. after (λ v. v) (values n) (p.0, p.1)) (next_jetstream-err m ms x e)
        ∙ values-decoded (suc n) ms
        ∙ ap (take (suc n)) (sym (decoded-err t.from_slice m (delivered ms) x e))
  ]

  next_acknowledged :
      (ms : Batch) → (next_jetstream ms).2 ++ delivered (next_jetstream ms).1 ≡ delivered ms
  unfolding next_jetstream
  next_acknowledged [] = refl
  next_acknowledged (err e ∷ ms) = next_acknowledged ms
  next_acknowledged (ok m ∷ ms) = elim (Result-cases (t.from_slice m.payload)) [
    | inl (v, e) ↦ ap (λ p. p.2 ++ delivered p.1) (next_jetstream-ok m ms v e)
    | inr (x, e) ↦
        ap (λ p. p.2 ++ delivered p.1) (next_jetstream-err m ms x e)
        ∙ ap (◌∷◌ m) (next_acknowledged ms)
  ]

  all_acknowledged :
      (n : ℕ) (ms : Batch) → acknowledged n ms ++ delivered (left n ms) ≡ delivered ms
  all_acknowledged zero ms = refl
  all_acknowledged (suc n) ms =
      append_assoc (next_jetstream ms).2 (acknowledged n (next_jetstream ms).1) _
      ∙ ap (λ x. (next_jetstream ms).2 ++ x) (all_acknowledged n (next_jetstream ms).1)
      ∙ next_acknowledged ms

  -- Calls of `next` of a JetStream subscription, however many, return in order the first of its
  -- messages that can be decoded, skipping errors and the messages that cannot; what they have
  -- acknowledged, followed by what is still to be delivered, is all its messages in order: each
  -- message that was consumed is acknowledged once, also if it could not be decoded, and no other.
  pub calls-acknowledged :
      (n : ℕ) (ms : Batch)
      → (values n ms ≡ take n (decoded t.from_slice (delivered ms)))
        × (acknowledged n ms ++ delivered (left n ms) ≡ delivered ms)
  calls-acknowledged n ms = (values-decoded n ms, all_acknowledged n ms)
