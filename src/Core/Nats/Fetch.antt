-- ===== src/Core/Nats/Fetch.antt =====
-- core/src/nats.rs: `nats_error_hack` and `get_all`, which reads a consumer in batches until one of
-- them is empty. `fetch i` is what the i-th call of `consumer.fetch().messages()` yields; the loop
-- over the batches runs on fuel.
pub mod Rounds
use mathlib.Core.List.{append_assoc, append-nil}
use spawner.Prelude.{
  ℕ, zero, suc, ◌+◌, ◌≤◌, ◌<◌, ◌≡◌, refl, sym, ap, ◌∙◌, List, [], ◌∷◌, ◌++◌, Option, none, some,
  inl, inr, arith, map, ite, length, length-append, Bool, true, false, if◌then◌else◌,
}
use spawner.Prelude.Result.{Result, ok, err, Result-cases}
use spawner.Prelude.Text.{Text, codes, Text_discrete}
use spawner.Core.Nats.{
  Bytes, Message, Batch, TypedMessage, JetStreamable, SubscribeSubject, DeliverPolicy, Call, Server,
  TypedNats, pure, ignore, ◌>>=◌, send_to_anyhow, to_anyhow, ensure_jetstream_exists, get_stream,
  create_pull_consumer,
}

abbrev pub no_messages : Text
no_messages = codes "error while processing messages from the stream: 404, Some(\"No Messages\")"

unfoldable pub nats_error_hack : Option (Result Text Message) → Result Text (Option Message)
unfolding Text_discrete
nats_error_hack none = ok none
nats_error_hack (some (ok v)) = ok (some v)
nats_error_hack (some (err e)) =
    ite (Text_discrete e no_messages) (ok none) (err (codes "NATS Error: " ++ e))

module _ {T : Type 0} (from_slice : Bytes → Result Text T) where
  -- The inner loop, with the result so far and the flag `done`.
  unfoldable pub read_batch : Batch → List T → Bool → Result Text (List T × Bool)
  read_batch [] result done = ok (result, done)
  read_batch (m ∷ ms) result done = elim (nats_error_hack (some m)) [
    | err e ↦ err e
    | ok none ↦ ok (result, done)
    | ok (some v) ↦ elim (from_slice v.payload) [
      | err e ↦ err e
      | ok x ↦ read_batch ms (result ++ (x ∷ [])) false
    ]
  ]

  -- The end of a round: an error is returned, the loop is left, or it goes on.
  unfoldable pub end_of_round :
      (List T → Option (Result Text (List T)))
      → Result Text (List T × Bool)
      → Option (Result Text (List T))
  end_of_round continue (err e) = some (err e)
  end_of_round continue (ok (result, true)) = some (ok result)
  end_of_round continue (ok (result, false)) = continue result

  unfoldable pub get_all_loop :
      ℕ → (ℕ → Result Text Batch) → ℕ → List T → Option (Result Text (List T))
  get_all_loop zero fetch i result = none
  get_all_loop (suc fuel) fetch i result = elim (to_anyhow (fetch i)) [
    | err e ↦ some (err e)
    | ok batch ↦ end_of_round (get_all_loop fuel fetch (suc i)) (read_batch batch result true)
  ]

-- What fuel leaves of a result: nothing, if the loop is still running.
abbrev pub settle : {A : Type 0} → Option (Result Text A) → Result Text (Option A)
settle none = ok none
settle (some (ok a)) = ok (some a)
settle (some (err e)) = err e

unfoldable pub get_all :
    {T R : Type 0}
    → Server
    → ℕ
    → JetStreamable T R
    → SubscribeSubject T
    → DeliverPolicy
    → Call (Option (List T))
get_all server fuel j subject policy = ignore (ensure_jetstream_exists server j) (
    send_to_anyhow server (get_stream j.stream_name)
    >>= (λ _. send_to_anyhow server (create_pull_consumer j.stream_name policy subject.subject))
    >>= (λ fetch. pure (settle (get_all_loop j.message.from_slice fuel fetch 0 []))))

-- What `get_all` is to return: every message, or the error of the first that cannot be decoded.
abbrev pub map_ok {ℓ} : {A B : Type ℓ} {E : Type ℓ} → (A → B) → Result E A → Result E B
map_ok f (ok a) = ok (f a)
map_ok f (err e) = err e

abbrev pub decode_all : {T : Type 0} → (Bytes → Result Text T) → List Message → Result Text (List T)
decode_all from_slice [] = ok []
decode_all from_slice (m ∷ ms) = elim (from_slice m.payload) [
  | err e ↦ err e
  | ok v ↦ map_ok (◌∷◌ v) (decode_all from_slice ms)
]

-- Where a batch ends: with the stream, or with the error that stands for that.
pub data Ends : Batch → Type 0 where
  with_stream : Ends []
  with_error : (rest : Batch) → Ends (err no_messages ∷ rest)

-- A consumer whose batches hold the messages that wait, in order, and whose batch is empty only
-- when none waits.
pub data Delivers (fetch : ℕ → Result Text Batch) : ℕ → List Message → Type 0 where
  drained : (i : ℕ) (ending : Batch) → fetch i ≡ ok ending → Ends ending → Delivers fetch i []
  batch :
      (i : ℕ) (m : Message) (ms rest : List Message) (ending : Batch)
      → fetch i ≡ ok (map ok (m ∷ ms) ++ ending)
      → Ends ending
      → Delivers fetch (suc i) rest
      → Delivers fetch i ((m ∷ ms) ++ rest)
