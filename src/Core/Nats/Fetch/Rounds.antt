-- ===== src/Core/Nats/Fetch/Rounds.antt =====
-- What `get_all` returns, from a consumer that delivers what waits for it.
use mathlib.Core.List.{append_assoc, append-nil}
use spawner.Prelude.{
  ℕ, zero, suc, ◌<◌, ◌≡◌, refl, sym, ap, ◌∙◌, List, [], ◌∷◌, ◌++◌, Option, some, inl, inr, arith,
  map, length, length-append, Bool, true, false,
}
use spawner.Prelude.Result.{Result, ok, err, Result-cases}
use spawner.Prelude.Text.{Text, Text_discrete}
use spawner.Core.Nats.{
  Bytes, Message, Batch, JetStreamable, SubscribeSubject, DeliverPolicy, Request, Server, TypedNats,
  send, send_to_anyhow, to_anyhow, get_stream, create_pull_consumer,
}
use spawner.Core.Nats.Fetch.{
  nats_error_hack, read_batch, end_of_round, get_all_loop, settle, get_all, map_ok, decode_all,
  Ends, with_stream, with_error, Delivers, drained, batch,
}

nats_error_hack-Ends :
    (ending : Batch)
    → Ends ending
    → {T : Type 0} (from_slice : Bytes → Result Text T) (result : List T) (done : Bool)
    → read_batch from_slice ending result done ≡ ok (result, done)
unfolding read_batch nats_error_hack Text_discrete
nats_error_hack-Ends (ok m ∷ rest) h from_slice result done = elim h [ ]
nats_error_hack-Ends [] with_stream from_slice result done = refl
nats_error_hack-Ends (err e ∷ rest) (with_error _) from_slice result done = refl

module _ {T : Type 0} (from_slice : Bytes → Result Text T) where
  abbrev last_flag : Bool → List Message → Bool
  last_flag done [] = done
  last_flag done (m ∷ ms) = false

  last_flag-false : (ms : List Message) → last_flag false ms ≡ false
  last_flag-false [] = refl
  last_flag-false (m ∷ ms) = refl

  read_batch-ok :
      (m : Message) (ms : Batch) (v : T) (result : List T) (done : Bool)
      → from_slice m.payload ≡ ok v
      → read_batch from_slice (ok m ∷ ms) result done
        ≡ read_batch from_slice ms (result ++ (v ∷ [])) false
  unfolding read_batch nats_error_hack
  read_batch-ok m ms v result done e = rw (read_batch, nats_error_hack, e) refl

  read_batch-err :
      (m : Message) (ms : Batch) (x : Text) (result : List T) (done : Bool)
      → from_slice m.payload ≡ err x
      → read_batch from_slice (ok m ∷ ms) result done ≡ err x
  unfolding read_batch nats_error_hack
  read_batch-err m ms x result done e = rw (read_batch, nats_error_hack, e) refl

  decode_all-ok :
      (m : Message) (ms : List Message) (v : T)
      → from_slice m.payload ≡ ok v
      → decode_all from_slice (m ∷ ms) ≡ map_ok (◌∷◌ v) (decode_all from_slice ms)
  decode_all-ok m ms v e = rw (decode_all, e) refl

  decode_all-err :
      (m : Message) (ms : List Message) (x : Text)
      → from_slice m.payload ≡ err x
      → decode_all from_slice (m ∷ ms) ≡ err x
  decode_all-err m ms x e = rw (decode_all, e) refl

  map_ok-map_ok :
      {A B C : Type 0} (f : B → C) (g : A → B) (h : A → C) (r : Result Text A)
      → ((a : A) → f (g a) ≡ h a)
      → map_ok f (map_ok g r) ≡ map_ok h r
  map_ok-map_ok f g h (ok a) e = ap ok (e a)
  map_ok-map_ok f g h (err x) e = refl

  -- A batch that ends as it should is decoded, and ends the loop only if it is empty.
  read_batch-decode_all :
      (ms : List Message) (ending : Batch)
      → Ends ending
      → (result : List T) (done : Bool)
      → read_batch from_slice (map ok ms ++ ending) result done
        ≡ map_ok (λ vs. (result ++ vs, last_flag done ms)) (decode_all from_slice ms)
  read_batch-decode_all [] ending h result done =
      nats_error_hack-Ends ending h from_slice result done
      ∙ ap (λ x. ok (x, done)) (sym (append-nil result))
  read_batch-decode_all (m ∷ ms) ending h result done = elim (Result-cases (from_slice m.payload)) [
    | inl (v, e) ↦
        read_batch-ok m _ v result done e
        ∙ read_batch-decode_all ms ending h (result ++ (v ∷ [])) false
        ∙ sym (
            ap (map_ok (λ vs. (result ++ vs, false))) (decode_all-ok m ms v e)
            ∙ map_ok-map_ok (λ vs. (result ++ vs, false)) (◌∷◌ v)
                (λ vs. ((result ++ (v ∷ [])) ++ vs, last_flag false ms)) (decode_all from_slice ms)
                (λ vs.
                  ap (λ x. (x, false)) (sym (append_assoc result (v ∷ []) vs))
                  ∙ ap (λ b. ((result ++ (v ∷ [])) ++ vs, b)) (sym (last_flag-false ms))))
    | inr (x, e) ↦
        read_batch-err m _ x result done e
        ∙ sym (ap (map_ok (λ vs. (result ++ vs, false))) (decode_all-err m ms x e))
  ]

  get_all_loop_round :
      (fetch : ℕ → Result Text Batch) (fuel i : ℕ) (b : Batch) (result : List T)
      → fetch i ≡ ok b
      → get_all_loop from_slice (suc fuel) fetch i result
        ≡ end_of_round from_slice
            (get_all_loop from_slice fuel fetch (suc i))
            (read_batch from_slice b result true)
  unfolding get_all_loop to_anyhow
  get_all_loop_round fetch fuel i b result e = rw (get_all_loop, to_anyhow, e) refl

  -- What is decoded before the rest.
  abbrev then_all : Result Text (List T) → Result Text (List T) → Result Text (List T)
  then_all (ok vs) r = map_ok (λ ws. vs ++ ws) r
  then_all (err e) r = err e

  map_ok-then_all :
      (v : T) (r q : Result Text (List T))
      → map_ok (◌∷◌ v) (then_all r q) ≡ then_all (map_ok (◌∷◌ v) r) q
  map_ok-then_all v (ok vs) (ok ws) = refl
  map_ok-then_all v (ok vs) (err e) = refl
  map_ok-then_all v (err e) q = refl

  map_ok_id : (r : Result Text (List T)) → r ≡ map_ok (λ ws. [] ++ ws) r
  map_ok_id (ok vs) = refl
  map_ok_id (err e) = refl

  decode_all-append :
      (xs ys : List Message)
      → decode_all from_slice (xs ++ ys)
        ≡ then_all (decode_all from_slice xs) (decode_all from_slice ys)
  decode_all-append [] ys = map_ok_id (decode_all from_slice ys)
  decode_all-append (m ∷ ms) ys = elim (Result-cases (from_slice m.payload)) [
    | inl (v, e) ↦
        decode_all-ok m (ms ++ ys) v e
        ∙ ap (map_ok (◌∷◌ v)) (decode_all-append ms ys)
        ∙ map_ok-then_all v (decode_all from_slice ms) (decode_all from_slice ys)
        ∙ ap (λ r. then_all r (decode_all from_slice ys)) (sym (decode_all-ok m ms v e))
    | inr (x, e) ↦
        decode_all-err m (ms ++ ys) x e
        ∙ ap (λ r. then_all r (decode_all from_slice ys)) (sym (decode_all-err m ms x e))
  ]

  -- The loop goes on with what a batch decodes to, or ends with its error.
  end_of_round-then_all :
      (continue : List T → Option (Result Text (List T))) (result : List T)
      (r q : Result Text (List T))
      → ((ws : List T) → continue ws ≡ some (map_ok (λ vs. ws ++ vs) q))
      → end_of_round from_slice continue (map_ok (λ vs. (result ++ vs, false)) r)
        ≡ some (map_ok (λ vs. result ++ vs) (then_all r q))
  unfolding end_of_round
  end_of_round-then_all continue result (ok vs) q h =
      h (result ++ vs)
      ∙ ap some (
          sym (
            map_ok-map_ok (λ ws. result ++ ws) (λ ws. vs ++ ws) (λ ws. (result ++ vs) ++ ws) q
              (λ ws. sym (append_assoc result vs ws))))
  end_of_round-then_all continue result (err e) q h = refl

  get_all_loop-Delivers :
      (fetch : ℕ → Result Text Batch) (i : ℕ) (waiting : List Message)
      → Delivers fetch i waiting
      → (fuel : ℕ) → length waiting < fuel
      → (result : List T)
      → get_all_loop from_slice fuel fetch i result
        ≡ some (map_ok (λ vs. result ++ vs) (decode_all from_slice waiting))
  unfolding end_of_round
  get_all_loop-Delivers fetch i waiting d zero h result = absurd (omega arith)
  get_all_loop-Delivers fetch i [] (drained _ ending e n) (suc fuel) h result =
      get_all_loop_round fetch fuel i ending result e
      ∙ ap (end_of_round from_slice (get_all_loop from_slice fuel fetch (suc i)))
          (nats_error_hack-Ends ending n from_slice result true)
      ∙ ap (λ x. some (ok x)) (sym (append-nil result))
  get_all_loop-Delivers fetch i w (batch _ m ms rest ending e n d) (suc fuel) h result =
      get_all_loop_round fetch fuel i _ result e
      ∙ ap (end_of_round from_slice (get_all_loop from_slice fuel fetch (suc i)))
          (read_batch-decode_all (m ∷ ms) ending n result true)
      ∙ end_of_round-then_all (get_all_loop from_slice fuel fetch (suc i)) result
          (decode_all from_slice (m ∷ ms)) (decode_all from_slice rest)
          (get_all_loop-Delivers fetch (suc i) rest d fuel
            (omega (arith, h, length-append (m ∷ ms) rest)))
      ∙ ap (λ r. some (map_ok (λ vs. result ++ vs) r)) (sym (decode_all-append (m ∷ ms) rest))

settle-map_ok : {A : Type 0} (r : Result Text A) → settle (some r) ≡ map_ok some r
settle-map_ok (ok a) = refl
settle-map_ok (err e) = refl

map_ok_nil : {T : Type 0} (r : Result Text (List T)) → map_ok (λ vs. [] ++ vs) r ≡ r
map_ok_nil (ok vs) = refl
map_ok_nil (err e) = refl

-- For a stream that exists and a consumer that is created, and delivers all that waits in batches of
-- which only the last is empty, `get_all` ends with every waiting message, decoded and in order, or
-- with the error of the first one that cannot be decoded, if its fuel exceeds the number of messages;
-- also if the request to create the stream fails.
pub get_all-decode_all :
    {T R : Type 0} (server : Server) (fuel : ℕ) (j : JetStreamable T R)
    (subject : SubscribeSubject T) (policy : DeliverPolicy) (s : TypedNats)
    (fetch : ℕ → Result Text Batch) (waiting : List Message)
    → ((rs : List Request) → server rs (get_stream j.stream_name) ≡ ok tt)
    → ((rs : List Request)
        → server rs (create_pull_consumer j.stream_name policy subject.subject) ≡ ok fetch)
    → Delivers fetch 0 waiting
    → length waiting < fuel
    → (get_all server fuel j subject policy s).1
      ≡ map_ok some (decode_all j.message.from_slice waiting)
unfolding get_all send_to_anyhow send to_anyhow
get_all-decode_all server fuel j subject policy s fetch waiting hs hc d h =
    rw (hs _, hc _)
      (ap settle (get_all_loop-Delivers j.message.from_slice fetch 0 waiting d fuel h [])
        ∙ settle-map_ok _
        ∙ ap (map_ok some) (map_ok_nil (decode_all j.message.from_slice waiting)))
