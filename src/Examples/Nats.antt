-- ===== src/Examples/Nats.antt =====
-- The theorems of the client of NATS at concrete inputs.
use spawner.Prelude.{ℕ, zero, suc, ◌≡◌, refl, sym, ap, List, [], ◌∷◌, ◌++◌, none, some, arith}
use spawner.Prelude.Result.{Result, ok, err}
use spawner.Prelude.Text.{Text, codes, Text_discrete}
use spawner.Core.Nats.{
  Bytes, Message, Batch, TypedMessage, JetStreamable, SubscribeSubject, deliver_all, Request,
  publish, publish_with_reply, subscribe, request, get_or_create_stream, get_stream,
  create_pull_consumer, create_push_consumer, consumer_messages, jetstream_publish, Server, new,
  publish_jetstream, ensure_jetstream_exists, add_jetstream_stream, remember, send_to_anyhow, send,
  to_anyhow, split_request, contains_name,
}
use spawner.Core.Nats.Subscriptions.{
  take, decoded, delivered, next, values, left, acknowledged, calls-acknowledged,
}
use spawner.Core.Nats.Fetch.{
  no_messages, get_all, map_ok, decode_all, drained, batch, with_stream, with_error,
}
use spawner.Core.Nats.Fetch.Rounds.{get_all-decode_all}
use spawner.Core.Nats.Streams.{creations}
use spawner.Core.Nats.Streams.History.{
  NatsCall, publish_jetstream_call, get_all_call, published_created_once, run,
}
use spawner.Core.Nats.Replies as Replies
use spawner.Core.Nats.Replies.{
  respond, requested, received, value_read, read_reply, split_request-respond,
}

-- Numbers, encoded as one byte.
abbrev from_byte : Bytes → Result Text ℕ
from_byte (n ∷ []) = ok n
from_byte _ = err (codes "not one byte")

abbrev counter : TypedMessage ℕ ℕ
counter = record {
  subject_of = λ n. codes "counter";
  to_vec = λ n. ok (n ∷ []);
  from_slice = from_byte;
  response_to_vec = λ n. ok (n ∷ []);
  response_from_slice = from_byte;
}

abbrev counter_stream : JetStreamable ℕ ℕ
counter_stream = record {
  message = counter;
  stream_name = codes "counters";
  config = record {
    name = codes "counters";
    subjects = codes "counter" ∷ [];
    max_messages_per_subject = none;
    max_age = none;
  };
  config_name = refl;
}

abbrev message : Bytes → Message
message b = record { subject = codes "counter"; reply = none; payload = b }

abbrev fetched : ℕ → Result Text Batch
fetched zero = ok (ok (message (1 ∷ [])) ∷ ok (message (2 ∷ [])) ∷ [])
fetched (suc i) = ok (err no_messages ∷ [])

-- A server that grants every request.
abbrev granting : Server
granting rs (publish _ _) = ok tt
granting rs (publish_with_reply _ _ _) = ok tt
granting rs (subscribe _) = ok []
granting rs (request _ b) = ok (message b)
granting rs (get_or_create_stream _) = ok tt
granting rs (get_stream _) = ok tt
granting rs (create_pull_consumer _ _ _) = ok fetched
granting rs (create_push_consumer _ _ _) = ok tt
granting rs (consumer_messages _) = ok []
granting rs (jetstream_publish _ _) = ok tt

abbrev arriving : List Message
arriving = message (1 ∷ []) ∷ message [] ∷ message (3 ∷ []) ∷ []

abbrev delivering : Batch
delivering =
    ok (message (1 ∷ [])) ∷ err (codes "timeout") ∷ ok (message []) ∷ ok (message (3 ∷ [])) ∷ []

calls-acknowledged_example :
    (values counter 2 delivering ≡ take 2 (decoded from_byte (delivered delivering)))
    × (acknowledged counter 2 delivering ++ delivered (left counter 2 delivering)
        ≡ delivered delivering)
calls-acknowledged_example = calls-acknowledged counter 2 delivering

abbrev subject : SubscribeSubject ℕ
subject = record { subject = codes "counter" }

get_all-decode_all_example :
    (get_all granting 3 counter_stream subject deliver_all new).1
    ≡ map_ok some (decode_all from_byte (message (1 ∷ []) ∷ message (2 ∷ []) ∷ []))
get_all-decode_all_example =
    get_all-decode_all granting 3 counter_stream subject deliver_all new fetched
      (message (1 ∷ []) ∷ message (2 ∷ []) ∷ []) (λ rs. refl) (λ rs. refl)
      (batch 0 (message (1 ∷ [])) (message (2 ∷ []) ∷ []) [] [] refl with_stream
        (drained 1 (err no_messages ∷ []) refl (with_error [])))
      (omega arith)

abbrev inbox : List Request → Text
inbox rs = codes "inbox"

abbrev calls_before : List NatsCall
calls_before =
    get_all_call 3 counter_stream subject deliver_all ∷ publish_jetstream_call counter_stream 7 ∷ []

published_created_once_example :
    creations granting
      (codes "counters")
      (publish_jetstream granting counter_stream 8 (run granting inbox new calls_before)).0.sent
    ≡ 1
unfolding publish_jetstream ensure_jetstream_exists add_jetstream_stream remember send_to_anyhow
    send to_anyhow new contains_name get_all Text_discrete
published_created_once_example =
    published_created_once granting counter_stream 8 inbox calls_before refl

abbrev value_or : Bytes → Result Text Bytes → Bytes
value_or b (ok c) = c
value_or b (err e) = b

ok_injective : (a b : Bytes) → Path (Result Text Bytes) (ok a) (ok b) → a ≡ b
ok_injective a b e = ap (value_or a) e

from_byte-encoded : (x : ℕ) (b : Bytes) → counter.to_vec x ≡ ok b → from_byte b ≡ ok x
from_byte-encoded x b e = let q : x ∷ [] ≡ b = ok_injective (x ∷ []) b e in ap from_byte (sym q)

abbrev answering : Server
answering rs (subscribe _) =
    ok (record { subject = codes "inbox"; reply = none; payload = 5 ∷ [] } ∷ [])
answering rs r = granting rs r

answered :
    answering [] (subscribe (codes "inbox"))
    ≡ ok (Replies.inbox counter answering granting inbox new new 4 5)
unfolding split_request send_to_anyhow send to_anyhow next respond Text_discrete new
    spawner.Core.Nats.Subscriptions.new_handle
answered = refl

split_request-respond_example :
    (value_read counter (received counter answering granting inbox new new 4 5) ≡ some 4)
    × (read_reply counter (requested counter answering granting inbox new new 4 5).1 ≡ ok 5)
unfolding new
split_request-respond_example =
    split_request-respond counter answering granting inbox new new 4 5 (4 ∷ []) (5 ∷ [])
      from_byte-encoded from_byte-encoded refl refl answered refl refl refl
