-- ===== src/Core/Nats.antt =====
-- core/src/nats.rs: the typed client of NATS. What the client asks of the server of `async_nats` is
-- recorded as a list of requests, the newest first; `Server`, a parameter, is what the server
-- answers to a request, given those before it. The encoders and decoders of `serde_json` are fields
-- of the message's interface.
pub mod Subscriptions
pub mod Fetch
pub mod Streams
pub mod Replies
use spawner.Prelude.{
  ℕ, List, [], ◌∷◌, ◌++◌, Option, none, some, Bool, true, false, ite, if◌then◌else◌, ◌≡◌,
}
use spawner.Prelude.Result.{Result, ok, err, ok_or}
use spawner.Prelude.Text.{Text, codes, Text_discrete}

abbrev pub Bytes : Type 0
Bytes = List ℕ

pub record Message : Type 0 where
  pub subject : Text
  pub reply : Option Text
  pub payload : Bytes

-- What a message of the stream of a JetStream consumer, or the error in its place, is.
abbrev pub Batch : Type 0
Batch = List (Result Text Message)

pub data NoReply : Type 0 where

-- The trait, with what `Serialize` and `DeserializeOwned` give for the message and its response.
pub record TypedMessage (T R : Type 0) : Type 0 where
  pub subject_of : T → Text
  pub to_vec : T → Result Text Bytes
  pub from_slice : Bytes → Result Text T
  pub response_to_vec : R → Result Text Bytes
  pub response_from_slice : Bytes → Result Text R

-- The fields of `jetstream::stream::Config` that the program sets. Times are in seconds.
pub record StreamConfig : Type 0 where
  pub name : Text
  pub subjects : List Text
  pub max_messages_per_subject : Option ℕ
  pub max_age : Option ℕ

-- The trait, with the law that its implementations keep.
pub record JetStreamable (T R : Type 0) : Type 0 where
  pub message : TypedMessage T R
  pub stream_name : Text
  pub config : StreamConfig
  pub config_name : config.name ≡ stream_name

pub record SubscribeSubject (T : Type 0) : Type 0 where
  pub subject : Text

pub data DeliverPolicy : Type 0 where
  deliver_all deliver_last_per_subject : DeliverPolicy

pub data Request : Type 0 where
  publish : Text → Bytes → Request
  publish_with_reply : Text → Text → Bytes → Request
  subscribe : Text → Request
  request : Text → Bytes → Request
  get_or_create_stream : StreamConfig → Request
  get_stream : Text → Request
  create_pull_consumer : Text → DeliverPolicy → Text → Request
  create_push_consumer : Text → Text → Text → Request
  consumer_messages : Text → Request
  jetstream_publish : Text → Bytes → Request

-- What comes with the server's consent: a subscription is the messages that arrive until it ends, a
-- consumer what its successive calls of `fetch` yield.
abbrev pub Answer : Request → Type 0
Answer (subscribe _) = List Message
Answer (request _ _) = Message
Answer (create_pull_consumer _ _ _) = ℕ → Result Text Batch
Answer (consumer_messages _) = Batch
Answer _ = Unit

abbrev pub Server : Type 0
Server = List Request → (r : Request) → Result Text (Answer r)

-- `jetstream_created_streams`, and what was asked of the server.
pub record TypedNats : Type 0 where
  pub created : List Text
  pub sent : List Request

unfoldable pub new : TypedNats
new = record { created = []; sent = [] }

-- A call on the client: its new state, and what the call returns.
abbrev pub Call : Type 0 → Type 0
Call A = TypedNats → TypedNats × Result Text A

abbrev pub pure : {A : Type 0} → Result Text A → Call A
pure r s = (s, r)

abbrev pub next_call :
    {A B : Type 0} → (A → Call B) → TypedNats × Result Text A → TypedNats × Result Text B
next_call f (s, ok a) = f a s
next_call f (s, err e) = (s, err e)

infixl 5 ◌>>=◌
abbrev pub ◌>>=◌ : {A B : Type 0} → Call A → (A → Call B) → Call B
(m >>= f) s = next_call f (m s)

-- `let _ = m.await;` goes on after an error.
abbrev pub ignore : {A B : Type 0} → Call A → Call B → Call B
ignore m k s = k (m s).0

unfoldable pub contains_name : Text → List Text → Bool
contains_name name [] = false
contains_name name (x ∷ xs) = ite (Text_discrete name x) true (contains_name name xs)

unfoldable pub to_anyhow : {A : Type 0} → Result Text A → Result Text A
to_anyhow (ok v) = ok v
to_anyhow (err e) = err (codes "NATS Error: " ++ e)

unfoldable pub with_message : {A : Type 0} → Text → Result Text A → Result Text A
with_message message (ok v) = ok v
with_message message (err e) =
    err (codes "NATS Error: " ++ (e ++ (codes " (" ++ (message ++ codes ")"))))

module _ (server : Server) where
  -- A request, and the server's answer.
  unfoldable pub send : (r : Request) → Call (Answer r)
  send r s = (record { created = s.created; sent = r ∷ s.sent }, server s.sent r)

  -- A request whose error is turned into the program's.
  unfoldable pub send_to_anyhow : (r : Request) → Call (Answer r)
  send_to_anyhow r s = ((send r s).0, to_anyhow (send r s).1)

  unfoldable pub subscribe_to : {T : Type 0} → SubscribeSubject T → Call (List Message)
  subscribe_to subject = send_to_anyhow (subscribe subject.subject)

  module _ {T R : Type 0} where
    unfoldable pub add_jetstream_stream : JetStreamable T R → Call Unit
    add_jetstream_stream j = send_to_anyhow (get_or_create_stream j.config)

    unfoldable pub remember : JetStreamable T R → Call Unit
    remember j s = (record { created = j.stream_name ∷ s.created; sent = s.sent }, ok tt)

    unfoldable pub ensure_jetstream_exists : JetStreamable T R → Call Unit
    ensure_jetstream_exists j s =
        if contains_name j.stream_name s.created
        then (s, ok tt)
        else (add_jetstream_stream j >>= (λ _. remember j)) s

    unfoldable pub publish_message : TypedMessage T R → T → Call Unit
    publish_message m value =
        pure (m.to_vec value) >>= (λ bytes. send (publish (m.subject_of value) bytes))

    unfoldable pub publish_jetstream : JetStreamable T R → T → Call Unit
    publish_jetstream j value =
        ensure_jetstream_exists j
        >>= (λ _. pure (j.message.to_vec value))
        >>= (λ bytes. send_to_anyhow (jetstream_publish (j.message.subject_of value) bytes))

    unfoldable pub request_message : TypedMessage T R → T → Call R
    request_message m value =
        pure (m.to_vec value)
        >>= (λ bytes. send_to_anyhow (request (m.subject_of value) bytes))
        >>= (λ result. pure (m.response_from_slice result.payload))

    -- `new_inbox` is `Client::new_inbox`. What is returned is the subscription of a `DelayedReply`.
    unfoldable pub split_request :
        (List Request → Text) → TypedMessage T R → T → Call (List Message)
    split_request new_inbox m value s =
        let inbox = new_inbox s.sent in
        (send_to_anyhow (subscribe inbox) >>= (λ subscription.
            pure (m.to_vec value)
            >>= (λ bytes. send (publish_with_reply (m.subject_of value) inbox bytes))
            >>= (λ _. pure (ok subscription))))
          s

    -- The subscription of a push consumer that delivers to a new inbox.
    unfoldable pub push_messages :
        (List Request → Text) → JetStreamable T R → SubscribeSubject T → Call Batch
    push_messages new_inbox j subject s =
        let deliver_subject = new_inbox s.sent in
        (send_to_anyhow (create_push_consumer j.stream_name subject.subject deliver_subject)
            >>= (λ _. send_to_anyhow (consumer_messages deliver_subject)))
          s

    unfoldable pub subscribe_jetstream :
        (List Request → Text) → JetStreamable T R → SubscribeSubject T → Call Batch
    subscribe_jetstream new_inbox j subject =
        ignore (ensure_jetstream_exists j)
          (send_to_anyhow (get_stream j.stream_name) >>= (λ _. push_messages new_inbox j subject))
