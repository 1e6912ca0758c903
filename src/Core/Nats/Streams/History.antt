-- ===== src/Core/Nats/Streams/History.antt =====
-- core/src/nats.rs: the calls of one client, one after the other, none interleaved with another.
use spawner.Prelude.{ℕ, ◌≡◌, refl, ap, ◌∙◌, List, [], ◌∷◌, arith, true}
use spawner.Prelude.Result.{Result, ok, err}
use spawner.Prelude.Text.{Text}
use spawner.Core.Nats.{
  TypedMessage, JetStreamable, SubscribeSubject, DeliverPolicy, Server, TypedNats, Request, publish,
  publish_with_reply, subscribe, request, jetstream_publish, pure, next_call, send, send_to_anyhow,
  new, contains_name, ensure_jetstream_exists, publish_message, publish_jetstream, request_message,
  subscribe_to, split_request, Bytes, subscribe_jetstream,
}
use spawner.Core.Nats.Fetch.{get_all}
use spawner.Core.Nats.Streams.{
  bit, creations, Kept, send-Keeps, send_to_anyhow-Keeps, bind-Keeps, pure-Keeps, ensured_known,
  publish_jetstream-Keeps, subscribe_jetstream-Keeps, get_all-Keeps,
}

-- A call of the client that the program makes, with the types of its message.
pub data NatsCall : Type 1 where
  publish_call : {T R : Type 0} → TypedMessage T R → T → NatsCall
  publish_jetstream_call : {T R : Type 0} → JetStreamable T R → T → NatsCall
  request_call : {T R : Type 0} → TypedMessage T R → T → NatsCall
  subscribe_call : {T : Type 0} → SubscribeSubject T → NatsCall
  split_request_call : {T R : Type 0} → TypedMessage T R → T → NatsCall
  subscribe_jetstream_call : {T R : Type 0} → JetStreamable T R → SubscribeSubject T → NatsCall
  get_all_call :
      {T R : Type 0} → ℕ → JetStreamable T R → SubscribeSubject T → DeliverPolicy → NatsCall

module _ (server : Server) where
  -- The client after a call.
  abbrev pub call : (List Request → Text) → NatsCall → TypedNats → TypedNats
  call new_inbox (publish_call m v) s = (publish_message server m v s).0
  call new_inbox (publish_jetstream_call j v) s = (publish_jetstream server j v s).0
  call new_inbox (request_call m v) s = (request_message server m v s).0
  call new_inbox (subscribe_call subject) s = (subscribe_to server subject s).0
  call new_inbox (split_request_call m v) s = (split_request server new_inbox m v s).0
  call new_inbox (subscribe_jetstream_call j subject) s =
      (subscribe_jetstream server new_inbox j subject s).0
  call new_inbox (get_all_call fuel j subject policy) s = (get_all server fuel j subject policy s).0

  call-Kept :
      (new_inbox : List Request → Text) (c : NatsCall) (s : TypedNats)
      → Kept server s
      → Kept server (call new_inbox c s)
  unfolding publish_message request_message subscribe_to split_request
  call-Kept new_inbox (publish_call m v) s k =
      (bind-Keeps server _ _ (pure-Keeps server _)
          (λ bytes. send-Keeps server (publish _ bytes) tt)).keeps
        s k
  call-Kept new_inbox (publish_jetstream_call j v) s k =
      (publish_jetstream-Keeps server j v).keeps s k
  call-Kept new_inbox (request_call m v) s k =
      (bind-Keeps server _ _
          (bind-Keeps server _ _ (pure-Keeps server _)
            (λ bytes. send_to_anyhow-Keeps server (request _ bytes) tt))
          (λ result. pure-Keeps server _)).keeps
        s k
  call-Kept new_inbox (subscribe_call subject) s k =
      (send_to_anyhow-Keeps server (subscribe _) tt).keeps s k
  call-Kept new_inbox (split_request_call m v) s k =
      (bind-Keeps server _ _ (send_to_anyhow-Keeps server (subscribe _) tt) (λ subscription.
          bind-Keeps server _ _
            (bind-Keeps server _ _ (pure-Keeps server _)
              (λ bytes. send-Keeps server (publish_with_reply _ _ bytes) tt))
            (λ _. pure-Keeps server _))).keeps
        s k
  call-Kept new_inbox (subscribe_jetstream_call j subject) s k =
      (subscribe_jetstream-Keeps server j new_inbox subject).keeps s k
  call-Kept new_inbox (get_all_call fuel j subject policy) s k =
      (get_all-Keeps server j fuel subject policy).keeps s k

  abbrev pub run : (List Request → Text) → TypedNats → List NatsCall → TypedNats
  run new_inbox s [] = s
  run new_inbox s (c ∷ cs) = run new_inbox (call new_inbox c s) cs

  run-Kept :
      (new_inbox : List Request → Text) (cs : List NatsCall) (s : TypedNats)
      → Kept server s
      → Kept server (run new_inbox s cs)
  run-Kept new_inbox [] s k = k
  run-Kept new_inbox (c ∷ cs) s k = run-Kept new_inbox cs _ (call-Kept new_inbox c s k)

  -- After any calls of a new client, whatever the server answered, a stream has been asked for and
  -- given once if the client remembers it, and never otherwise.
  pub run_created_once :
      (new_inbox : List Request → Text) (cs : List NatsCall) (name : Text)
      → creations server name (run new_inbox new cs).sent
        ≡ bit (contains_name name (run new_inbox new cs).created)
  unfolding new contains_name
  run_created_once new_inbox cs name = run-Kept new_inbox cs new (λ _. refl) name

  module _ {T R : Type 0} (j : JetStreamable T R) (value : T) where
    sent_known :
        (p : TypedNats × Result Text Unit) (r : Result Text Bytes)
        → (p.1 ≡ ok tt → contains_name j.stream_name p.0.created ≡ true)
        → (next_call
            (λ bytes. send_to_anyhow server (jetstream_publish (j.message.subject_of value) bytes))
            (next_call (λ _. pure r) p)).1
          ≡ ok tt
        → contains_name j.stream_name
            (next_call
              (λ bytes.
                send_to_anyhow server (jetstream_publish (j.message.subject_of value) bytes))
              (next_call (λ _. pure r) p)).0.created
          ≡ true
    unfolding send_to_anyhow send
    sent_known (s, ok u) (ok bytes) k h = k refl
    sent_known (s, ok u) (err x) k h = absurd (ground arith)
    sent_known (s, err x) r k h = absurd (ground arith)

    -- Once a message has been published to a stream, after any calls of a new client, the stream
    -- has been asked for and given exactly once: not by each publication again, and not never.
    pub published_created_once :
        (new_inbox : List Request → Text) (cs : List NatsCall)
        → (publish_jetstream server j value (run new_inbox new cs)).1 ≡ ok tt
        → creations server j.stream_name
            (publish_jetstream server j value (run new_inbox new cs)).0.sent
          ≡ 1
    unfolding publish_jetstream new contains_name
    published_created_once new_inbox cs h =
        let s = run new_inbox new cs in
        (publish_jetstream-Keeps server j value).keeps s (run-Kept new_inbox cs new (λ _. refl))
          j.stream_name
        ∙ ap bit (
            sent_known (ensure_jetstream_exists server j s) (j.message.to_vec value)
              (ensured_known server j s) h)
