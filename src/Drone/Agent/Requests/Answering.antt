-- ===== src/Drone/Agent/Requests/Answering.antt =====
-- What the agent's listeners hand on.
use spawner.Prelude.{
  ℕ, zero, suc, ◌<◌, ◌≡◌, refl, sym, ap, subst, ◌∙◌, List, [], ◌∷◌, Option, none, some, inl, inr,
  arith, Option-cases, length, Bool, true,
}
use spawner.Prelude.Result.{Result, ok, err, Result-cases}
use spawner.Prelude.Text.{Text, codes}
use spawner.Types.{DroneId}
use spawner.Messages.Agent.{SpawnRequest}
use spawner.Messages.Subjects.{spawn_subscribe_subject}
use spawner.Core.Nats.{
  Bytes, Message, Server, TypedNats, TypedMessage, Request, publish, send, subscribe, subscribe_to,
  send_to_anyhow, to_anyhow,
}
use spawner.Core.Nats.Subscriptions.{MessageWithResponseHandle, next, next-ok, next-err}
use spawner.Core.Nats.Replies.{respond}
use spawner.Drone.Agent.Requests.{
  Listened, handle_first, after_response, listen_round, listen, listen_from, spawn_closed,
  listen_for_spawn_requests,
}

abbrev pub no_reply : Text
no_reply = codes "Attempted to respond to a message with no reply subject."

-- What a listener is to hand on, and its error: the messages that can be decoded, up to the first
-- that asks for no reply.
abbrev pub answerable : {T : Type 0} → (Bytes → Result Text T) → Text → List Message → List T × Text
answerable from_slice closed [] = ([], closed)
answerable from_slice closed (m ∷ ms) = elim (from_slice m.payload) [
  | err e ↦ answerable from_slice closed ms
  | ok v ↦ elim m.reply [
    | none ↦ ([], no_reply)
    | some r ↦ (v ∷ (answerable from_slice closed ms).0, (answerable from_slice closed ms).1)
  ]
]

module _ {T R : Type 0} (server : Server) (t : TypedMessage T R) (response : R) (closed : Text)
    (bytes : Bytes) (encodes : t.response_to_vec response ≡ ok bytes)
    (grants : (rs : List Request) (subject : Text)
      → server rs (publish subject bytes) ≡ ok tt) where
  abbrev pub Ended : Option (Listened T) → List T × Text → Type 0
  Ended o (vs, e) = (l : Listened T) × (o ≡ some l) × (l.handled ≡ vs) × (l.error ≡ e)

  respond-none :
      (h : MessageWithResponseHandle T) (s : TypedNats)
      → h.message.reply ≡ none
      → respond t server h response s ≡ (s, err no_reply)
  unfolding respond
  respond-none h s e = rw (e) refl

  respond-some :
      (h : MessageWithResponseHandle T) (s : TypedNats) (reply : Text)
      → h.message.reply ≡ some reply
      → respond t server h response s
        ≡ (record { created = s.created; sent = publish reply bytes ∷ s.sent }, ok tt)
  unfolding respond send
  respond-some h s reply e = rw (e, encodes, grants s.sent reply) refl

  answered_round :
      (continue : List Message → TypedNats → Option (Listened T)) (s : TypedNats) (v : T)
      (rest : List Message) (p : List T × Text)
      → Ended (continue rest s) p
      → Ended (after_response server t response closed continue v rest (s, ok tt)) (v ∷ p.0, p.1)
  answered_round continue s v rest p (l, q, i, j) = (
    record { handled = v ∷ l.handled; client = l.client; error = l.error },
    ap (handle_first v) q,
    ap (λ x. v ∷ x) i,
    j,
  )

  answerable-some :
      (m : Message) (ms : List Message) (v : T) (reply : Text)
      → t.from_slice m.payload ≡ ok v
      → m.reply ≡ some reply
      → answerable t.from_slice closed (m ∷ ms)
        ≡ (v ∷ (answerable t.from_slice closed ms).0, (answerable t.from_slice closed ms).1)
  answerable-some m ms v reply e r = rw (answerable, e, r) refl

  answerable-none :
      (m : Message) (ms : List Message) (v : T)
      → t.from_slice m.payload ≡ ok v
      → m.reply ≡ none
      → answerable t.from_slice closed (m ∷ ms) ≡ ([], no_reply)
  answerable-none m ms v e r = rw (answerable, e, r) refl

  answerable-err :
      (m : Message) (ms : List Message) (x : Text)
      → t.from_slice m.payload ≡ err x
      → answerable t.from_slice closed (m ∷ ms) ≡ answerable t.from_slice closed ms
  answerable-err m ms x e = rw (answerable, e) refl

  listen-answerable :
      (fuel : ℕ) (ms : List Message) (s : TypedNats)
      → length ms < fuel
      → Ended (listen server t response closed fuel ms s) (answerable t.from_slice closed ms)
  unfolding listen listen_round next
  listen-answerable zero ms s h = absurd (omega arith)
  listen-answerable (suc fuel) [] s h =
      (record { handled = []; client = s; error = closed }, refl, refl, refl)
  listen-answerable (suc fuel) (m ∷ ms) s h = elim (Result-cases (t.from_slice m.payload)) [
    | inl (v, e) ↦
        let handle : MessageWithResponseHandle T = record { value = v; message = m } in
        let continue = listen server t response closed fuel in
        let round = ap (listen_round server t response closed continue s) (next-ok t m ms v e) in
        elim (Option-cases m.reply) [
          | inl r ↦ rw (answerable-none m ms v e r) (
            record { handled = []; client = s; error = no_reply },
            round
                ∙ ap (after_response server t response closed continue v ms)
                    (respond-none handle s r),
            refl,
            refl,
          )
          | inr (reply, r) ↦
              let s' : TypedNats = record {
                created = s.created;
                sent = publish reply bytes ∷ s.sent;
              } in
              let path =
                round
                ∙ ap (after_response server t response closed continue v ms)
                    (respond-some handle s reply r) in
              rw (answerable-some m ms v reply e r) (
                subst
                  (λ o. Ended o (
                    v ∷ (answerable t.from_slice closed ms).0,
                    (answerable t.from_slice closed ms).1,
                  ))
                  (sym path)
                  (answered_round continue s' v ms (answerable t.from_slice closed ms)
                    (listen-answerable fuel ms s' (omega arith))))
        ]
    | inr (x, e) ↦ rw (answerable-err m ms x e) (
        subst (λ o. Ended o (answerable t.from_slice closed ms))
          (ap (listen_round server t response closed (listen server t response closed fuel) s)
            (sym (next-err t m ms x e)))
          (listen-answerable (suc fuel) ms s (omega arith)))
  ]

-- For a subscription that the server grants, responses that can be encoded and are sent, and backends
-- that were resumed, the loop ends, on fuel that exceeds the number of messages: it has started, in
-- order, the backends of the requests that can be decoded, up to the first that asks for no reply,
-- whose error it ends with, or else with the error that the subscription was closed.
pub listen_for_spawn_requests-answerable :
    (server : Server) (t : TypedMessage SpawnRequest Bool) (drone_id : DroneId) (fuel : ℕ)
    (s : TypedNats) (bytes : Bytes) (ms : List Message)
    → t.response_to_vec true ≡ ok bytes
    → ((rs : List Request) (subject : Text) → server rs (publish subject bytes) ≡ ok tt)
    → server s.sent (subscribe (spawn_subscribe_subject drone_id)) ≡ ok ms
    → length ms < fuel
    → (l : Listened SpawnRequest) × (listen_for_spawn_requests server t drone_id (ok tt) fuel s
        ≡ some l)
      × (l.handled ≡ (answerable t.from_slice spawn_closed ms).0)
      × (l.error ≡ (answerable t.from_slice spawn_closed ms).1)
unfolding listen_for_spawn_requests listen_from subscribe_to send_to_anyhow send to_anyhow
listen_for_spawn_requests-answerable server t drone_id fuel s bytes ms encodes grants e h =
    let (l, q, i, j) =
      listen-answerable server t true spawn_closed bytes encodes grants fuel ms
        (record {
          created = s.created;
          sent = subscribe (spawn_subscribe_subject drone_id) ∷ s.sent;
        })
        h in
    (l, rw (e) q, i, j)
