-- ===== src/Core/Nats/Replies.antt =====
-- core/src/nats.rs: `respond`, by which a subscriber answers a message, and the reply that a
-- request awaits.
use spawner.Prelude.{◌≡◌, refl, ap, ◌∙◌, List, [], ◌∷◌, ◌++◌, Option, none, some}
use spawner.Prelude.Result.{Result, ok, err, ok_or}
use spawner.Prelude.Text.{Text, codes, Text_discrete}
use spawner.Core.Nats.{
  Bytes, Message, TypedMessage, Call, Server, TypedNats, Request, publish, publish_with_reply,
  subscribe, pure, next_call, ◌>>=◌, send, send_to_anyhow, to_anyhow, split_request,
}
use spawner.Core.Nats.Subscriptions.{next-ok, next, MessageWithResponseHandle}

-- The messages to a subject that were published, in order.
abbrev pub delivered_if : {P : Type 0} → Dec P → Message → List Message
delivered_if (yes p) m = m ∷ []
delivered_if (no p) m = []

abbrev pub published_to : Text → List Request → List Message
published_to subject [] = []
published_to subject (publish to payload ∷ sent) =
    published_to subject sent
    ++ delivered_if (Text_discrete to subject)
        (record { subject = to; reply = none; payload = payload })
published_to subject (publish_with_reply to reply payload ∷ sent) =
    published_to subject sent
    ++ delivered_if (Text_discrete to subject)
        (record { subject = to; reply = some reply; payload = payload })
published_to subject (_ ∷ sent) = published_to subject sent

delivered_if-yes : {P : Type 0} (d : Dec P) (p : P) (m : Message) → delivered_if d m ≡ m ∷ []
delivered_if-yes (yes p) q m = refl
delivered_if-yes (no n) q m = absurd (n q)

delivered_last :
    (subject : Text) (m : Message) (sent : List Request)
    → m.subject ≡ subject
    → published_to subject sent ≡ []
    → published_to subject sent ++ delivered_if (Text_discrete m.subject subject) m ≡ m ∷ []
delivered_last subject m sent here none_before =
    ap (λ ms. ms ++ delivered_if (Text_discrete m.subject subject) m) none_before
    ∙ delivered_if-yes (Text_discrete m.subject subject) here m

module _ {T R : Type 0} (t : TypedMessage T R) where
  unfoldable pub respond : Server → MessageWithResponseHandle T → R → Call Unit
  respond server handle response =
      pure (
        ok_or handle.message.reply
          (codes "Attempted to respond to a message with no reply subject."))
      >>= (λ reply.
          pure (t.response_to_vec response) >>= (λ bytes. send server (publish reply bytes)))

  -- What `response` of a `DelayedReply` returns, and the rest of its subscription.
  unfoldable pub response : List Message → Result Text R × List Message
  response [] = (err (codes "Expected response."), [])
  response (m ∷ ms) = (t.response_from_slice m.payload, ms)

  -- What was read of a request, and what its reader asks of the server after answering it.
  abbrev pub answers : Server → Option (MessageWithResponseHandle T) → R → TypedNats → List Request
  answers server none reply s = s.sent
  answers server (some handle) reply s = (respond server handle reply s).0.sent

  abbrev pub value_read : Option (MessageWithResponseHandle T) → Option T
  value_read none = none
  value_read (some handle) = some handle.value

  -- What the client reads of the subscription that `split_request` returned.
  abbrev pub read_reply : Result Text (List Message) → Result Text R
  read_reply (err e) = err e
  read_reply (ok subscription) = (response subscription).0

  module _ (server responder : Server) (new_inbox : List Request → Text) (s s' : TypedNats)
      (value : T) (reply : R) where
    abbrev pub requested : TypedNats × Result Text (List Message)
    requested = split_request server new_inbox t value s

    -- What a subscriber to the requests' subject reads first.
    abbrev pub received : Option (MessageWithResponseHandle T)
    received = (next t (published_to (t.subject_of value) requested.0.sent)).0

    -- What arrives in the inbox once the request was answered.
    abbrev pub inbox : List Message
    inbox = published_to (new_inbox s.sent) (answers responder received reply s')

    abbrev carried : Bytes → Message
    carried encoded = record {
      subject = t.subject_of value;
      reply = some (new_inbox s.sent);
      payload = encoded;
    }

    -- `split_request`, with the answer to the subscription, and the encoding.
    abbrev requested_with :
        Result Text (List Message) → Result Text Bytes → TypedNats × Result Text (List Message)
    requested_with q r =
        next_call
          (λ subscription.
            pure r
            >>= (λ bytes.
                send server (publish_with_reply (t.subject_of value) (new_inbox s.sent) bytes))
            >>= (λ _. pure (ok subscription)))
          ((send server (subscribe (new_inbox s.sent)) s).0, to_anyhow q)

    requested_from :
        (subscription : List Message) (encoded : Bytes)
        → t.to_vec value ≡ ok encoded
        → server s.sent (subscribe (new_inbox s.sent)) ≡ ok subscription
        → server
            (subscribe (new_inbox s.sent) ∷ s.sent)
            (publish_with_reply (t.subject_of value) (new_inbox s.sent) encoded)
          ≡ ok tt
        → requested ≡ (
          record {
            created = s.created;
            sent =
                publish_with_reply (t.subject_of value) (new_inbox s.sent) encoded
                ∷ subscribe (new_inbox s.sent)
                ∷ s.sent;
          },
          ok subscription,
        )
    unfolding split_request send_to_anyhow send to_anyhow
    requested_from subscription encoded he hs hp =
        ap (λ q. requested_with q (t.to_vec value)) hs
        ∙ ap (λ r. requested_with (ok subscription) r) he
        ∙ ap
            (λ w.
              next_call {A = Unit {0}} (λ _. pure (ok subscription))
                (
                  record {
                    created = s.created;
                    sent =
                        publish_with_reply (t.subject_of value) (new_inbox s.sent) encoded
                        ∷ subscribe (new_inbox s.sent)
                        ∷ s.sent;
                  },
                  w,
                ))
            hp

    received_value :
        (subscription : List Message) (encoded : Bytes)
        → t.to_vec value ≡ ok encoded
        → t.from_slice encoded ≡ ok value
        → server s.sent (subscribe (new_inbox s.sent)) ≡ ok subscription
        → server
            (subscribe (new_inbox s.sent) ∷ s.sent)
            (publish_with_reply (t.subject_of value) (new_inbox s.sent) encoded)
          ≡ ok tt
        → published_to (t.subject_of value) s.sent ≡ []
        → received ≡ some (record { value = value; message = carried encoded })
    received_value subscription encoded he hd hs hp waiting =
        ap (λ q. (next t (published_to (t.subject_of value) q.0.sent)).0)
          (requested_from subscription encoded he hs hp)
        ∙ ap (λ ms. (next t ms).0)
            (delivered_last (t.subject_of value) (carried encoded) s.sent refl waiting)
        ∙ ap (λ q. q.0) (next-ok t (carried encoded) [] value hd)

    answered_inbox :
        (encoded answered : Bytes)
        → t.response_to_vec reply ≡ ok answered
        → published_to (new_inbox s.sent) s'.sent ≡ []
        → published_to (new_inbox s.sent) (
            answers responder (some (record { value = value; message = carried encoded })) reply s')
          ≡ record { subject = new_inbox s.sent; reply = none; payload = answered } ∷ []
    unfolding respond send
    answered_inbox encoded answered ha fresh =
        rw (respond, ha, send)
          (delivered_last (new_inbox s.sent)
            (record { subject = new_inbox s.sent; reply = none; payload = answered }) s'.sent refl
            fresh)

    -- A request and its reply, with encodings that the decoders undo, through a server that delivers
    -- what is published to an inbox to who subscribed to it. Where both can be encoded, the server takes
    -- the request, no other request waits, and the inbox is new: who subscribes to the requests reads
    -- the value that was sent; and after they respond with a reply, the subscription that the request
    -- returned yields that reply to the client.
    pub split_request-respond :
        (encoded answered : Bytes)
        → ((x : T) (b : Bytes) → t.to_vec x ≡ ok b → t.from_slice b ≡ ok x)
        → ((x : R) (b : Bytes) → t.response_to_vec x ≡ ok b → t.response_from_slice b ≡ ok x)
        → t.to_vec value ≡ ok encoded
        → t.response_to_vec reply ≡ ok answered
        → server s.sent (subscribe (new_inbox s.sent)) ≡ ok inbox
        → server
            (subscribe (new_inbox s.sent) ∷ s.sent)
            (publish_with_reply (t.subject_of value) (new_inbox s.sent) encoded)
          ≡ ok tt
        → published_to (t.subject_of value) s.sent ≡ []
        → published_to (new_inbox s.sent) s'.sent ≡ []
        → (value_read received ≡ some value) × (read_reply requested.1 ≡ ok reply)
    unfolding response
    split_request-respond encoded answered hd hr he ha hs hp waiting fresh =
        let got = received_value inbox encoded he (hd value encoded he) hs hp waiting in
        (
          ap value_read got,
          ap (λ q. read_reply q.1) (requested_from inbox encoded he hs hp)
              ∙ ap
                  (λ o.
                    (response (published_to (new_inbox s.sent) (answers responder o reply s'))).0)
                  got
              ∙ ap (λ ms. (response ms).0) (answered_inbox encoded answered ha fresh)
              ∙ hr reply answered ha,
        )
