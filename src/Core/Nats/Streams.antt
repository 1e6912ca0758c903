-- ===== src/Core/Nats/Streams.antt =====
-- core/src/nats.rs: `jetstream_created_streams`, over a history of calls of one client, none of
-- which is interleaved with another.
pub mod History
use spawner.Prelude.{
  ℕ, ◌+◌, ◌≤◌, ◌≡◌, refl, sym, ap, subst, ◌∙◌, List, [], ◌∷◌, ◌++◌, Option, none, some, inl, inr,
  arith, ite, if_pos, if_neg, Bool, true, false, if◌then◌else◌, Bool-cases, if_cases,
}
use spawner.Prelude.Result.{Result, ok, err, Result-cases}
use spawner.Prelude.Text.{Text, codes, Text_discrete}
use spawner.Core.Nats.{
  TypedMessage, JetStreamable, SubscribeSubject, DeliverPolicy, Call, Server, TypedNats, Request,
  publish, publish_with_reply, subscribe, request, get_or_create_stream, get_stream,
  create_pull_consumer, create_push_consumer, consumer_messages, jetstream_publish, pure, ignore,
  ◌>>=◌, next_call, send, send_to_anyhow, to_anyhow, new, contains_name, ensure_jetstream_exists,
  add_jetstream_stream, remember, publish_message, publish_jetstream, request_message, subscribe_to,
  split_request, push_messages, Bytes, subscribe_jetstream,
}
use spawner.Core.Nats.Fetch.{get_all}

abbrev pub bit : Bool → ℕ
bit true = 1
bit false = 0

module _ (server : Server) where
  -- Whether a request created the stream of that name.
  abbrev pub grants : Text → List Request → Request → ℕ
  grants name rs (get_or_create_stream c) = elim (server rs (get_or_create_stream c)) [
    | ok _ ↦ ite (Text_discrete name c.name) 1 0
    | err e ↦ 0
  ]
  grants name rs _ = 0

  -- How often the server was asked for the stream of that name, and gave it.
  abbrev pub creations : Text → List Request → ℕ
  creations name [] = 0
  creations name (r ∷ rs) = grants name rs r + creations name rs

  abbrev pub Kept : TypedNats → Type 0
  Kept s = (name : Text) → creations name s.sent ≡ bit (contains_name name s.created)

  pub record Keeps {A : Type 0} (m : Call A) : Type 0 where
    pub keeps : (s : TypedNats) → Kept s → Kept (m s).0

  abbrev pub IsPlain : Request → Type 0
  IsPlain (get_or_create_stream c) = ⊥
  IsPlain _ = Unit

  grants_plain : (name : Text) (rs : List Request) (r : Request) → IsPlain r → grants name rs r ≡ 0
  grants_plain name rs (get_or_create_stream c) h = elim h [ ]
  grants_plain name rs (publish _ _) h = refl
  grants_plain name rs (publish_with_reply _ _ _) h = refl
  grants_plain name rs (subscribe _) h = refl
  grants_plain name rs (request _ _) h = refl
  grants_plain name rs (get_stream _) h = refl
  grants_plain name rs (create_pull_consumer _ _ _) h = refl
  grants_plain name rs (create_push_consumer _ _ _) h = refl
  grants_plain name rs (consumer_messages _) h = refl
  grants_plain name rs (jetstream_publish _ _) h = refl

  pub send-Keeps : (r : Request) → IsPlain r → Keeps (send server r)
  unfolding send
  send-Keeps r h = record {
    keeps = λ s k name. let e = grants_plain name s.sent r h in rw (e) (omega (arith, k name));
  }

  pub send_to_anyhow-Keeps : (r : Request) → IsPlain r → Keeps (send_to_anyhow server r)
  unfolding send_to_anyhow
  send_to_anyhow-Keeps r h = record { keeps = (send-Keeps r h).keeps }

  next_call-Keeps :
      {A B : Type 0} (f : A → Call B)
      → ((a : A) → Keeps (f a))
      → (p : TypedNats × Result Text A) → Kept p.0
      → Kept (next_call f p).0
  next_call-Keeps f hf (s, ok a) k = (hf a).keeps s k
  next_call-Keeps f hf (s, err e) k = k

  pub bind-Keeps :
      {A B : Type 0} (m : Call A) (f : A → Call B)
      → Keeps m
      → ((a : A) → Keeps (f a))
      → Keeps (m >>= f)
  bind-Keeps m f hm hf = record { keeps = λ s k. next_call-Keeps f hf (m s) (hm.keeps s k) }

  pub pure-Keeps : {A : Type 0} (r : Result Text A) → Keeps (pure r)
  pure-Keeps r = record { keeps = λ s k. k }

  ignore-Keeps : {A B : Type 0} (m : Call A) (k : Call B) → Keeps m → Keeps k → Keeps (ignore m k)
  ignore-Keeps m k hm hk = record { keeps = λ s h. hk.keeps (m s).0 (hm.keeps s h) }

  -- A stream that is not known yet is created, or the error leaves all as it was.
  module _ {T R : Type 0} (j : JetStreamable T R) where
    grants-stream :
        (name : Text) (rs : List Request) (u : Unit)
        → server rs (get_or_create_stream j.config) ≡ ok u
        → grants name rs (get_or_create_stream j.config)
          ≡ ite (Text_discrete name j.stream_name) 1 0
    grants-stream name rs u e = rw (grants, e, j.config_name) refl

    grants-err :
        (name : Text) (rs : List Request) (x : Text)
        → server rs (get_or_create_stream j.config) ≡ err x
        → grants name rs (get_or_create_stream j.config) ≡ 0
    grants-err name rs x e = rw (grants, e) refl

    added :
        (s : TypedNats)
        → contains_name j.stream_name s.created ≡ false
        → Kept s
        → (name : Text)
        → ite (Text_discrete name j.stream_name) 1 0 + creations name s.sent
          ≡ bit (contains_name name (j.stream_name ∷ s.created))
    unfolding contains_name
    added s n k name = elim (Text_discrete name j.stream_name) [
      | yes e ↦
          let q : creations name s.sent ≡ 0 =
            k name ∙ ap (λ x. bit (contains_name x s.created)) e ∙ ap bit n in
          rw
            (
              if_pos (Text_discrete name j.stream_name) e,
              if_pos (Text_discrete name j.stream_name) e,
              q,
            )
            (omega arith)
      | no g ↦
          rw
            (
              if_neg (Text_discrete name j.stream_name) g,
              if_neg (Text_discrete name j.stream_name) g,
            )
            (omega (arith, k name))
    ]

    -- What a request to create the stream leaves, whatever the answer.
    created_by :
        (s : TypedNats) (r : Result Text Unit)
        → contains_name j.stream_name s.created ≡ false
        → Kept s
        → server s.sent (get_or_create_stream j.config) ≡ r
        → Kept
            (next_call
              (λ u. remember server j)
              (
                record { created = s.created; sent = get_or_create_stream j.config ∷ s.sent },
                to_anyhow r,
              )).0
    unfolding remember to_anyhow
    created_by s (ok u) n k e name =
        ap (λ x. x + creations name s.sent) (grants-stream name s.sent u e) ∙ added s n k name
    created_by s (err x) n k e name = rw (grants-err name s.sent x e) (omega (arith, k name))

    ensure_jetstream_exists-Keeps : Keeps (ensure_jetstream_exists server j)
    unfolding ensure_jetstream_exists add_jetstream_stream send_to_anyhow send
    ensure_jetstream_exists-Keeps = record {
      keeps = λ s k.
          if_cases {A = TypedNats × Result Text Unit} (λ p. Kept p.0)
            (contains_name j.stream_name s.created) _ _ (λ _. k)
            (λ n. created_by s (server s.sent (get_or_create_stream j.config)) n k refl);
    }

    known_added : (s : TypedNats) → contains_name j.stream_name (j.stream_name ∷ s.created) ≡ true
    unfolding contains_name
    known_added s = rw (if_pos (Text_discrete j.stream_name j.stream_name) refl) refl

    created_known :
        (s : TypedNats) (q : List Request) (r : Result Text Unit)
        → (p : TypedNats × Result Text Unit)
        → p
          ≡ next_call
              (λ u. remember server j)
              (record { created = s.created; sent = q }, to_anyhow r)
        → p.1 ≡ ok tt
        → contains_name j.stream_name p.0.created ≡ true
    unfolding remember to_anyhow
    created_known s q (ok u) p e h =
        ap (λ p. contains_name j.stream_name p.0.created) e ∙ known_added s
    created_known s q (err x) p e h =
        let c : err (codes "NATS Error: " ++ x) ≡ ok tt = sym (ap (λ p. p.1) e) ∙ h in
        absurd (ground arith)

    -- A stream whose existence was ensured is remembered.
    pub ensured_known :
        (s : TypedNats)
        → (ensure_jetstream_exists server j s).1 ≡ ok tt
        → contains_name j.stream_name (ensure_jetstream_exists server j s).0.created ≡ true
    unfolding ensure_jetstream_exists add_jetstream_stream send_to_anyhow send
    ensured_known s =
        if_cases {A = TypedNats × Result Text Unit}
          (λ p. p.1 ≡ ok tt → contains_name j.stream_name p.0.created ≡ true)
          (contains_name j.stream_name s.created) _ _ (λ e h. e)
          (λ n h. created_known s _ (server s.sent (get_or_create_stream j.config)) _ refl h)

    pub publish_jetstream-Keeps : (value : T) → Keeps (publish_jetstream server j value)
    unfolding publish_jetstream
    publish_jetstream-Keeps value =
        bind-Keeps _ _ (bind-Keeps _ _ ensure_jetstream_exists-Keeps (λ _. pure-Keeps _))
          (λ bytes. send_to_anyhow-Keeps (jetstream_publish _ bytes) tt)

    push_messages-Keeps :
        (new_inbox : List Request → Text) (subject : SubscribeSubject T)
        → Keeps (push_messages server new_inbox j subject)
    unfolding push_messages
    push_messages-Keeps new_inbox subject = record {
      keeps = λ s k.
          (bind-Keeps _ _
              (send_to_anyhow-Keeps
                (create_push_consumer j.stream_name subject.subject (new_inbox s.sent)) tt)
              (λ _. send_to_anyhow-Keeps (consumer_messages (new_inbox s.sent)) tt)).keeps
            s k;
    }

    pub subscribe_jetstream-Keeps :
        (new_inbox : List Request → Text) (subject : SubscribeSubject T)
        → Keeps (subscribe_jetstream server new_inbox j subject)
    unfolding subscribe_jetstream
    subscribe_jetstream-Keeps new_inbox subject = ignore-Keeps _ _ ensure_jetstream_exists-Keeps (
        bind-Keeps _ _ (send_to_anyhow-Keeps (get_stream _) tt)
          (λ _. push_messages-Keeps new_inbox subject))

    pub get_all-Keeps :
        (fuel : ℕ) (subject : SubscribeSubject T) (policy : DeliverPolicy)
        → Keeps (get_all server fuel j subject policy)
    unfolding get_all
    get_all-Keeps fuel subject policy = ignore-Keeps _ _ ensure_jetstream_exists-Keeps (
        bind-Keeps _ _
          (bind-Keeps _ _ (send_to_anyhow-Keeps (get_stream _) tt)
            (λ _. send_to_anyhow-Keeps (create_pull_consumer _ _ _) tt))
          (λ fetch. pure-Keeps _))
