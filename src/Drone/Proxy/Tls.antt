-- ===== src/Drone/Proxy/Tls.antt =====
-- drone/src/proxy/tls.rs: a connection that is accepted at once, and shakes hands when it is first
-- read or written. A handshake `H` and an established stream `S` are of `tokio_rustls`, whose polls are
-- a parameter; a listener's connection is the address it comes from.
use spawner.Prelude.{ℕ, ◌≡◌, List, Option, none, some, arith}
use spawner.Prelude.Result.{Result, ok, err}
use spawner.Prelude.Text.{Text}

pub data Polled (A : Type 0) : Type 0 where
  pending : Polled A
  done : A → Polled A

abbrev pub Io : Type 0 → Type 0
Io A = Polled (Result Text A)

pub record Rustls (H S : Type 0) : Type 0 where
  pub accept : Text → H
  pub poll_handshake : H → H × Io S
  pub read : S → S × Io (List ℕ)
  pub write : List ℕ → S → S × Io ℕ
  pub flush : S → S × Io Unit
  pub shutdown : S → S × Io Unit

pub data State (H S : Type 0) : Type 0 where
  handshaking : H → State H S
  streaming : S → State H S

pub record TlsStream (H S : Type 0) : Type 0 where
  pub state : State H S
  pub remote_ip : Text

module _ {H S : Type 0} (r : Rustls H S) where
  unfoldable pub new : Text → TlsStream H S
  new remote_ip = record { state = handshaking (r.accept remote_ip); remote_ip = remote_ip }

  -- `TlsAcceptor::poll_accept`; `incoming` is what the listener's poll yields.
  unfoldable pub poll_accept :
      Polled (Option (Result Text Text)) → Polled (Option (Result Text (TlsStream H S)))
  poll_accept pending = pending
  poll_accept (done none) = done none
  poll_accept (done (some (err e))) = done (some (err e))
  poll_accept (done (some (ok sock))) = done (some (ok (new sock)))

  abbrev streamed : {A : Type 0} → S × Io A → State H S × Io A
  streamed (s, p) = (streaming s, p)

  -- Where the handshake is done, the operation is polled on the stream at once.
  abbrev shaken : {A : Type 0} → (S → S × Io A) → H × Io S → State H S × Io A
  shaken poll (h, pending) = (handshaking h, pending)
  shaken poll (h, done (err e)) = (handshaking h, done (err e))
  shaken poll (h, done (ok s)) = streamed (poll s)

  unfoldable pub poll_read : State H S → State H S × Io (List ℕ)
  poll_read (handshaking h) = shaken r.read (r.poll_handshake h)
  poll_read (streaming s) = streamed (r.read s)

  unfoldable pub poll_write : List ℕ → State H S → State H S × Io ℕ
  poll_write buf (handshaking h) = shaken (r.write buf) (r.poll_handshake h)
  poll_write buf (streaming s) = streamed (r.write buf s)

  unfoldable pub poll_flush : State H S → State H S × Io Unit
  poll_flush (handshaking h) = (handshaking h, done (ok tt))
  poll_flush (streaming s) = streamed (r.flush s)

  unfoldable pub poll_shutdown : State H S → State H S × Io Unit
  poll_shutdown (handshaking h) = (handshaking h, done (ok tt))
  poll_shutdown (streaming s) = streamed (r.shutdown s)

  abbrev IsEstablished : State H S → Type 0
  IsEstablished (handshaking h) = ⊥
  IsEstablished (streaming s) = Unit

  shaken-IsEstablished :
      {A : Type 0} (poll : S → S × Io A) (p : H × Io S) (a : A)
      → (shaken poll p).1 ≡ done (ok a)
      → IsEstablished (shaken poll p).0
  shaken-IsEstablished poll (h, pending) a e = ground arith
  shaken-IsEstablished poll (h, done (err x)) a e = ground arith
  shaken-IsEstablished poll (h, done (ok s)) a e = tt

  -- Bytes are read or written only on a connection whose handshake is done.
  pub transfers-IsEstablished :
      (state : State H S) (buf bytes : List ℕ) (n : ℕ)
      → ((poll_read state).1 ≡ done (ok bytes) → IsEstablished (poll_read state).0)
        × ((poll_write buf state).1 ≡ done (ok n) → IsEstablished (poll_write buf state).0)
  unfolding poll_read poll_write
  transfers-IsEstablished (handshaking h) buf bytes n = (
    shaken-IsEstablished r.read (r.poll_handshake h) bytes,
    shaken-IsEstablished (r.write buf) (r.poll_handshake h) n,
  )
  transfers-IsEstablished (streaming s) buf bytes n = (λ _. tt, λ _. tt)
