-- ===== src/Drone/Cert/Validity.antt =====
-- drone/src/cert/mod.rs and acme.rs: until when a certificate is valid, and the key that binds an ACME
-- account to another. Files, certificates and base64 are parameters.
use spawner.Prelude.{ℕ, ◌+◌, ◌*◌, ◌≡◌, refl, List, Option, none, some}
use spawner.Prelude.Result.{Result, ok, err}
use spawner.Prelude.Text.{Text}

-- The days and seconds from the start of 1970 to a time after it.
abbrev seconds_of : ℕ × ℕ → ℕ
seconds_of (days, secs) = days * 86400 + secs

abbrev pub option_next : {A B : Type 0} → (A → Option B) → Option A → Option B
option_next f none = none
option_next f (some a) = f a

-- `read` is what a file holds, `not_after` the end of a certificate in it, `since_epoch` the
-- difference to the start of 1970.
unfoldable pub cert_validity :
    {T : Type 0}
    → (Text → Option (List ℕ))
    → (List ℕ → Option T)
    → (T → Option (ℕ × ℕ))
    → Text
    → Option ℕ
cert_validity read not_after since_epoch path =
    option_next
      (λ pem.
        option_next (λ t. option_next (λ d. some (seconds_of d)) (since_epoch t)) (not_after pem))
      (read path)

pub record AcmeEabConfiguration : Type 0 where
  pub key_id : Text
  pub key : List ℕ

pub record Base64 : Type 0 where
  pub encode : List ℕ → Text
  pub decode : Text → Result Text (List ℕ)

abbrev with_key : Text → Result Text (List ℕ) → Result Text AcmeEabConfiguration
with_key key_id (err e) = err e
with_key key_id (ok key) = ok (record { key_id = key_id; key = key })

module _ (base64 : Base64) where
  unfoldable pub new : Text → Text → Result Text AcmeEabConfiguration
  new key_id key_b64 = with_key key_id (base64.decode key_b64)

  unfoldable pub as_base64 : List ℕ → Text
  as_base64 key = base64.encode key

  unfoldable pub from_base64 : Text → Result Text (List ℕ)
  from_base64 text = base64.decode text

  unfoldable pub eab_key_b64 : AcmeEabConfiguration → Text
  eab_key_b64 c = base64.encode c.key

  -- Where base64 decodes what it encodes, the configuration is made again from its key's text, and the
  -- key is read from what is written.
  pub new-eab_key_b64 :
      ((key : List ℕ) → base64.decode (base64.encode key) ≡ ok key)
      → (c : AcmeEabConfiguration)
      → (new c.key_id (eab_key_b64 c) ≡ ok c) × (from_base64 (as_base64 c.key) ≡ ok c.key)
  unfolding new eab_key_b64 as_base64 from_base64
  new-eab_key_b64 decodes c = (rw (decodes c.key) refl, decodes c.key)
