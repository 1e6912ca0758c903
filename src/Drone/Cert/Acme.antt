-- ===== src/Drone/Cert/Acme.antt =====
-- `get_certificate` and `refresh_certificate` of drone/src/cert/mod.rs. What the ACME server and NATS
-- answer is part of `Order`; a request to them that fails is an answer, too.
use spawner.Prelude.{
  List, [], ◌∷◌, ◌++◌, Option, none, some, Bool, true, false, ◌≡◌, ◌≢◌, refl, if◌then◌else◌, arith,
  Option-cases, inl, inr, Bool-cases,
}
use spawner.Prelude.Result.{Result, ok, err, Result-cases}
use spawner.Prelude.Text.{Text, codes}
use spawner.Types.{ClusterName}
use spawner.Messages.Dns.{SetDnsRecord}
use spawner.Messages.Dns as Dns
use spawner.Messages.Cert.{SetAcmeDnsRecord}
use spawner.Drone.Cert.{write_files}

pub data AcmeError : Type 0 where
  unavailable no_challenge no_value rejected challenge_failed authorization_failed order_failed
        order_not_valid no_certificate empty_certificate :
      AcmeError

pub data Message : Type 0 where
  requests : SetAcmeDnsRecord → Message
  publishes : SetDnsRecord → Message

-- An authorization: its challenge's value, if it has a challenge and that has a value, whether the
-- platform takes the record, if it answers, whether the new record is published, and whether the
-- challenge and the authorization end as valid.
pub record Authorization : Type 0 where
  pub challenge : Option (Option Text)
  pub accepted : Option Bool
  pub published : Bool
  pub challenge_valid : Bool
  pub authorization_valid : Bool

pub record Order : Type 0 where
  pub authorizations : Option (List Authorization)
  pub ready : Bool
  pub pkey : Option Text
  pub valid : Bool
  pub certificate : Option (List Text)

abbrev pub acme_record : ClusterName → Text → SetAcmeDnsRecord
acme_record c v = record { cluster = c; value = v }

abbrev pub txt_record : ClusterName → Text → SetDnsRecord
txt_record c v = record { cluster = c; kind = Dns.txt; name = codes "_acme-challenge"; value = v }

abbrev pub both : ClusterName → Text → List Message
both c v = requests (acme_record c v) ∷ publishes (txt_record c v) ∷ []

-- From the request for the record on: the platform's answer, whether the new record is published, and
-- whether the challenge and the authorization are valid.
abbrev pub settle :
    ClusterName
    → Text
    → Option Bool
    → Bool
    → Bool
    → Bool
    → List Message × Result AcmeError (Unit {0})
settle c v none _ _ _ = (requests (acme_record c v) ∷ [], err unavailable)
settle c v (some accepted) false _ _ = (both c v, err unavailable)
settle c v (some false) true _ _ = (both c v, err rejected)
settle c v (some true) true false _ = (both c v, err challenge_failed)
settle c v (some true) true true false = (both c v, err authorization_failed)
settle c v (some true) true true true = (both c v, ok tt)

-- The body of the loop: the messages that are sent, and how it ends.
unfoldable pub authorize : ClusterName → Authorization → List Message × Result AcmeError (Unit {0})
authorize c a = elim a.challenge [
  | none ↦ ([], err no_challenge)
  | some none ↦ ([], err no_value)
  | some (some v) ↦ settle c v a.accepted a.published a.challenge_valid a.authorization_valid
]

unfoldable pub authorize_all :
    ClusterName → List Authorization → List Message × Result AcmeError (Unit {0})
authorize_all c [] = ([], ok tt)
authorize_all c (a ∷ auths) =
    let p = authorize c a in
    let rest = authorize_all c auths in
    elim p.1 [ err e ↦ (p.0, err e) | ok u ↦ (p.0 ++ rest.0, rest.1) ]

abbrev pub certificate_of : Order → Text → Result AcmeError (Text × List Text)
certificate_of o pkey = elim o.certificate [
  | none ↦ err no_certificate
  | some [] ↦ err empty_certificate
  | some (c ∷ cs) ↦ ok (pkey, c ∷ cs)
]

unfoldable pub finish_order : Order → Result AcmeError (Text × List Text)
finish_order o =
    if o.ready
    then (elim o.pkey [
      | none ↦ err unavailable
      | some pkey ↦ if o.valid then certificate_of o pkey else err order_not_valid
    ])
    else err order_failed

unfoldable pub get_certificate :
    ClusterName → Order → List Message × Result AcmeError (Text × List Text)
get_certificate c o = elim o.authorizations [
  | none ↦ ([], err unavailable)
  | some auths ↦
      let p = authorize_all c auths in (p.0, elim p.1 [ err e ↦ err e | ok u ↦ finish_order o ])
]

-- The files of the key and the certificate after a refresh, where writing them succeeds.
unfoldable pub refresh_certificate :
    ClusterName → Order → Text × Text → List Message × (Text × Text) × Result AcmeError (Unit {0})
refresh_certificate c o files =
    let p = get_certificate c o in
    elim p.1 [
      | err e ↦ (p.0, files, err e)
      | ok (key, certs) ↦ (p.0, write_files files key certs, ok tt)
    ]

-- What an authorization comes to that passes.
abbrev pub Passes : ClusterName → Authorization → Type 0
Passes c a =
    (v : Text) × (a.challenge ≡ some (some v))
    × (a.accepted ≡ some true)
    × (a.published ≡ true)
    × (a.challenge_valid ≡ true)
    × (a.authorization_valid ≡ true)
    × ((authorize c a).0 ≡ both c v)

-- The messages for the authorizations, in order.
abbrev pub Announced : ClusterName → List Authorization → List Message → Type 0
Announced c [] messages = messages ≡ []
Announced c (a ∷ auths) messages =
    (rest : List Message) × Announced c auths rest
    × Passes c a
    × (messages ≡ (authorize c a).0 ++ rest)

settle-ok :
    (c : ClusterName) (v : Text) (o : Option Bool) (p q r : Bool)
    → (settle c v o p q r).1 ≡ ok tt
    → (o ≡ some true) × (p ≡ true) × (q ≡ true) × (r ≡ true) × ((settle c v o p q r).0 ≡ both c v)
settle-ok c v (some true) true true true e = (refl, refl, refl, refl, refl)
settle-ok c v _ _ _ _ e = absurd (ground arith)

authorize-Passes : (c : ClusterName) (a : Authorization) → (authorize c a).1 ≡ ok tt → Passes c a
unfolding authorize
authorize-Passes c a e = elim (Option-cases a.challenge) [
  | inl f ↦ absurd (ground arith)
  | inr (none, f) ↦ absurd (ground arith)
  | inr (some v, f) ↦
      let (x, y, z, w, m) =
        settle-ok c v a.accepted a.published a.challenge_valid a.authorization_valid
          (rw (authorize, f) at e) in
      (v, f, x, y, z, w, rw (authorize, f) m)
]

authorize_all-Announced :
    (c : ClusterName) (auths : List Authorization)
    → (authorize_all c auths).1 ≡ ok tt
    → Announced c auths (authorize_all c auths).0
unfolding authorize_all
authorize_all-Announced c [] e = refl
authorize_all-Announced c (a ∷ auths) e = elim (Result-cases (authorize c a).1) [
  | inl (u, f) ↦
      let m = authorize_all-Announced c auths (rw (authorize_all, f) at e) in
      ((authorize_all c auths).0, m, authorize-Passes c a f, rw (authorize_all, f) refl)
  | inr (x, f) ↦ absurd (ground (arith, rw (authorize_all, f) at e))
]

finish_order-ok :
    (o : Order) (key : Text) (certs : List Text)
    → finish_order o ≡ ok (key, certs)
    → (o.ready ≡ true) × (o.valid ≡ true) × (o.certificate ≡ some certs) × (certs ≢ [])
unfolding finish_order
finish_order-ok o key certs e = elim (Bool-cases o.ready) [
  | inr f ↦ absurd (ground arith)
  | inl f ↦ elim (Option-cases o.pkey) [
    | inl g ↦ absurd (ground arith)
    | inr (k, g) ↦ elim (Bool-cases o.valid) [
      | inr h ↦ absurd (ground arith)
      | inl h ↦ elim (Option-cases o.certificate) [
        | inl i ↦ absurd (ground arith)
        | inr ([], i) ↦ absurd (ground arith)
        | inr (x ∷ xs, i) ↦ (f, h, ground arith, λ n. ground arith)
      ]
    ]
  ]
]

-- A certificate is obtained only if the order is ready and valid, the certificate has at least one
-- part, and each of the order's authorizations has passed, after the platform took its record and the
-- record was published, in the order of the authorizations.
pub get_certificate-ok :
    (c : ClusterName) (o : Order) (key : Text) (certs : List Text)
    → (get_certificate c o).1 ≡ ok (key, certs)
    → (auths : List Authorization) × (o.authorizations ≡ some auths)
      × Announced c auths (get_certificate c o).0
      × (o.ready ≡ true)
      × (o.valid ≡ true)
      × (o.certificate ≡ some certs)
      × (certs ≢ [])
unfolding get_certificate
get_certificate-ok c o key certs e = elim (Option-cases o.authorizations) [
  | inl f ↦ absurd (ground arith)
  | inr (auths, f) ↦ elim (Result-cases (authorize_all c auths).1) [
    | inr (x, g) ↦ absurd (ground (arith, rw (get_certificate, f, g) at e))
    | inl (u, g) ↦
        let (r, v, t, n) = finish_order-ok o key certs (rw (get_certificate, f, g) at e) in
        (auths, f, rw (get_certificate, f) (authorize_all-Announced c auths g), r, v, t, n)
  ]
]
