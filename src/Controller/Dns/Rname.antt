-- ===== src/Controller/Dns/Rname.antt =====
-- controller/src/dns/rname_format.rs, and the plan that uses it, controller/src/plan.rs.
use spawner.Prelude.{
  ℕ, [], ◌∷◌, ◌++◌, Option, none, some, ite, ℕ_discrete, ◌≡◌, ◌≢◌, refl, In, inl, inr, ◌↔◌, arith,
  Option-cases, sym, if_pos, if_neg,
}
use spawner.Prelude.Result.{Result, ok, err, ◌>>=◌, ok_or}
use spawner.Prelude.Text.{Text, codes, split_once, replace}
use spawner.Prelude.Text.Laws.{split_once_at, split_once-none, none-split_once}
use mathlib.Core.Option as Opt

pub data RnameError : Type 0 where
  no_at not_ascii : RnameError

unfoldable pub format_rname : Text → Result RnameError Text
unfolding split_once replace
format_rname email = elim (split_once b'@' email) [
  | none ↦ err no_at
  | some (pre, post) ↦ ok (replace b'.' (codes "\\.") pre ++ (codes "." ++ post))
]

pub record DnsOptions : Type 0 where
  pub port : ℕ
  pub bind_ip : Text
  pub soa_email : Option Text

pub record DnsPlan : Type 0 where
  pub port : ℕ
  pub bind_ip : Text
  pub soa_email : Option Text

-- `from_ascii` is `Name::from_ascii`.
unfoldable pub plan_soa_email : (Text → Option Text) → Option Text → Result RnameError (Option Text)
unfolding format_rname
plan_soa_email from_ascii none = ok none
plan_soa_email from_ascii (some email) = do
  soa_email ← format_rname email
  name ← ok_or (from_ascii soa_email) not_ascii
  ok (some name)

unfoldable pub plan_dns :
    (Text → Option Text) → Option DnsOptions → Result RnameError (Option DnsPlan)
unfolding plan_soa_email
plan_dns from_ascii none = ok none
plan_dns from_ascii (some options) = do
  soa_email ← plan_soa_email from_ascii options.soa_email
  ok (some (record { port = options.port; bind_ip = options.bind_ip; soa_email = soa_email }))

-- A reader of such names: a backslash quotes the next code point, and the first dot that is not
-- quoted ends the user's name.
unfoldable pub read_rname : Text → Option (Text × Text)
unfolding ℕ_discrete
read_rname [] = none
read_rname (c ∷ []) = ite (ℕ_discrete c b'.') (some ([], [])) none
read_rname (c ∷ d ∷ s) =
    let quoted = Opt.map (λ p. (d ∷ p.0, p.1)) (read_rname s) in
    let plain = Opt.map (λ p. (c ∷ p.0, p.1)) (read_rname (d ∷ s)) in
    ite (ℕ_discrete c b'\\') quoted (ite (ℕ_discrete c b'.') (some ([], d ∷ s)) plain)

read_rname-plain :
    (c : ℕ) (rest : Text) (p : Text × Text)
    → c ≢ b'\\'
    → c ≢ b'.'
    → read_rname rest ≡ some p
    → read_rname (c ∷ rest) ≡ some (c ∷ p.0, p.1)
unfolding read_rname
read_rname-plain c [] p h k e = absurd (ground arith)
read_rname-plain c (d ∷ s) p h k e = ground arith

read_rname-dot : (post : Text) → read_rname (b'.' ∷ post) ≡ some ([], post)
unfolding read_rname
read_rname-dot [] = ground arith
read_rname-dot (d ∷ s) = ground arith

read_rname-quoted :
    (d : ℕ) (rest : Text) (p : Text × Text)
    → read_rname rest ≡ some p
    → read_rname (b'\\' ∷ d ∷ rest) ≡ some (d ∷ p.0, p.1)
unfolding read_rname
read_rname-quoted d rest p e = rw (read_rname, e) (ground arith)

read_rname-replace :
    (pre post : Text)
    → (¬ In b'\\' pre)
    → read_rname (replace b'.' (codes "\\.") pre ++ b'.' ∷ post) ≡ some (pre, post)
unfolding replace
read_rname-replace [] post h = read_rname-dot post
read_rname-replace (c ∷ pre) post h =
    let ih = read_rname-replace pre post (λ m. h (inr m)) in
    elim (ℕ_discrete c b'.') [
      | yes e ↦ rw (if_pos (ℕ_discrete c b'.') e, e) (read_rname-quoted b'.' _ _ ih)
      | no e ↦
          rw (if_neg (ℕ_discrete c b'.') e) (read_rname-plain c _ _ (λ q. h (inl (sym q))) e ih)
    ]

-- The name of an email address reads back as the parts before and after its first '@', where the
-- part before has no backslash.
pub read-format_rname :
    (pre post : Text)
    → (¬ In b'@' pre)
    → (¬ In b'\\' pre)
    → (name : Text) × (format_rname (pre ++ b'@' ∷ post) ≡ ok name)
      × (read_rname name ≡ some (pre, post))
unfolding format_rname
read-format_rname pre post a b = (
  replace b'.' (codes "\\.") pre ++ (codes "." ++ post),
  rw (format_rname, split_once_at b'@' pre post a) refl,
  read_rname-replace pre post b,
)

-- An address is refused exactly if it has no '@', and then the whole plan of the DNS server is.
pub plan_dns_fails :
    (from_ascii : Text → Option Text) (port : ℕ) (ip email : Text)
    → plan_dns from_ascii (some (record { port = port; bind_ip = ip; soa_email = some email }))
        ≡ err no_at
      ↔ (¬ In b'@' email)
unfolding plan_dns plan_soa_email format_rname
plan_dns_fails from_ascii port ip email = elim (Option-cases (split_once b'@' email)) [
  | inl e ↦ (λ _. none-split_once b'@' email e, λ _. rw (format_rname, e) refl)
  | inr (p, e) ↦ (
    λ q.
        let q' = rw (format_rname, e) at q in
        elim (Option-cases (from_ascii (replace b'.' (codes "\\.") p.0 ++ (codes "." ++ p.1)))) [
          | inl f ↦ absurd (ground arith)
          | inr (x, f) ↦ absurd (ground arith)
        ],
    λ n. absurd (ground (arith, split_once-none b'@' email n)),
  )
]
