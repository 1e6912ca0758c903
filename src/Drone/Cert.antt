-- ===== src/Drone/Cert.antt =====
-- drone/src/cert/mod.rs and drone/src/proxy/certs.rs: the certificate of a cluster, from the ACME
-- server to the proxy. Times and durations are in seconds since the epoch.
pub mod Watcher
pub mod Validity
pub mod Acme
use spawner.Prelude.{
  ℕ, zero, suc, ◌+◌, ◌-◌, ◌≤◌, ◌<◌, min, List, [], ◌∷◌, ◌++◌, Option, none, some, ite, dec_lt,
  dec_le, ◌≡◌, refl, length, arith, if_pos, if_neg, Option-cases, length-append, ◌≢◌, inl, inr, ◌↔◌,
  ap,
}
use spawner.Prelude.Result.{Result, ok, err, Result-cases}
use spawner.Prelude.Text.{Text}

abbrev pub refresh_margin : ℕ
refresh_margin = 1296000

abbrev pub max_sleep : ℕ
max_sleep = 3600

-- What a round of the refresh does: it waits for the certificate to come into its margin, or it
-- refreshes the certificate, well or not. The subtraction of the margin from a date after the epoch
-- does not underflow in `chrono`.
pub data Refresh : Type 0 where
  waits : ℕ → Refresh
  refreshes failed : Refresh

abbrev pub refreshed : Result Text (Unit {0}) → Refresh
refreshed (ok u) = refreshes
refreshed (err e) = failed

-- `valid_until` is what `cert_validity` reads, `obtained` whether `refresh_certificate` succeeds.
unfoldable pub refresh_if_not_valid : Option ℕ → ℕ → Result Text (Unit {0}) → Refresh
refresh_if_not_valid valid_until now obtained = elim valid_until [
  | none ↦ refreshed obtained
  | some t ↦
      ite (dec_lt (now + refresh_margin) t) (waits (t - (now + refresh_margin)))
        (refreshed obtained)
]

-- How long `refresh_loop` sleeps after a round.
unfoldable pub sleep_after : Refresh → ℕ
sleep_after (waits t) = min t max_sleep
sleep_after refreshes = max_sleep
sleep_after failed = 3600

unfoldable pub drop : ℕ → Text → Text
drop zero s = s
drop (suc n) [] = []
drop (suc n) (c ∷ s) = drop n s

-- Writing to a file that was opened without truncation: what lies behind the new text stays.
unfoldable pub overwrite : Text → Text → Text
unfolding drop
overwrite old new = new ++ drop (length new) old

abbrev pub concat : List Text → Text
concat [] = []
concat (s ∷ texts) = s ++ concat texts

-- The files of the key and of the certificate after `refresh_certificate`.
unfoldable pub write_files : Text × Text → Text → List Text → Text × Text
unfolding overwrite
write_files (key_file, cert_file) key certs = (key, overwrite cert_file (concat certs))

drop_all : (n : ℕ) (s : Text) → length s ≤ n → drop n s ≡ []
unfolding drop
drop_all zero [] h = refl
drop_all zero (c ∷ s) h = ground arith
drop_all (suc n) [] h = refl
drop_all (suc n) (c ∷ s) h = drop_all n s (omega arith)

append-nil : (s : Text) → s ++ [] ≡ s
append-nil [] = refl
append-nil (c ∷ s) = ap (◌∷◌ c) (append-nil s)

length-drop : (n : ℕ) (s : Text) → length (drop n s) ≡ length s - n
unfolding drop
length-drop zero s = omega arith
length-drop (suc n) [] = omega arith
length-drop (suc n) (c ∷ s) = omega (arith, length-drop n s)

-- After a refresh the file of the certificate holds exactly the new certificate if that is at least
-- as long as what the file held; if it is shorter, the file holds something else.
pub write_files_cert :
    (key_file cert_file key : Text) (certs : List Text)
    → (length cert_file ≤ length (concat certs)
        → (write_files (key_file, cert_file) key certs).1 ≡ concat certs)
      × (length (concat certs) < length cert_file
          → (write_files (key_file, cert_file) key certs).1 ≢ concat certs)
unfolding write_files overwrite
write_files_cert key_file cert_file key certs = (
  λ h. rw (drop_all (length (concat certs)) cert_file h) (append-nil (concat certs)),
  λ h e. absurd (
      omega (
        arith,
        ap length e,
        length-append (concat certs) (drop (length (concat certs)) cert_file),
        length-drop (length (concat certs)) cert_file,
      )),
)

-- A round of the refresh refreshes the certificate exactly if there is none that is valid for more
-- than the margin.
pub refresh_iff :
    (valid_until : Option ℕ) (now : ℕ)
    → refresh_if_not_valid valid_until now (ok tt) ≡ refreshes
      ↔ ((t : ℕ) → valid_until ≡ some t → t ≤ now + refresh_margin)
unfolding refresh_if_not_valid
refresh_iff none now = (λ _ t e. ground arith, λ _. refl)
refresh_iff (some t) now = (λ e u q. ground arith, λ h. ground (arith, h t refl))

-- After a round that leaves a certificate alone the loop sleeps for some time, an hour at most,
-- and wakes while the certificate is still valid for the whole margin.
pub sleep_after_margin :
    (t now : ℕ) (obtained : Result Text (Unit {0})) (wait : ℕ)
    → refresh_if_not_valid (some t) now obtained ≡ waits wait
    → let next = now + sleep_after (refresh_if_not_valid (some t) now obtained) in
      (next + refresh_margin ≤ t) × (next ≤ now + max_sleep) × (now < next)
unfolding refresh_if_not_valid sleep_after
sleep_after_margin t now obtained wait e = elim (dec_lt (now + refresh_margin) t) [
  | yes h ↦ rw (if_pos (dec_lt (now + refresh_margin) t) h) (ground arith)
  | no h ↦ elim (Result-cases obtained) [
    | inl (u, q) ↦ absurd (ground arith)
    | inr (x, q) ↦ absurd (ground arith)
  ]
]
