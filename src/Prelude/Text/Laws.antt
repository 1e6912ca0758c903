-- ===== src/Prelude/Text/Laws.antt =====
-- What the methods on text return.
use mathlib.Core.List.{reverse, reverse-append, reverse-reverse}
use Prim.Native.Nat.{ℕ}
use mathlib.Core.Path.{◌≡◌, refl, sym, ap, ◌∙◌}
use mathlib.Core.Logic.{inl, inr, ite, if_pos, if_neg}
use mathlib.Core.Bool.{Bool, true, false}
use mathlib.Core.Option.{none, some}
use mathlib.Core.List.{[], ◌∷◌, ◌++◌}
use native.Mathlib.Omega.{arith}
use native.Mathlib.Decide.{ℕ_discrete}
use spawner.Prelude.Tests.{Option-cases}
use spawner.Prelude.Lists.{In, In-split}
use spawner.Prelude.Text.{Text, split_once, strip_prefix, strip_suffix, replace, split}

pub strip_prefix-append : (p s : Text) → strip_prefix p (p ++ s) ≡ some s
unfolding strip_prefix
strip_prefix-append [] s = refl
strip_prefix-append (c ∷ p) s = ground (arith, strip_prefix-append p s)

pub strip_prefix_sound : (p s : Text) {r : Text} → strip_prefix p s ≡ some r → s ≡ p ++ r
unfolding strip_prefix
strip_prefix_sound [] s h = ground arith
strip_prefix_sound (c ∷ p) [] h = cc
strip_prefix_sound (c ∷ p) (d ∷ s) {r} h = ground (arith, strip_prefix_sound p s {r = r})

pub strip_suffix-append : (p s : Text) → strip_suffix p (s ++ p) ≡ some s
unfolding strip_suffix
strip_suffix-append p s =
    rw (reverse-append s p, strip_prefix-append (reverse p) (reverse s), reverse-reverse s)

pub strip_suffix_sound : (p s : Text) {r : Text} → strip_suffix p s ≡ some r → s ≡ r ++ p
unfolding strip_suffix
strip_suffix_sound p s {r} h = elim (Option-cases (strip_prefix (reverse p) (reverse s))) [
  | inl e ↦ absurd (ground arith)
  | inr (q, e) ↦
      let e' : reverse s ≡ reverse p ++ q = strip_prefix_sound (reverse p) (reverse s) e in
      let r' : reverse q ≡ r = ground arith in
      sym (reverse-reverse s)
      ∙ ap reverse e'
      ∙ reverse-append (reverse p) q
      ∙ (rw (r', reverse-reverse p))
]

pub split_once_at : (d : ℕ) (a b : Text) → ¬ In d a → split_once d (a ++ d ∷ b) ≡ some (a, b)
unfolding split_once
split_once_at d [] b h = ground arith
split_once_at d (c ∷ a) b h = ground (arith, h, split_once_at d a b (λ m. h (inr m)))

pub split_once_sound :
    (d : ℕ) (s : Text) {a b : Text} → split_once d s ≡ some (a, b) → (s ≡ a ++ d ∷ b) × (¬ In d a)
unfolding split_once
split_once_sound d [] h = cc
split_once_sound d (c ∷ s) {a} {b} h = elim (ℕ_discrete c d) [
  | yes e ↦
      let ea : [] ≡ a = ground arith in
      let eb : s ≡ b = ground arith in rw (← ea, ← eb, e) (refl, λ m. m)
  | no e ↦ elim (Option-cases (split_once d s)) [
    | inl n ↦ absurd (ground arith)
    | inr ((a', b'), f) ↦
        let (eq, fresh) = split_once_sound d s f in
        let ea : c ∷ a' ≡ a = ground arith in
        let eb : b' ≡ b = ground arith in
        rw (← ea, ← eb) (ap (◌∷◌ c) eq, elim [ inl p ↦ e (sym p) | inr m ↦ fresh m ])
  ]
]

pub split_once-none : (d : ℕ) (s : Text) → ¬ In d s → split_once d s ≡ none
unfolding split_once
split_once-none d [] h = refl
split_once-none d (c ∷ s) h = ground (arith, h, split_once-none d s (λ m. h (inr m)))

pub not-In-replace : (c : ℕ) (to s : Text) → (¬ In c to) → ¬ In c (replace c to s)
unfolding replace
not-In-replace c to [] h m = m
not-In-replace c to (d ∷ s) h m = elim (ℕ_discrete d c) [
  | yes e ↦ elim (In-split c to (replace c to s) (rw (if_pos (ℕ_discrete d c) e) at m)) [
    | inl m' ↦ h m'
    | inr m' ↦ not-In-replace c to s h m'
  ]
  | no e ↦ elim (rw (if_neg (ℕ_discrete d c) e) at m) [
    | inl p ↦ e (sym p)
    | inr m' ↦ not-In-replace c to s h m'
  ]
]

pub split-append : (d : ℕ) (a b : Text) → ¬ In d a → split d (a ++ d ∷ b) ≡ a ∷ split d b
unfolding split
split-append d [] b h = ground arith
split-append d (c ∷ a) b h = ground (arith, h, split-append d a b (λ m. h (inr m)))

pub split_whole : (d : ℕ) (a : Text) → ¬ In d a → split d a ≡ a ∷ []
unfolding split
split_whole d [] h = refl
split_whole d (c ∷ a) h = ground (arith, h, split_whole d a (λ m. h (inr m)))

pub none-split_once : (d : ℕ) (s : Text) → split_once d s ≡ none → ¬ In d s
unfolding split_once
none-split_once d [] h m = m
none-split_once d (c ∷ s) h (inl e) = ground arith
none-split_once d (c ∷ s) h (inr m) = elim (Option-cases (split_once d s)) [
  | inl e ↦ none-split_once d s e m
  | inr (p, e) ↦ ground arith
]

-- A test for the absence of a code point.
abbrev pub lacks : ℕ → Text → Bool
lacks c [] = true
lacks c (d ∷ s) = ite (ℕ_discrete c d) false (lacks c s)

pub lacks-In : (c : ℕ) (s : Text) → lacks c s ≡ true → ¬ In c s
lacks-In c [] h m = m
lacks-In c (d ∷ s) h (inl e) = ground arith
lacks-In c (d ∷ s) h (inr m) = elim (ℕ_discrete c d) [
  | yes e ↦ ground arith
  | no e ↦ lacks-In c s (rw (if_neg (ℕ_discrete c d) e) at h) m
]
