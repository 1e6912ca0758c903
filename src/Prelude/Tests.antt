-- ===== src/Prelude/Tests.antt =====
-- Boolean tests on the native numbers, the conditional, and case lemmas.
use Prim.Native.Nat.{ℕ, compare, Ordering}
use mathlib.Core.Path.{◌≡◌, refl}
use mathlib.Core.Logic.{◌⊎◌, inl, inr, ite}
use mathlib.Core.Bool.{Bool, true, false}
use mathlib.Core.Option.{Option, none, some}

abbrev pub ltb : ℕ → ℕ → Bool
ltb a b = elim (compare a b) [ Ordering.lt ↦ true | _ ↦ false ]

abbrev pub leb : ℕ → ℕ → Bool
leb a b = elim (compare a b) [ Ordering.gt ↦ false | _ ↦ true ]

infix 50 ◌==◌
abbrev pub ◌==◌ : ℕ → ℕ → Bool
a == b = elim (compare a b) [ Ordering.eq ↦ true | _ ↦ false ]

infix 1 if◌then◌else◌
abbrev pub if◌then◌else◌ {ℓ} : {A : Type ℓ} → Bool → A → A → A
if true then x else y = x
if false then x else y = y

pub Bool-cases : (b : Bool) → (b ≡ true) ⊎ (b ≡ false)
Bool-cases true = inl refl
Bool-cases false = inr refl

pub Option-cases {ℓ} : {A : Type ℓ} (o : Option A) → (o ≡ none) ⊎ ((a : A) × (o ≡ some a))
Option-cases none = inl refl
Option-cases (some a) = inr (a, refl)

-- A predicate of a branch is a predicate of both.
pub ite_cases {ℓ κ μ} :
    {A : Type ℓ} {P : Type κ} (Q : A → Type μ) (d : Dec P) (a b : A)
    → (P → Q a)
    → ((¬ P) → Q b)
    → Q (ite d a b)
ite_cases Q (yes p) a b f g = f p
ite_cases Q (no p) a b f g = g p

pub if_cases {ℓ μ} :
    {A : Type ℓ} (Q : A → Type μ) (t : Bool) (a b : A)
    → (t ≡ true → Q a)
    → (t ≡ false → Q b)
    → Q (if t then a else b)
if_cases Q true a b f g = f refl
if_cases Q false a b f g = g refl
