-- ===== src/Prelude/Text.antt =====
-- Text as a list of code points, with the methods of `str` that the program calls.
pub mod Laws
use Prim.Native.Nat.{ℕ, ◌+◌}
use Prim.Native.Char.{code}
use Prim.Native.String.{String}
use mathlib.Core.Logic.{ite}
use mathlib.Core.Bool.{Bool, true, false, ◌&&◌, ◌||◌}
use mathlib.Core.Option as Opt
use mathlib.Core.Option.{Option, none, some}
use mathlib.Core.List.{List, [], ◌∷◌, ◌++◌, map, reverse}
use native.Mathlib.Decide.{ℕ_discrete}
use spawner.Prelude.Result.{Result, ok, err}
use spawner.Prelude.Tests.{leb, if◌then◌else◌}

abbrev pub Text : Type 0
Text = List ℕ

abbrev pub codes : String → Text
codes String.[] = []
codes (String.◌∷◌ c s) = code c ∷ codes s

-- `context`, of `anyhow`, whose text stands before the error's.
abbrev pub context : {A : Type 0} → Text → Result Text A → Result Text A
context text (ok a) = ok a
context text (err e) = err (text ++ (codes ": " ++ e))

unfoldable pub Text_discrete : Discrete Text
unfolding ℕ_discrete
Text_discrete = hlevel ℕ_discrete

-- `split_once(d)`.
unfoldable pub split_once : ℕ → Text → Option (Text × Text)
unfolding ℕ_discrete
split_once d [] = none
split_once d (c ∷ s) =
    ite (ℕ_discrete c d) (some ([], s)) (Opt.map (λ p. (c ∷ p.0, p.1)) (split_once d s))

unfoldable pub strip_prefix : Text → Text → Option Text
unfolding ℕ_discrete
strip_prefix [] s = some s
strip_prefix (c ∷ p) [] = none
strip_prefix (c ∷ p) (d ∷ s) = ite (ℕ_discrete c d) (strip_prefix p s) none

unfoldable pub strip_suffix : Text → Text → Option Text
unfolding strip_prefix
strip_suffix p s = Opt.map reverse (strip_prefix (reverse p) (reverse s))

-- `replace(c, to)`.
unfoldable pub replace : ℕ → Text → Text → Text
unfolding ℕ_discrete
replace c to [] = []
replace c to (d ∷ s) = ite (ℕ_discrete d c) (to ++ replace c to s) (d ∷ replace c to s)

abbrev pub is_some {ℓ} : {A : Type ℓ} → Option A → Bool
is_some none = false
is_some (some a) = true

-- `contains(p)`.
unfoldable pub contains : Text → Text → Bool
unfolding strip_prefix
contains p [] = is_some (strip_prefix p [])
contains p (c ∷ s) = is_some (strip_prefix p (c ∷ s)) || contains p s

-- `to_lowercase`, of ASCII.
unfoldable pub to_lowercase : Text → Text
to_lowercase = map λ c. if leb b'A' c && leb c b'Z' then c + 32 else c

abbrev pub extend : ℕ → List Text → List Text
extend c [] = (c ∷ []) ∷ []
extend c (a ∷ rest) = (c ∷ a) ∷ rest

-- The parts of a text between the occurrences of `d`, as `split(d)` yields them.
unfoldable pub split : ℕ → Text → List Text
unfolding ℕ_discrete
split d [] = [] ∷ []
split d (c ∷ s) = ite (ℕ_discrete c d) ([] ∷ split d s) (extend c (split d s))
