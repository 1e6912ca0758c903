-- ===== src/Messages/Agent/State.antt =====
-- The names of the backend states, as the database and the messages spell them.
use spawner.Prelude.{◌≡◌, refl, arith}
use spawner.Prelude.Result.{ok}
use spawner.Prelude.Text.{Text, Text_discrete}
use spawner.Messages.Agent.{BackendState, loading, to_string, from_str}

pub from_str-to_string : (s : BackendState) → from_str (to_string s) ≡ ok s
unfolding from_str to_string Text_discrete
from_str-to_string loading = refl
from_str-to_string _ = refl

-- A text reads as a state exactly if it is the name of that state: what is written is read back, and
-- no other text is accepted for it.
pub from_str_iff :
    (t : Text) (s : BackendState)
    → (t ≡ to_string s → from_str t ≡ ok s) × (from_str t ≡ ok s → t ≡ to_string s)
from_str_iff t s = (λ e. rw e (from_str-to_string s), only)
  where
    only : from_str t ≡ ok s → t ≡ to_string s
    only h = unfold from_str to_string in ground arith
