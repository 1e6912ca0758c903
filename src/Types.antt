-- ===== src/Types.antt =====
-- core/src/types.rs. A random identifier (`new_random`) is an argument where the program makes one.
use spawner.Prelude.{◌≡◌, ◌++◌, Option, some, In, inl, inr, arith, Option-cases, ap, ◌∙◌}
use spawner.Prelude.Text.{Text, codes, Text_discrete, strip_prefix, replace}
use spawner.Prelude.Text.Laws.{strip_prefix-append, strip_prefix_sound, not-In-replace}
use mathlib.Core.Option as Opt

abbrev pub resource_prefix : Text
resource_prefix = codes "plane-"

pub record DroneId : Type 0 where
  pub id : Text

pub record BackendId : Type 0 where
  pub id : Text

pub record ClusterName : Type 0 where
  pub hostname : Text

unfoldable pub DroneId_discrete : Discrete DroneId
unfolding Text_discrete
DroneId_discrete = hlevel Text_discrete

unfoldable pub BackendId_discrete : Discrete BackendId
unfolding Text_discrete
BackendId_discrete = hlevel Text_discrete

unfoldable pub ClusterName_discrete : Discrete ClusterName
unfolding Text_discrete
ClusterName_discrete = hlevel Text_discrete

unfoldable pub to_resource_name : BackendId → Text
to_resource_name b = resource_prefix ++ b.id

unfoldable pub from_resource_name : Text → Option BackendId
from_resource_name name = Opt.map (λ d. record { id = d }) (strip_prefix resource_prefix name)

unfoldable pub subject_name : ClusterName → Text
unfolding replace
subject_name c = replace b'.' (codes "_") c.hostname

-- A container's name tells its backend, and a container of another program is told apart: a text is
-- the resource name of a backend exactly if `from_resource_name` finds that backend in it.
pub from_resource_name_iff :
    (name : Text) (b : BackendId)
    → ((name ≡ to_resource_name b) → from_resource_name name ≡ some b)
      × ((from_resource_name name ≡ some b) → name ≡ to_resource_name b)
unfolding to_resource_name from_resource_name
from_resource_name_iff name b = (λ e. rw (e, strip_prefix-append resource_prefix b.id), found)
  where
    found : from_resource_name name ≡ some b → name ≡ to_resource_name b
    found h = elim (Option-cases (strip_prefix resource_prefix name)) [
      | inl e ↦ absurd (ground arith)
      | inr (d, e) ↦
          let e' : d ≡ b.id = ground arith in
          strip_prefix_sound resource_prefix name e ∙ ap (◌++◌ resource_prefix) e'
    ]

pub subject_name_one_token : (c : ClusterName) → ¬ In b'.' (subject_name c)
unfolding subject_name
subject_name_one_token c =
    not-In-replace b'.' (codes "_") c.hostname elim [ inl e ↦ omega arith | inr m ↦ m ]
