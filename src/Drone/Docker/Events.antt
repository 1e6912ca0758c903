-- ===== src/Drone/Docker/Events.antt =====
-- drone/src/agent/engines/docker/util.rs: the events and the statistics of containers, and the stream
-- of the backends that have died, of docker/mod.rs.
use spawner.Prelude.{
  List, [], ◌∷◌, ◌++◌, Option, none, some, ◌≡◌, refl, In, ◌↔◌, inl, inr, arith, Option-cases, ap,
  ◌∙◌, sym,
}
use spawner.Prelude.Assoc
use spawner.Prelude.Text.{Text, Text_discrete, codes, split}
use spawner.Prelude.Text.Laws.{split-append, split_whole}
use spawner.Types.{BackendId, from_resource_name, to_resource_name, from_resource_name_iff}

pub data ContainerEventType : Type 0 where
  attach commit copy create destroy detach die exec_create exec_detach exec_die exec_start export
        health_status kill oom pause rename resize restart start stop top unpause update :
      ContainerEventType

pub record EventMessage : Type 0 where
  pub action : Option Text
  pub attributes : Option (List (Text × Text))

pub record ContainerEvent : Type 0 where
  pub event : ContainerEventType
  pub name : Text

abbrev pub actions : List (Text × ContainerEventType)
actions =
    (codes "attach", attach)
    ∷ (codes "commit", commit)
    ∷ (codes "copy", copy)
    ∷ (codes "create", create)
    ∷ (codes "destroy", destroy)
    ∷ (codes "detach", detach)
    ∷ (codes "die", die)
    ∷ (codes "exec_create", exec_create)
    ∷ (codes "exec_detach", exec_detach)
    ∷ (codes "exec_die", exec_die)
    ∷ (codes "exec_start", exec_start)
    ∷ (codes "export", export)
    ∷ (codes "health_status", health_status)
    ∷ (codes "kill", kill)
    ∷ (codes "oom", oom)
    ∷ (codes "pause", pause)
    ∷ (codes "rename", rename)
    ∷ (codes "resize", resize)
    ∷ (codes "restart", restart)
    ∷ (codes "start", start)
    ∷ (codes "stop", stop)
    ∷ (codes "top", top)
    ∷ (codes "unpause", unpause)
    ∷ (codes "update", update)
    ∷ []

-- The part of an action before its first colon.
abbrev pub head_of : List Text → Text
head_of [] = []
head_of (a ∷ rest) = a

unfoldable pub event_type : Text → Option ContainerEventType
event_type action = Assoc.get Text_discrete (head_of (split b':' action)) actions

-- An actor without attributes is as no actor.
unfoldable pub from_event_message : EventMessage → Option ContainerEvent
from_event_message m = elim m.action [
  | none ↦ none
  | some action ↦ elim m.attributes [
    | none ↦ none
    | some attributes ↦ elim (Assoc.get Text_discrete (codes "name") attributes) [
      | none ↦ none
      | some name ↦ elim (event_type action) [
        | none ↦ none
        | some event ↦ some (record { event = event; name = name })
      ]
    ]
  ]
]

abbrev pub died : ContainerEventType → Text → Option BackendId
died die name = from_resource_name name
died _ name = none

abbrev pub interrupt_of : Option ContainerEvent → Option BackendId
interrupt_of none = none
interrupt_of (some e) = died e.event e.name

-- The filter of `interrupt_stream`.
unfoldable pub interrupts : Option EventMessage → Option BackendId
interrupts none = none
interrupts (some m) = interrupt_of (from_event_message m)

pub data Poll {ℓ} (A : Type ℓ) : Type ℓ where
  pending : Poll A
  ready : Option A → Poll A

-- `measure` is `from_stats_messages`, whose `none` is the panic of `unwrap`.
pub record Polled (S A : Type 0) : Type 0 where
  pub last : Option S
  pub poll : Option (Poll A)

unfoldable pub poll_next : {S A : Type 0} → (S → S → Option A) → Option S → Poll S → Polled S A
poll_next measure last pending = record { last = last; poll = some pending }
poll_next measure last (ready none) = record { last = last; poll = some (ready none) }
poll_next measure (some previous) (ready (some stat)) = elim (measure previous stat) [
  | none ↦ record { last = some previous; poll = none }
  | some v ↦ record { last = some stat; poll = some (ready (some v)) }
]
poll_next measure none (ready (some stat)) = record { last = some stat; poll = some pending }

died_iff :
    (t : ContainerEventType) (name : Text) (b : BackendId)
    → died t name ≡ some b ↔ ((t ≡ die) × (name ≡ to_resource_name b))
died_iff die name b =
    (λ q. (refl, (from_resource_name_iff name b).1 q), λ q. (from_resource_name_iff name b).0 q.1)
died_iff _ name b = (λ q. ground arith, λ q. ground arith)

-- For an event with an action and attributes, the stream interrupts a backend exactly if the
-- action's type is the death of a container and the container's name is the backend's resource
-- name.
pub interrupts_iff :
    (action : Text) (attributes : List (Text × Text)) (b : BackendId)
    → interrupts (some (record { action = some action; attributes = some attributes })) ≡ some b ↔ (
        (event_type action ≡ some die)
        × (Assoc.get Text_discrete (codes "name") attributes ≡ some (to_resource_name b)))
unfolding interrupts from_event_message
interrupts_iff action attributes b =
    elim (Option-cases (Assoc.get Text_discrete (codes "name") attributes)) [
      | inl e ↦ rw (from_event_message, e) (λ q. ground arith, λ q. ground arith)
      | inr (name, e) ↦ elim (Option-cases (event_type action)) [
        | inl f ↦ rw (from_event_message, e, f) (λ q. ground arith, λ q. ground arith)
        | inr (t, f) ↦
            let (there, back) = died_iff t name b in
            rw (from_event_message, e, f)
              (
                λ q. (ap some (there q).0, ap some (there q).1),
                λ q. back (ground arith, ground arith),
              )
      ]
    ]

-- An action is told by what stands before its first colon.
pub event_type_detail :
    (action detail : Text)
    → ¬ In b':' action
    → event_type (action ++ b':' ∷ detail) ≡ event_type action
unfolding event_type
event_type_detail action detail h =
    ap (λ s. Assoc.get Text_discrete (head_of s) actions)
      (split-append b':' action detail h ∙ sym (ap (λ s. action ∷ s) refl))
    ∙ sym (ap (λ s. Assoc.get Text_discrete (head_of s) actions) (split_whole b':' action h))
