-- ===== src/Core/Logging.antt =====
-- core/src/logging.rs: how events become messages to the log. `V` is the type of JSON values, `json`
-- its parser, `string` the value that a text is. The channel is the list of the messages that wait
-- in it.
pub mod Delivery
pub mod Fields
use spawner.Prelude.{
  ℕ, ◌+◌, ◌<◌, ◌≤◌, ◌≡◌, List, [], ◌∷◌, ◌++◌, Option, none, some, Bool, true, false, ltb, length,
  if◌then◌else◌,
}
use spawner.Prelude.Assoc
use spawner.Prelude.Result.{Result, ok, err}
use spawner.Prelude.Text.{Text, codes, Text_discrete}
use spawner.Messages.Logging.{Component}

-- What is recorded of a field: a value that is JSON already (`record_f64`, `record_i64`,
-- `record_u64`, `record_bool`, `record_str`), or the text that `Debug` prints.
pub data Recorded (V : Type 0) : Type 0 where
  json : Text → V → Recorded V
  debug : Text → Text → Recorded V

pub record LogMessage (V : Type 0) : Type 0 where
  pub component : Component
  pub target : Text
  pub name : Text
  pub severity : Text
  pub time : ℕ
  pub fields : List (Text × V)

-- An event, and the visitor that its current span carries: none without a span or without one in it.
pub record LogEvent (V : Type 0) : Type 0 where
  pub target : Text
  pub name : Text
  pub level : Text
  pub time : ℕ
  pub recorded : List (Recorded V)
  pub span : Option (Option (List (Text × V)))

module _ {V : Type 0} (parse : Text → Option V) (string : Text → V) where
  -- `JsonVisitor`.
  unfoldable pub record_field : List (Text × V) → Recorded V → List (Text × V)
  record_field fields (json name value) = Assoc.insert Text_discrete name value fields
  record_field fields (debug name printed) = elim (parse printed) [
    | some value ↦ Assoc.insert Text_discrete name value fields
    | none ↦ Assoc.insert Text_discrete name (string printed) fields
  ]

  unfoldable pub record_all : List (Text × V) → List (Recorded V) → List (Text × V)
  record_all fields [] = fields
  record_all fields (r ∷ recorded) = record_all (record_field fields r) recorded

  unfoldable pub inherited : Option (Option (List (Text × V))) → List (Text × V)
  inherited none = []
  inherited (some none) = []
  inherited (some (some fields)) = fields

  -- The visitor that a new span is given; `parent` is its parent's.
  unfoldable pub on_new_span :
      Option (Option (List (Text × V))) → List (Recorded V) → List (Text × V)
  on_new_span parent attrs = record_all (inherited parent) attrs

  unfoldable pub log_message : Component → LogEvent V → LogMessage V
  log_message component e = record {
    component = component;
    target = e.target;
    name = e.name;
    severity = e.level;
    time = e.time;
    fields = record_all (inherited e.span) e.recorded;
  }

abbrev pub channel_size : ℕ
channel_size = 128

-- The channel, what `do_logs` has published, and whether NATS is attached. `warnings` counts the
-- messages for which the channel had no room, `errors` those that could not be published.
pub record Logger (V : Type 0) : Type 0 where
  pub waiting : List (LogMessage V)
  pub published : List (LogMessage V)
  pub attached : Bool
  pub warnings : ℕ
  pub errors : ℕ

unfoldable pub init : {V : Type 0} → Logger V
init = record { waiting = []; published = []; attached = false; warnings = 0; errors = 0 }

-- `try_send`.
unfoldable pub try_send : {V : Type 0} → Logger V → LogMessage V → Logger V
try_send l m =
    if ltb (length l.waiting) channel_size
    then record l { waiting = l.waiting ++ m ∷ [] }
    else record l { warnings = l.warnings + 1 }

unfoldable pub on_event :
    {V : Type 0} → (Text → Option V) → (Text → V) → Component → Logger V → LogEvent V → Logger V
on_event parse string component l e = try_send l (log_message parse string component e)

-- The receiver is taken once.
unfoldable pub attach_nats : {V : Type 0} → Logger V → Result Text (Logger V)
attach_nats l =
    if l.attached
    then err (codes "connect_nats on TracingHandle should not be called more than once.")
    else ok (record l { attached = true })

abbrev pub publish_oldest : {V : Type 0} → Logger V → Bool → List (LogMessage V) → Logger V
publish_oldest l sent [] = l
publish_oldest l true (m ∷ ms) = record l { waiting = ms; published = l.published ++ m ∷ [] }
publish_oldest l false (m ∷ ms) = record l { waiting = ms; errors = l.errors + 1 }

-- A round of `do_logs`, which takes the oldest message from the channel. `sent` is whether the call
-- that publishes it succeeds; if it does not, an error is printed and the message is gone.
unfoldable pub do_logs_round : {V : Type 0} → Logger V → Bool → Logger V
do_logs_round l sent = if l.attached then publish_oldest l sent l.waiting else l
