-- ===== src/Messages/Agent.antt =====
-- core/src/messages/agent.rs. Durations are counted in nanoseconds; a `HashMap` of strings is a list
-- of pairs.
pub mod State
use spawner.Prelude.{ℕ, ◌≡◌, refl, List, [], ◌∷◌, ◌++◌, Option, none, some, Bool, true, false, ite}
use spawner.Prelude.Result.{Result, ok, err}
use spawner.Prelude.Text.{Text, codes, Text_discrete}
use spawner.Types.{DroneId, BackendId, ClusterName, subject_name}

pub data DockerCredentials : Type 0 where
  username_password : Text → Text → DockerCredentials

pub data DroneLogMessageKind : Type 0 where
  stdout stderr : DroneLogMessageKind

pub record DroneLogMessage : Type 0 where
  pub backend_id : BackendId
  pub kind : DroneLogMessageKind
  pub text : Text

-- `bollard::container::LogOutput`, whose messages are bytes.
pub data LogOutput : Type 0 where
  std_err std_out std_in console : List ℕ → LogOutput

-- `from_utf8` is `std::str::from_utf8`.
unfoldable pub from_log_message :
    (List ℕ → Option Text) → BackendId → LogOutput → Option DroneLogMessage
from_log_message from_utf8 b (std_err message) = elim (from_utf8 message) [
  | none ↦ none
  | some t ↦ some (record { backend_id = b; kind = stderr; text = t })
]
from_log_message from_utf8 b (std_out message) = elim (from_utf8 message) [
  | none ↦ none
  | some t ↦ some (record { backend_id = b; kind = stdout; text = t })
]
from_log_message from_utf8 b (std_in message) = none
from_log_message from_utf8 b (console message) = none

pub record DroneStatusMessage : Type 0 where
  pub drone_id : DroneId
  pub cluster : ClusterName
  pub drone_version : Text
  pub ready : Bool
  pub running_backends : Option ℕ

pub record DroneConnectRequest : Type 0 where
  pub drone_id : DroneId
  pub cluster : ClusterName
  pub ip : Text

pub record ResourceLimits : Type 0 where
  pub cpu_period : Option ℕ
  pub cpu_period_percent : Option ℕ
  pub cpu_time_limit : Option ℕ

pub record DockerExecutableConfig : Type 0 where
  pub image : Text
  pub env : List (Text × Text)
  pub credentials : Option DockerCredentials
  pub resource_limits : ResourceLimits

pub record SpawnRequest : Type 0 where
  pub drone_id : DroneId
  pub max_idle_secs : ℕ
  pub backend_id : BackendId
  pub metadata : List (Text × Text)
  pub executable : DockerExecutableConfig
  pub bearer_token : Option Text

pub record TerminationRequest : Type 0 where
  pub cluster_id : ClusterName
  pub backend_id : BackendId

pub data BackendState : Type 0 where
  loading error_loading starting error_starting ready timed_out_before_ready failed exited swept
        terminated :
      BackendState

unfoldable pub BackendState_discrete : Discrete BackendState
BackendState_discrete = hlevel

unfoldable pub to_string : BackendState → Text
to_string loading = codes "Loading"
to_string error_loading = codes "ErrorLoading"
to_string starting = codes "Starting"
to_string error_starting = codes "ErrorStarting"
to_string ready = codes "Ready"
to_string timed_out_before_ready = codes "TimedOutBeforeReady"
to_string failed = codes "Failed"
to_string exited = codes "Exited"
to_string swept = codes "Swept"
to_string terminated = codes "Terminated"

-- The error holds the string that describes no state.
unfoldable pub from_str : Text → Result Text BackendState
from_str s = ite (Text_discrete s (codes "Loading")) (ok loading) (
    ite (Text_discrete s (codes "ErrorLoading")) (ok error_loading) (
      ite (Text_discrete s (codes "Starting")) (ok starting) (
        ite (Text_discrete s (codes "ErrorStarting")) (ok error_starting) (
          ite (Text_discrete s (codes "Ready")) (ok ready) (
            ite (Text_discrete s (codes "TimedOutBeforeReady")) (ok timed_out_before_ready) (
              ite (Text_discrete s (codes "Failed")) (ok failed) (
                ite (Text_discrete s (codes "Exited")) (ok exited) (
                  ite (Text_discrete s (codes "Swept")) (ok swept)
                    (ite (Text_discrete s (codes "Terminated")) (ok terminated) (err s))))))))))

unfoldable pub terminal : BackendState → Bool
terminal error_loading = true
terminal error_starting = true
terminal timed_out_before_ready = true
terminal failed = true
terminal exited = true
terminal swept = true
terminal terminated = true
terminal _ = false

unfoldable pub running : BackendState → Bool
running starting = true
running ready = true
running _ = false

pub record BackendStateMessage : Type 0 where
  pub state : BackendState
  pub backend : BackendId
  pub time : ℕ
