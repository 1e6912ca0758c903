-- ===== src/Examples/Core.antt =====
-- The theorems of what the controller and the drone share at concrete inputs.
use spawner.Prelude.{ℕ, ◌==◌, if◌then◌else◌, arith}
use spawner.Prelude.Result.{Result, ok, err}
use spawner.Prelude.Text.{Text, codes}
use spawner.Types.{BackendId}
use spawner.Messages.Agent.{TerminationRequest}
use spawner.Core.Retry.{do_with_retry, Retried, do_with_retry-Retried}

abbrev backend : BackendId
backend = record { id = codes "b1" }

abbrev termination : TerminationRequest
termination = record { cluster_id = record { hostname = codes "a.b" }; backend_id = backend }

abbrev third_time : ℕ → Result Text ℕ
third_time n = if n == 3 then ok 7 else err (codes "no")

do_with_retry-Retried_example : Retried third_time 5 1 (do_with_retry third_time 5)
do_with_retry-Retried_example = do_with_retry-Retried third_time 5 (omega arith)
