-- ===== src/Messages/Stats.antt =====
-- core/src/messages/agent.rs: the statistics of a backend, from two successive reports of Docker.
-- `f64` and its operations are a parameter; a subtraction of `u64` wraps, as it does in a release
-- build.
use spawner.Prelude.{ℕ, ◌+◌, ◌-◌, ◌%◌, ◌++◌, Option}
use spawner.Prelude.Result.{Result, ok, ok_or, ◌>>=◌}
use spawner.Prelude.Text.{Text, codes}
use spawner.Types.{BackendId}

-- The operations on `f64` that the program uses.
pub record Floats (F : Type 0) : Type 0 where
  pub of_u64 : ℕ → F
  pub sub : F → F → F
  pub div : F → F → F
  pub hundred_times : F → F

pub record BackendStatsMessage (F : Type 0) : Type 0 where
  pub backend_id : BackendId
  pub cpu_use_percent : F
  pub mem_use_percent : F

unfoldable pub stats_subject : {F : Type 0} → BackendStatsMessage F → Text
stats_subject m = codes "backend." ++ (m.backend_id.id ++ codes ".stats")

unfoldable pub stats_subscribe_subject : BackendId → Text
stats_subscribe_subject b = codes "backend." ++ (b.id ++ codes ".stats")

-- `bollard::container::Stats`, as far as it is read.
pub data MemoryStatsStats : Type 0 where
  cache_v1 inactive_file_v2 : ℕ → MemoryStatsStats

pub record Stats : Type 0 where
  pub usage : Option ℕ
  pub limit : Option ℕ
  pub stats : Option MemoryStatsStats
  pub total_usage : ℕ
  pub system_cpu_usage : Option ℕ

unfoldable pub sub_u64 : ℕ → ℕ → ℕ
sub_u64 a b = (a + 18446744073709551616 - b) % 18446744073709551616

unfoldable pub cache_memory : MemoryStatsStats → ℕ
cache_memory (cache_v1 n) = n
cache_memory (inactive_file_v2 n) = n

module _ {F : Type 0} (f : Floats F) where
  open f use {of_u64, sub, div, hundred_times}

  unfoldable pub from_stats_messages :
      BackendId → Stats → Stats → Result Text (BackendStatsMessage F)
  from_stats_messages backend_id prev cur = do
    mem_naive_usage ← ok_or cur.usage (codes "no memory stats.usage")
    mem_available ← ok_or cur.limit (codes "no memory stats.limit")
    mem_stats ← ok_or cur.stats (codes "no memory stats.stats")
    system ← ok_or cur.system_cpu_usage (codes "no cpu_stats.system_cpu_usage")
    prev_system ← ok_or prev.system_cpu_usage (codes "no cpu_stats.system_cpu_usage")
    ok (record {
      backend_id = backend_id;
      cpu_use_percent = hundred_times (
          div (of_u64 (sub_u64 cur.total_usage prev.total_usage))
            (sub (of_u64 system) (of_u64 prev_system)));
      mem_use_percent =
          hundred_times (
            div (of_u64 (sub_u64 mem_naive_usage (cache_memory mem_stats))) (of_u64 mem_available));
    })
