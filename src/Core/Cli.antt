-- ===== src/Core/Cli.antt =====
-- core/src/cli.rs: the configuration of a process, from a file and the environment. The parsing of
-- arguments is of `clap`, and `build` is what `config` reads from its sources.
use spawner.Prelude.{Option, Bool, true, false}
use spawner.Prelude.Result.{Result, ok, Outcome, panicked, returned, then_outcome}
use spawner.Prelude.Text.{Text}

pub record CliArgs : Type 0 where
  pub dump_config : Bool
  pub config_file : Option Text

-- A configuration that is printed is followed by `todo!`.
unfoldable pub dump : {C : Type 0} → Bool → (C → Result Text Text) → C → Outcome Text C
dump true to_string_pretty config =
    then_outcome (returned (to_string_pretty config)) (λ _. panicked)
dump false to_string_pretty config = returned (ok config)

-- `build` has the configuration file, if there is one, and the variables of the environment that
-- begin with PLANE.
unfoldable pub init_cli :
    {C : Type 0} → (Option Text → Result Text C) → (C → Result Text Text) → CliArgs → Outcome Text C
init_cli build to_string_pretty args =
    then_outcome (returned (build args.config_file)) (dump args.dump_config to_string_pretty)
