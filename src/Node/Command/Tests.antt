-- ===== src/Node/Command/Tests.antt =====
-- A subcommand at concrete libraries.
use oracle_pallet.Prelude.{ℕ, true, false, []}
use oracle_pallet.Result.{ok}
use oracle_pallet.Node.Service.Mock.{numbers, library, config}
use oracle_pallet.Node.Command.{Subcommand, BenchmarkCmd, Commands, Features, run_subcommand}
use oracle_pallet.Node.Command.Performs.{Performs}
use oracle_pallet.Node.Command.Jobs.{run_subcommand-Performs}

-- Arguments, data and faults are numbers, and every job is done.
abbrev commands : Commands numbers
commands = record {
  Args = ℕ;
  Data = ℕ;
  Fault = ℕ;
  create_runner = λ args. ok config;
  inherent_benchmark_data = ok 1;
  new_task_manager = λ c. ok tt;
  perform = λ job. ok tt;
}

abbrev features : Features
features = record { runtime_benchmarks = true; try_runtime = false }

run_subcommand-Performs_example :
    Performs library commands (Subcommand.benchmark 1 (BenchmarkCmd.overhead 2)) (
      run_subcommand library commands features
        (Subcommand.benchmark 1 (BenchmarkCmd.overhead 2))
        [])
run_subcommand-Performs_example =
    run_subcommand-Performs library commands features
      (Subcommand.benchmark 1 (BenchmarkCmd.overhead 2))
