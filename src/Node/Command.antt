-- ===== src/Node/Command.antt =====
-- `run` of node/src/command.rs and the subcommands of node/src/cli.rs. What a command does with the
-- parts that it is given is the libraries', as a parameter; a run leaves the list of what it has
-- started and performed.
pub mod Performs
pub mod Jobs
mod Tests
use oracle_pallet.Prelude.{
  ℕ, Bool, true, false, not, Option, none, some, List, [], ◌∷◌, ◌++◌, map, if◌then◌else◌,
}
use oracle_pallet.Result.{Result, ok, err, Exec, pure, lift, modify, map_err, ◌>>=◌, ◌>>◌}
use oracle_pallet.Text.{codes}
use oracle_pallet.Pallet.Types.{Bytes}
use oracle_pallet.Node.Service.{
  Parts, Configuration, NetworkConfiguration, PartialComponents, Action, Failure, Library,
}
use oracle_pallet.Node.Service.Partial.{new_partial}
use oracle_pallet.Node.Service.Full.{new_full}

-- `frame_benchmarking_cli::BenchmarkCmd` and `Subcommand`, over the arguments of a command.
-- `try_runtime` has arguments only if the feature is enabled.
pub data BenchmarkCmd (Args : Type 0) : Type 0 where
  pallet block storage overhead extrinsic machine : Args → BenchmarkCmd Args

pub data Subcommand (Args : Type 0) : Type 0 where
  key : Args → Subcommand Args
  build_spec : Args → Subcommand Args
  check_block : Args → Subcommand Args
  export_blocks : Args → Subcommand Args
  export_state : Args → Subcommand Args
  import_blocks : Args → Subcommand Args
  purge_chain : Args → Subcommand Args
  revert : Args → Subcommand Args
  benchmark : Args → BenchmarkCmd Args → Subcommand Args
  try_runtime : Args → Subcommand Args
  chain_info : Args → Subcommand Args

pub record Cli (Args : Type 0) : Type 0 where
  pub subcommand : Option (Subcommand Args)
  pub run : Args

-- The extrinsics that the benchmarks can build.
pub data Builder : Type 0 where
  remark transfer_keep_alive : Builder

-- `cmd.run(..)`: a command and what it is given.
pub data Job (P : Parts) (Args Data : Type 0) : Type 0 where
  manage_keys : Args → Job P Args Data
  build : Args → P.ChainSpec → NetworkConfiguration P → Job P Args Data
  check : Args → P.Client → P.ImportQueue → Job P Args Data
  export : Args → P.Client → P.Database → Job P Args Data
  export_at : Args → P.Client → P.ChainSpec → Job P Args Data
  import : Args → P.Client → P.ImportQueue → Job P Args Data
  purge : Args → P.Database → Job P Args Data
  revert_to : Args → P.Client → P.Backend → Job P Args Data
  measure_pallet : Args → Configuration P → Job P Args Data
  measure_block : Args → P.Client → Job P Args Data
  measure_storage : Args → Configuration P → P.Client → P.Backend → Job P Args Data
  measure_overhead : Args → Configuration P → P.Client → Data → Builder → Job P Args Data
  measure_extrinsic : Args → P.Client → Data → List Builder → Job P Args Data
  measure_machine : Args → Configuration P → Job P Args Data
  try_on : Args → Configuration P → Job P Args Data
  show_info : Args → Configuration P → Job P Args Data

-- The libraries of the command line. `inherent_benchmark_data` of benchmarking.rs asks them, too.
pub record Commands (P : Parts) : Type 1 where
  pub Args : Type 0
  pub Data : Type 0
  pub Fault : Type 0
  pub create_runner : Args → Result Fault (Configuration P)
  pub inherent_benchmark_data : Result Fault Data
  pub new_task_manager : Configuration P → Result Fault (Unit {0})
  pub perform : Job P Args Data → Result Fault (Unit {0})

-- The features that the node is built with.
pub record Features : Type 0 where
  pub runtime_benchmarks : Bool
  pub try_runtime : Bool

-- `sc_cli::Error`: a text, a failure of the service, or a fault of the libraries.
pub data CliError (P : Parts) (Fault : Type 0) : Type 0 where
  input : Bytes → CliError P Fault
  service : Failure P → CliError P Fault
  library : Fault → CliError P Fault

-- What a run leaves behind.
pub data Event (P : Parts) (Args Data : Type 0) : Type 0 where
  did : Action P → Event P Args Data
  performed : Job P Args Data → Event P Args Data

abbrev no_benchmarking : Bytes
no_benchmarking =
    codes
      "Runtime benchmarking wasn't enabled when building the node. You can enable it with `--features runtime-benchmarks`."

abbrev no_storage_benchmarking : Bytes
no_storage_benchmarking =
    codes "Storage benchmarking can be enabled with `--features runtime-benchmarks`."

abbrev no_try_runtime : Bytes
no_try_runtime =
    codes
      "TryRuntime wasn't enabled when building the node. You can enable it with `--features try-runtime`."

module _ {P : Parts} (L : Library P) (M : Commands P) where
  abbrev pub Running : Type 0 → Type 0
  Running A = Exec (List (Event P M.Args M.Data)) (CliError P M.Fault) A

  -- A run of the service inside a command.
  abbrev pub within : {A : Type 0} → Exec (List (Action P)) (Failure P) A → Running A
  within m log =
      let (r, actions) = m [] in (map_err CliError.service r, log ++ map Event.did actions)

  -- `r?`
  abbrev pub try : {A : Type 0} → Result M.Fault A → Running A
  try r = lift (map_err CliError.library r)

  -- The command is performed, with this result.
  abbrev pub perform : Job P M.Args M.Data → Running (Unit {0})
  perform job = do modify (λ log. log ++ (Event.performed job ∷ [])); try (M.perform job)

  -- The benchmarks, inside `sync_run`.
  unfoldable pub run_benchmark :
      Features → Configuration P → BenchmarkCmd M.Args → Running (Unit {0})
  unfolding new_partial
  run_benchmark features config (BenchmarkCmd.pallet args) =
      if not features.runtime_benchmarks
      then lift (err (CliError.input no_benchmarking))
      else perform (Job.measure_pallet args config)
  run_benchmark features config (BenchmarkCmd.block args) = do
    c ← within (new_partial L config)
    perform (Job.measure_block args c.client)
  run_benchmark features config (BenchmarkCmd.storage args) =
      if not features.runtime_benchmarks
      then lift (err (CliError.input no_storage_benchmarking))
      else (do
        c ← within (new_partial L config)
        perform (Job.measure_storage args config c.client c.backend))
  run_benchmark features config (BenchmarkCmd.overhead args) = do
    c ← within (new_partial L config)
    inherent_data ← try M.inherent_benchmark_data
    perform (Job.measure_overhead args config c.client inherent_data Builder.remark)
  run_benchmark features config (BenchmarkCmd.extrinsic args) = do
    c ← within (new_partial L config)
    inherent_data ← try M.inherent_benchmark_data
    perform (
        Job.measure_extrinsic args c.client inherent_data
          (Builder.remark ∷ Builder.transfer_keep_alive ∷ []))
  run_benchmark features config (BenchmarkCmd.machine args) =
      perform (Job.measure_machine args config)

  unfoldable pub run_subcommand : Features → Subcommand M.Args → Running (Unit {0})
  unfolding new_partial run_benchmark
  run_subcommand features (Subcommand.key args) = perform (Job.manage_keys args)
  run_subcommand features (Subcommand.build_spec args) = do
    config ← try (M.create_runner args)
    perform (Job.build args config.chain_spec config.network)
  run_subcommand features (Subcommand.check_block args) = do
    config ← try (M.create_runner args)
    c ← within (new_partial L config)
    perform (Job.check args c.client c.import_queue)
  run_subcommand features (Subcommand.export_blocks args) = do
    config ← try (M.create_runner args)
    c ← within (new_partial L config)
    perform (Job.export args c.client config.database)
  run_subcommand features (Subcommand.export_state args) = do
    config ← try (M.create_runner args)
    c ← within (new_partial L config)
    perform (Job.export_at args c.client config.chain_spec)
  run_subcommand features (Subcommand.import_blocks args) = do
    config ← try (M.create_runner args)
    c ← within (new_partial L config)
    perform (Job.import args c.client c.import_queue)
  run_subcommand features (Subcommand.purge_chain args) = do
    config ← try (M.create_runner args)
    perform (Job.purge args config.database)
  run_subcommand features (Subcommand.revert args) = do
    config ← try (M.create_runner args)
    c ← within (new_partial L config)
    perform (Job.revert_to args c.client c.backend)
  run_subcommand features (Subcommand.benchmark args cmd) = do
    config ← try (M.create_runner args)
    run_benchmark features config cmd
  run_subcommand features (Subcommand.try_runtime args) =
      if features.try_runtime
      then (do
        config ← try (M.create_runner args)
        try (M.new_task_manager config)
        perform (Job.try_on args config))
      else lift (err (CliError.input no_try_runtime))
  run_subcommand features (Subcommand.chain_info args) = do
    config ← try (M.create_runner args)
    perform (Job.show_info args config)

  -- With no subcommand, the full node.
  unfoldable pub run : Features → Cli M.Args → Running (Unit {0})
  unfolding new_full run_subcommand
  run features cli = elim cli.subcommand [
    | some subcommand ↦ run_subcommand features subcommand
    | none ↦ (do
      config ← try (M.create_runner cli.run)
      task_manager ← within (new_full L config)
      pure tt)
  ]
