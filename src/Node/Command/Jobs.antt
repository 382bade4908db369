-- ===== src/Node/Command/Jobs.antt =====
-- What each subcommand performs, and what it starts beside.
use oracle_pallet.Prelude.{refl, [], ◌∷◌, inl, inr, Bool-cases}
use oracle_pallet.Result.{◌>>◌}
use oracle_pallet.Node.Service.{Parts, Configuration, Library}
use oracle_pallet.Node.Command.{
  BenchmarkCmd, Subcommand, Builder, Job, Commands, Features, try, perform, run_benchmark,
  run_subcommand,
}
use oracle_pallet.Node.Command.Performs.{
  Performs, Performs-job, Performs-try, Performs-opened, Performs-measured, Performs-configured,
  Performs-command,
}

module _ {P : Parts} (L : Library P) (M : Commands P) where
  Performs-benchmark :
      (features : Features) (config : Configuration P) (outer : M.Args) (cmd : BenchmarkCmd M.Args)
      → Performs L M (Subcommand.benchmark outer cmd) (run_benchmark L M features config cmd [])
  unfolding run_benchmark
  Performs-benchmark features config outer (BenchmarkCmd.pallet args) =
      elim (Bool-cases features.runtime_benchmarks) [
        | inl on ↦ rw on (Performs-job L M _ outer (Job.measure_pallet args config) [] refl tt)
        | inr off ↦ rw off ([], tt, inl (refl, refl))
      ]
  Performs-benchmark features config outer (BenchmarkCmd.block args) =
      Performs-opened L M (Subcommand.benchmark outer (BenchmarkCmd.block args)) config outer
        (λ c. Job.measure_block args c.client) (λ c. refl)
  Performs-benchmark features config outer (BenchmarkCmd.storage args) =
      elim (Bool-cases features.runtime_benchmarks) [
        | inl on ↦ rw on (
            Performs-opened L M (Subcommand.benchmark outer (BenchmarkCmd.storage args)) config
              outer (λ c. Job.measure_storage args config c.client c.backend) (λ c. refl))
        | inr off ↦ rw off ([], tt, inl (refl, refl))
      ]
  Performs-benchmark features config outer (BenchmarkCmd.overhead args) =
      Performs-measured L M (Subcommand.benchmark outer (BenchmarkCmd.overhead args)) config outer
        (λ c d. Job.measure_overhead args config c.client d Builder.remark) (λ c d. refl)
  Performs-benchmark features config outer (BenchmarkCmd.extrinsic args) =
      Performs-measured L M (Subcommand.benchmark outer (BenchmarkCmd.extrinsic args)) config outer
        (λ c d.
          Job.measure_extrinsic args c.client d (Builder.remark ∷ Builder.transfer_keep_alive ∷ []))
        (λ c d. refl)
  Performs-benchmark features config outer (BenchmarkCmd.machine args) =
      Performs-job L M _ outer (Job.measure_machine args config) [] refl tt

  Performs-try_runtime :
      (features : Features) (args : M.Args)
      → Performs L M
          (Subcommand.try_runtime args)
          (run_subcommand L M features (Subcommand.try_runtime args) [])
  unfolding run_subcommand
  Performs-try_runtime features args = elim (Bool-cases features.try_runtime) [
    | inl on ↦ rw on (
        Performs-try L M (Subcommand.try_runtime args) (M.create_runner args)
          (λ config. try L M (M.new_task_manager config) >> perform L M (Job.try_on args config)) []
          tt
          (λ config.
            Performs-try L M (Subcommand.try_runtime args) (M.new_task_manager config)
              (λ u. perform L M (Job.try_on args config)) [] tt
              (λ u. Performs-job L M _ args (Job.try_on args config) [] refl tt)))
    | inr off ↦ rw off ([], tt, inl (refl, refl))
  ]

  -- Each subcommand, with its feature enabled or not: either it fails, or it performs exactly one
  -- job, the one that it asks for, and ends as this job does. Beside, it starts at most the telemetry
  -- task: no network, no authoring and no voting.
  pub run_subcommand-Performs :
      (features : Features) (sub : Subcommand M.Args)
      → Performs L M sub (run_subcommand L M features sub [])
  unfolding run_subcommand
  run_subcommand-Performs features (Subcommand.key args) =
      Performs-job L M _ args (Job.manage_keys args) [] refl tt
  run_subcommand-Performs features (Subcommand.build_spec args) =
      Performs-configured L M (Subcommand.build_spec args) args
        (λ config. Job.build args config.chain_spec config.network) (λ config. refl)
  run_subcommand-Performs features (Subcommand.check_block args) =
      Performs-command L M (Subcommand.check_block args) args
        (λ config c. Job.check args c.client c.import_queue) (λ config c. refl)
  run_subcommand-Performs features (Subcommand.export_blocks args) =
      Performs-command L M (Subcommand.export_blocks args) args
        (λ config c. Job.export args c.client config.database) (λ config c. refl)
  run_subcommand-Performs features (Subcommand.export_state args) =
      Performs-command L M (Subcommand.export_state args) args
        (λ config c. Job.export_at args c.client config.chain_spec) (λ config c. refl)
  run_subcommand-Performs features (Subcommand.import_blocks args) =
      Performs-command L M (Subcommand.import_blocks args) args
        (λ config c. Job.import args c.client c.import_queue) (λ config c. refl)
  run_subcommand-Performs features (Subcommand.purge_chain args) =
      Performs-configured L M (Subcommand.purge_chain args) args
        (λ config. Job.purge args config.database) (λ config. refl)
  run_subcommand-Performs features (Subcommand.revert args) =
      Performs-command L M (Subcommand.revert args) args
        (λ config c. Job.revert_to args c.client c.backend) (λ config c. refl)
  run_subcommand-Performs features (Subcommand.benchmark args cmd) =
      Performs-try L M (Subcommand.benchmark args cmd) (M.create_runner args)
        (λ config. run_benchmark L M features config cmd) [] tt
        (λ config. Performs-benchmark features config args cmd)
  run_subcommand-Performs features (Subcommand.try_runtime args) =
      Performs-try_runtime features args
  run_subcommand-Performs features (Subcommand.chain_info args) =
      Performs-configured L M (Subcommand.chain_info args) args
        (λ config. Job.show_info args config) (λ config. refl)
