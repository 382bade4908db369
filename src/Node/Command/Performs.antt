-- ===== src/Node/Command/Performs.antt =====
-- Runs of a subcommand that perform the job that it asks for: how they are put together.
use oracle_pallet.Prelude.{
  ◌≡◌, refl, ap, ◌∙◌, sym, Bool, true, false, List, [], ◌∷◌, ◌++◌, map, ◌⊎◌, inl, inr, arith,
  is_some, All,
}
use oracle_pallet.Result.{Result, ok, err, Result-cases, Exec, is_ok, map_err, ◌>>=◌}
use oracle_pallet.Text.{codes}
use oracle_pallet.Node.Service.{Parts, Configuration, PartialComponents, Action, Failure, Library}
use oracle_pallet.Node.Service.Partial.{new_partial, used_endpoints}
use oracle_pallet.Node.Service.Plan.{Step, step, task, when}
use oracle_pallet.Node.Service.Started.{new_partial-Follows}
use oracle_pallet.Node.Command.{
  BenchmarkCmd, Subcommand, Job, Commands, CliError, Event, Running, within, try, perform,
}

-- The subcommand that asks for a job. `outer` are the arguments of the benchmark command itself.
abbrev pub asked_by : {P : Parts} {Args Data : Type 0} → Args → Job P Args Data → Subcommand Args
asked_by outer (Job.manage_keys args) = Subcommand.key args
asked_by outer (Job.build args spec net) = Subcommand.build_spec args
asked_by outer (Job.check args client queue) = Subcommand.check_block args
asked_by outer (Job.export args client database) = Subcommand.export_blocks args
asked_by outer (Job.export_at args client spec) = Subcommand.export_state args
asked_by outer (Job.import args client queue) = Subcommand.import_blocks args
asked_by outer (Job.purge args database) = Subcommand.purge_chain args
asked_by outer (Job.revert_to args client backend) = Subcommand.revert args
asked_by outer (Job.measure_pallet args config) =
    Subcommand.benchmark outer (BenchmarkCmd.pallet args)
asked_by outer (Job.measure_block args client) =
    Subcommand.benchmark outer (BenchmarkCmd.block args)
asked_by outer (Job.measure_storage args config client backend) =
    Subcommand.benchmark outer (BenchmarkCmd.storage args)
asked_by outer (Job.measure_overhead args config client data_ builder) =
    Subcommand.benchmark outer (BenchmarkCmd.overhead args)
asked_by outer (Job.measure_extrinsic args client data_ builders) =
    Subcommand.benchmark outer (BenchmarkCmd.extrinsic args)
asked_by outer (Job.measure_machine args config) =
    Subcommand.benchmark outer (BenchmarkCmd.machine args)
asked_by outer (Job.try_on args config) = Subcommand.try_runtime args
asked_by outer (Job.show_info args config) = Subcommand.chain_info args

-- Nothing but the telemetry task.
abbrev pub OnlyTelemetry : {P : Parts} → List (Action P) → Type 0
OnlyTelemetry = All (λ a. step a ≡ task (codes "telemetry"))

within_plan :
    {P : Parts} (b : Bool) (actions : List (Action P)) (after : List Step)
    → when b (task (codes "telemetry") ∷ []) ≡ map step actions ++ after
    → OnlyTelemetry actions
within_plan b [] after e = tt
within_plan false (a ∷ actions) after e = absurd (ground arith)
within_plan true (a ∷ []) after e = (ground arith, tt)
within_plan true (a ∷ a' ∷ actions) after e = absurd (ground arith)

module _ {P : Parts} (L : Library P) (M : Commands P) where
  -- A run has started nothing but the telemetry task, and then it has failed, or it has performed
  -- one job that the subcommand asks for and ends as this job does.
  abbrev pub Performs :
      Subcommand M.Args
      → Result (CliError P M.Fault) (Unit {0}) × List (Event P M.Args M.Data)
      → Type 0
  Performs sub (r, log) =
      (actions : List (Action P)) × OnlyTelemetry actions
      × (((is_ok r ≡ false) × (log ≡ map Event.did actions))
          ⊎ ((outer : M.Args) × (job : Job P M.Args M.Data) × (asked_by outer job ≡ sub)
              × (r ≡ map_err CliError.library (M.perform job))
              × (log ≡ map Event.did actions ++ Event.performed job ∷ [])))

  pub Performs-job :
      (sub : Subcommand M.Args) (outer : M.Args) (job : Job P M.Args M.Data)
      (actions : List (Action P))
      → asked_by outer job ≡ sub
      → OnlyTelemetry actions
      → Performs sub (perform L M job (map Event.did actions))
  Performs-job sub outer job actions asked only =
      (actions, only, inr (outer, job, asked, refl, refl))

  pub Performs-try :
      {A : Type 0} (sub : Subcommand M.Args) (r : Result M.Fault A) (f : A → Running L M (Unit {0}))
      (actions : List (Action P))
      → OnlyTelemetry actions
      → ((a : A) → Performs sub (f a (map Event.did actions)))
      → Performs sub ((try L M r >>= f) (map Event.did actions))
  Performs-try sub (ok a) f actions only h = h a
  Performs-try sub (err e) f actions only h = (actions, only, inl (refl, refl))

  within-then :
      (m : Exec (List (Action P)) (Failure P) (PartialComponents P))
      (k : PartialComponents P → Running L M (Unit {0})) (c : PartialComponents P)
      → (m []).0 ≡ ok c
      → (within L M m >>= k) [] ≡ k c (map Event.did (m []).1)
  within-then m k c h = ground arith

  within-fail :
      (m : Exec (List (Action P)) (Failure P) (PartialComponents P))
      (k : PartialComponents P → Running L M (Unit {0})) (x : Failure P)
      → (m []).0 ≡ err x
      → (within L M m >>= k) [] ≡ (err (CliError.service x), map Event.did (m []).1)
  within-fail m k x h = ground arith

  pub Performs-within :
      (sub : Subcommand M.Args) (config : Configuration P)
      (k : PartialComponents P → Running L M (Unit {0}))
      → ((c : PartialComponents P) (actions : List (Action P))
          → OnlyTelemetry actions
          → Performs sub (k c (map Event.did actions)))
      → Performs sub ((within L M (new_partial L config) >>= k) [])
  Performs-within sub config k h =
      let (before, after, e, p, done) = (new_partial-Follows L config).steps [] in
      let only : OnlyTelemetry (new_partial L config []).1 =
        within_plan (is_some (used_endpoints L config.telemetry_endpoints))
          (new_partial L config []).1 after (p ∙ ap (λ x. x ++ after) (sym e)) in
      elim (Result-cases (new_partial L config []).0) [
        | inl (c, made) ↦
            rw (within-then (new_partial L config) k c made) (h c (new_partial L config []).1 only)
        | inr (x, failed) ↦
            rw (within-fail (new_partial L config) k x failed)
              ((new_partial L config []).1, only, inl (refl, refl))
      ]

  -- A job on the parts that `new_partial` opens.
  pub Performs-opened :
      (sub : Subcommand M.Args) (config : Configuration P) (outer : M.Args)
      (job : PartialComponents P → Job P M.Args M.Data)
      → ((c : PartialComponents P) → asked_by outer (job c) ≡ sub)
      → Performs sub ((within L M (new_partial L config) >>= λ c. perform L M (job c)) [])
  Performs-opened sub config outer job asked =
      Performs-within sub config (λ c. perform L M (job c))
        (λ c actions only. Performs-job sub outer (job c) actions (asked c) only)

  -- The same with the inherent data of the benchmarks.
  pub Performs-measured :
      (sub : Subcommand M.Args) (config : Configuration P) (outer : M.Args)
      (job : PartialComponents P → M.Data → Job P M.Args M.Data)
      → ((c : PartialComponents P) (d : M.Data) → asked_by outer (job c d) ≡ sub)
      → Performs sub (
          (within L M (new_partial L config) >>= λ c.
          try L M M.inherent_benchmark_data >>= λ d. perform L M (job c d))
            [])
  Performs-measured sub config outer job asked =
      Performs-within sub config
        (λ c. try L M M.inherent_benchmark_data >>= λ d. perform L M (job c d))
        (λ c actions only.
          Performs-try sub M.inherent_benchmark_data (λ d. perform L M (job c d)) actions only
            (λ d. Performs-job sub outer (job c d) actions (asked c d) only))

  -- A job of a runner's configuration, with the opened parts or without.
  pub Performs-configured :
      (sub : Subcommand M.Args) (args : M.Args) (job : Configuration P → Job P M.Args M.Data)
      → ((config : Configuration P) → asked_by args (job config) ≡ sub)
      → Performs sub ((try L M (M.create_runner args) >>= λ config. perform L M (job config)) [])
  Performs-configured sub args job asked =
      Performs-try sub (M.create_runner args) (λ config. perform L M (job config)) [] tt
        (λ config. Performs-job sub args (job config) [] (asked config) tt)

  pub Performs-command :
      (sub : Subcommand M.Args) (args : M.Args)
      (job : Configuration P → PartialComponents P → Job P M.Args M.Data)
      → ((config : Configuration P) (c : PartialComponents P) → asked_by args (job config c) ≡ sub)
      → Performs sub (
          (try L M (M.create_runner args) >>= λ config.
          within L M (new_partial L config) >>= λ c. perform L M (job config c))
            [])
  Performs-command sub args job asked =
      Performs-try sub (M.create_runner args)
        (λ config. within L M (new_partial L config) >>= λ c. perform L M (job config c)) [] tt
        (λ config. Performs-opened sub config args (job config) (asked config))
