-- ===== src/Node/Service/Plan.antt =====
-- What a configuration asks a node to start, in the order of node/src/service.rs.
use oracle_pallet.Prelude.{
  Bool, not, Option, none, some, List, [], ◌∷◌, ◌++◌, if◌then◌else◌, is_some,
}
use oracle_pallet.Text.{codes}
use oracle_pallet.Pallet.Types.{Bytes}
use oracle_pallet.Node.Service.{
  Parts, Configuration, Action, Library, spawned, spawned_essential, built_network,
  built_offchain_workers, spawned_tasks, authors, votes, started_network,
}
use oracle_pallet.Node.Service.Partial.{used_endpoints}

-- What is started, without the parts that it is made of. The authoring may be forced, and the voter
-- has a keystore or not.
pub data Step : Type 0 where
  task : Bytes → Step
  essential_task : Bytes → Option Bytes → Step
  network : Step
  offchain_workers : Step
  tasks : Step
  authoring : Bool → Step
  voting : Bool → Step
  network_start : Step

abbrev pub step : {P : Parts} → Action P → Step
step (spawned name) = task name
step (spawned_essential name group) = essential_task name group
step (built_network params) = network
step (built_offchain_workers config net) = offchain_workers
step (spawned_tasks params) = tasks
step (authors params) = authoring params.force_authoring
step (votes params) = voting (is_some params.config.keystore)
step (started_network starter) = network_start

abbrev pub when : Bool → List Step → List Step
when b steps = if b then steps else []

module _ {P : Parts} (L : Library P) (config : Configuration P) where
  abbrev pub telemetry_plan : Bool → List Step
  telemetry_plan b = when b (task (codes "telemetry") ∷ [])

  abbrev pub offchain_plan : List Step
  offchain_plan = when config.offchain_worker_enabled (offchain_workers ∷ [])

  abbrev pub authoring_plan : List Step
  authoring_plan = when (L.is_authority config.role) (
      authoring config.force_authoring
      ∷ essential_task (codes "aura") (some (codes "block-authoring"))
      ∷ [])

  abbrev pub voting_plan : Bool → List Step
  voting_plan given =
      when (not config.disable_grandpa)
        (voting given ∷ essential_task (codes "grandpa-voter") none ∷ [])

  -- What the configuration asks for up to the start of the network: the telemetry if there are
  -- endpoints, the network, the off-chain workers if they are enabled, the tasks of the service,
  -- the authoring of blocks if the node is an authority, and the finality voter unless it is
  -- disabled, with a keystore if the node is an authority.
  abbrev pub preparation : List Step
  preparation =
      telemetry_plan (is_some (used_endpoints L config.telemetry_endpoints))
      ++ network
        ∷ (offchain_plan ++ tasks ∷ (authoring_plan ++ voting_plan (L.is_authority config.role)))
