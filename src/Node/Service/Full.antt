-- ===== src/Node/Service/Full.antt =====
-- `new_full` of node/src/service.rs: the service of a full node.
use oracle_pallet.Prelude.{false, not, Option, none, some, [], ◌∷◌, ◌++◌, if◌then◌else◌}
use oracle_pallet.Result.{Result, ok, err, map_err, pure, lift, ◌>>=◌, ◌>>◌}
use oracle_pallet.Text.{codes}
use oracle_pallet.Node.Service.{
  Parts, Configuration, PartialComponents, StartAuraParams, GrandpaParams, BuildNetworkParams,
  BuiltNetwork, SpawnTasksParams, Failure, Library, Run, started, attempt, spawned_essential,
  built_network, built_offchain_workers, spawned_tasks, authors, votes, started_network, panicked,
}
use oracle_pallet.Node.Rpc.Full.{FullDeps, create_full}
use oracle_pallet.Node.Service.Partial.{option_map, new_partial}

module _ {P : Parts} (L : Library P) where
  -- `.ok().flatten().expect("Genesis block exists; qed")`
  unfoldable pub expect_genesis : Result P.Error (Option P.Hash) → Result (Failure P) P.Hash
  expect_genesis (ok (some h)) = ok h
  expect_genesis (ok none) = err panicked
  expect_genesis (err e) = err panicked

  -- `config.network.extra_sets.push(..)`
  abbrev pub with_peers_set : Configuration P → P.PeersSet → Configuration P
  with_peers_set config set = record config {
    network = record config.network { extra_sets = config.network.extra_sets ++ (set ∷ []) };
  }

  abbrev pub telemetry_handle : PartialComponents P → Option P.TelemetryHandle
  telemetry_handle c = option_map L.handle c.telemetry

  abbrev pub aura_params :
      Configuration P → PartialComponents P → BuiltNetwork P → P.SlotDuration → StartAuraParams P
  aura_params config c net slot_duration = record {
    slot_duration = slot_duration;
    client = c.client;
    select_chain = c.select_chain;
    block_import = c.block_import;
    proposer_factory =
        L.proposer_factory c.task_manager c.client c.transaction_pool config.prometheus_registry
          (telemetry_handle c);
    force_authoring = config.force_authoring;
    keystore = L.keystore c.keystore_container;
    sync_oracle = net.sync_service;
    block_proposal_slot_portion = (2, 3);
    telemetry = telemetry_handle c;
  }

  -- The authoring of blocks, if the node is an authority.
  unfoldable pub author : Configuration P → PartialComponents P → BuiltNetwork P → Run P (Unit {0})
  author config c net =
      if L.is_authority config.role
      then (do
        slot_duration ← attempt P (L.slot_duration c.client)
        aura ← attempt P (L.start_aura (aura_params config c net slot_duration))
        started P (authors (aura_params config c net slot_duration))
        started P (spawned_essential (codes "aura") (some (codes "block-authoring"))))
      else pure tt

  abbrev pub grandpa_params :
      Configuration P → PartialComponents P → BuiltNetwork P → P.ProtocolName → GrandpaParams P
  grandpa_params config c net protocol_name = record {
    config = record {
      gossip_duration = 333;
      justification_period = 512;
      name = some config.network.node_name;
      observer_enabled = false;
      keystore =
          if L.is_authority config.role then some (L.keystore c.keystore_container) else none;
      local_role = config.role;
      telemetry = telemetry_handle c;
      protocol_name = protocol_name;
    };
    link = c.grandpa_link;
    network = net.network;
    sync = net.sync_service;
    voting_rule = L.voting_rule;
    prometheus_registry = config.prometheus_registry;
    telemetry = telemetry_handle c;
  }

  -- The voter of finality, unless it is disabled.
  unfoldable pub vote :
      Configuration P → PartialComponents P → BuiltNetwork P → P.ProtocolName → Run P (Unit {0})
  vote config c net protocol_name =
      if not config.disable_grandpa
      then (do
        voter ← attempt P (L.run_grandpa_voter (grandpa_params config c net protocol_name))
        started P (votes (grandpa_params config c net protocol_name))
        started P (spawned_essential (codes "grandpa-voter") none))
      else pure tt

  abbrev pub network_params : Configuration P → PartialComponents P → BuildNetworkParams P
  network_params config c = record {
    config = config;
    client = c.client;
    transaction_pool = c.transaction_pool;
    import_queue = c.import_queue;
    warp_sync_params = some (L.warp_provider c.backend (L.shared_authority_set c.grandpa_link));
  }

  -- What makes the RPC of a connection; `map_err(Into::into)`.
  unfoldable pub rpc_extensions_builder :
      PartialComponents P → P.rpc.DenyUnsafe → Result P.Error P.rpc.RpcModule
  unfolding create_full
  rpc_extensions_builder c deny_unsafe =
      let deps : FullDeps P.rpc = record {
        client = c.client;
        pool = c.transaction_pool;
        deny_unsafe = deny_unsafe;
      } in
      map_err L.rpc_error (create_full P.rpc deps)

  abbrev pub tasks_params :
      Configuration P → PartialComponents P → BuiltNetwork P → SpawnTasksParams P
  tasks_params config c net = record {
    network = net.network;
    client = c.client;
    keystore = L.keystore c.keystore_container;
    transaction_pool = c.transaction_pool;
    rpc_builder = rpc_extensions_builder c;
    backend = c.backend;
    system_rpc_tx = net.system_rpc_tx;
    tx_handler_controller = net.tx_handler_controller;
    config = config;
    telemetry = c.telemetry;
    sync_service = net.sync_service;
  }

  -- The off-chain workers, if they are enabled.
  unfoldable pub offchain : Configuration P → BuiltNetwork P → Run P (Unit {0})
  offchain config net =
      if config.offchain_worker_enabled
      then started P (built_offchain_workers config net.network)
      else pure tt

  -- What follows the network, up to its start.
  unfoldable pub run_on :
      Configuration P → PartialComponents P → P.ProtocolName → BuiltNetwork P → Run P (Unit {0})
  unfolding offchain author vote
  run_on config c protocol_name net = do
    offchain config net
    attempt P (L.spawn_tasks (tasks_params config c net))
    started P (spawned_tasks (tasks_params config c net))
    author config c net
    vote config c net protocol_name

  unfoldable pub connect :
      Configuration P
      → PartialComponents P
      → P.ProtocolName
      → Run P (PartialComponents P × BuiltNetwork P)
  unfolding run_on
  connect config c protocol_name = do
    net ← attempt P (L.build_network (network_params config c))
    started P (built_network (network_params config c))
    run_on config c protocol_name net
    pure (c, net)

  -- Everything before the start of the network.
  unfoldable pub prepare : Configuration P → Run P (PartialComponents P × BuiltNetwork P)
  unfolding new_partial expect_genesis connect
  prepare config = do
    c ← new_partial L config
    genesis ← lift (expect_genesis (L.block_hash c.client 0))
    let protocol_name = L.protocol_standard_name genesis config.chain_spec
    connect (with_peers_set config (L.grandpa_peers_set_config protocol_name)) c protocol_name

  unfoldable pub new_full : Configuration P → Run P P.TaskManager
  unfolding prepare
  new_full config = do
    (c, net) ← prepare config
    started P (started_network net.network_starter)
    pure c.task_manager
