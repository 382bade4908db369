-- ===== src/Node/Service/Mock.antt =====
-- Libraries whose parts are numbers, in the place of the client libraries, for an authority.
use oracle_pallet.Prelude.{ℕ, ◌+◌, Bool, true, false, some, none, []}
use oracle_pallet.Result.{ok, err}
use oracle_pallet.Text.{codes}
use oracle_pallet.Node.Rpc.Full.{RpcLibrary}
use oracle_pallet.Node.Service.{Parts, Configuration, Library}

-- A module is the number of its methods.
abbrev counted_rpc : RpcLibrary ℕ ℕ
counted_rpc = record {
  DenyUnsafe = Bool;
  RpcModule = ℕ;
  RegisterError = ℕ;
  new = 0;
  merge = λ a b. ok (a + b);
  system = λ c p d. 1;
  transaction_payment = λ c. 4;
  dia_oracle = λ c. 2;
}

abbrev pub numbers : Parts
numbers = record {
  Endpoints = ℕ;
  TelemetryWorker = ℕ;
  Telemetry = ℕ;
  TelemetryHandle = ℕ;
  WasmMethod = ℕ;
  HeapAllocStrategy = ℕ;
  Executor = ℕ;
  Role = Bool;
  ChainSpec = ℕ;
  PoolOptions = ℕ;
  Registry = ℕ;
  Client = ℕ;
  Backend = ℕ;
  KeystoreContainer = ℕ;
  Keystore = ℕ;
  TaskManager = ℕ;
  SelectChain = ℕ;
  Pool = ℕ;
  rpc = counted_rpc;
  BlockImport = ℕ;
  LinkHalf = ℕ;
  SharedAuthoritySet = ℕ;
  SlotDuration = ℕ;
  ImportQueue = ℕ;
  Hash = ℕ;
  ProtocolName = ℕ;
  PeersSet = ℕ;
  Database = ℕ;
  WarpSync = ℕ;
  Network = ℕ;
  SystemRpcTx = ℕ;
  TxHandlerController = ℕ;
  NetworkStarter = ℕ;
  SyncService = ℕ;
  Proposer = ℕ;
  VotingRule = ℕ;
  Aura = ℕ;
  Voter = ℕ;
  Error = ℕ;
}

-- All calls succeed, but the one that starts the authoring.
abbrev pub library : Library numbers
library = record {
  is_empty = λ e. false;
  new_worker = λ n. ok n;
  new_telemetry = λ w e. e;
  handle = λ t. t;
  default_heap_alloc_strategy = 0;
  static_heap = λ h. h;
  wasm_executor = λ m h h' i c. h;
  new_full_parts = λ config t e. ok (1, 2, 3, 4);
  longest_chain = λ b. b;
  is_authority = λ r. r;
  new_full_pool = λ o a r t c. o;
  grandpa_block_import = λ c s t. ok (5, 6);
  slot_duration = λ c. ok 7;
  import_queue = λ b c s r t. ok 8;
  block_hash = λ c n. ok (some 9);
  protocol_standard_name = λ h s. h;
  grandpa_peers_set_config = λ n. n;
  shared_authority_set = λ l. l;
  warp_provider = λ b s. s;
  build_network = λ p. ok (record {
    network = 10;
    system_rpc_tx = 11;
    tx_handler_controller = 12;
    network_starter = 13;
    sync_service = 14;
  });
  keystore = λ k. k;
  rpc_error = λ e. e;
  spawn_tasks = λ p. ok tt;
  proposer_factory = λ t c p r h. c;
  start_aura = λ p. err 15;
  voting_rule = 16;
  run_grandpa_voter = λ p. ok 17;
}

abbrev pub config : Configuration numbers
config = record {
  telemetry_endpoints = some 1;
  default_heap_pages = none;
  wasm_method = 0;
  max_runtime_instances = 8;
  runtime_cache_size = 2;
  transaction_pool = 0;
  role = true;
  prometheus_registry = none;
  chain_spec = 0;
  network = record { extra_sets = []; node_name = codes "node" };
  database = 0;
  offchain_worker_enabled = true;
  force_authoring = false;
  disable_grandpa = false;
}
