-- ===== src/Node/Service.antt =====
-- node/src/service.rs: how the parts of a node are put together and started. What the client
-- libraries make is abstract, and what their calls answer is a parameter. A run leaves the list of
-- what it has started.
pub mod Partial
pub mod Full
pub mod Plan
pub mod Follows
pub mod Started
pub mod Mock
mod Tests
use oracle_pallet.Prelude.{
  ℕ, Bool, true, false, not, Option, none, some, List, [], ◌∷◌, ◌++◌, if◌then◌else◌,
}
use oracle_pallet.Result.{Result, ok, err, Exec, pure, lift, modify, map_err, ◌>>=◌, ◌>>◌}
use oracle_pallet.Text.{codes}
use oracle_pallet.Pallet.Types.{Bytes}
use oracle_pallet.Node.Rpc.Full.{RpcLibrary}

-- What the client libraries are about.
pub record Parts : Type 1 where
  pub Endpoints : Type 0
  pub TelemetryWorker : Type 0
  pub Telemetry : Type 0
  pub TelemetryHandle : Type 0
  pub WasmMethod : Type 0
  pub HeapAllocStrategy : Type 0
  pub Executor : Type 0
  pub Role : Type 0
  pub ChainSpec : Type 0
  pub PoolOptions : Type 0
  pub Registry : Type 0
  pub Client : Type 0
  pub Backend : Type 0
  pub KeystoreContainer : Type 0
  pub Keystore : Type 0
  pub TaskManager : Type 0
  pub SelectChain : Type 0
  pub Pool : Type 0
  pub rpc : RpcLibrary Client Pool
  pub BlockImport : Type 0
  pub LinkHalf : Type 0
  pub SharedAuthoritySet : Type 0
  pub SlotDuration : Type 0
  pub ImportQueue : Type 0
  pub Hash : Type 0
  pub ProtocolName : Type 0
  pub PeersSet : Type 0
  pub Database : Type 0
  pub WarpSync : Type 0
  pub Network : Type 0
  pub SystemRpcTx : Type 0
  pub TxHandlerController : Type 0
  pub NetworkStarter : Type 0
  pub SyncService : Type 0
  pub Proposer : Type 0
  pub VotingRule : Type 0
  pub Aura : Type 0
  pub Voter : Type 0
  pub Error : Type 0

-- `sc_service::config::NetworkConfiguration` and `sc_service::Configuration`: the fields that the
-- service and the commands read.
pub record NetworkConfiguration (P : Parts) : Type 0 where
  pub extra_sets : List P.PeersSet
  pub node_name : Bytes

pub record Configuration (P : Parts) : Type 0 where
  pub telemetry_endpoints : Option P.Endpoints
  pub default_heap_pages : Option ℕ
  pub wasm_method : P.WasmMethod
  pub max_runtime_instances : ℕ
  pub runtime_cache_size : ℕ
  pub transaction_pool : P.PoolOptions
  pub role : P.Role
  pub prometheus_registry : Option P.Registry
  pub chain_spec : P.ChainSpec
  pub network : NetworkConfiguration P
  pub database : P.Database
  pub offchain_worker_enabled : Bool
  pub force_authoring : Bool
  pub disable_grandpa : Bool

-- `sc_service::PartialComponents`, with its `other` field taken apart.
pub record PartialComponents (P : Parts) : Type 0 where
  pub client : P.Client
  pub backend : P.Backend
  pub task_manager : P.TaskManager
  pub import_queue : P.ImportQueue
  pub keystore_container : P.KeystoreContainer
  pub select_chain : P.SelectChain
  pub transaction_pool : P.Pool
  pub block_import : P.BlockImport
  pub grandpa_link : P.LinkHalf
  pub telemetry : Option P.Telemetry

-- `sc_consensus_aura::StartAuraParams`. `block_proposal_slot_portion` is a fraction.
pub record StartAuraParams (P : Parts) : Type 0 where
  pub slot_duration : P.SlotDuration
  pub client : P.Client
  pub select_chain : P.SelectChain
  pub block_import : P.BlockImport
  pub proposer_factory : P.Proposer
  pub force_authoring : Bool
  pub keystore : P.Keystore
  pub sync_oracle : P.SyncService
  pub block_proposal_slot_portion : ℕ × ℕ
  pub telemetry : Option P.TelemetryHandle

-- `sc_consensus_grandpa::Config` and `GrandpaParams`. `gossip_duration` is in milliseconds.
pub record GrandpaConfig (P : Parts) : Type 0 where
  pub gossip_duration : ℕ
  pub justification_period : ℕ
  pub name : Option Bytes
  pub observer_enabled : Bool
  pub keystore : Option P.Keystore
  pub local_role : P.Role
  pub telemetry : Option P.TelemetryHandle
  pub protocol_name : P.ProtocolName

pub record GrandpaParams (P : Parts) : Type 0 where
  pub config : GrandpaConfig P
  pub link : P.LinkHalf
  pub network : P.Network
  pub sync : P.SyncService
  pub voting_rule : P.VotingRule
  pub prometheus_registry : Option P.Registry
  pub telemetry : Option P.TelemetryHandle

-- `sc_service::BuildNetworkParams` and `SpawnTasksParams`
pub record BuildNetworkParams (P : Parts) : Type 0 where
  pub config : Configuration P
  pub client : P.Client
  pub transaction_pool : P.Pool
  pub import_queue : P.ImportQueue
  pub warp_sync_params : Option P.WarpSync

pub record BuiltNetwork (P : Parts) : Type 0 where
  pub network : P.Network
  pub system_rpc_tx : P.SystemRpcTx
  pub tx_handler_controller : P.TxHandlerController
  pub network_starter : P.NetworkStarter
  pub sync_service : P.SyncService

pub record SpawnTasksParams (P : Parts) : Type 0 where
  pub network : P.Network
  pub client : P.Client
  pub keystore : P.Keystore
  pub transaction_pool : P.Pool
  pub rpc_builder : P.rpc.DenyUnsafe → Result P.Error P.rpc.RpcModule
  pub backend : P.Backend
  pub system_rpc_tx : P.SystemRpcTx
  pub tx_handler_controller : P.TxHandlerController
  pub config : Configuration P
  pub telemetry : Option P.Telemetry
  pub sync_service : P.SyncService

-- What a run starts. A spawned task has a name, a group, and is essential or not.
pub data Action (P : Parts) : Type 0 where
  spawned : Bytes → Action P
  spawned_essential : Bytes → Option Bytes → Action P
  built_network : BuildNetworkParams P → Action P
  built_offchain_workers : Configuration P → P.Network → Action P
  spawned_tasks : SpawnTasksParams P → Action P
  authors : StartAuraParams P → Action P
  votes : GrandpaParams P → Action P
  started_network : P.NetworkStarter → Action P

-- An error of the libraries, or the panic of an `expect`.
pub data Failure (P : Parts) : Type 0 where
  service_error : P.Error → Failure P
  panicked : Failure P

-- The calls of the client libraries.
pub record Library (P : Parts) : Type 0 where
  pub is_empty : P.Endpoints → Bool
  pub new_worker : ℕ → Result P.Error P.TelemetryWorker
  pub new_telemetry : P.TelemetryWorker → P.Endpoints → P.Telemetry
  pub handle : P.Telemetry → P.TelemetryHandle
  pub default_heap_alloc_strategy : P.HeapAllocStrategy
  pub static_heap : ℕ → P.HeapAllocStrategy
  pub wasm_executor : P.WasmMethod → P.HeapAllocStrategy → P.HeapAllocStrategy → ℕ → ℕ → P.Executor
  pub new_full_parts :
      Configuration P
      → Option P.TelemetryHandle
      → P.Executor
      → Result P.Error (P.Client × P.Backend × P.KeystoreContainer × P.TaskManager)
  pub longest_chain : P.Backend → P.SelectChain
  pub is_authority : P.Role → Bool
  pub new_full_pool : P.PoolOptions → Bool → Option P.Registry → P.TaskManager → P.Client → P.Pool
  pub grandpa_block_import :
      P.Client
      → P.SelectChain
      → Option P.TelemetryHandle
      → Result P.Error (P.BlockImport × P.LinkHalf)
  pub slot_duration : P.Client → Result P.Error P.SlotDuration
  pub import_queue :
      P.BlockImport
      → P.Client
      → P.SlotDuration
      → Option P.Registry
      → Option P.TelemetryHandle
      → Result P.Error P.ImportQueue
  pub block_hash : P.Client → ℕ → Result P.Error (Option P.Hash)
  pub protocol_standard_name : P.Hash → P.ChainSpec → P.ProtocolName
  pub grandpa_peers_set_config : P.ProtocolName → P.PeersSet
  pub shared_authority_set : P.LinkHalf → P.SharedAuthoritySet
  pub warp_provider : P.Backend → P.SharedAuthoritySet → P.WarpSync
  pub build_network : BuildNetworkParams P → Result P.Error (BuiltNetwork P)
  pub keystore : P.KeystoreContainer → P.Keystore
  pub rpc_error : P.rpc.RegisterError → P.Error
  pub spawn_tasks : SpawnTasksParams P → Result P.Error (Unit {0})
  pub proposer_factory :
      P.TaskManager → P.Client → P.Pool → Option P.Registry → Option P.TelemetryHandle → P.Proposer
  pub start_aura : StartAuraParams P → Result P.Error P.Aura
  pub voting_rule : P.VotingRule
  pub run_grandpa_voter : GrandpaParams P → Result P.Error P.Voter

module _ (P : Parts) where
  -- A run, with what it has started.
  abbrev pub Run : Type 0 → Type 0
  Run A = Exec (List (Action P)) (Failure P) A

  abbrev pub started : Action P → Run (Unit {0})
  started a = modify (λ log. log ++ (a ∷ []))

  -- `r?`
  abbrev pub attempt : {A : Type 0} → Result P.Error A → Run A
  attempt r = lift (map_err service_error r)
