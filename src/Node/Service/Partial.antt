-- ===== src/Node/Service/Partial.antt =====
-- `new_partial` and `new_full` of node/src/service.rs.
use oracle_pallet.Prelude.{ℕ, not, Option, none, some, if◌then◌else◌}
use oracle_pallet.Result.{Result, ok, err, pure, map_ok, ◌>>=◌, ◌>>◌}
use oracle_pallet.Text.{codes}
use oracle_pallet.Node.Service.{
  Parts, Configuration, PartialComponents, Library, Run, started, attempt, spawned,
}

-- `Option::map`
abbrev pub option_map : {A B : Type 0} → (A → B) → Option A → Option B
option_map f none = none
option_map f (some a) = some (f a)

-- `Option::transpose`
abbrev pub transpose : {E A : Type 0} → Option (Result E A) → Result E (Option A)
transpose none = ok none
transpose (some (ok a)) = ok (some a)
transpose (some (err e)) = err e

module _ {P : Parts} (L : Library P) where
  -- `filter(|x| !x.is_empty())`
  unfoldable pub used_endpoints : Option P.Endpoints → Option P.Endpoints
  used_endpoints none = none
  used_endpoints (some x) = if not (L.is_empty x) then some x else none

  unfoldable pub new_telemetry :
      Option P.Endpoints → Result P.Error (Option (P.TelemetryWorker × P.Telemetry))
  unfolding used_endpoints
  new_telemetry endpoints = transpose (
      option_map (λ e. map_ok (λ worker. (worker, L.new_telemetry worker e)) (L.new_worker 16))
        (used_endpoints endpoints))

  unfoldable pub heap_pages : Option ℕ → P.HeapAllocStrategy
  heap_pages none = L.default_heap_alloc_strategy
  heap_pages (some h) = L.static_heap h

  unfoldable pub executor : Configuration P → P.Executor
  unfolding heap_pages
  executor config =
      let heap = heap_pages config.default_heap_pages in
      L.wasm_executor config.wasm_method heap heap config.max_runtime_instances
        config.runtime_cache_size

  -- The telemetry worker runs as a task.
  unfoldable pub run_worker : Option (P.TelemetryWorker × P.Telemetry) → Run P (Option P.Telemetry)
  run_worker none = pure none
  run_worker (some (worker, telemetry)) = do
    started P (spawned (codes "telemetry"))
    pure (some telemetry)

  -- What `sc_service::new_full_parts` answers.
  abbrev pub FullParts : Type 0
  FullParts = P.Client × P.Backend × P.KeystoreContainer × P.TaskManager

  -- The consensus parts, and all parts put together.
  unfoldable pub assemble :
      Configuration P → FullParts → Option P.Telemetry → Run P (PartialComponents P)
  assemble config (client, backend, keystore_container, task_manager) telemetry = do
    let select_chain = L.longest_chain backend
    let transaction_pool =
        L.new_full_pool config.transaction_pool (L.is_authority config.role)
          config.prometheus_registry task_manager client
    (block_import, grandpa_link) ←
        attempt P (L.grandpa_block_import client select_chain (option_map L.handle telemetry))
    slot_duration ← attempt P (L.slot_duration client)
    import_queue ← attempt P (
        L.import_queue block_import client slot_duration config.prometheus_registry
          (option_map L.handle telemetry))
    pure (record {
      client = client;
      backend = backend;
      task_manager = task_manager;
      import_queue = import_queue;
      keystore_container = keystore_container;
      select_chain = select_chain;
      transaction_pool = transaction_pool;
      block_import = block_import;
      grandpa_link = grandpa_link;
      telemetry = telemetry;
    })

  abbrev pub full_parts :
      Configuration P → Option (P.TelemetryWorker × P.Telemetry) → Result P.Error FullParts
  full_parts config telemetry =
      L.new_full_parts config
        (option_map (λ (t : P.TelemetryWorker × P.Telemetry). L.handle t.1) telemetry)
        (executor config)

  unfoldable pub new_partial : Configuration P → Run P (PartialComponents P)
  unfolding new_telemetry executor run_worker assemble
  new_partial config = do
    telemetry ← attempt P (new_telemetry config.telemetry_endpoints)
    parts ← attempt P (full_parts config telemetry)
    telemetry ← run_worker telemetry
    assemble config parts telemetry
