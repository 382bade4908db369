-- ===== src/Node/Service/Started.antt =====
-- What a full node has started, beside the plan that is read off its configuration.
use mathlib.Core.List.{append-nil}
use mathlib.Core.Path.{subst}
use oracle_pallet.Prelude.{
  ◌≡◌, ap, ◌∙◌, Bool, true, false, not, Option, none, some, List, [], ◌∷◌, ◌++◌, map, if◌then◌else◌,
  is_some, ◌⊎◌, arith,
}
use oracle_pallet.Result.{ok, is_ok, pure, lift, ◌>>=◌}
use oracle_pallet.Text.{codes}
use oracle_pallet.Node.Service.{
  Parts, Configuration, PartialComponents, BuiltNetwork, Library, attempt, spawned, built_network,
  spawned_tasks, authors, votes,
}
use oracle_pallet.Node.Service.Partial.{
  used_endpoints, new_telemetry, run_worker, new_partial, option_map, full_parts, FullParts,
  assemble,
}
use oracle_pallet.Node.Service.Full.{
  run_on, connect, author, aura_params, grandpa_params, offchain, network_params, tasks_params,
  with_peers_set, prepare, expect_genesis, vote, new_full,
}
use oracle_pallet.Node.Service.Plan.{
  Step, step, task, essential_task, network, offchain_workers, tasks, authoring, network_start,
  when, telemetry_plan, offchain_plan, authoring_plan, voting_plan, preparation,
}
use oracle_pallet.Node.Service.Follows.{
  Follows, Follows-pure, Follows-started, Follows-bind, Follows-lift, Follows-action, Follows-when,
  Follows-after, Follows-eq, is_some-if, started_or_not,
}

module _ {P : Parts} (L : Library P) (config : Configuration P) where
  author-Follows :
      (c : PartialComponents P) (net : BuiltNetwork P)
      → Follows (author L config c net) (
          when (L.is_authority config.role) (
            authoring config.force_authoring
            ∷ essential_task (codes "aura") (some (codes "block-authoring"))
            ∷ []))
  unfolding author
  author-Follows c net = Follows-when (L.is_authority config.role) _ _ (
      Follows-after (L.slot_duration c.client) _ _ (λ slot_duration made.
        Follows-after (L.start_aura (aura_params L config c net slot_duration)) _ _ (λ aura made'.
          Follows-started (authors (aura_params L config c net slot_duration)) _ _
            (Follows-action _))))

  abbrev keystore_given : PartialComponents P → Bool
  keystore_given c =
      is_some (if L.is_authority config.role then some (L.keystore c.keystore_container) else none)

  vote-Follows_keystore :
      (c : PartialComponents P) (net : BuiltNetwork P) (name : P.ProtocolName)
      → Follows (vote L config c net name) ((voting_plan L config) (keystore_given c))
  unfolding vote
  vote-Follows_keystore c net name = Follows-when (not config.disable_grandpa) _ _ (
      Follows-after (L.run_grandpa_voter (grandpa_params L config c net name)) _ _ (λ voter made.
        Follows-started (votes (grandpa_params L config c net name)) _ _ (Follows-action _)))

  vote-Follows :
      (c : PartialComponents P) (net : BuiltNetwork P) (name : P.ProtocolName)
      → Follows (vote L config c net name) ((voting_plan L config) (L.is_authority config.role))
  vote-Follows c net name =
      subst (λ b. Follows (vote L config c net name) ((voting_plan L config) b))
        (is_some-if (L.is_authority config.role) (L.keystore c.keystore_container))
        (vote-Follows_keystore c net name)

  offchain-Follows :
      (net : BuiltNetwork P)
      → Follows
          (offchain L config net)
          (when config.offchain_worker_enabled (offchain_workers ∷ []))
  unfolding offchain
  offchain-Follows net = Follows-when config.offchain_worker_enabled _ _ (Follows-action _)

  run_worker-Follows :
      (t : Option (P.TelemetryWorker × P.Telemetry))
      → Follows (run_worker L t) (when (is_some t) (task (codes "telemetry") ∷ []))
  unfolding run_worker
  run_worker-Follows none = Follows-pure none
  run_worker-Follows (some (worker, telemetry)) =
      Follows-started (spawned (codes "telemetry")) _ [] (Follows-pure (some telemetry))

  -- There is a telemetry if the configuration names endpoints.
  new_telemetry-is_some :
      (endpoints : Option P.Endpoints) (t : Option (P.TelemetryWorker × P.Telemetry))
      → new_telemetry L endpoints ≡ ok t
      → is_some t ≡ is_some (used_endpoints L endpoints)
  unfolding new_telemetry used_endpoints
  new_telemetry-is_some endpoints t h = ground arith

  assemble-Follows :
      (parts : FullParts L) (telemetry : Option P.Telemetry)
      → Follows (assemble L config parts telemetry) []
  unfolding assemble
  assemble-Follows parts telemetry =
      Follows-after
        (L.grandpa_block_import parts.0 (L.longest_chain parts.1) (option_map L.handle telemetry)) _
        []
        (λ grandpa h₂. Follows-after (L.slot_duration parts.0) _ [] (λ slot h₃.
          Follows-after
            (L.import_queue grandpa.0 parts.0 slot config.prometheus_registry
              (option_map L.handle telemetry))
            _ [] (λ queue h₄. Follows-pure _)))

  pub new_partial-Follows :
      Follows
        (new_partial L config)
        ((telemetry_plan L config) (is_some (used_endpoints L config.telemetry_endpoints)))
  unfolding new_partial
  new_partial-Follows =
      Follows-after (new_telemetry L config.telemetry_endpoints)
        (λ t. attempt P (full_parts L config t) >>= λ parts.
          run_worker L t >>= λ telemetry. assemble L config parts telemetry)
        _
        (λ t made.
          Follows-after (full_parts L config t)
            (λ parts. run_worker L t >>= λ telemetry. assemble L config parts telemetry) _
            (λ parts h₁.
              Follows-eq _ _ _
                (append-nil _
                  ∙ ap (telemetry_plan L config)
                      (new_telemetry-is_some config.telemetry_endpoints t made))
                (Follows-bind (run_worker L t) (assemble L config parts)
                  ((telemetry_plan L config) (is_some t)) [] (run_worker-Follows t)
                  (λ telemetry log good. assemble-Follows parts telemetry))))

  run_on-Follows :
      (c : PartialComponents P) (name : P.ProtocolName) (net : BuiltNetwork P)
      → Follows (run_on L config c name net) (
          (offchain_plan L config)
          ++ tasks
            ∷ ((authoring_plan L config) ++ (voting_plan L config) (L.is_authority config.role)))
  unfolding run_on
  run_on-Follows c name net =
      Follows-bind (offchain L config net) (λ u. _) (offchain_plan L config) _
        (offchain-Follows net)
        (λ u log h₁.
          Follows-after (L.spawn_tasks (tasks_params L config c net)) (λ u. _) _
            (λ u h₂. Follows-started (spawned_tasks (tasks_params L config c net)) _ _ (
              Follows-bind (author L config c net) (λ u. vote L config c net name)
                (authoring_plan L config) _ (author-Follows c net)
                (λ u log h₃. vote-Follows c net name))))

  connect-Follows :
      (c : PartialComponents P) (name : P.ProtocolName)
      → Follows (connect L config c name) (
          network
          ∷ ((offchain_plan L config)
              ++ tasks
                ∷ ((authoring_plan L config)
                    ++ (voting_plan L config) (L.is_authority config.role))))
  unfolding connect
  connect-Follows c name =
      Follows-after (L.build_network (network_params L config c)) _ _ (λ net h₁.
        Follows-started (built_network (network_params L config c)) _ _ (
          Follows-eq _ _ _ (append-nil _) (
            Follows-bind (run_on L config c name net) (λ u. pure (c, net)) _ []
              (run_on-Follows c name net) (λ u log h₂. Follows-pure (c, net)))))

module _ {P : Parts} (L : Library P) (config : Configuration P) where
  prepare-Follows : Follows (prepare L config) (preparation L config)
  unfolding prepare
  prepare-Follows =
      Follows-bind (new_partial L config) (λ c. _) _ _ (new_partial-Follows L config)
        (λ c log h₁.
          Follows-bind (lift (expect_genesis L (L.block_hash c.client 0))) (λ genesis. _) [] _
            (Follows-lift _)
            (λ genesis log h₂.
              let name = L.protocol_standard_name genesis config.chain_spec in
              connect-Follows L (with_peers_set L config (L.grandpa_peers_set_config name)) c name))

  -- A node that starts has started exactly what its configuration asks for, in this order: the
  -- telemetry if there are endpoints, the network, the off-chain workers if they are enabled, the
  -- tasks of the service, the authoring of blocks if it is an authority, forced if the
  -- configuration says so, the finality voter unless it is disabled, with a keystore exactly if the
  -- node is an authority, and last the start of the network. A node that fails has started a
  -- beginning of this, without the start of the network.
  pub new_full_starts :
      ((is_ok (new_full L config []).0 ≡ true)
        × (map step (new_full L config []).1 ≡ preparation L config ++ network_start ∷ []))
      ⊎ ((is_ok (new_full L config []).0 ≡ false)
          × ((rest : List Step) × (preparation L config
                ≡ map step (new_full L config []).1 ++ rest)))
  unfolding new_full
  new_full_starts =
      started_or_not (prepare L config) (λ (c, net). net.network_starter)
        (λ (c, net). c.task_manager) (preparation L config) prepare-Follows
