-- ===== src/Node/Service/Tests.antt =====
-- The start of a node at a concrete configuration.
use oracle_pallet.Prelude.{◌≡◌, true, false, List, [], ◌∷◌, ◌++◌, map, ◌⊎◌}
use oracle_pallet.Result.{is_ok}
use oracle_pallet.Node.Service.Full.{new_full}
use oracle_pallet.Node.Service.Plan.{Step, step, network_start, preparation}
use oracle_pallet.Node.Service.Started.{new_full_starts}
use oracle_pallet.Node.Service.Mock.{library, config}

new_full_starts_example :
    ((is_ok (new_full library config []).0 ≡ true)
      × (map step (new_full library config []).1
          ≡ preparation library config ++ network_start ∷ []))
    ⊎ ((is_ok (new_full library config []).0 ≡ false)
        × ((rest : List Step) × (preparation library config
              ≡ map step (new_full library config []).1 ++ rest)))
new_full_starts_example = new_full_starts library config
