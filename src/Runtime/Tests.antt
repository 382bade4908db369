-- ===== src/Runtime/Tests.antt =====
-- Two blocks on a chain of the development specification, one authored and one imported.
use oracle_pallet.Prelude.{◌≡◌, refl, none, some, ◌*◌, List, [], ◌∷◌, inl}
use oracle_pallet.Text.{codes}
use oracle_pallet.Pallet.Types.{Call}
use oracle_pallet.Pallet.Calls.Authority.{IsGoverned}
use oracle_pallet.Pallet.Genesis.{build, empty_storage}
use oracle_pallet.Pallet.Mock.{mock, mock-IsLawful, signed}
use oracle_pallet.Node.ChainSpec.{development_spec}
use oracle_pallet.Node.Tests.{mock_keys, mock_genesis, no_file, loads_dev, makes_dev}
use oracle_pallet.Runtime.{days, slot_duration}
use oracle_pallet.Runtime.Calls.{Chain, balances, timestamp, dia_oracle_module}
use oracle_pallet.Runtime.Api.{execute_block}
use oracle_pallet.Runtime.Replays.{Replays}
use oracle_pallet.Runtime.Blocks.{run_api-Replays}
use oracle_pallet.Runtime.Executive.{ApiCall, initialize, apply, finalize, execute, run_api}
use oracle_pallet.Runtime.Governed.{run_api-IsGoverned}
use oracle_pallet.Runtime.Mock.{pallets, pallets-IsIsolated, executive, reading, executive-IsLawful}

-- A day of blocks takes 86,400 seconds.
a_day : days * slot_duration ≡ 86_400_000
a_day = refl

abbrev begun : Chain mock pallets.Rest
begun = record { rest = 0; oracle = build mock mock_genesis.dia_oracle_module (empty_storage mock) }

-- Account 7, the one that is authorized, authorizes account 5, which then deauthorizes account 7.
abbrev blocks : List (ApiCall executive)
blocks =
    initialize tt
    ∷ apply (none, timestamp 6000)
    ∷ apply (some 7, dia_oracle_module (Call.authorize_account 5))
    ∷ finalize
    ∷ execute ((some 4, balances 3) ∷ (some 5, dia_oracle_module (Call.deauthorize_account 7)) ∷ [])
    ∷ []

run_api-Replays_example :
    Replays mock
      ((Call.authorize_account 5, signed 7) ∷ (Call.deauthorize_account 7, signed 5) ∷ [])
      begun.oracle
      (run_api executive blocks begun).oracle
unfolding execute_block
run_api-Replays_example =
    run_api-Replays mock-IsLawful pallets-IsIsolated executive reading executive-IsLawful blocks
      begun (refl, (refl, (refl, (refl, tt))))

run_api-IsGoverned_example : IsGoverned mock (run_api executive blocks begun).oracle
run_api-IsGoverned_example =
    run_api-IsGoverned mock-IsLawful mock_keys pallets-IsIsolated executive reading
      executive-IsLawful (some []) no_file (codes "dev") (development_spec mock_keys [])
      mock_genesis begun blocks (inl refl) loads_dev makes_dev refl
      (refl, (refl, (refl, (refl, tt))))
