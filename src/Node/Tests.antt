-- ===== src/Node/Tests.antt =====
-- The theorems on the node at concrete inputs, over the mock runtime of the pallet.
use oracle_pallet.Prelude.{
  ℕ, ◌≡◌, refl, Bool, true, some, List, [], ◌∷◌, arith, ◌==◌, nat_eq, bytes_eq, length,
  if◌then◌else◌, inl,
}
use oracle_pallet.Result.{Result, ok, err}
use oracle_pallet.Text.{codes}
use oracle_pallet.Pallet.Types.{Bytes, CoinInfo, CoinInfos, asset_id_eq, Call}
use oracle_pallet.Pallet.Config.{Storage}
use oracle_pallet.Pallet.Calls.{dispatch}
use oracle_pallet.Pallet.Mock.{MockOrigin, mock, mock-IsLawful, new_test_ext}
use oracle_pallet.Node.ChainSpec.{
  Keys, RuntimeGenesis, ChainSpec, testnet_genesis, development_spec, load_spec, vec,
  genesis_from_seeds, get_from_seed, get_account_id_from_seed, authority_keys_from_seed,
}
use oracle_pallet.Node.ChainSpec.Governed.{load_spec-StartsWith, StartsWith}
use oracle_pallet.Node.Signing.{
  SignedExtra, MultiAddress, Signing, IsLawfulSigning, create_transaction, create_transaction_signs,
}
use oracle_pallet.Node.Rpc.{Client}

-- Keys that are the length of their text: 7 for `//Alice`.
abbrev pub mock_keys : Keys mock
mock_keys = record {
  AuraId = ℕ;
  GrandpaId = ℕ;
  account_from_string = λ text. some (length text);
  aura_from_string = λ text. some (length text);
  grandpa_from_string = λ text. some (length text);
}

abbrev pub mock_genesis : RuntimeGenesis mock mock_keys
mock_genesis = testnet_genesis mock_keys [] ((7, 7) ∷ []) 7 (7 ∷ 5 ∷ 14 ∷ 12 ∷ []) true

abbrev pub no_file : Bytes → Result Bytes (ChainSpec mock mock_keys)
no_file path = err path

pub loads_dev :
    load_spec mock_keys (some []) no_file (codes "dev") ≡ ok (development_spec mock_keys [])
unfolding load_spec bytes_eq
loads_dev = refl

pub makes_dev : (development_spec mock_keys []).constructor ≡ some mock_genesis
unfolding development_spec vec genesis_from_seeds get_account_id_from_seed authority_keys_from_seed
    get_from_seed
makes_dev = refl

load_spec-StartsWith_example :
    (root : ℕ) × (some (length (codes "//Alice")) ≡ some root)
    × StartsWith mock-IsLawful mock_keys mock_genesis root
load_spec-StartsWith_example =
    load_spec-StartsWith mock-IsLawful mock_keys (some []) no_file (codes "dev")
      (development_spec mock_keys []) mock_genesis (inl refl) loads_dev makes_dev

abbrev pub btc_info : CoinInfo
btc_info = record {
  symbol = codes "BTC";
  name = codes "Bitcoin";
  blockchain = codes "Bitcoin";
  supply = 3;
  last_update_timestamp = 1;
  price = 5;
}

abbrev pub sent : CoinInfos
sent = ((codes "Bitcoin", codes "BTC"), btc_info) ∷ []

abbrev pub updated : Storage mock
updated = (dispatch mock (Call.set_updated_coin_infos sent) (MockOrigin.signed 1) new_test_ext).1

-- Block 9 is the best one, and has the updated storage; no other block is known.
abbrev pub mock_client : Client mock
mock_client = record {
  BlockHash = ℕ;
  best_hash = 9;
  ApiError = Unit {0};
  storage_at = λ h. if h == 9 then ok updated else err tt;
  debug_api_error = λ e. codes "unknown block";
  debug_dispatch_error = λ e. codes "dispatch error";
}

-- Signing where a signature is the key before the message.
abbrev plain_signing : Signing
plain_signing = record {
  RuntimeCall = ℕ;
  AccountId = ℕ;
  Public = ℕ;
  Signature = List ℕ;
  Era = ℕ × ℕ;
  Payload = ℕ × SignedExtra (ℕ × ℕ);
  block_number = 7;
  mortal = λ period current. (period, current);
  new_payload = λ call extra. some (call, extra);
  encode = λ (call, extra). call ∷ extra.nonce ∷ [];
  deconstruct = λ p. p;
  sign = λ message key. some (key ∷ message);
}

abbrev accepts : List ℕ → List ℕ → ℕ → Bool
accepts signature message key = ◌==◌ ⦃e = bytes_eq⦄ signature (key ∷ message)

plain_signing-IsLawful : IsLawfulSigning plain_signing accepts
plain_signing-IsLawful = record {
  deconstruct-new = λ call extra p made. ground arith;
  verify-sign = λ message key s signed. ground arith;
}

abbrev five : SignedExtra (ℕ × ℕ)
five = record { era = (2400, 6); nonce = 5; tip = 0 }

create_transaction_signs_example :
    let call : ℕ = 3 in
    (call ≡ call)
    × (MultiAddress.id call ≡ MultiAddress.id call)
    × (five.nonce ≡ 5)
    × (five.tip ≡ 0)
    × (five.era ≡ (2400, 6))
    × ((p : ℕ × SignedExtra (ℕ × ℕ)) × (some (call, five) ≡ some p)
        × (accepts (9 ∷ 3 ∷ 5 ∷ []) (plain_signing.encode p) 9 ≡ true))
unfolding create_transaction
create_transaction_signs_example =
    create_transaction_signs plain_signing accepts plain_signing-IsLawful 3 3 9 3 5
      (MultiAddress.id 3) (9 ∷ 3 ∷ 5 ∷ []) five refl
