-- ===== src/Node/Rpc/Full/Tests.antt =====
-- Modules as lists of named methods, and a node's RPC of four methods.
use oracle_pallet.Prelude.{
  ℕ, ◌≡◌, refl, ◌↔◌, Bool, true, false, ◌||◌, Option, none, some, List, [], ◌∷◌, ◌++◌, arith,
  is_some, if◌then◌else◌, ◌==◌, bytes_eq, nat_eq,
}
use oracle_pallet.Result.{Result, ok, err, is_ok}
use oracle_pallet.Text.{codes}
use oracle_pallet.Dict.{get}
use oracle_pallet.Pallet.Types.{Bytes, CoinInfo, asset_id_eq}
use oracle_pallet.Pallet.Mock.{mock-IsLawful, new_test_ext, MockOrigin}
use oracle_pallet.Node.Tests.{btc_info, sent, mock_client}
use oracle_pallet.Node.Rpc.Full.{
  RpcLibrary, FullDeps, create_full, RpcServer, Method, get_coin_info_method, get_value_method,
  dia_methods,
}
use oracle_pallet.Node.Rpc.Full.Methods.{
  or_else, shares, IsLawfulRpc, respond, is_taken_twice, is_ok-create_full, request_reads_update,
}

-- A request holds the two names.
data Reply : Type 0 where
  refused : Reply
  info : CoinInfo → Reply
  price : ℕ → Reply

abbrev server : RpcServer mock_client
server = record {
  Params = Bytes × Bytes;
  Reply = Reply;
  parse = λ p. some (p.0, p.1, none);
  invalid_params = refused;
  coin_info_reply = λ r. elim r [ ok c ↦ info c | err e ↦ refused ];
  price_reply = λ r. elim r [ ok p ↦ price p.value | err e ↦ refused ];
}

abbrev Module : Type 0
Module = List (Bytes × Method server)

find : Module → Bytes → Option (Method server)
unfolding bytes_eq
find [] name = none
find ((n, f) ∷ rest) name = if name == n then some f else find rest name

is_taken : Module → Module → Bool
unfolding find
is_taken a [] = false
is_taken a ((n, f) ∷ rest) = is_some (find a n) || is_taken a rest

merge : Module → Module → Result (Unit {0}) Module
unfolding is_taken
merge a b = if is_taken a b then err tt else ok (b ++ a)

abbrev other_method : Method server
other_method p = refused

abbrev library : RpcLibrary (Unit {0}) (Unit {0})
library = record {
  DenyUnsafe = Unit {0};
  RpcModule = Module;
  RegisterError = Unit {0};
  new = [];
  merge = merge;
  system = λ client pool deny. (codes "system_accountNextIndex", other_method) ∷ [];
  transaction_payment = λ client. (codes "payment_queryInfo", other_method) ∷ [];
  dia_oracle = λ client.
      (codes "dia_getCoinInfo", get_coin_info_method server)
      ∷ (codes "dia_getValue", get_value_method server)
      ∷ [];
}

find-append :
    (b a : Module) (name : Bytes) → find (b ++ a) name ≡ or_else (find b name) (find a name)
unfolding find
find-append [] a name = refl
find-append ((n, f) ∷ rest) a name = ground (arith, find-append rest a name)

find-merge :
    (a b m : Module) (name : Bytes)
    → merge a b ≡ ok m
    → find m name ≡ or_else (find b name) (find a name)
unfolding merge
find-merge a b m name h = ground (arith, find-append b a name)

not-is_taken :
    (a b : Module)
    → ((name : Bytes) → shares library server find a b name ≡ false)
    → is_taken a b ≡ false
unfolding is_taken
not-is_taken a [] h = refl
not-is_taken a ((n, f) ∷ rest) h =
    let later = not-is_taken a rest (λ name. ground (arith, h name)) in ground (arith, h n, later)

is_taken-shares :
    (a b : Module) (name : Bytes) → shares library server find a b name ≡ true → is_taken a b ≡ true
unfolding is_taken
is_taken-shares a [] name h = ground arith
is_taken-shares a ((n, f) ∷ rest) name h = ground (arith, is_taken-shares a rest name)

library-IsLawful : IsLawfulRpc library server tt find
unfolding find merge dia_methods
library-IsLawful = record {
  method-new = λ name. refl;
  method-merge = find-merge;
  merge_apart = λ a b h. ground (arith, not-is_taken a b h);
  merge_shared = λ a b name h. ground (arith, is_taken-shares a b name h);
  method-dia_oracle = λ name. refl;
}

abbrev deps : FullDeps library
deps = record { client = tt; pool = tt; deny_unsafe = tt }

is_ok-create_full_example :
    (is_ok (create_full library deps) ≡ true)
    ↔ ((name : Bytes) → is_taken_twice library server deps find library-IsLawful name ≡ false)
is_ok-create_full_example = is_ok-create_full library server deps find library-IsLawful

-- The node of the tests, with the module of four methods.
abbrev methods : Module
methods = library.dia_oracle tt ++ (library.transaction_payment tt ++ library.system tt tt tt)

starts : create_full library deps ≡ ok methods
unfolding create_full merge bytes_eq
starts = refl

request_reads_update_example :
    (respond library server deps find library-IsLawful methods
        (codes "dia_getCoinInfo")
        (codes "Bitcoin", codes "BTC")
      ≡ some (info btc_info))
    × (respond library server deps find library-IsLawful methods
          (codes "dia_getValue")
          (codes "Bitcoin", codes "BTC")
        ≡ some (price 5))
unfolding get nat_eq asset_id_eq
request_reads_update_example =
    request_reads_update library server deps find library-IsLawful mock-IsLawful methods
      (codes "Bitcoin", codes "BTC") (codes "Bitcoin") (codes "BTC") none sent btc_info
      (MockOrigin.signed 1) 1 new_test_ext starts refl refl refl refl refl
