-- ===== src/Server/Handlers.antt =====
-- `currencies_post` of dia-batching-server/src/handlers.rs: the JSON of the request and of the
-- answer is read and written by the web framework.
use oracle_pallet.Prelude.{List}
use oracle_pallet.Server.Types.{CoinInfo, Currency}
use oracle_pallet.Server.Storage.{CoinInfoStorage, get_currencies_by_blockchains_and_symbols}

unfoldable pub currencies_post : List Currency → CoinInfoStorage → List CoinInfo
unfolding get_currencies_by_blockchains_and_symbols
currencies_post currencies storage = get_currencies_by_blockchains_and_symbols storage currencies
