-- ===== src/Pallet/Worker/Request.antt =====
-- The text that `update_prices` builds from the supported currencies.
use oracle_pallet.Prelude.{List, [], ◌∷◌, map}
use oracle_pallet.Text.{codes, concat, join}
use oracle_pallet.Pallet.Types.{Bytes, AssetId}

-- One supported currency: its bytes are put between the quotes as they are.
unfoldable pub request_item : AssetId → Bytes
unfolding concat
request_item k = concat (
    codes "{\"blockchain\":\""
    ∷ k.blockchain
    ∷ codes "\",\"symbol\":\""
    ∷ k.symbol
    ∷ codes "\"}"
    ∷ [])

unfoldable pub request_items : List AssetId → Bytes
unfolding request_item join
request_items keys = join b',' (map request_item keys)

unfoldable pub request_body : Bytes → Bytes
unfolding concat
request_body items = concat (codes "[" ∷ items ∷ codes "]" ∷ [])
