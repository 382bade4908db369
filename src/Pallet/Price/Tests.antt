-- ===== src/Pallet/Price/Tests.antt =====
-- Prices as texts, at the largest one.
use oracle_pallet.Prelude.{◌≡◌, refl, nat_eq}
use oracle_pallet.Result.{ok, err}
use oracle_pallet.Text.{codes}
use oracle_pallet.Pallet.Types.{PriceInfo, asset_id_eq}
use oracle_pallet.Pallet.Price.{serialize, deserialize}

abbrev large_price : PriceInfo
large_price = record { value = 340282366920938463463374607431768211455 }

serialize_large : serialize large_price ≡ codes "340282366920938463463374607431768211455"
unfolding serialize
serialize_large = refl

deserialize_overflow :
    deserialize (ok (codes "340282366920938463463374607431768211456"))
    ≡ err (codes "Parse from str failed")
unfolding deserialize
deserialize_overflow = refl
