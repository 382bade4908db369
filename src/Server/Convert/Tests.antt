-- ===== src/Server/Convert/Tests.antt =====
-- The conversion of concrete decimals.
use oracle_pallet.Prelude.{◌*◌, ◌^◌, ◌≡◌, refl, false, some, arith, bytes_eq, nat_eq}
use oracle_pallet.Result.{ok}
use oracle_pallet.Server.Decimal.Fixed.{fixed, fixed-IsLawful}
use oracle_pallet.Server.Types.{asset_specifier_eq}
use oracle_pallet.Server.Convert.{convert_decimal_to_u128}
use oracle_pallet.Server.Convert.Exact.{convert_exact}
use oracle_pallet.Server.Storage.{key_eq}

convert_exact_example :
    convert_decimal_to_u128 fixed (false, 1234567891234567 * 10 ^ 14) ≡ some (ok 12345678912345)
convert_exact_example =
    convert_exact fixed fixed-IsLawful (false, 1234567891234567 * 10 ^ 14) refl (omega arith)
