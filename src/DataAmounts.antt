-- ===== src/DataAmounts.antt =====
-- server_manager/web_app/data_formatting.ts: amounts of data, as whole numbers of bytes that are small
-- enough for the numbers of JavaScript to be exact. A quotient that is only shown is kept as its two
-- numbers.
pub mod Rounding
mod Tests
use Prim.Native.Nat.{◌/◌, ◌*◌}
use pepper_vpn_client.Common.{ℕ, Option, none, some, if◌then◌else◌, leb}

pub data DataUnit : Type 0 where
  terabyte gigabyte megabyte kilobyte byte : DataUnit

pub record FormatParams : Type 0 where
  pub value : ℕ × ℕ
  pub data_unit : DataUnit
  pub decimal_places : ℕ

unfoldable pub get_data_formatting_params : ℕ → FormatParams
get_data_formatting_params n =
    if leb 1000000000000 n
    then record { value = (n, 1000000000000); data_unit = terabyte; decimal_places = 2 }
    else if leb 1000000000 n
    then record { value = (n, 1000000000); data_unit = gigabyte; decimal_places = 2 }
    else if leb 1000000 n
    then record { value = (n, 1000000); data_unit = megabyte; decimal_places = 1 }
    else if leb 1000 n
    then record { value = (n, 1000); data_unit = kilobyte; decimal_places = 0 }
    else record { value = (n, 1); data_unit = byte; decimal_places = 0 }

pub data DisplayUnit : Type 0 where
  mb gb : DisplayUnit

-- `DisplayDataAmount`
pub record DisplayDataAmount : Type 0 where
  pub amount_unit : DisplayUnit
  pub amount : ℕ

abbrev pub unit_bytes : DisplayUnit → ℕ
unit_bytes mb = 1000000
unit_bytes gb = 1000000000

unfoldable pub display_data_amount_to_bytes : Option DisplayDataAmount → Option ℕ
display_data_amount_to_bytes none = none
display_data_amount_to_bytes (some d) = some (d.amount * unit_bytes d.amount_unit)

unfoldable pub bytes_to_display_data_amount : Option ℕ → Option DisplayDataAmount
bytes_to_display_data_amount none = none
bytes_to_display_data_amount (some n) =
    if leb 1000000000 n
    then some (record { amount_unit = gb; amount = n / 1000000000 })
    else some (record { amount_unit = mb; amount = n / 1000000 })
