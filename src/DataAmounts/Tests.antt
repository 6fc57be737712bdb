-- ===== src/DataAmounts/Tests.antt =====
-- Runs of server_manager/web_app/data_formatting.ts.
use pepper_vpn_client.Common.{◌+◌, ℕ, some, ◌≡◌, ◌<◌, ◌≤◌, refl}
use pepper_vpn_client.DataAmounts.{
  DisplayDataAmount, unit_bytes, gb, gigabyte, get_data_formatting_params,
  display_data_amount_to_bytes, bytes_to_display_data_amount,
}
use pepper_vpn_client.DataAmounts.Rounding.{displayed_rounds_down}

displayed_rounds_down_example :
    (d : DisplayDataAmount) × (m : ℕ) × (bytes_to_display_data_amount (some 2999999999) ≡ some d)
    × (display_data_amount_to_bytes (some d) ≡ some m)
    × (m ≤ 2999999999)
    × (2999999999 < m + unit_bytes d.amount_unit)
    × (bytes_to_display_data_amount (some m) ≡ some d)
displayed_rounds_down_example = displayed_rounds_down 2999999999

two_gigabytes :
    bytes_to_display_data_amount (some 2999999999) ≡ some (record { amount_unit = gb; amount = 2 })
unfolding bytes_to_display_data_amount
two_gigabytes = refl

formats :
    get_data_formatting_params 2500000000
    ≡ record { value = (2500000000, 1000000000); data_unit = gigabyte; decimal_places = 2 }
unfolding get_data_formatting_params
formats = refl
