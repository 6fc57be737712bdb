-- ===== src/DataAmounts/Rounding.antt =====
-- How server_manager/web_app/data_formatting.ts rounds an amount of data.
use Prim.Native.Nat.{◌/◌, ◌*◌, ◌+◌}
use pepper_vpn_client.Common.{ℕ, some, ◌≡◌, ◌<◌, ◌≤◌, refl, arith, inl, inr, leb, Bool-cases}
use pepper_vpn_client.DataAmounts.{
  DisplayDataAmount, mb, gb, unit_bytes, display_data_amount_to_bytes, bytes_to_display_data_amount,
}

-- An amount of bytes that is displayed is rounded down to whole units, by less than one unit; what is
-- displayed is displayed again as it is.
pub displayed_rounds_down :
    (n : ℕ)
    → (d : DisplayDataAmount) × (m : ℕ) × (bytes_to_display_data_amount (some n) ≡ some d)
      × (display_data_amount_to_bytes (some d) ≡ some m)
      × (m ≤ n)
      × (n < m + unit_bytes d.amount_unit)
      × (bytes_to_display_data_amount (some m) ≡ some d)
unfolding bytes_to_display_data_amount display_data_amount_to_bytes
displayed_rounds_down n = elim (Bool-cases (leb 1000000000 n)) [
  | inl large ↦ (
    record { amount_unit = gb; amount = n / 1000000000 },
    (n / 1000000000) * 1000000000,
    ground arith,
    refl,
    ground arith,
    ground arith,
    ground arith,
  )
  | inr small ↦ (
    record { amount_unit = mb; amount = n / 1000000 },
    (n / 1000000) * 1000000,
    ground arith,
    refl,
    ground arith,
    ground arith,
    ground arith,
  )
]
