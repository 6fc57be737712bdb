-- ===== src/Common/Decimal.antt =====
-- The decimal form of a number, as a template literal prints it.
use Prim.Native.Nat.{ℕ, zero, suc, ◌/◌, ◌%◌}
use Prim.Native.String.{String, ◌++◌}
use pepper_vpn_client.Common.Tests.{◌==◌, ltb, if◌then◌else◌}

abbrev digit_text : ℕ → String
digit_text d =
    if d == 0
    then "0"
    else if d == 1
    then "1"
    else if d == 2
    then "2"
    else if d == 3
    then "3"
    else if d == 4
    then "4"
    else if d == 5
    then "5"
    else if d == 6
    then "6"
    else if d == 7
    then "7"
    else if d == 8
    then "8"
    else "9"

digits : ℕ → ℕ → String
digits zero n = ""
digits (suc fuel) n =
    let front = digits fuel (n / 10) in
    if ltb n 10 then digit_text n else front ++ digit_text (n % 10)

-- A number has at most as many digits as it is large.
unfoldable pub to_decimal : ℕ → String
unfolding digits
to_decimal n = digits (suc n) n
