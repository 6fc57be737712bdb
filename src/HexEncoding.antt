-- ===== src/HexEncoding.antt =====
-- server_manager/infrastructure/hex_encoding.ts: texts out of hexadecimal numbers.
pub mod Decoding
mod Tests
use pepper_vpn_client.Common.{
  ℕ, ◌+◌, ◌*◌, ◌-◌, Bool, true, false, Option, none, some, List, [], ◌∷◌, ◌==◌, leb, ◌&&◌, ◌||◌,
  if◌then◌else◌,
}
use pepper_vpn_client.Common.Exec.{Result, ok, err}
use pepper_vpn_client.Common.Units.{Units, is_white_space}

-- the value of a hexadecimal digit of either case
unfoldable pub hex_digit : ℕ → Option ℕ
hex_digit c =
    if leb 48 c && leb c 57
    then some (c - 48)
    else if leb 97 c && leb c 102
    then some (c - 87)
    else if leb 65 c && leb c 70
    then some (c - 55)
    else none

-- `String.fromCharCode(parseInt(hexByte, 16))` at two units. `parseInt` skips white space, takes a
-- sign, and reads the digits that follow; with no digit it gives NaN, whose unit is 0.
unfoldable pub parse_hex_byte : ℕ → ℕ → ℕ
unfolding hex_digit
parse_hex_byte a b = elim (hex_digit a) [
  | some x ↦ elim (hex_digit b) [ some y ↦ 16 * x + y | none ↦ x ]
  | none ↦ elim (hex_digit b) [
    | none ↦ 0
    | some y ↦
        if is_white_space a || a == 43 then y else if a == 45 && leb 1 y then 65536 - y else 0
  ]
]

-- `hexToString`; the loop has taken an even number of units when the length is odd, which the test
-- before it reports.
unfoldable pub hex_to_string : Units → Result (Unit {0}) Units
unfolding parse_hex_byte
hex_to_string [] = ok []
hex_to_string (a ∷ []) = err tt
hex_to_string (a ∷ b ∷ s) = elim (hex_to_string s) [
  | ok bytes ↦ ok (parse_hex_byte a b ∷ bytes)
  | err e ↦ err e
]
