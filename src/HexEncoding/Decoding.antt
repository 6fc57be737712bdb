-- ===== src/HexEncoding/Decoding.antt =====
-- Decoding what was encoded: server_manager/infrastructure/hex_encoding.ts.
use pepper_vpn_client.Common.{
  ℕ, ◌+◌, ◌*◌, ◌/◌, ◌%◌, ◌<◌, some, [], ◌∷◌, ◌≡◌, refl, ltb, if◌then◌else◌, arith, All,
}
use pepper_vpn_client.Common.Exec.{ok}
use pepper_vpn_client.Common.Units.{Units}
use pepper_vpn_client.HexEncoding.{hex_digit, parse_hex_byte, hex_to_string}

-- the lower-case digit of a value
abbrev pub digit : ℕ → ℕ
digit x = if ltb x 10 then 48 + x else 87 + x

abbrev pub encode : Units → Units
encode [] = []
encode (c ∷ s) = digit (c / 16) ∷ digit (c % 16) ∷ encode s

hex_digit-digit : (x : ℕ) → x < 16 → hex_digit (digit x) ≡ some x
unfolding hex_digit
hex_digit-digit x small = ground arith

parse_hex_byte-digit : (x y : ℕ) → x < 16 → y < 16 → parse_hex_byte (digit x) (digit y) ≡ 16 * x + y
unfolding parse_hex_byte
parse_hex_byte-digit x y high low =
    rw (hex_digit-digit x high, hex_digit-digit y low, parse_hex_byte)

-- Decoding the hexadecimal form of bytes gives the bytes.
pub hex_to_string-encode : (s : Units) → All (λ c. c < 256) s → hex_to_string (encode s) ≡ ok s
unfolding hex_to_string
hex_to_string-encode [] h = refl
hex_to_string-encode (c ∷ s) (small, h) =
    let high : c / 16 < 16 = omega (arith, small) in
    let low : c % 16 < 16 = omega arith in
    let whole : 16 * (c / 16) + c % 16 ≡ c = omega arith in
    rw (hex_to_string-encode s h, parse_hex_byte-digit (c / 16) (c % 16) high low, whole) refl
