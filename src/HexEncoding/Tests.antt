-- ===== src/HexEncoding/Tests.antt =====
-- Runs of server_manager/infrastructure/hex_encoding.ts.
use pepper_vpn_client.Common.{[], ◌∷◌, ◌≡◌, refl}
use pepper_vpn_client.Common.Exec.{ok}
use pepper_vpn_client.Common.Units.{units}
use pepper_vpn_client.HexEncoding.{hex_to_string}

test_partial_digits : hex_to_string (units "zz-1 fFf0z") ≡ ok (0 ∷ 65535 ∷ 15 ∷ 255 ∷ 0 ∷ [])
unfolding hex_to_string units
test_partial_digits = refl
