-- ===== src/Errors/ErrorCode.antt =====
-- `const enum ErrorCode` of src/www/model/errors.ts.
use Prim.Native.Nat.{ℕ}

abbrev pub no_error : ℕ
no_error = 0

abbrev pub unexpected : ℕ
unexpected = 1

abbrev pub vpn_permission_not_granted : ℕ
vpn_permission_not_granted = 2

abbrev pub invalid_server_credentials : ℕ
invalid_server_credentials = 3

abbrev pub udp_relay_not_enabled : ℕ
udp_relay_not_enabled = 4

abbrev pub server_unreachable : ℕ
server_unreachable = 5

abbrev pub vpn_start_failure : ℕ
vpn_start_failure = 6

abbrev pub illegal_server_configuration : ℕ
illegal_server_configuration = 7

abbrev pub shadowsocks_start_failure : ℕ
shadowsocks_start_failure = 8

abbrev pub configure_system_proxy_failure : ℕ
configure_system_proxy_failure = 9

abbrev pub no_admin_permissions : ℕ
no_admin_permissions = 10

abbrev pub unsupported_routing_table : ℕ
unsupported_routing_table = 11

abbrev pub system_misconfigured : ℕ
system_misconfigured = 12
