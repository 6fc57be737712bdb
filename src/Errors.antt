-- ===== src/Errors.antt =====
-- src/www/model/errors.ts: the error classes of the client, and the numbers that stand for the
-- native ones between processes.
pub mod ErrorCode
pub mod Codes
use ErrorCode
use pepper_vpn_client.Common.{ℕ, String, Option, ◌==◌, if◌then◌else◌}
use pepper_vpn_client.Common.Exec.{Result, ok, err}

-- `NativeError` and the classes below it. The three base classes are `native`, `regular_native`
-- and `red_flag_native`.
pub data NativeError : Type 0 where
  native regular_native red_flag_native : NativeError
  unexpected_plugin_error vpn_permission_not_granted invalid_server_credentials : NativeError
  remote_udp_forwarding_disabled server_unreachable illegal_server_configuration : NativeError
  no_admin_permissions system_configuration_exception : NativeError
  shadowsocks_start_failure configure_system_proxy_failure unsupported_routing_table : NativeError
  vpn_start_failure : NativeError

pub NativeError-discrete : Discrete NativeError
NativeError-discrete = hlevel

-- What a call of the client may throw. `plain` is JavaScript's own `Error` (`TypeError` and so on)
-- with its message. `server_already_added` holds the server by its id.
pub data Thrown : Type 0 where
  server_already_added : String → Thrown
  shadowsocks_unsupported_cipher : String → Thrown
  server_incompatible server_url_invalid : String → Thrown
  session_config_fetch_failed : Thrown
  session_config_error : Option String → Thrown
  server_access_key_invalid : Thrown
  proxy_connection_failure : Thrown
  native_error : NativeError → Thrown
  plain : String → Thrown

-- The chain of `case` labels; each label is a test against the constant of `ErrorCode`.
unfoldable pub from_error_code : ℕ → Result Thrown NativeError
from_error_code c =
    if c == ErrorCode.unexpected
    then ok unexpected_plugin_error
    else if c == ErrorCode.vpn_permission_not_granted
    then ok vpn_permission_not_granted
    else if c == ErrorCode.invalid_server_credentials
    then ok invalid_server_credentials
    else if c == ErrorCode.udp_relay_not_enabled
    then ok remote_udp_forwarding_disabled
    else if c == ErrorCode.server_unreachable
    then ok server_unreachable
    else if c == ErrorCode.vpn_start_failure
    then ok vpn_start_failure
    else if c == ErrorCode.illegal_server_configuration
    then ok illegal_server_configuration
    else if c == ErrorCode.shadowsocks_start_failure
    then ok shadowsocks_start_failure
    else if c == ErrorCode.configure_system_proxy_failure
    then ok configure_system_proxy_failure
    else if c == ErrorCode.no_admin_permissions
    then ok no_admin_permissions
    else if c == ErrorCode.unsupported_routing_table
    then ok unsupported_routing_table
    else if c == ErrorCode.system_misconfigured
    then ok system_configuration_exception
    else err (plain "unknown ErrorCode")

-- The chain of `instanceof` tests; none of the twelve classes is below another of them.
unfoldable pub to_error_code : NativeError → Result Thrown ℕ
to_error_code unexpected_plugin_error = ok ErrorCode.unexpected
to_error_code vpn_permission_not_granted = ok ErrorCode.vpn_permission_not_granted
to_error_code invalid_server_credentials = ok ErrorCode.invalid_server_credentials
to_error_code remote_udp_forwarding_disabled = ok ErrorCode.udp_relay_not_enabled
to_error_code server_unreachable = ok ErrorCode.server_unreachable
to_error_code vpn_start_failure = ok ErrorCode.vpn_start_failure
to_error_code illegal_server_configuration = ok ErrorCode.illegal_server_configuration
to_error_code shadowsocks_start_failure = ok ErrorCode.shadowsocks_start_failure
to_error_code configure_system_proxy_failure = ok ErrorCode.configure_system_proxy_failure
to_error_code unsupported_routing_table = ok ErrorCode.unsupported_routing_table
to_error_code no_admin_permissions = ok ErrorCode.no_admin_permissions
to_error_code system_configuration_exception = ok ErrorCode.system_misconfigured
to_error_code _ = err (plain "unknown NativeError")

-- `to_error_code` at any thrown value: what is no `NativeError` falls through to the last line.
unfoldable pub thrown_to_error_code : Thrown → Result Thrown ℕ
unfolding to_error_code
thrown_to_error_code (native_error e) = to_error_code e
thrown_to_error_code _ = err (plain "unknown NativeError")
