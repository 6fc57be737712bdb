-- ===== src/Tun2socks/Tests.antt =====
-- Runs of src/electron/go_vpn_tunnel.ts.
use pepper_vpn_client.Common.{true, none, ◌≡◌, refl}
use pepper_vpn_client.Common.Exec.{err}
use pepper_vpn_client.Errors.{native_error, server_unreachable, from_error_code}
use pepper_vpn_client.Tun2socks.{
  exited, GoTun2socks, new_tun2socks, start, stop, process_is_running, process_exits, goes_on,
  check_connectivity, exit_code,
}
use pepper_vpn_client.Tun2socks.Stopping.{here, next, ends, continued, stop_spawns_none}

abbrev running : GoTun2socks
running = process_is_running (start new_tun2socks)

abbrev after_stop : GoTun2socks
after_stop = goes_on 0 (process_exits (stop running))

stop_spawns_none_example : after_stop.spawned ≡ running.spawned
stop_spawns_none_example = stop_spawns_none running after_stop (
    next (next (here (stop running)) (ends (stop running)))
      (continued (process_exits (stop running)) 0))

-- The process was stopped and has ended, and its loop has not gone on yet.
abbrev ended : GoTun2socks
ended = record (process_exits (stop running)) { calls = 1 }

ended_process : ended.child_process ≡ none
unfolding process_exits stop process_is_running start
ended_process = refl

ended_loop : ended.loops 0 ≡ exited true
unfolding process_exits stop process_is_running start
ended_loop = refl

test_unreachable : check_connectivity (err (exit_code 5)) ≡ err (native_error server_unreachable)
unfolding check_connectivity from_error_code
test_unreachable = refl
