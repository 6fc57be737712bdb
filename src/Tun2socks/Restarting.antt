-- ===== src/Tun2socks/Restarting.antt =====
-- Restarts in src/electron/go_vpn_tunnel.ts.
use pepper_vpn_client.Common.{ℕ, true, false, none, some, ◌≡◌, arith, ◌==◌}
use pepper_vpn_client.Tun2socks.{
  launched, exited, returned, GoTun2socks, round, start, process_is_running, process_exits, goes_on,
}

-- A process that has said that it runs, and then ends, is spawned again by its loop, if nothing else
-- happens; one that ends before it has said so is not, and its loop returns.
pub start_restarts :
    (t : GoTun2socks)
    → t.child_process ≡ none
    → ((goes_on t.calls (process_exits (process_is_running (start t)))).child_process
        ≡ some t.calls)
      × ((goes_on t.calls (process_exits (process_is_running (start t)))).loops t.calls
          ≡ launched false)
      × ((goes_on t.calls (process_exits (start t))).child_process ≡ none)
      × ((goes_on t.calls (process_exits (start t))).loops t.calls ≡ returned)
unfolding goes_on process_exits process_is_running start round
start_restarts t free = (ground arith, ground arith, ground arith, ground arith)

-- When `start` is called after a process has ended, and before its loop `i` has gone on, the new
-- process is not spawned again when it ends, although it has said that it runs.
pub restart_is_lost :
    (t : GoTun2socks) (i : ℕ)
    → t.child_process ≡ none
    → t.loops i ≡ exited true
    → (i == t.calls) ≡ false
    → ((goes_on t.calls (process_exits (process_is_running (goes_on i (start t))))).child_process
        ≡ none)
      × ((goes_on t.calls (process_exits (process_is_running (goes_on i (start t))))).loops t.calls
          ≡ returned)
unfolding goes_on process_exits process_is_running start round
restart_is_lost t i free ended other = (ground arith, ground arith)
