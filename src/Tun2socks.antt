-- ===== src/Tun2socks.antt =====
-- src/electron/go_vpn_tunnel.ts, the class GoTun2socks and `checkConnectivity`, on the child process of
-- src/electron/process.ts, not in debug mode. Each call of `start` is a loop with a variable
-- `autoRestart` of its own, and loops are numbered in the order of the calls; all of them share the
-- process and `stopRequested`. A loop is seen at its `await` of `launch`. The end of the process and
-- the continuation of its loop are two steps, with anything in between.
pub mod Stopping
pub mod Restarting
mod Tests
use pepper_vpn_client.Common.{
  ℕ, suc, String, Bool, true, false, Option, none, some, List, [], ◌∷◌, ◌++◌, ◌&&◌, not, ◌==◌,
  if◌then◌else◌,
}
use pepper_vpn_client.Common.Exec.{Result, ok, err}
use pepper_vpn_client.Errors.{Thrown, native_error, unexpected_plugin_error, from_error_code}
use pepper_vpn_client.Errors.ErrorCode
use pepper_vpn_client.AccessKey.{ShadowsocksSessionConfig}

-- A call of `start`: not made yet; at the `await` of `launch`, with the value of `autoRestart`; with
-- the process ended, and the condition of the loop still to be tested; or returned.
pub data Loop : Type 0 where
  not_called : Loop
  launched exited : Bool → Loop
  returned : Loop

pub record GoTun2socks : Type 0 where
  pub stop_requested : Bool
  -- the loop whose `launch` has started the process that runs
  pub child_process : Option ℕ
  -- whether `onStdErr` still hears the process
  pub hears : Bool
  -- the loop whose function is `stdErrListener`
  pub std_err_listener : Option ℕ
  pub loops : ℕ → Loop
  -- how many times `start` was called, and a process was spawned
  pub calls : ℕ
  pub spawned : ℕ

abbrev pub new_tun2socks : GoTun2socks
new_tun2socks = record {
  stop_requested = false;
  child_process = none;
  hears = false;
  std_err_listener = none;
  loops = λ _. not_called;
  calls = 0;
  spawned = 0;
}

abbrev pub put : (ℕ → Loop) → ℕ → Loop → ℕ → Loop
put loops i l = λ j. if i == j then l else loops j

-- A round of the loop up to its `await`. While a process runs `launch` throws, and the loop ends,
-- since it has set `autoRestart` to false.
unfoldable pub round : ℕ → GoTun2socks → GoTun2socks
round i t = elim t.child_process [
  | none ↦ record t {
    child_process = some i;
    hears = true;
    std_err_listener = some i;
    loops = put t.loops i (launched false);
    spawned = suc t.spawned;
  }
  | some j ↦ record t { std_err_listener = some i; loops = put t.loops i returned }
]

-- `start`, up to its first `await`
unfoldable pub start : GoTun2socks → GoTun2socks
unfolding round
start t = round t.calls (record t { stop_requested = false; calls = suc t.calls })

-- `stop`, which kills the process; that it ends is a step of its own.
unfoldable pub stop : GoTun2socks → GoTun2socks
stop t = record t { stop_requested = true }

-- `autoRestart = true` in the loop that listens
abbrev pub will_restart : Loop → Loop
will_restart (launched _) = launched true
will_restart (exited _) = exited true
will_restart l = l

-- The process writes "tun2socks running".
unfoldable pub process_is_running : GoTun2socks → GoTun2socks
process_is_running t = elim t.child_process [
  | none ↦ t
  | some _ ↦ elim t.std_err_listener [
    | none ↦ t
    | some j ↦
        if t.hears
        then record t {
          hears = false;
          std_err_listener = none;
          loops = put t.loops j (will_restart (t.loops j));
        }
        else t
  ]
]

abbrev pub exits : Loop → Loop
exits (launched restart) = exited restart
exits l = l

-- The process ends, with any code or signal.
unfoldable pub process_exits : GoTun2socks → GoTun2socks
process_exits t = elim t.child_process [
  | none ↦ t
  | some i ↦ record t {
    child_process = none;
    hears = false;
    loops = put t.loops i (exits (t.loops i));
  }
]

-- A loop goes on behind its `await`: `while (!this.stopRequested && autoRestart)`.
unfoldable pub goes_on : ℕ → GoTun2socks → GoTun2socks
unfolding round
goes_on i t = elim (t.loops i) [
  | exited restart ↦
      if not t.stop_requested && restart
      then round i t
      else record t { loops = put t.loops i returned }
  | _ ↦ t
]

-- How a process ends that does not exit with 0.
pub data ProcessError : Type 0 where
  exit_code : ℕ → ProcessError
  signal : String → ProcessError
  not_launched : String → ProcessError

-- `checkConnectivity`: whether the server forwards UDP.
unfoldable pub check_connectivity : Result ProcessError (Unit {0}) → Result Thrown Bool
check_connectivity (ok _) = ok true
check_connectivity (err (exit_code code)) =
    if code == ErrorCode.udp_relay_not_enabled
    then ok false
    else (elim (from_error_code code) [ ok e ↦ err (native_error e) | err e ↦ err e ])
check_connectivity (err _) = err (native_error unexpected_plugin_error)
