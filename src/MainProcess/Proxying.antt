-- ===== src/MainProcess/Proxying.antt =====
-- The handlers of src/electron/index.ts that start the VPN, on a message of the window and at boot.
use pepper_vpn_client.Common.{true, false, ℕ, String, Bool, Option, none, some, if◌then◌else◌}
use pepper_vpn_client.MainProcess.{
  thrown_to_error_code, reconnecting, fulfilled, plain, clear_tunnel, rejected, uncaught,
  save_tunnel, waits, load_tunnel, done, ask_to_disconnect, Progress, setup_auto_launch, Thrown,
  set_ui_tunnel_status, MainProcess, stop_vpn, start_vpn,
}
use pepper_vpn_client.Errors.ErrorCode
use pepper_vpn_client.TunnelStore.{fulfilled, SerializableTunnel, TunnelJson}
use pepper_vpn_client.Common.Exec.{err, ok, Result}

-- What a call is given: the address that the host resolves to, what `connect` gives, whether the
-- system writes and deletes the file of the tunnel store, and whether a launch at login can be set.
pub record Call : Type 0 where
  pub json : TunnelJson
  pub tunnel : SerializableTunnel
  pub looked_up : Result Thrown String
  pub connects : Result Thrown (Unit {0})
  pub write : Result String (Unit {0})
  pub unlink : Result String (Unit {0})
  pub can_launch : Bool

-- What happens while a handler waits: for the old tunnel to end, for the address, for the tunnel to
-- connect, for the store, and, in `stopVpn`, for the store and the tunnel.
pub record Meanwhile : Type 0 where
  pub ending : MainProcess → MainProcess
  pub looking_up : MainProcess → MainProcess
  pub connecting : MainProcess → MainProcess
  pub saving : MainProcess → MainProcess
  pub tearing : MainProcess → MainProcess
  pub ending_too : MainProcess → MainProcess

-- the text of an id that may be absent
abbrev pub id_of : SerializableTunnel → String
id_of tunnel = elim tunnel.id [ some id ↦ id | none ↦ "undefined" ]

abbrev pub with_host : String → SerializableTunnel → SerializableTunnel
with_host host tunnel = elim tunnel.config [
  | some config ↦ record tunnel { config = some (record config { host = some host }) }
  | none ↦ tunnel
]

-- The `try`: `args.config.host` is set before `startVpn`, so the tunnel and the store get the address.
unfoldable pub try_to_start :
    Meanwhile → Call → MainProcess → MainProcess × Result Thrown (Unit {0})
unfolding start_vpn setup_auto_launch
try_to_start during c m = elim c.tunnel.config [
  | none ↦ (m, err (plain "TypeError"))
  | some _ ↦
      let resolved = during.looking_up m in
      elim c.looked_up [
        | err e ↦ (resolved, err e)
        | ok host ↦
            let tunnel = with_host host c.tunnel in
            let (started, outcome) =
              start_vpn during.connecting c.connects tunnel.config (id_of c.tunnel) false
                resolved in
            elim outcome [
              | err e ↦ (started, err e)
              | ok _ ↦
                  let saved =
                    during.saving (setup_auto_launch c.json c.write c.can_launch tunnel started) in
                  (record saved { file = (save_tunnel c.json c.write tunnel saved.file).0 }, ok tt)
            ]
      ]
]

-- The handler, once no tunnel is left. What `stopVpn` comes to in the `catch` is not awaited.
unfoldable pub start_now : Meanwhile → Call → MainProcess → MainProcess × Progress ℕ
unfolding try_to_start stop_vpn
start_now during c m =
    let (tried, outcome) = try_to_start during c m in
    elim outcome [
      | ok _ ↦ (tried, done (ok ErrorCode.no_error))
      | err e ↦ (
        (stop_vpn during.tearing during.ending_too c.unlink tried).0,
        done (thrown_to_error_code e),
      )
    ]

-- The handler of 'outline-ipc-start-proxying'.
unfoldable pub start_proxying : Meanwhile → Call → MainProcess → MainProcess × Progress ℕ
unfolding start_now
start_proxying during c m = elim m.current_tunnel [
  | none ↦ start_now during c m
  | some n ↦
      let waited = during.ending (ask_to_disconnect n m) in
      let started = start_now during c waited in if waited.ended n then started else (waited, waits)
]

-- The start of the application, with the tunnel that was connected at shutdown. A load that is
-- rejected clears the store; what its callback throws is uncaught, and the start goes no further.
unfoldable pub app_ready : Meanwhile → Call → MainProcess → MainProcess × Progress (Unit {0})
unfolding start_vpn set_ui_tunnel_status
app_ready during c m = elim (load_tunnel c.json m.file) [
  | uncaught _ ↦ (m, waits)
  | rejected _ ↦
      let (file, outcome) = clear_tunnel c.unlink m.file in
      elim outcome [
        | rejected message ↦ (record m { file = file }, done (err (plain message)))
        | _ ↦ (record m { file = file }, done (ok tt))
      ]
  | fulfilled tunnel ↦
      let shown = set_ui_tunnel_status reconnecting (id_of tunnel) m in
      (
        (start_vpn during.connecting c.connects tunnel.config (id_of tunnel) true shown).0,
        done (ok tt),
      )
]

-- The handler of 'outline-ipc-install-outline-services': what the installer rejects with is a number
-- or anything else.
unfoldable pub install_services : Result (Option ℕ) (Unit {0}) → ℕ
install_services (ok _) = ErrorCode.no_error
install_services (err (some code)) = code
install_services (err none) = ErrorCode.unexpected
