-- ===== src/MainProcess.antt =====
-- src/electron/index.ts: the life cycle of the VPN in the main process of the desktop client. Tunnels
-- are numbered in the order in which they are created. The answers of what is awaited are arguments,
-- and so is what happens meanwhile.
pub mod Links
pub mod Alive
pub mod Runs
pub mod Proxying
pub mod Starting
pub mod Answers
pub mod Failing
pub mod Sent
mod Tests
use pepper_vpn_client.Common.{
  ℕ, suc, String, Bool, true, false, not, Option, none, some, List, [], ◌∷◌, ◌++◌, ◌==◌, ◌||◌,
  if◌then◌else◌,
}
use pepper_vpn_client.Common.Exec.{Result, ok, err, ◌>>=◌}
use pepper_vpn_client.Errors.{Thrown, plain, thrown_to_error_code}
use pepper_vpn_client.Errors.ErrorCode
use pepper_vpn_client.AccessKey.{ShadowsocksSessionConfig}
use pepper_vpn_client.TunnelStore.{
  SerializableTunnel, TunnelJson, Outcome, fulfilled, rejected, uncaught, save_tunnel, load_tunnel,
  clear_tunnel,
}
use pepper_vpn_client.VpnTunnel.{TunnelStatus, connected, disconnected, reconnecting}

pub record MainProcess : Type 0 where
  pub current_tunnel : Option ℕ
  pub created : ℕ
  -- the id that a tunnel was started with, its configuration, and whether it was started at boot
  pub ids : ℕ → String
  pub configs : ℕ → Option ShadowsocksSessionConfig
  pub auto_connects : ℕ → Bool
  -- whether the `disconnect` of a tunnel was called, and whether its `onceDisconnected` is fulfilled
  pub asked : ℕ → Bool
  pub ended : ℕ → Bool
  pub has_window : Bool
  -- the messages to the window on the state of a tunnel
  pub sent : List (TunnelStatus × String)
  pub tray_is_connected : Bool
  -- the file of the tunnel store, and whether the app is launched at login
  pub file : Option String
  pub launches_at_login : Bool
  pub is_app_quitting : Bool
  pub has_quit : Bool

-- What an asynchronous function has come to: it has returned or thrown, or it waits for a promise
-- that is not settled.
pub data Progress (A : Type 0) : Type 0 where
  done : Result Thrown A → Progress A
  waits : Progress A

abbrev put {ℓ} : {A : Type ℓ} → (ℕ → A) → ℕ → A → ℕ → A
put f n a = λ k. if n == k then a else f k

abbrev is_connected : TunnelStatus → Bool
is_connected connected = true
is_connected _ = false

unfoldable pub update_tray : TunnelStatus → MainProcess → MainProcess
update_tray status m = record m { tray_is_connected = is_connected status }

unfoldable pub set_ui_tunnel_status : TunnelStatus → String → MainProcess → MainProcess
unfolding update_tray
set_ui_tunnel_status status id m =
    update_tray status (if m.has_window then record m { sent = m.sent ++ (status, id) ∷ [] } else m)

-- A tunnel has stopped all its helpers: what `startVpn` does then.
unfoldable pub tunnel_ends : ℕ → MainProcess → MainProcess
unfolding set_ui_tunnel_status
tunnel_ends n m =
    if m.ended n
    then m
    else set_ui_tunnel_status disconnected (m.ids n)
        (record m { ended = put m.ended n true; current_tunnel = none })

-- The listeners of `startVpn` for a tunnel that reconnects, or has reconnected.
unfoldable pub tunnel_reconnecting : ℕ → MainProcess → MainProcess
unfolding set_ui_tunnel_status
tunnel_reconnecting n m = set_ui_tunnel_status reconnecting (m.ids n) m

unfoldable pub tunnel_reconnected : ℕ → MainProcess → MainProcess
unfolding set_ui_tunnel_status
tunnel_reconnected n m = set_ui_tunnel_status connected (m.ids n) m

-- `createVpnTunnel`, with the number of the new tunnel
unfoldable pub create_tunnel : ShadowsocksSessionConfig → Bool → String → MainProcess → MainProcess
create_tunnel config is_auto_connect id m = record m {
  current_tunnel = some m.created;
  created = suc m.created;
  ids = put m.ids m.created id;
  configs = put m.configs m.created (some config);
  auto_connects = put m.auto_connects m.created is_auto_connect;
}

-- `startVpn`; `connects` is what `connect` of the tunnel gives. A configuration that is absent throws
-- when its host is read.
unfoldable pub start_vpn :
    (MainProcess → MainProcess)
    → Result Thrown (Unit {0})
    → Option ShadowsocksSessionConfig
    → String
    → Bool
    → MainProcess
    → MainProcess × Result Thrown (Unit {0})
unfolding create_tunnel set_ui_tunnel_status
start_vpn meanwhile connects config id is_auto_connect m = elim m.current_tunnel [
  | some _ ↦ (m, err (plain "already connected"))
  | none ↦ elim config [
    | none ↦ (m, err (plain "TypeError"))
    | some config ↦
        let waited = meanwhile (create_tunnel config is_auto_connect id m) in
        elim connects [
          | ok _ ↦ (set_ui_tunnel_status connected id waited, ok tt)
          | err e ↦ (waited, err e)
        ]
  ]
]

abbrev pub ask_to_disconnect : ℕ → MainProcess → MainProcess
ask_to_disconnect n m = record m { asked = put m.asked n true }

-- `tearDownAutoLaunch`, whose errors are caught
unfoldable pub tear_down_auto_launch : Result String (Unit {0}) → MainProcess → MainProcess
tear_down_auto_launch unlink m = record m {
  launches_at_login = false;
  file = (clear_tunnel unlink m.file).0;
}

-- `setupAutoLaunch`, whose errors are caught; with no `save` nothing is launched at login
unfoldable pub setup_auto_launch :
    TunnelJson → Result String (Unit {0}) → Bool → SerializableTunnel → MainProcess → MainProcess
setup_auto_launch json write can_launch tunnel m =
    let (file, outcome) = save_tunnel json write tunnel m.file in
    elim outcome [
      | fulfilled _ ↦ record m {
        file = file;
        launches_at_login = m.launches_at_login || can_launch;
      }
      | _ ↦ record m { file = file }
    ]

-- `stopVpn`: `tearing` is what happens while the tunnel is taken out of the store, and `ending` what
-- happens then. `currentTunnel` is read again in between.
unfoldable pub stop_vpn :
    (MainProcess → MainProcess)
    → (MainProcess → MainProcess)
    → Result String (Unit {0})
    → MainProcess
    → MainProcess × Progress (Unit {0})
unfolding tear_down_auto_launch
stop_vpn tearing ending unlink m = elim m.current_tunnel [
  | none ↦ (m, done (ok tt))
  | some n ↦
      let torn = tearing (tear_down_auto_launch unlink (ask_to_disconnect n m)) in
      elim torn.current_tunnel [
        | none ↦ (torn, done (err (plain "TypeError")))
        | some k ↦
            let waited = ending torn in (waited, if waited.ended k then done (ok tt) else waits)
      ]
]

-- `quitApp`
unfoldable pub quit_app :
    (MainProcess → MainProcess)
    → (MainProcess → MainProcess)
    → Result String (Unit {0})
    → MainProcess
    → MainProcess × Progress (Unit {0})
unfolding stop_vpn
quit_app tearing ending unlink m =
    let (stopped, outcome) = stop_vpn tearing ending unlink (record m { is_app_quitting = true }) in
    elim outcome [
      | done (ok _) ↦ (record stopped { has_quit = true }, done (ok tt))
      | other ↦ (stopped, other)
    ]

-- The strings have come from the window.
unfoldable pub localization_response : MainProcess → MainProcess
unfolding update_tray
localization_response m = update_tray disconnected m
