-- ===== src/MainProcess/Starting.antt =====
-- Starting a tunnel in src/electron/index.ts, one step at a time.
use pepper_vpn_client.Common.{
  Option-cases, refl, Bool-cases, Bool, Option, inr, inl, arith, ℕ, String, true, some, none, ◌≡◌,
}
use pepper_vpn_client.MainProcess.{
  ShadowsocksSessionConfig, is_connected, connected, TunnelStatus, SerializableTunnel, TunnelJson,
  fulfilled, MainProcess, start_vpn, set_ui_tunnel_status, update_tray, create_tunnel,
  setup_auto_launch,
}
use pepper_vpn_client.Common.Exec.{Result, ok}
use pepper_vpn_client.Errors.{Thrown}
use pepper_vpn_client.TunnelStore.{is_tunnel_valid, save_tunnel}
use pepper_vpn_client.MainProcess.Proxying.{with_host}

pub saved_twice :
    (json : TunnelJson) (tunnel : SerializableTunnel) (file : Option String)
    → is_tunnel_valid tunnel ≡ true
    → (save_tunnel json (ok tt) tunnel file ≡ (some (json.stringify tunnel), fulfilled tt))
unfolding save_tunnel
saved_twice json tunnel file valid = ground arith

pub valid_config :
    (tunnel : SerializableTunnel)
    → is_tunnel_valid tunnel ≡ true
    → (config : ShadowsocksSessionConfig) × (tunnel.config ≡ some config)
unfolding is_tunnel_valid
valid_config tunnel valid = elim (Option-cases tunnel.config) [
  | inl absent ↦ absurd (ground arith)
  | inr (config, there) ↦ (config, there)
]

pub begun :
    (meanwhile : MainProcess → MainProcess) (connects : Result Thrown (Unit {0}))
    (given : Option ShadowsocksSessionConfig) (config : ShadowsocksSessionConfig) (id : String)
    (auto : Bool) (m : MainProcess)
    → m.current_tunnel ≡ none
    → given ≡ some config
    → connects ≡ ok tt
    → ((start_vpn meanwhile connects given id auto m).0
        ≡ set_ui_tunnel_status connected id (meanwhile (create_tunnel config auto id m)))
      × ((start_vpn meanwhile connects given id auto m).1 ≡ ok tt)
unfolding start_vpn
begun meanwhile connects given config id auto m free is joins =
    rw (free, start_vpn) (rw (is, start_vpn) (rw (joins, start_vpn) (refl, refl)))

pub set_up :
    (json : TunnelJson) (can_launch : Bool) (tunnel : SerializableTunnel) (m : MainProcess)
    → is_tunnel_valid tunnel ≡ true
    → ((setup_auto_launch json (ok tt) can_launch tunnel m).current_tunnel ≡ m.current_tunnel)
      × ((setup_auto_launch json (ok tt) can_launch tunnel m).configs ≡ m.configs)
      × ((setup_auto_launch json (ok tt) can_launch tunnel m).auto_connects ≡ m.auto_connects)
unfolding setup_auto_launch
set_up json can_launch tunnel m valid =
    rw (saved_twice json tunnel m.file valid, setup_auto_launch) (refl, refl, refl)

pub shown_current :
    (status : TunnelStatus) (id : String) (m : MainProcess)
    → ((set_ui_tunnel_status status id m).current_tunnel ≡ m.current_tunnel)
      × ((set_ui_tunnel_status status id m).ids ≡ m.ids)
      × ((set_ui_tunnel_status status id m).tray_is_connected ≡ is_connected status)
      × ((set_ui_tunnel_status status id m).created ≡ m.created)
      × ((set_ui_tunnel_status status id m).configs ≡ m.configs)
      × ((set_ui_tunnel_status status id m).auto_connects ≡ m.auto_connects)
unfolding set_ui_tunnel_status update_tray
shown_current status id m = elim (Bool-cases m.has_window) [
  | inl shown ↦ rw (shown, set_ui_tunnel_status) (refl, refl, refl, refl, refl, refl)
  | inr closed ↦ rw (closed, set_ui_tunnel_status) (refl, refl, refl, refl, refl, refl)
]

pub has_config :
    (host : String) (tunnel : SerializableTunnel) (config : ShadowsocksSessionConfig)
    → (with_host host tunnel).config ≡ some config
    → (given : ShadowsocksSessionConfig) × (tunnel.config ≡ some given)
has_config host tunnel config is = elim (Option-cases tunnel.config) [
  | inl absent ↦ absurd (ground arith)
  | inr (given, there) ↦ (given, there)
]

-- The tunnel that is created has what it was created with, and is the current one.
pub created_own :
    (config : ShadowsocksSessionConfig) (auto : Bool) (id : String) (m : MainProcess) (n : ℕ)
    → m.created ≡ n
    → ((create_tunnel config auto id m).current_tunnel ≡ some n)
      × ((create_tunnel config auto id m).ids n ≡ id)
      × ((create_tunnel config auto id m).configs n ≡ some config)
      × ((create_tunnel config auto id m).auto_connects n ≡ auto)
unfolding create_tunnel
created_own config auto id m n same = (ground arith, ground arith, ground arith, ground arith)
