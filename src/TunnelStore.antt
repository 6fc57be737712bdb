-- ===== src/TunnelStore.antt =====
-- src/electron/tunnel_store.ts: the tunnel that Electron's main process connects to again at login.
-- The store is one file; whether the system writes or deletes it is an argument.
pub mod Saved
mod Tests
use pepper_vpn_client.Common.{
  ℕ, String, Bool, true, false, Option, none, some, ◌&&◌, not, ◌==◌, if◌then◌else◌,
}
use pepper_vpn_client.Common.Exec.{Result, ok, err}
use pepper_vpn_client.Common.Text.{is_truthy}
use pepper_vpn_client.AccessKey.{ShadowsocksSessionConfig}

-- `SerializableTunnel`; what JSON gives may lack any field.
pub record SerializableTunnel : Type 0 where
  pub id : Option String
  pub config : Option ShadowsocksSessionConfig

-- JSON at that type. An error is a message.
pub record TunnelJson : Type 0 where
  pub stringify : SerializableTunnel → String
  pub parse : String → Result String SerializableTunnel

-- How a promise of the store ends. An error that is thrown in the callback of `readFile` does not
-- reject the promise: it is uncaught, and the promise stays pending.
pub data Outcome {ℓ} (A : Type ℓ) : Type ℓ where
  fulfilled : A → Outcome A
  rejected : String → Outcome A
  uncaught : String → Outcome A

unfoldable pub is_valid_port : Option ℕ → Bool
is_valid_port none = false
is_valid_port (some p) = not (p == 0)

-- `isTunnelValid`
unfoldable pub is_tunnel_valid : SerializableTunnel → Bool
unfolding is_valid_port
is_tunnel_valid tunnel = elim tunnel.config [
  | none ↦ false
  | some config ↦
      is_truthy tunnel.id
      && is_truthy config.method
      && is_truthy config.password
      && is_truthy config.host
      && is_valid_port config.port
]

module _ (json : TunnelJson) where
  -- `save`, from and to the content of the file
  unfoldable pub save_tunnel :
      Result String (Unit {0})
      → SerializableTunnel
      → Option String
      → Option String × Outcome (Unit {0})
  unfolding is_tunnel_valid
  save_tunnel write tunnel file =
      if is_tunnel_valid tunnel
      then (elim write [
        | ok _ ↦ (some (json.stringify tunnel), fulfilled tt)
        | err message ↦ (file, rejected message)
      ])
      else (file, rejected "Cannot save invalid tunnel")

  -- `load`; a file that is not there is as one of length 0.
  unfoldable pub load_tunnel : Option String → Outcome SerializableTunnel
  unfolding is_tunnel_valid
  load_tunnel file = elim file [
    | none ↦ rejected "no file"
    | some text ↦
        if is_truthy (some text)
        then (elim (json.parse text) [
          | err message ↦ uncaught message
          | ok tunnel ↦
              if is_tunnel_valid tunnel
              then fulfilled tunnel
              else rejected "Cannot load invalid tunnel"
        ])
        else rejected "no file"
  ]

-- `clear`. With no file the promise is fulfilled, and the call of `unlink` that follows is in vain.
unfoldable pub clear_tunnel :
    Result String (Unit {0}) → Option String → Option String × Outcome (Unit {0})
clear_tunnel unlink none = (none, fulfilled tt)
clear_tunnel (ok _) (some text) = (none, fulfilled tt)
clear_tunnel (err message) (some text) = (some text, rejected message)
