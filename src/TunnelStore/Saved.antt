-- ===== src/TunnelStore/Saved.antt =====
-- What the store gives back: src/electron/tunnel_store.ts.
use pepper_vpn_client.Common.{String, true, Option, none, some, ◌≡◌, ◌↔◌, refl, arith}
use pepper_vpn_client.Common.Exec.{Result, ok, err}
use pepper_vpn_client.Common.Text.{is_truthy}
use pepper_vpn_client.TunnelStore.{
  SerializableTunnel, TunnelJson, fulfilled, rejected, is_tunnel_valid, save_tunnel, load_tunnel,
  clear_tunnel,
}

module _ (json : TunnelJson) where
  -- Where JSON reads back the tunnel that it has written, saving succeeds exactly if the tunnel is
  -- valid, the file can be written, and loading then gives the tunnel.
  pub save_tunnel_iff :
      (write : Result String (Unit {0})) (tunnel : SerializableTunnel) (file : Option String)
      → json.parse (json.stringify tunnel) ≡ ok tunnel
      → is_truthy (some (json.stringify tunnel)) ≡ true
      → ((save_tunnel json write tunnel file).1 ≡ fulfilled tt) ↔ (
          (is_tunnel_valid tunnel ≡ true)
          × (write ≡ ok tt)
          × (load_tunnel json (save_tunnel json write tunnel file).0 ≡ fulfilled tunnel))
  unfolding save_tunnel load_tunnel
  save_tunnel_iff (ok tt) tunnel file back text =
      (λ h. (ground arith, refl, ground arith), λ (valid, _, _). ground arith)
  save_tunnel_iff (err message) tunnel file back text =
      (λ h. absurd (ground arith), λ (valid, written, _). cc)

  -- Only a valid tunnel is loaded. After `clear` one is loaded only if the deletion has failed, and
  -- then `clear` has rejected with that error.
  pub load_tunnel_valid :
      (unlink : Result String (Unit {0})) (file : Option String) (tunnel : SerializableTunnel)
      → load_tunnel json (clear_tunnel unlink file).0 ≡ fulfilled tunnel
      → (is_tunnel_valid tunnel ≡ true)
        × (message : String) × (unlink ≡ err message)
        × ((clear_tunnel unlink file).1 ≡ rejected message)
  unfolding load_tunnel clear_tunnel
  load_tunnel_valid unlink none tunnel loaded = cc
  load_tunnel_valid (ok tt) (some text) tunnel loaded = cc
  load_tunnel_valid (err message) (some text) tunnel loaded = (ground arith, message, refl, refl)
