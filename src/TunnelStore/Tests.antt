-- ===== src/TunnelStore/Tests.antt =====
-- Runs of src/electron/tunnel_store.ts.
use pepper_vpn_client.Common.{String, true, none, some, ◌≡◌, ◌↔◌, refl}
use pepper_vpn_client.Common.Exec.{Result, ok}
use pepper_vpn_client.TunnelStore.{
  SerializableTunnel, TunnelJson, fulfilled, is_tunnel_valid, save_tunnel, load_tunnel,
}
use pepper_vpn_client.TunnelStore.Saved.{save_tunnel_iff}

abbrev tunnel : SerializableTunnel
tunnel = record {
  id = some "a";
  config = some (record {
    host = some "h";
    port = some 443;
    password = some "p";
    method = some "aes-256-gcm";
    prefix = none;
  });
}

abbrev json : TunnelJson
json = record { stringify = λ _. "saved"; parse = λ _. ok tunnel }

save_tunnel_iff_example : ((save_tunnel json (ok tt) tunnel none).1 ≡ fulfilled tt) ↔ (
    (is_tunnel_valid tunnel ≡ true)
    × (Path (Result String (Unit {0})) (ok tt) (ok tt))
    × (load_tunnel json (save_tunnel json (ok tt) tunnel none).0 ≡ fulfilled tunnel))
save_tunnel_iff_example = save_tunnel_iff json (ok tt) tunnel none refl refl
