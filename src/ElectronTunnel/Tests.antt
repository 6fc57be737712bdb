-- ===== src/ElectronTunnel/Tests.antt =====
-- Runs of src/www/app/electron_outline_tunnel.ts.
use pepper_vpn_client.ElectronTunnel.Hearing.{
  disconnections-le-starts, asked_to_start, disconnections,
}
use pepper_vpn_client.ElectronTunnel.{
  connected, stop_proxying, proxy_disconnects, start_proxying, proxy_connects, start_answers,
  starts, new_electron_tunnel, listens, stops, run, Event,
}
use pepper_vpn_client.Common.{◌≤◌, List, [], ◌∷◌, ◌≡◌, refl}

abbrev connected_once : List Event
connected_once = listens ∷ starts ∷ start_answers 0 ∷ []

disconnections-le-starts_example :
    disconnections (run connected_once new_electron_tunnel).heard
    ≤ asked_to_start (run connected_once new_electron_tunnel).invoked
disconnections-le-starts_example = disconnections-le-starts connected_once

test_stop :
    (run (starts ∷ start_answers 0 ∷ stops ∷ []) new_electron_tunnel).invoked
    ≡ start_proxying ∷ stop_proxying ∷ []
unfolding run
test_stop = refl

test_started_at_boot :
    (run (listens ∷ proxy_connects ∷ proxy_disconnects ∷ []) new_electron_tunnel).heard
    ≡ connected ∷ []
unfolding run
test_started_at_boot = refl
