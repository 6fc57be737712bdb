-- ===== src/ManualServers/Tests.antt =====
-- Runs of server_manager/web_app/manual_server.ts.
use pepper_vpn_client.Common.{sym, ap, some, none, List, [], ◌∷◌, ◌≡◌, refl}
use pepper_vpn_client.HexEncoding.{hex_to_string}
use pepper_vpn_client.ManualServers.{
  create_server, forget_server, ManualServerConfig, ConfigsJson, new_repository, add_server,
}
use pepper_vpn_client.Common.Exec.{ok, err}
use pepper_vpn_client.Common.Units.{units}
use pepper_vpn_client.ManualServers.Kept.{
  call, Call, adds, forgets, calls, load_servers_after_adding,
}

abbrev first : ManualServerConfig
first = record { api_url = "https://1.2.3.4/a"; cert_sha256 = some (units "00ff") }

abbrev second : ManualServerConfig
second = record { api_url = "https://5.6.7.8/b"; cert_sha256 = none }

abbrev json : ConfigsJson
json = record { stringify = λ _. "saved"; parse = λ _. ok (second ∷ []) }

abbrev both : List Call
both = adds first ∷ adds second ∷ adds first ∷ forgets "https://1.2.3.4/a" ∷ []

left : (calls json both (new_repository json none)).servers ≡ second ∷ []
unfolding calls new_repository add_server forget_server create_server hex_to_string units call
left = refl

load_servers_after_adding_example :
    new_repository json (calls json both (new_repository json none)).storage
    ≡ calls json both (new_repository json none)
load_servers_after_adding_example =
    load_servers_after_adding json none both (ap (λ (l : List ManualServerConfig). ok l) (sym left))
      refl

-- A fingerprint of odd length.
refused :
    (add_server json
      (record second { cert_sha256 = some (units "0") })
      (new_repository json none)).1
    ≡ err tt
unfolding add_server new_repository hex_to_string units
refused = refl
