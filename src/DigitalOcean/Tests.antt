-- ===== src/DigitalOcean/Tests.antt =====
-- Installations of server_manager/web_app/digitalocean_server.ts.
use pepper_vpn_client.Common.{◌-◌, ◌<◌, true, false, some, [], ◌∷◌, ◌≡◌, ◌↔◌, refl, arith}
use pepper_vpn_client.Common.Exec.{ok}
use pepper_vpn_client.Common.Units.{
  Units, units, find_tag, is_nonempty, ends_with, same_units, to_lower_case, until, behind, set_tag,
}
use pepper_vpn_client.HexEncoding.{hex_to_string}
use pepper_vpn_client.ValueStream.{new_stream, is_closed}
use pepper_vpn_client.DigitalOcean.{
  completed, is_final, DropletInfo, fetching, DigitalOceanServer, timeout, poll_starts,
  poll_fetched, on_delete, new_digital_ocean_server,
}
use pepper_vpn_client.DigitalOcean.Tags.{
  get_tag_map, install_error_tag, get_certificate_fingerprint, get_management_api_address,
  with_slash,
}
use pepper_vpn_client.DigitalOcean.Installing.{IsSettled}
use pepper_vpn_client.DigitalOcean.Settling.{
  fetched, deleted, here, next, Step-IsSettled, new_digital_ocean_server-IsSettled, final_stays,
}
use pepper_vpn_client.DigitalOcean.Completing.{completed_iff}

abbrev fresh_droplet : DropletInfo
fresh_droplet = record { status = "new"; tags = []; v4 = [] }

-- fingerprint "A", address "h"
abbrev installed_droplet : DropletInfo
installed_droplet = record {
  status = "active";
  tags = units "kv:certsha256:41" ∷ units "KV:apiurl:68" ∷ [];
  v4 = [];
}

abbrev server : DigitalOceanServer
server = new_digital_ocean_server fresh_droplet 0

server-IsSettled : IsSettled server
server-IsSettled = new_digital_ocean_server-IsSettled fresh_droplet 0

server_fetches : server.poller ≡ fetching
unfolding new_digital_ocean_server poll_starts is_closed find_tag get_tag_map
    get_certificate_fingerprint new_stream
server_fetches = refl

server_is_installing : is_final server.install_state.value ≡ false
unfolding new_digital_ocean_server poll_starts find_tag get_tag_map get_certificate_fingerprint
    new_stream
server_is_installing = refl

address_found :
    get_management_api_address installed_droplet.tags installed_droplet.v4 ≡ ok (units "h/")
unfolding get_management_api_address find_tag same_units to_lower_case units behind hex_to_string
    until set_tag with_slash ends_with
address_found = refl

-- A request for the installed droplet, after a second.
abbrev installed : DigitalOceanServer
installed = poll_fetched (some installed_droplet) 1000 server

completed_iff_example : (installed.install_state.value ≡ completed) ↔ (
    (is_nonempty (find_tag (get_tag_map installed_droplet.tags) install_error_tag) ≡ false)
    × (1000 - server.start_timestamp < timeout)
    × (fingerprint : Units) × (address : Units) × (get_certificate_fingerprint
          installed_droplet.tags
        ≡ ok fingerprint)
    × (get_management_api_address installed_droplet.tags installed_droplet.v4 ≡ ok address))
completed_iff_example =
    completed_iff installed_droplet 1000 server server-IsSettled server_is_installing

no_error_tag : is_nonempty (find_tag (get_tag_map installed_droplet.tags) install_error_tag) ≡ false
unfolding get_tag_map find_tag same_units to_lower_case units behind hex_to_string until set_tag
no_error_tag = refl

fingerprint_found : get_certificate_fingerprint installed_droplet.tags ≡ ok (units "A")
unfolding get_certificate_fingerprint find_tag same_units to_lower_case units behind hex_to_string
    until set_tag
fingerprint_found = refl

server_start : server.start_timestamp ≡ 0
unfolding new_digital_ocean_server find_tag get_tag_map get_certificate_fingerprint
server_start = refl

installed_is_completed : installed.install_state.value ≡ completed
installed_is_completed = completed_iff_example.1 (
  no_error_tag,
  ground (arith, server_start),
  units "A",
  units "h/",
  fingerprint_found,
  address_found,
)

installed-IsSettled : IsSettled installed
installed-IsSettled =
    Step-IsSettled (fetched server (some installed_droplet) 1000 server_fetches) server-IsSettled

installed_is_final : is_final installed.install_state.value ≡ true
installed_is_final = rw installed_is_completed refl

final_stays_example : (on_delete installed).install_state.value ≡ installed.install_state.value
final_stays_example =
    final_stays installed (on_delete installed) (next (here installed) (deleted installed))
      installed-IsSettled installed_is_final
