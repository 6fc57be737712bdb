-- ===== src/DigitalOcean.antt =====
-- server_manager/web_app/digitalocean_server.ts: the installation of a server on a droplet. Time is
-- in milliseconds. The loop of `pollInstallState` is seen at its `await`s: while it fetches the
-- droplet, and while it sleeps.
pub mod Tags
pub mod Installing
pub mod Settling
pub mod Completing
mod Tests
use pepper_vpn_client.Common.{
  ℕ, ◌-◌, String, Bool, true, false, Option, none, some, List, [], ◌∷◌, ◌++◌, ◌||◌, ◌&&◌, not,
  if◌then◌else◌, str_eq, leb, ◌==◌,
}
use pepper_vpn_client.Common.Exec.{Result, ok, err}
use pepper_vpn_client.Common.Units.{Units, units, find_tag, is_nonempty}
use pepper_vpn_client.ValueStream.{ValueStream, new_stream, is_closed, set_value, close}
use Tags.{
  Network, get_tag_map, get_certificate_fingerprint, get_management_api_address,
  certificate_fingerprint_tag, install_started_tag, install_error_tag,
}

pub data InstallState : Type 0 where
  unknown droplet_created droplet_running certificate_created : InstallState
  completed failed canceled : InstallState

-- `getCompletionFraction`, in hundredths
unfoldable pub completion_percent : InstallState → ℕ
completion_percent unknown = 10
completion_percent droplet_created = 50
completion_percent droplet_running = 55
completion_percent certificate_created = 60
completion_percent completed = 100
completion_percent _ = 0

abbrev pub is_final : InstallState → Bool
is_final completed = true
is_final failed = true
is_final canceled = true
is_final _ = false

-- `DropletInfo`, as far as the server reads it
pub record DropletInfo : Type 0 where
  pub status : String
  pub tags : List Units
  pub v4 : List Network

-- Where `pollInstallState` is. An error that leaves it is a message.
pub data Poller : Type 0 where
  sleeping fetching returned : Poller
  thrown : String → Poller

-- A `DigitalOceanServer`; `management_api` is the address and the fingerprint of the client that
-- `setManagementApi` got.
pub record DigitalOceanServer : Type 0 where
  pub install_state : ValueStream InstallState
  pub droplet_info : DropletInfo
  pub start_timestamp : ℕ
  pub management_api : Option (Units × Units)
  pub droplet_is_active : Bool
  pub poller : Poller

-- `setInstallState`
unfoldable pub set_install_state :
    InstallState → DigitalOceanServer → DigitalOceanServer × Result String (Unit {0})
set_install_state state server = elim (set_value state server.install_state) [
  | err message ↦ (server, err message)
  | ok stream ↦
      (record server { install_state = if is_final state then close stream else stream }, ok tt)
]

-- `setApiUrlAndCertificate`
unfoldable pub set_api_url_and_certificate : DigitalOceanServer → DigitalOceanServer × Bool
set_api_url_and_certificate server =
    let info = server.droplet_info in
    elim (get_certificate_fingerprint info.tags) [
      | err _ ↦ (server, false)
      | ok fingerprint ↦ elim (get_management_api_address info.tags info.v4) [
        | err _ ↦ (server, false)
        | ok address ↦ (record server { management_api = some (address, fingerprint) }, true)
      ]
    ]

-- `TIMEOUT_MS`
abbrev pub timeout : ℕ
timeout = 300000

-- The branches of `updateInstallState` behind the call of `setApiUrlAndCertificate`.
unfoldable pub update_from_tags : DigitalOceanServer → DigitalOceanServer × Result String (Unit {0})
unfolding set_install_state
update_from_tags server =
    let tags = get_tag_map server.droplet_info.tags in
    if is_nonempty (find_tag tags certificate_fingerprint_tag)
    then set_install_state certificate_created server
    else if is_nonempty (find_tag tags install_started_tag)
    then set_install_state droplet_running server
    else if str_eq server.droplet_info.status "active"
    then set_install_state droplet_created server
    else (server, ok tt)

unfoldable pub update_install_state :
    ℕ → DigitalOceanServer → DigitalOceanServer × Result String (Unit {0})
unfolding set_install_state set_api_url_and_certificate update_from_tags
update_install_state now server =
    let tags = get_tag_map server.droplet_info.tags in
    let (server', found) = set_api_url_and_certificate server in
    if is_nonempty (find_tag tags install_error_tag)
    then set_install_state failed server
    else if leb timeout (now - server.start_timestamp)
    then set_install_state failed server
    else if found
    then set_install_state completed server'
    else update_from_tags server'

-- `refreshDropletInfo`, once the droplet is there
unfoldable pub refresh_droplet_info : DropletInfo → DigitalOceanServer → DigitalOceanServer
refresh_droplet_info info server = record server {
  droplet_info = info;
  droplet_is_active =
      server.droplet_is_active
      || not (str_eq info.status server.droplet_info.status) && str_eq info.status "active";
}

-- the test of the loop, and the request that follows it
unfoldable pub poll_starts : DigitalOceanServer → DigitalOceanServer
poll_starts server = record server {
  poller = if is_closed server.install_state then returned else fetching;
}

-- The rest of a round, once the request has given a droplet or failed.
unfoldable pub poll_fetched : Option DropletInfo → ℕ → DigitalOceanServer → DigitalOceanServer
unfolding set_install_state update_install_state refresh_droplet_info
poll_fetched none now server =
    let (server', result) = set_install_state failed server in
    record server' { poller = elim result [ ok _ ↦ returned | err message ↦ thrown message ] }
poll_fetched (some info) now server =
    let (server', result) = update_install_state now (refresh_droplet_info info server) in
    record server' {
      poller = elim result [
        | ok _ ↦ if is_closed server'.install_state then returned else sleeping
        | err message ↦ thrown message
      ];
    }

-- `onDelete`
unfoldable pub on_delete : DigitalOceanServer → DigitalOceanServer
unfolding set_install_state
on_delete server =
    if is_closed server.install_state then server else (set_install_state canceled server).0

-- The constructor: the first state, and the loop up to its first request.
unfoldable pub new_digital_ocean_server : DropletInfo → ℕ → DigitalOceanServer
unfolding update_install_state poll_starts
new_digital_ocean_server info now =
    poll_starts
      (update_install_state now (record {
        install_state = new_stream unknown;
        droplet_info = info;
        start_timestamp = now;
        management_api = none;
        droplet_is_active = false;
        poller = sleeping;
      })).0
