-- ===== src/Gcp/Tests.antt =====
-- Installations of server_manager/web_app/gcp_server.ts.
use pepper_vpn_client.Common.{◌⊎◌, false, String, true, [], ◌∷◌, ◌≡◌, ◌↔◌, refl}
use pepper_vpn_client.Gcp.{
  is_final, completed, GcpServer, new_gcp_server, checking_ip, fetching, instance_is_created,
  ip_is_checked, poll_fetched, on_delete, RequestError, http_error, Request, delete_static_ip,
  delete_instance, delete_host,
}
use pepper_vpn_client.Common.Map
use pepper_vpn_client.Common.Map.{Entries}
use pepper_vpn_client.Common.Exec.{Result, ok, err}
use pepper_vpn_client.ValueStream.{new_stream, is_closed, set_value, close}
use pepper_vpn_client.Gcp.Installing.{IsSettled}
use pepper_vpn_client.Gcp.Settling.{
  created, checked, fetched, deleted, Reach, here, next, gcp_final_stays,
}
use pepper_vpn_client.Gcp.Deleting.{IsGone, delete_host_iff}

abbrev atob : String → Result String String
atob = λ s. ok s

abbrev with_instance : GcpServer
with_instance = instance_is_created (ok tt) new_gcp_server

abbrev with_address : GcpServer
with_address = ip_is_checked (ok true) with_instance

abbrev installed : GcpServer
installed = poll_fetched atob (ok (("apiUrl", "u") ∷ ("certSha256", "c") ∷ [])) with_address

is_checking : with_instance.readiness ≡ checking_ip
unfolding instance_is_created is_closed new_stream
is_checking = refl

is_fetching : with_address.poller ≡ fetching
unfolding instance_is_created ip_is_checked is_closed new_stream set_value
is_fetching = refl

installed-Reach : Reach atob new_gcp_server installed
installed-Reach =
    next
      (next (next (here new_gcp_server) (created new_gcp_server (ok tt) refl))
        (checked with_instance (ok true) is_checking))
      (fetched with_address (ok (("apiUrl", "u") ∷ ("certSha256", "c") ∷ [])) is_fetching)

installed_state : installed.install_state.value ≡ completed
unfolding instance_is_created ip_is_checked poll_fetched Map.get set_value is_closed new_stream
    close
installed_state = refl

gcp_final_stays_example :
    IsSettled installed
    × ((is_final installed.install_state.value ≡ false)
        ⊎ ((on_delete installed).install_state.value ≡ installed.install_state.value))
gcp_final_stays_example =
    gcp_final_stays atob installed (on_delete installed) installed-Reach
      (next (here installed) (deleted installed))

-- The address was not there, and the instance is deleted.
abbrev answer : Request → Result RequestError (Unit {0})
answer delete_static_ip = err (http_error 404)
answer delete_instance = ok tt

delete_host_iff_example : ((delete_host answer).1 ≡ ok tt) ↔ (
    IsGone (answer delete_static_ip)
    × IsGone (answer delete_instance)
    × ((delete_host answer).0 ≡ delete_static_ip ∷ delete_instance ∷ []))
delete_host_iff_example = delete_host_iff answer
