-- ===== src/DigitalOcean/Completing.antt =====
-- When an installation counts as completed: server_manager/web_app/digitalocean_server.ts.
use pepper_vpn_client.Common.{
  ℕ, ap, sym, ◌-◌, ◌<◌, true, false, some, ◌≡◌, ◌≢◌, ◌↔◌, ◌∙◌, inl, inr, arith, leb,
}
use pepper_vpn_client.Common.Exec.{ok, Result-cases}
use pepper_vpn_client.Common.Units.{Units, find_tag, is_nonempty}
use pepper_vpn_client.ValueStream.{is_closed}
use pepper_vpn_client.DigitalOcean.{
  InstallState, droplet_created, droplet_running, certificate_created, completed, failed, is_final,
  DropletInfo, DigitalOceanServer, set_install_state, set_api_url_and_certificate, timeout,
  update_from_tags, update_install_state, refresh_droplet_info, poll_fetched,
}
use pepper_vpn_client.DigitalOcean.Tags.{
  get_tag_map, install_error_tag, get_certificate_fingerprint, get_management_api_address,
}
use pepper_vpn_client.DigitalOcean.Installing.{IsSettled, set_fields, api_fields}

set_value_of :
    (state : InstallState) (s : DigitalOceanServer)
    → is_closed s.install_state ≡ false
    → (set_install_state state s).0.install_state.value ≡ state
set_value_of state s going = let (_, value, _, _) = set_fields state s going in value

tags_not_completed :
    (s : DigitalOceanServer)
    → is_closed s.install_state ≡ false
    → s.install_state.value ≢ completed
    → (update_from_tags s).0.install_state.value ≢ completed
unfolding update_from_tags
tags_not_completed s going before done = ground (
  arith,
  set_value_of certificate_created s going,
  set_value_of droplet_running s going,
  set_value_of droplet_created s going,
)

api_found :
    (s : DigitalOceanServer)
    → (set_api_url_and_certificate s).1 ≡ true
    → (fingerprint : Units) × (address : Units) × (get_certificate_fingerprint s.droplet_info.tags
        ≡ ok fingerprint)
      × (get_management_api_address s.droplet_info.tags s.droplet_info.v4 ≡ ok address)
unfolding set_api_url_and_certificate
api_found s found = elim (Result-cases (get_certificate_fingerprint s.droplet_info.tags)) [
  | inr (e, missing) ↦ absurd (ground arith)
  | inl (fingerprint, f) ↦
      elim (Result-cases (get_management_api_address s.droplet_info.tags s.droplet_info.v4)) [
        | inr (e, missing) ↦ absurd (ground arith)
        | inl (address, a) ↦ (fingerprint, address, f, a)
      ]
]

found_api :
    (s : DigitalOceanServer) (fingerprint address : Units)
    → get_certificate_fingerprint s.droplet_info.tags ≡ ok fingerprint
    → get_management_api_address s.droplet_info.tags s.droplet_info.v4 ≡ ok address
    → (set_api_url_and_certificate s).1 ≡ true
unfolding set_api_url_and_certificate
found_api s fingerprint address f a = ground arith

update_completed :
    (now : ℕ) (s : DigitalOceanServer)
    → is_closed s.install_state ≡ false
    → s.install_state.value ≢ completed
    → ((update_install_state now s).0.install_state.value ≡ completed) ↔ (
        (is_nonempty (find_tag (get_tag_map s.droplet_info.tags) install_error_tag) ≡ false)
        × (leb timeout (now - s.start_timestamp) ≡ false)
        × ((set_api_url_and_certificate s).1 ≡ true))
unfolding update_install_state
update_completed now s going before =
    let s' = (set_api_url_and_certificate s).0 in
    let same = (api_fields s).0 in
    let going' : is_closed s'.install_state ≡ false = ap is_closed same ∙ going in
    let before' : s'.install_state.value ≢ completed =
      λ e. before (sym (ap (λ i. i.value) same) ∙ e) in
    let fails = set_value_of failed s going in
    let completes = set_value_of completed s' going' in
    let rest = tags_not_completed s' going' before' in
    (
      λ done. ground (arith, fails, completes, rest),
      λ (fine, early, found). ground (arith, completes),
    )

-- A request that gives a droplet completes a settled installation that is still going on exactly if
-- the droplet has no error tag, five minutes have not passed, and its tags give a fingerprint and
-- an address.
pub completed_iff :
    (info : DropletInfo) (now : ℕ) (s : DigitalOceanServer)
    → IsSettled s
    → is_final s.install_state.value ≡ false
    → ((poll_fetched (some info) now s).install_state.value ≡ completed) ↔ (
        (is_nonempty (find_tag (get_tag_map info.tags) install_error_tag) ≡ false)
        × (now - s.start_timestamp < timeout)
        × (fingerprint : Units) × (address : Units) × (get_certificate_fingerprint info.tags
            ≡ ok fingerprint)
        × (get_management_api_address info.tags info.v4 ≡ ok address))
unfolding poll_fetched refresh_droplet_info
completed_iff info now s h going =
    let r = refresh_droplet_info info s in
    let open_before : is_closed r.install_state ≡ false = h.closes ∙ going in
    let (to, from) = update_completed now r open_before (λ e. ground arith) in
    (
      λ done.
          let (fine, early, found) = to done in
          let (fingerprint, address, f, a) = api_found r found in
          (fine, ground arith, fingerprint, address, f, a),
      λ (fine, early, fingerprint, address, f, a).
          from (fine, ground arith, found_api r fingerprint address f a),
    )
