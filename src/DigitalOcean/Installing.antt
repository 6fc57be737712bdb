-- ===== src/DigitalOcean/Installing.antt =====
-- One update of the installation: server_manager/web_app/digitalocean_server.ts.
use pepper_vpn_client.Common.{
  ℕ, ◌⊎◌, ap, str_eq, ◌-◌, String, true, false, ◌≡◌, ◌⊎◌, refl, inl, inr, arith, Bool-cases,
  Option-cases, is_some, leb,
}
use pepper_vpn_client.Common.Exec.{Result, ok, err}
use pepper_vpn_client.Common.Units.{find_tag, is_nonempty}
use pepper_vpn_client.ValueStream.{is_closed, set_value, close}
use pepper_vpn_client.DigitalOcean.{
  InstallState, droplet_created, droplet_running, certificate_created, completed, failed, is_final,
  DigitalOceanServer, set_install_state, set_api_url_and_certificate, timeout, update_from_tags,
  update_install_state,
}
use pepper_vpn_client.DigitalOcean.Tags.{
  certificate_fingerprint_tag, install_started_tag, get_tag_map, install_error_tag,
}

-- What holds between any two steps: the stream is closed exactly in the final states, and a
-- completed server has its management API.
pub record IsSettled (server : DigitalOceanServer) : Type 0 where
  pub closes : is_closed server.install_state ≡ is_final server.install_state.value
  pub has_api : server.install_state.value ≡ completed → is_some server.management_api ≡ true

pub set_fields :
    (state : InstallState) (server : DigitalOceanServer)
    → is_closed server.install_state ≡ false
    → ((set_install_state state server).1 ≡ ok tt)
      × ((set_install_state state server).0.install_state.value ≡ state)
      × (is_closed (set_install_state state server).0.install_state ≡ is_final state)
      × ((set_install_state state server).0.management_api ≡ server.management_api)
unfolding set_install_state set_value is_closed close
set_fields state server going = elim (Option-cases server.install_state.wakers) [
  | inl shut ↦ absurd (ground arith)
  | inr (wakers, still) ↦ (ground arith, ground arith, ground arith, ground arith)
]

pub set_closed :
    (state : InstallState) (server : DigitalOceanServer)
    → is_closed server.install_state ≡ true
    → set_install_state state server ≡ (server, err "Cannot change a closed value stream")
unfolding set_install_state set_value is_closed
set_closed state server closed = ground arith

pub api_fields :
    (server : DigitalOceanServer)
    → ((set_api_url_and_certificate server).0.install_state ≡ server.install_state)
      × ((set_api_url_and_certificate server).1 ≡ true
          → is_some (set_api_url_and_certificate server).0.management_api ≡ true)
      × (is_some server.management_api ≡ true
          → is_some (set_api_url_and_certificate server).0.management_api ≡ true)
unfolding set_api_url_and_certificate
api_fields server = (ground arith, λ h. ground arith, λ h. ground arith)

-- What a step leaves of a settled server that is still installing.
pub record Proceeds (server : DigitalOceanServer) (result : Result String (Unit {0})) : Type 0 where
  pub fine : result ≡ ok tt
  pub closes : is_closed server.install_state ≡ is_final server.install_state.value
  pub has_api : server.install_state.value ≡ completed → is_some server.management_api ≡ true

set-Proceeds :
    (state : InstallState) (server : DigitalOceanServer)
    → is_closed server.install_state ≡ false
    → (state ≡ completed → is_some server.management_api ≡ true)
    → Proceeds (set_install_state state server).0 (set_install_state state server).1
set-Proceeds state server going api =
    let (fine, value, closes, same) = set_fields state server going in
    record { fine = fine; closes = rw value closes; has_api = rw (value, same) api }

tags-Proceeds :
    (server : DigitalOceanServer)
    → IsSettled server
    → is_closed server.install_state ≡ false
    → Proceeds (update_from_tags server).0 (update_from_tags server).1
unfolding update_from_tags
tags-Proceeds server settled going =
    let tags = get_tag_map server.droplet_info.tags in
    elim (Bool-cases (is_nonempty (find_tag tags certificate_fingerprint_tag))) [
      | inl h ↦ rw (h, update_from_tags) (set-Proceeds certificate_created server going (λ e. cc))
      | inr h ↦ elim (Bool-cases (is_nonempty (find_tag tags install_started_tag))) [
        | inl k ↦ rw (h, k, update_from_tags) (set-Proceeds droplet_running server going (λ e. cc))
        | inr k ↦ elim (Bool-cases (str_eq server.droplet_info.status "active")) [
          | inl l ↦
              rw (h, k, l, update_from_tags) (set-Proceeds droplet_created server going (λ e. cc))
          | inr l ↦
              rw (h, k, l, update_from_tags)
                (record { fine = refl; closes = settled.closes; has_api = settled.has_api })
        ]
      ]
    ]

pub update-Proceeds :
    (now : ℕ) (server : DigitalOceanServer)
    → IsSettled server
    → is_closed server.install_state ≡ false
    → Proceeds (update_install_state now server).0 (update_install_state now server).1
unfolding update_install_state
update-Proceeds now server settled going =
    let tags = get_tag_map server.droplet_info.tags in
    let server' = (set_api_url_and_certificate server).0 in
    let (same, gives, keeps) = api_fields server in
    let going' : is_closed server'.install_state ≡ false = rw same going in
    elim (Bool-cases (is_nonempty (find_tag tags install_error_tag))) [
      | inl h ↦ rw (h, update_install_state) (set-Proceeds failed server going (λ e. cc))
      | inr h ↦ elim (Bool-cases (leb timeout (now - server.start_timestamp))) [
        | inl k ↦ rw (h, k, update_install_state) (set-Proceeds failed server going (λ e. cc))
        | inr k ↦ elim (Bool-cases (set_api_url_and_certificate server).1) [
          | inl l ↦
              rw (h, k, l, update_install_state)
                (set-Proceeds completed server' going' (λ e. gives l))
          | inr l ↦
              rw (h, k, l, update_install_state)
                (tags-Proceeds server'
                  (record {
                    closes = rw same settled.closes;
                    has_api = λ e. keeps (settled.has_api (rw same at e));
                  })
                  going')
        ]
      ]
    ]

-- A closed stream stays as it is, whatever the tags say.
pub closed_set_stays :
    (state : InstallState) (server : DigitalOceanServer)
    → is_closed server.install_state ≡ true
    → (set_install_state state server).0 ≡ server
closed_set_stays state server closed = ap (λ r. r.0) (set_closed state server closed)

tags_closed :
    (server : DigitalOceanServer)
    → is_closed server.install_state ≡ true
    → (update_from_tags server).0 ≡ server
unfolding update_from_tags
tags_closed server closed = ground (
  arith,
  closed_set_stays certificate_created server closed,
  closed_set_stays droplet_running server closed,
  closed_set_stays droplet_created server closed,
)

pub update_closed :
    (now : ℕ) (server : DigitalOceanServer)
    → is_closed server.install_state ≡ true
    → ((update_install_state now server).0 ≡ server)
      ⊎ ((update_install_state now server).0 ≡ (set_api_url_and_certificate server).0)
unfolding update_install_state
update_closed now server closed =
    let server' = (set_api_url_and_certificate server).0 in
    let closed' : is_closed server'.install_state ≡ true = rw (api_fields server).0 closed in
    let kept = closed_set_stays failed server closed in
    let done = closed_set_stays completed server' closed' in
    let rest = tags_closed server' closed' in ground (arith, kept, done, rest)
