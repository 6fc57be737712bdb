-- ===== src/DigitalOcean/Settling.antt =====
-- The installation as a state machine: server_manager/web_app/digitalocean_server.ts.
use pepper_vpn_client.Common.{
  ℕ, ap, ◌-◌, ◌≤◌, true, false, Option, none, some, ◌≡◌, ◌∙◌, refl, inl, inr, arith, Bool-cases,
  is_some, leb,
}
use pepper_vpn_client.ValueStream.{new_stream, is_closed}
use pepper_vpn_client.DigitalOcean.{
  InstallState, unknown, completed, failed, canceled, is_final, DropletInfo, Poller, sleeping,
  fetching, returned, thrown, DigitalOceanServer, set_install_state, set_api_url_and_certificate,
  timeout, update_install_state, refresh_droplet_info, poll_starts, poll_fetched, on_delete,
  new_digital_ocean_server,
}
use pepper_vpn_client.DigitalOcean.Installing.{
  IsSettled, set_fields, set_closed, api_fields, update-Proceeds, update_closed, closed_set_stays,
}

-- What may happen to a server: the loop goes on, its request ends, and the user deletes the server.
pub data Step : DigitalOceanServer → DigitalOceanServer → Type 0 where
  starts : (s : DigitalOceanServer) → s.poller ≡ sleeping → Step s (poll_starts s)
  fetched :
      (s : DigitalOceanServer) (info : Option DropletInfo) (now : ℕ)
      → s.poller ≡ fetching
      → Step s (poll_fetched info now s)
  deleted : (s : DigitalOceanServer) → Step s (on_delete s)

pub data Reach : DigitalOceanServer → DigitalOceanServer → Type 0 where
  here : (s : DigitalOceanServer) → Reach s s
  next : {r s t : DigitalOceanServer} → Reach r s → Step s t → Reach r t

-- Both kinds of update keep a server settled, and a closed server in its state.
record Keeps (s t : DigitalOceanServer) : Type 0 where
  settled : IsSettled t
  stays : is_closed s.install_state ≡ true → t.install_state ≡ s.install_state

same-Keeps :
    (s t : DigitalOceanServer)
    → IsSettled s
    → t.install_state ≡ s.install_state
    → (is_some s.management_api ≡ true → is_some t.management_api ≡ true)
    → Keeps s t
same-Keeps s t h same api = record {
  settled = record { closes = rw same h.closes; has_api = λ e. api (h.has_api (rw same at e)) };
  stays = λ c. same;
}

set-Keeps :
    (state : InstallState) (s : DigitalOceanServer)
    → IsSettled s
    → (state ≡ completed → is_some s.management_api ≡ true)
    → Keeps s (set_install_state state s).0
set-Keeps state s h api = elim (Bool-cases (is_closed s.install_state)) [
  | inl closed ↦ rw (closed_set_stays state s closed) (same-Keeps s s h refl (λ e. e))
  | inr going ↦
      let (fine, value, closes, same) = set_fields state s going in
      record {
        settled = record { closes = rw value closes; has_api = rw (value, same) api };
        stays = λ closed. cc;
      }
]

update-Keeps :
    (now : ℕ) (s : DigitalOceanServer) → IsSettled s → Keeps s (update_install_state now s).0
update-Keeps now s h = elim (Bool-cases (is_closed s.install_state)) [
  | inl closed ↦ elim (update_closed now s closed) [
    | inl e ↦ rw e (same-Keeps s s h refl (λ e. e))
    | inr e ↦
        let (same, _, keeps) = api_fields s in
        rw e (same-Keeps s (set_api_url_and_certificate s).0 h same keeps)
  ]
  | inr going ↦
      let p = update-Proceeds now s h going in
      record { settled = record { closes = p.closes; has_api = p.has_api }; stays = λ closed. cc }
]

-- The poller is no part of what is kept.
poller-Keeps :
    (s t : DigitalOceanServer) (p : Poller) → Keeps s t → Keeps s (record t { poller = p })
poller-Keeps s t p k = record {
  settled = record { closes = k.settled.closes; has_api = k.settled.has_api };
  stays = k.stays;
}

update_refreshed-Keeps :
    (info : DropletInfo) (now : ℕ) (s : DigitalOceanServer)
    → IsSettled s
    → Keeps s (update_install_state now (refresh_droplet_info info s)).0
unfolding refresh_droplet_info
update_refreshed-Keeps info now s h =
    let k =
      update-Keeps now (refresh_droplet_info info s)
        (record { closes = h.closes; has_api = h.has_api }) in
    record { settled = k.settled; stays = k.stays }

Step-Keeps : {s t : DigitalOceanServer} → Step s t → IsSettled s → Keeps s t
unfolding poll_starts poll_fetched on_delete
Step-Keeps (starts s _) h = poller-Keeps s s _ (same-Keeps s s h refl (λ e. e))
Step-Keeps (fetched s none now _) h =
    poller-Keeps s (set_install_state failed s).0 _ (set-Keeps failed s h (λ e. cc))
Step-Keeps (fetched s (some info) now _) h =
    poller-Keeps s (update_install_state now (refresh_droplet_info info s)).0 _
      (update_refreshed-Keeps info now s h)
Step-Keeps (deleted s) h = elim (Bool-cases (is_closed s.install_state)) [
  | inl closed ↦ rw (closed, on_delete) (same-Keeps s s h refl (λ e. e))
  | inr going ↦ rw (going, on_delete) (set-Keeps canceled s h (λ e. cc))
]

-- In every step of an installation the stream of states stays closed exactly in the final states,
-- and a completed server has its management API.
pub Step-IsSettled : {s t : DigitalOceanServer} → Step s t → IsSettled s → IsSettled t
Step-IsSettled st h = (Step-Keeps st h).settled

Reach-Keeps : {s t : DigitalOceanServer} → Reach s t → IsSettled s → Keeps s t
Reach-Keeps (here s) h = same-Keeps s s h refl (λ e. e)
Reach-Keeps (next {r} {s} {t} calls st) h =
    let before = Reach-Keeps calls h in
    let after = Step-Keeps st before.settled in
    record {
      settled = after.settled;
      stays = λ closed. let same = before.stays closed in after.stays (rw same closed) ∙ same;
    }

-- A new server is settled, whatever its droplet is.
pub new_digital_ocean_server-IsSettled :
    (info : DropletInfo) (now : ℕ) → IsSettled (new_digital_ocean_server info now)
unfolding new_digital_ocean_server poll_starts new_stream is_closed
new_digital_ocean_server-IsSettled info now =
    let initial : DigitalOceanServer = record {
      install_state = new_stream unknown;
      droplet_info = info;
      start_timestamp = now;
      management_api = none;
      droplet_is_active = false;
      poller = sleeping;
    } in
    let k = update-Keeps now initial (record { closes = refl; has_api = λ e. cc }) in
    record { closes = k.settled.closes; has_api = k.settled.has_api }

-- Once a settled installation is completed, failed or canceled, no steps change its state.
pub final_stays :
    (s t : DigitalOceanServer)
    → Reach s t
    → IsSettled s
    → is_final s.install_state.value ≡ true
    → t.install_state.value ≡ s.install_state.value
final_stays s t calls h final = ap (λ i. i.value) ((Reach-Keeps calls h).stays (h.closes ∙ final))

update_late :
    (now : ℕ) (s : DigitalOceanServer)
    → timeout ≤ now - s.start_timestamp
    → update_install_state now s ≡ set_install_state failed s
unfolding update_install_state
update_late now s late =
    let over : leb timeout (now - s.start_timestamp) ≡ true = ground arith in ground (arith, over)

-- A request that ends five minutes after the start or later ends a settled installation that is
-- still going on, as failed, and the loop returns.
pub timeout_ends :
    (info : Option DropletInfo) (now : ℕ) (s : DigitalOceanServer)
    → IsSettled s
    → is_final s.install_state.value ≡ false
    → timeout ≤ now - s.start_timestamp
    → ((poll_fetched info now s).install_state.value ≡ failed)
      × ((poll_fetched info now s).poller ≡ returned)
unfolding poll_fetched refresh_droplet_info
timeout_ends none now s h going late =
    let (fine, value, closes, _) = set_fields failed s (h.closes ∙ going) in
    rw (fine, poll_fetched) (value, refl)
timeout_ends (some info) now s h going late =
    let r = refresh_droplet_info info s in
    let (fine, value, closes, _) = set_fields failed r (h.closes ∙ going) in
    let same = update_late now r late in
    let fine' = ap (λ u. u.1) same ∙ fine in
    let closes' = ap (λ u. is_closed u.0.install_state) same ∙ closes in
    rw (fine', closes', poll_fetched) (ap (λ u. u.0.install_state.value) same ∙ value, refl)

-- When a settled server that is still being installed is deleted while a request is on its way, and
-- the request fails, the loop ends with the error of a closed stream; the state stays canceled.
pub deleted_poll_throws :
    (now : ℕ) (s : DigitalOceanServer)
    → IsSettled s
    → is_final s.install_state.value ≡ false
    → ((poll_fetched none now (on_delete s)).poller ≡ thrown "Cannot change a closed value stream")
      × ((poll_fetched none now (on_delete s)).install_state.value ≡ canceled)
unfolding poll_fetched on_delete
deleted_poll_throws now s h going =
    let (fine, value, closes, _) = set_fields canceled s (h.closes ∙ going) in
    let late = set_closed failed (set_install_state canceled s).0 closes in
    let open_before : is_closed s.install_state ≡ false = h.closes ∙ going in
    rw (open_before, on_delete) (rw (late, poll_fetched) (refl, value))
