-- ===== src/Gcp/Installing.antt =====
-- One step of an installation: server_manager/web_app/gcp_server.ts.
use pepper_vpn_client.Common.{
  String, true, false, Option, some, ◌≡◌, refl, inl, inr, arith, Bool-cases, Option-cases, is_some,
}
use pepper_vpn_client.Common.Map
use pepper_vpn_client.Common.Map.{Entries}
use pepper_vpn_client.Common.Exec.{Result, ok, err, Result-cases}
use pepper_vpn_client.ValueStream.{is_closed, set_value, close}
use pepper_vpn_client.Gcp.{
  InstallState, instance_created, ip_allocated, instance_running, certificate_created, completed,
  failed, canceled, is_final, Readiness, checking_ip, ready, Poller, GcpServer, set_install_state,
  creation_fails, poll_starts, ip_is_allocated, instance_is_created, read_progress, read_attributes,
  poll_fetched, on_delete,
}

-- What holds between any two steps: the stream is closed exactly in the final states, and a
-- completed server has its management API.
pub record IsSettled (server : GcpServer) : Type 0 where
  pub closes : is_closed server.install_state ≡ is_final server.install_state.value
  pub has_api : server.install_state.value ≡ completed → is_some server.management_api ≡ true

-- What a step does to a settled server: it stays settled, and in a final state.
pub record Keeps (s t : GcpServer) : Type 0 where
  pub settled : IsSettled t
  pub stays : is_closed s.install_state ≡ true → t.install_state.value ≡ s.install_state.value

set_going :
    (state : InstallState) (s : GcpServer)
    → is_closed s.install_state ≡ false
    → ((set_install_state state s).0.install_state.value ≡ state)
      × (is_closed (set_install_state state s).0.install_state ≡ is_final state)
      × ((set_install_state state s).0.management_api ≡ s.management_api)
unfolding set_install_state set_value is_closed close
set_going state s going = elim (Option-cases s.install_state.wakers) [
  | inl shut ↦ absurd (ground arith)
  | inr (wakers, still) ↦ (ground arith, ground arith, ground arith)
]

set_shut :
    (state : InstallState) (s : GcpServer)
    → is_closed s.install_state ≡ true
    → (set_install_state state s).0 ≡ s
unfolding set_install_state set_value is_closed
set_shut state s closed = ground arith

pub same-Keeps : (s : GcpServer) → IsSettled s → Keeps s s
same-Keeps s h = record { settled = h; stays = λ c. refl }

set-Keeps :
    (state : InstallState) (s : GcpServer)
    → IsSettled s
    → (state ≡ completed → is_some s.management_api ≡ true)
    → Keeps s (set_install_state state s).0
set-Keeps state s h api = elim (Bool-cases (is_closed s.install_state)) [
  | inl closed ↦ rw (set_shut state s closed) (same-Keeps s h)
  | inr going ↦
      let (value, closes, same) = set_going state s going in
      record {
        settled = record { closes = rw value closes; has_api = rw (value, same) api };
        stays = λ closed. cc;
      }
]

-- The promise and the poller are no part of what is kept.
pub places-Keeps :
    (s t : GcpServer) (r : Readiness) (p : Poller)
    → Keeps s t
    → Keeps s (record t { readiness = r; poller = p })
places-Keeps s t r p k = record {
  settled = record { closes = k.settled.closes; has_api = k.settled.has_api };
  stays = k.stays;
}

-- A server that gets its management API first.
api-Keeps :
    (s t : GcpServer) (api : Option (String × String))
    → IsSettled s
    → is_some api ≡ true
    → Keeps (record s { management_api = api }) t
    → Keeps s t
api-Keeps s t api h given k = record { settled = k.settled; stays = k.stays }

pub fails-Keeps :
    (message : String) (s : GcpServer) → IsSettled s → Keeps s (creation_fails message s)
unfolding creation_fails
fails-Keeps message s h =
    places-Keeps s (set_install_state failed s).0 _ _ (set-Keeps failed s h (λ e. cc))

pub allocated-Keeps : (s : GcpServer) → IsSettled s → Keeps s (ip_is_allocated s)
unfolding ip_is_allocated poll_starts
allocated-Keeps s h = elim (Bool-cases (is_closed s.install_state)) [
  | inl closed ↦ rw (closed, ip_is_allocated) (places-Keeps s s ready s.poller (same-Keeps s h))
  | inr going ↦
      rw (going, ip_is_allocated)
        (places-Keeps s (set_install_state ip_allocated s).0 ready _
          (set-Keeps ip_allocated s h (λ e. cc)))
]

pub created-Keeps :
    (r : Result String (Unit {0})) (s : GcpServer) → IsSettled s → Keeps s (instance_is_created r s)
unfolding instance_is_created
created-Keeps (err message) s h = fails-Keeps message s h
created-Keeps (ok tt) s h = elim (Bool-cases (is_closed s.install_state)) [
  | inl closed ↦ rw (closed, instance_is_created) (places-Keeps s s ready s.poller (same-Keeps s h))
  | inr going ↦
      rw (going, instance_is_created)
        (places-Keeps s (set_install_state instance_created s).0 checking_ip _
          (set-Keeps instance_created s h (λ e. cc)))
]

progress-Keeps :
    (attributes : Entries String) (s : GcpServer)
    → IsSettled s
    → Keeps s (read_progress attributes s).0
unfolding read_progress
progress-Keeps attributes s h = elim (Bool-cases (is_some (Map.get attributes "install-error"))) [
  | inl e ↦ rw (e, read_progress) (set-Keeps failed s h (λ e. cc))
  | inr e ↦ elim (Bool-cases (is_some (Map.get attributes "certSha256"))) [
    | inl c ↦ rw (e, c, read_progress) (set-Keeps certificate_created s h (λ e. cc))
    | inr c ↦ elim (Bool-cases (is_some (Map.get attributes "install-started"))) [
      | inl i ↦ rw (e, c, i, read_progress) (set-Keeps instance_running s h (λ e. cc))
      | inr i ↦ rw (e, c, i, read_progress) (same-Keeps s h)
    ]
  ]
]

completed-Keeps :
    (api : String × String) (s : GcpServer)
    → IsSettled s
    → Keeps s (set_install_state completed (record s { management_api = some api })).0
completed-Keeps api s h =
    api-Keeps s (set_install_state completed (record s { management_api = some api })).0 (some api)
      h refl
      (set-Keeps completed (record s { management_api = some api })
        (record { closes = h.closes; has_api = λ e. refl }) (λ e. refl))

read-Keeps :
    (atob : String → Result String String) (attributes : Entries String) (s : GcpServer)
    → IsSettled s
    → Keeps s (read_attributes atob attributes s).0
unfolding read_attributes
read-Keeps atob attributes s h = elim (Option-cases (Map.get attributes "apiUrl")) [
  | inl no_url ↦ rw (no_url, read_attributes) (progress-Keeps attributes s h)
  | inr (url, u) ↦ elim (Option-cases (Map.get attributes "certSha256")) [
    | inl no_certificate ↦ rw (u, no_certificate, read_attributes) (progress-Keeps attributes s h)
    | inr (certificate, c) ↦ elim (Result-cases (atob certificate)) [
      | inl (fingerprint, f) ↦
          rw (u, c, f, read_attributes) (completed-Keeps (url, fingerprint) s h)
      | inr (message, m) ↦ rw (u, c, m, read_attributes) (same-Keeps s h)
    ]
  ]
]

pub fetched-Keeps :
    (atob : String → Result String String) (r : Result String (Entries String)) (s : GcpServer)
    → IsSettled s
    → Keeps s (poll_fetched atob r s)
unfolding poll_fetched
fetched-Keeps atob (err message) s h = places-Keeps s s s.readiness _ (same-Keeps s h)
fetched-Keeps atob (ok attributes) s h =
    places-Keeps s (read_attributes atob attributes s).0 _ _ (read-Keeps atob attributes s h)

pub deleted-Keeps : (s : GcpServer) → IsSettled s → Keeps s (on_delete s)
unfolding on_delete
deleted-Keeps s h = elim (Bool-cases (is_closed s.install_state)) [
  | inl closed ↦ rw (closed, on_delete) (same-Keeps s h)
  | inr going ↦ rw (going, on_delete) (set-Keeps canceled s h (λ e. cc))
]
