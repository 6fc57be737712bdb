-- ===== src/Gcp.antt =====
-- server_manager/web_app/gcp_server.ts: the installation of a server on GCP, and its deletion. The
-- chain of promises of the constructor and the loop of `pollInstallState` are seen at their `await`s.
pub mod Installing
pub mod Settling
pub mod Deleting
mod Tests
use pepper_vpn_client.Common.{
  ℕ, String, Bool, true, false, Option, none, some, is_some, List, [], ◌∷◌, ◌&&◌, if◌then◌else◌,
  ◌==◌,
}
use pepper_vpn_client.Common.Map
use pepper_vpn_client.Common.Map.{Entries}
use pepper_vpn_client.Common.Exec.{Result, ok, err, ◌>>=◌}
use pepper_vpn_client.ValueStream.{ValueStream, new_stream, is_closed, set_value, close}

pub data InstallState : Type 0 where
  unknown instance_created ip_allocated instance_running certificate_created : InstallState
  completed failed canceled : InstallState

-- `getCompletionFraction`, in hundredths
unfoldable pub completion_percent : InstallState → ℕ
completion_percent unknown = 1
completion_percent instance_created = 12
completion_percent ip_allocated = 14
completion_percent instance_running = 40
completion_percent certificate_created = 70
completion_percent completed = 100
completion_percent _ = 0

abbrev pub is_final : InstallState → Bool
is_final completed = true
is_final failed = true
is_final canceled = true
is_final _ = false

-- An error of a request: one with a status, or another with its message.
pub data RequestError : Type 0 where
  http_error : ℕ → RequestError
  other_error : String → RequestError

-- `is404`
unfoldable pub is404 : RequestError → Bool
is404 (http_error status) = status == 404
is404 (other_error _) = false

-- Where the promise `instanceReadiness` is: at the creation of the instance, at the check for a
-- static IP, at the promotion of the ephemeral one, or settled.
pub data Readiness : Type 0 where
  creating checking_ip promoting ready : Readiness
  rejected : String → Readiness

-- Where `pollInstallState` is; it starts when the instance has got its address.
pub data Poller : Type 0 where
  not_started sleeping fetching returned : Poller
  thrown : String → Poller

pub record GcpServer : Type 0 where
  pub install_state : ValueStream InstallState
  pub management_api : Option (String × String)
  pub readiness : Readiness
  pub poller : Poller

abbrev pub new_gcp_server : GcpServer
new_gcp_server = record {
  install_state = new_stream unknown;
  management_api = none;
  readiness = creating;
  poller = not_started;
}

-- `setInstallState`
unfoldable pub set_install_state : InstallState → GcpServer → GcpServer × Result String (Unit {0})
set_install_state state server = elim (set_value state server.install_state) [
  | err message ↦ (server, err message)
  | ok stream ↦
      (record server { install_state = if is_final state then close stream else stream }, ok tt)
]

-- `hasStaticIp`
unfoldable pub has_static_ip : Result RequestError (Unit {0}) → Result String Bool
unfolding is404
has_static_ip (ok _) = ok true
has_static_ip (err e) = if is404 e then ok false else err "Static IP check failed"

-- `promoteEphemeralIp`: whether the instance was got, and whether the operation that creates the
-- address was made, and had errors.
unfoldable pub promote_ephemeral_ip :
    Result String (Unit {0}) → Result String Bool → Result String (Unit {0})
promote_ephemeral_ip instance operation = instance >>= λ _.
    operation >>= λ has_errors. if has_errors then err "Firewall creation failed" else ok tt

-- the `catch` of the chain
unfoldable pub creation_fails : String → GcpServer → GcpServer
unfolding set_install_state
creation_fails message server =
    let (server', result) = set_install_state failed server in
    record server' {
      readiness = elim result [ ok _ ↦ rejected message | err closed ↦ rejected closed ];
    }

-- the test of the loop, and the request that follows it
unfoldable pub poll_starts : GcpServer → GcpServer
poll_starts server = record server {
  poller = if is_closed server.install_state then returned else fetching;
}

-- the end of the chain, once there is an address
unfoldable pub ip_is_allocated : GcpServer → GcpServer
unfolding set_install_state poll_starts
ip_is_allocated server =
    if is_closed server.install_state
    then record server { readiness = ready }
    else record (poll_starts (set_install_state ip_allocated server).0) { readiness = ready }

-- The chain goes on when the instance is there, or has failed.
unfoldable pub instance_is_created : Result String (Unit {0}) → GcpServer → GcpServer
unfolding creation_fails set_install_state
instance_is_created (err message) server = creation_fails message server
instance_is_created (ok _) server =
    if is_closed server.install_state
    then record server { readiness = ready }
    else record (set_install_state instance_created server).0 { readiness = checking_ip }

unfoldable pub ip_is_checked : Result String Bool → GcpServer → GcpServer
unfolding creation_fails ip_is_allocated
ip_is_checked (err message) server = creation_fails message server
ip_is_checked (ok true) server = ip_is_allocated server
ip_is_checked (ok false) server = record server { readiness = promoting }

unfoldable pub ip_is_promoted : Result String (Unit {0}) → GcpServer → GcpServer
unfolding creation_fails ip_is_allocated
ip_is_promoted (err message) server = creation_fails message server
ip_is_promoted (ok _) server = ip_is_allocated server

-- what a call of `setInstallState` in the loop leaves, whether it throws, and whether the loop breaks
-- behind it
abbrev pub last : Bool → GcpServer × Result String (Unit {0}) → GcpServer × Result String Bool
last breaks (server, result) = (server, result >>= λ _. ok breaks)

-- the branches of the loop for an installation that is not complete
unfoldable pub read_progress : Entries String → GcpServer → GcpServer × Result String Bool
unfolding set_install_state
read_progress attributes server =
    if is_some (Map.get attributes "install-error")
    then last true (set_install_state failed server)
    else if is_some (Map.get attributes "certSha256")
    then last false (set_install_state certificate_created server)
    else if is_some (Map.get attributes "install-started")
    then last false (set_install_state instance_running server)
    else (server, ok false)

-- One round of the loop with the guest attributes. `atob` decodes the fingerprint.
unfoldable pub read_attributes :
    (String → Result String String) → Entries String → GcpServer → GcpServer × Result String Bool
unfolding set_install_state read_progress
read_attributes atob attributes server = elim (Map.get attributes "apiUrl") [
  | none ↦ read_progress attributes server
  | some url ↦ elim (Map.get attributes "certSha256") [
    | none ↦ read_progress attributes server
    | some certificate ↦ elim (atob certificate) [
      | err message ↦ (server, err message)
      | ok fingerprint ↦
          last true (
            set_install_state completed
              (record server { management_api = some (url, fingerprint) }))
    ]
  ]
]

-- The rest of a round, once the request has given the attributes or failed.
unfoldable pub poll_fetched :
    (String → Result String String) → Result String (Entries String) → GcpServer → GcpServer
unfolding read_attributes
poll_fetched atob (err message) server = record server { poller = thrown message }
poll_fetched atob (ok attributes) server =
    let (server', result) = read_attributes atob attributes server in
    record server' {
      poller = elim result [
        | err message ↦ thrown message
        | ok last ↦ if last then returned else sleeping
      ];
    }

-- `onDelete`
unfoldable pub on_delete : GcpServer → GcpServer
unfolding set_install_state
on_delete server =
    if is_closed server.install_state then server else (set_install_state canceled server).0

-- `waitForDelete`
unfoldable pub wait_for_delete : Result RequestError (Unit {0}) → Result RequestError (Unit {0})
unfolding is404
wait_for_delete (ok _) = ok tt
wait_for_delete (err e) = if is404 e then ok tt else err e

pub data Request : Type 0 where
  delete_static_ip delete_instance : Request

-- What `GcpHost.delete` does once the instance is ready or has failed: the requests that it makes,
-- given what each of them would answer.
unfoldable pub delete_host :
    (Request → Result RequestError (Unit {0})) → List Request × Result RequestError (Unit {0})
unfolding wait_for_delete
delete_host answer = elim (wait_for_delete (answer delete_static_ip)) [
  | err e ↦ (delete_static_ip ∷ [], err e)
  | ok _ ↦ (delete_static_ip ∷ delete_instance ∷ [], wait_for_delete (answer delete_instance))
]
