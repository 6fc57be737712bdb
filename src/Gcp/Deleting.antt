-- ===== src/Gcp/Deleting.antt =====
-- Deleting a server: `GcpHost.delete` of server_manager/web_app/gcp_server.ts.
use pepper_vpn_client.Common.{[], ◌∷◌, ◌≡◌, ◌↔◌, ◌⊎◌, refl, inl, inr, arith}
use pepper_vpn_client.Common.Exec.{Result-cases, Result, ok, err}
use pepper_vpn_client.Gcp.{
  RequestError, http_error, other_error, is404, wait_for_delete, Request, delete_static_ip,
  delete_instance, delete_host,
}

-- the thing is deleted, or was not there
abbrev pub IsGone : Result RequestError (Unit {0}) → Type 0
IsGone answer = (answer ≡ ok tt) ⊎ (answer ≡ err (http_error 404))

wait_iff :
    (answer : Result RequestError (Unit {0})) → (wait_for_delete answer ≡ ok tt) ↔ IsGone answer
unfolding wait_for_delete is404
wait_iff (ok tt) = (λ h. inl refl, λ h. refl)
wait_iff (err (http_error status)) = (λ h. ground arith, λ h. ground arith)
wait_iff (err (other_error message)) = (λ h. cc, λ h. ground arith)

-- Deleting succeeds exactly if the static address and the instance each are deleted or were not
-- there; then both were asked for, the address first.
pub delete_host_iff :
    (answer : Request → Result RequestError (Unit {0}))
    → ((delete_host answer).1 ≡ ok tt) ↔ (
        IsGone (answer delete_static_ip)
        × IsGone (answer delete_instance)
        × ((delete_host answer).0 ≡ delete_static_ip ∷ delete_instance ∷ []))
unfolding delete_host
delete_host_iff answer = (
  λ h. elim (Result-cases (wait_for_delete (answer delete_static_ip))) [
    | inr (e, failed) ↦ absurd (ground arith)
    | inl (tt, gone) ↦ (
      (wait_iff (answer delete_static_ip)).0 gone,
      (wait_iff (answer delete_instance)).0 (ground arith),
      ground arith,
    )
  ],
  λ (ip, gone, _). ground (
    arith,
    (wait_iff (answer delete_static_ip)).1 ip,
    (wait_iff (answer delete_instance)).1 gone,
  ),
)
