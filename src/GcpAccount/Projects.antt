-- ===== src/GcpAccount/Projects.antt =====
-- The loops and the projects of server_manager/web_app/gcp_account.ts.
use pepper_vpn_client.GcpAccount.{
  service_operation, enable_services, update_billing, project_operation, create_project, Call,
  Operation, Api, poll, configure_project, new_project,
}
use Prim.Native.String
use mathlib.Core.List.{append-nil}
use pepper_vpn_client.Common.{
  ◌++◌, ℕ, zero, suc, String, true, false, List, [], ◌∷◌, ◌≡◌, ◌<◌, refl, arith,
}
use pepper_vpn_client.Common.Exec.{Result, ok}

-- The rounds from one on, up to the first that is done.
pub data DoneAt (rounds : ℕ → Result String Operation) (operation : Operation)
    : ℕ → ℕ → Type 0 where
  done_now :
      {round : ℕ}
      → rounds round ≡ ok operation
      → operation.is_done ≡ true
      → DoneAt rounds operation round 0
  done_later :
      {round n : ℕ} (before : Operation)
      → rounds round ≡ ok before
      → before.is_done ≡ false
      → DoneAt rounds operation (suc round) n
      → DoneAt rounds operation round (suc n)

abbrev pub times : ℕ → Call → List Call
times zero call = []
times (suc n) call = call ∷ times n call

-- The loop ends with the first operation that is done, after one call for each round up to it.
pub poll_ends :
    (fuel : ℕ) (call : Call) (rounds : ℕ → Result String Operation) (operation : Operation)
    (round n : ℕ)
    → DoneAt rounds operation round n
    → n < fuel
    → poll fuel call rounds round ≡ (times (suc n) call, ok operation)
unfolding poll
poll_ends zero call rounds operation round n d enough = absurd (omega arith)
poll_ends (suc fuel) call rounds operation round zero (done_now answered done) enough = ground arith
poll_ends (suc fuel) call rounds operation round (suc n) (done_later before answered waiting d)
      enough =
    ground (arith, poll_ends fuel call rounds operation (suc round) n d)

-- A new project is there once both loops have met an operation that is done, whether or not these
-- operations have errors; the calls are in this order.
pub new_project_ends :
    (fuel n k : ℕ) (api : Api) (id billing : String) (creation enabling made enabled : Operation)
    → api.new_project ≡ ok creation
    → DoneAt api.project_rounds made 0 n
    → n < fuel
    → api.billing_update ≡ ok tt
    → api.services_update ≡ ok enabling
    → DoneAt api.service_rounds enabled 0 k
    → k < fuel
    → new_project fuel api id billing ≡ (
      create_project ∷ times (suc n) (project_operation creation.name)
          ++ update_billing (String.◌++◌ "billingAccounts/" billing)
            ∷ enable_services
            ∷ times (suc k) (service_operation enabling.name),
      ok (id, "Outline servers"),
    )
unfolding new_project configure_project
new_project_ends fuel n k api id billing creation enabling made enabled creates made_at enough bills
      enables enabled_at enough_too =
    let first =
      poll_ends fuel (project_operation creation.name) api.project_rounds made 0 n made_at enough in
    let second =
      poll_ends fuel (service_operation enabling.name) api.service_rounds enabled 0 k enabled_at
        enough_too in
    rw (creates, new_project)
      (rw (first, new_project)
        (rw (bills, new_project)
          (rw (enables, new_project)
            (rw (second, new_project)
              (rw
                (
                  append-nil (times k (service_operation enabling.name)),
                  append-nil (times k (service_operation enabling.name)),
                )
                refl)))))
