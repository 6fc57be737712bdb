-- ===== src/GcpAccount/Tests.antt =====
-- Runs of server_manager/web_app/gcp_account.ts.
use pepper_vpn_client.GcpAccount.{
  service_operation, enable_services, update_billing, project_operation, create_project, Operation,
  Api, new_project, create_server, list_open_billing_accounts, make_gcp_instance_name,
  is_project_healthy,
}
use Prim.Native.String
use pepper_vpn_client.Common.{
  ℕ, zero, suc, String, true, false, some, none, [], ◌∷◌, ◌++◌, ◌≡◌, ◌&&◌, refl, arith,
}
use pepper_vpn_client.Common.Exec.{Result, ok}
use pepper_vpn_client.Common.Decimal.{to_decimal}
use pepper_vpn_client.GcpAccount.Projects.{DoneAt, done_now, done_later, times, new_project_ends}
use pepper_vpn_client.GcpAccount.Creating.{
  has_firewall, is_made, any_instance_call, succeeds, create_server_iff,
}

abbrev pending : Operation
pending = record { name = "op"; is_done = false; errors = none; target_id = "7" }

abbrev finished : Operation
finished = record { name = "op"; is_done = true; errors = some "quota"; target_id = "7" }

abbrev rounds : ℕ → Result String Operation
rounds zero = ok pending
rounds (suc n) = ok finished

abbrev api : Api
api = record {
  firewalls = ok none;
  new_firewall = ok pending;
  new_instance = ok pending;
  new_project = ok pending;
  project_rounds = rounds;
  billing_update = ok tt;
  services_update = ok pending;
  service_rounds = rounds;
  billing = ok true;
  services = ok ("compute.googleapis.com" ∷ []);
}

at_one : DoneAt rounds finished 0 1
at_one = done_later pending refl refl (done_now refl refl)

-- The operation of the project has an error.
new_project_ends_example : new_project 5 api "p" "b" ≡ (
  create_project ∷ times 2 (project_operation "op")
      ++ update_billing (String.◌++◌ "billingAccounts/" "b")
        ∷ enable_services
        ∷ times 2 (service_operation "op"),
  ok ("p", "Outline servers"),
)
new_project_ends_example =
    new_project_ends 5 1 1 api "p" "b" pending pending finished finished refl at_one (omega arith)
      refl refl at_one (omega arith)

create_server_iff_example :
    (succeeds (create_server api "a" "outline-1").1
      ≡ (has_firewall api && is_made api.new_instance))
    × (any_instance_call (create_server api "a" "outline-1").0 ≡ has_firewall api)
create_server_iff_example = create_server_iff api "a" "outline-1"

open_accounts :
    list_open_billing_accounts (
      record { name = "billingAccounts/1"; display_name = "x"; is_open = true }
      ∷ record { name = "billingAccounts/2"; display_name = "y"; is_open = false }
      ∷ [])
    ≡ ("1", "x") ∷ []
unfolding list_open_billing_accounts
open_accounts = refl

instance_name : make_gcp_instance_name 2023 0 9 10 5 59 ≡ "outline-20230109-100559"
unfolding make_gcp_instance_name to_decimal
instance_name = refl

healthy : (is_project_healthy api).1 ≡ ok true
unfolding is_project_healthy
healthy = refl
