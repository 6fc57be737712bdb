-- ===== src/GcpAccount.antt =====
-- server_manager/web_app/gcp_account.ts: projects, billing accounts and new servers of a GCP account.
-- The answers of the API are arguments; a method gives the calls that it makes, in their order.
pub mod Projects
pub mod Creating
mod Tests
use Prim.Native.String
use Prim.Native.Char.{code}
use pepper_vpn_client.Common.{
  ℕ, zero, suc, String, Bool, true, false, Option, none, some, List, [], ◌∷◌, ◌++◌, ◌==◌, ◌||◌,
  ◌&&◌, if◌then◌else◌, str_eq, ltb,
}
use pepper_vpn_client.Common.Exec.{Result, ok, err}
use pepper_vpn_client.Common.Decimal.{to_decimal}

-- The calls of the API that a method makes.
pub data Call : Type 0 where
  list_firewalls create_firewall : Call
  create_instance : String → Call
  create_project : Call
  project_operation : String → Call
  update_billing : String → Call
  enable_services : Call
  service_operation : String → Call
  get_billing list_services : Call

-- Why a method rejects: as the API did, with a `ServerInstallFailedError`, or not yet, since a loop still
-- asks.
pub data Failure : Type 0 where
  rejected install_failed : String → Failure
  still_asking : Failure

abbrev pub Run {ℓ} : Type ℓ → Type ℓ
Run A = List Call × Result Failure A

-- one awaited call after another
abbrev pub then_run {ℓ κ} : {A : Type ℓ} {B : Type κ} → Run A → (A → Run B) → Run B
then_run (calls, ok a) next = (calls ++ (next a).0, (next a).1)
then_run (calls, err e) next = (calls, err e)

abbrev pub ask {ℓ} : {A : Type ℓ} → Call → Result String A → Run A
ask call (ok a) = (call ∷ [], ok a)
ask call (err message) = (call ∷ [], err (rejected message))

-- An operation of the API: its name, whether it is done, and its errors.
pub record Operation : Type 0 where
  pub name : String
  pub is_done : Bool
  pub errors : Option String
  pub target_id : String

-- What the API answers; an operation is asked for again and again, and answers by the round.
pub record Api : Type 0 where
  pub firewalls : Result String (Option ℕ)
  pub new_firewall : Result String Operation
  pub new_instance : Result String Operation
  pub new_project : Result String Operation
  pub project_rounds : ℕ → Result String Operation
  pub billing_update : Result String (Unit {0})
  pub services_update : Result String Operation
  pub service_rounds : ℕ → Result String Operation
  pub billing : Result String Bool
  pub services : Result String (List String)

-- The loop that asks for an operation until it is done; `round` is the next one.
unfoldable pub poll : ℕ → Call → (ℕ → Result String Operation) → ℕ → Run Operation
poll zero call rounds round = ([], err still_asking)
poll (suc fuel) call rounds round = then_run (ask call (rounds round)) λ operation.
    let later = poll fuel call rounds (suc round) in
    if operation.is_done then ([], ok operation) else later

-- `configureProject`
unfoldable pub configure_project : ℕ → Api → String → Run (Unit {0})
unfolding poll
configure_project fuel api billing_account_id =
    then_run
      (ask (update_billing (String.◌++◌ "billingAccounts/" billing_account_id)) api.billing_update)
      λ _. then_run (ask enable_services api.services_update) λ enabling.
        then_run (poll fuel (service_operation enabling.name) api.service_rounds 0) λ _. ([], ok tt)

-- `createProject`, which gives the id and the name of the project
unfoldable pub new_project : ℕ → Api → String → String → Run (String × String)
unfolding configure_project
new_project fuel api project_id billing_account_id =
    then_run (ask create_project api.new_project) λ creation.
      then_run (poll fuel (project_operation creation.name) api.project_rounds 0) λ _.
        then_run (configure_project fuel api billing_account_id)
          λ _. ([], ok (project_id, "Outline servers"))

-- `repairProject`
unfoldable pub repair_project : ℕ → Api → String → Run (Unit {0})
unfolding configure_project
repair_project fuel api billing_account_id = configure_project fuel api billing_account_id

abbrev pub required_gcp_services : List String
required_gcp_services = "compute.googleapis.com" ∷ []

abbrev pub contains : List String → String → Bool
contains [] s = false
contains (t ∷ ts) s = str_eq t s || contains ts s

abbrev pub contains_all : List String → List String → Bool
contains_all found [] = true
contains_all found (s ∷ ss) = contains found s && contains_all found ss

unfoldable pub is_project_healthy : Api → Run Bool
is_project_healthy api = then_run (ask get_billing api.billing) λ enabled.
    let found =
      then_run (ask list_services api.services)
        λ services. ([], ok (contains_all services required_gcp_services)) in
    if enabled then found else ([], ok false)

-- `createFirewallIfNeeded`
unfoldable pub create_firewall_if_needed : Api → Run (Unit {0})
create_firewall_if_needed api = then_run (ask list_firewalls api.firewalls) λ items.
    let create : Run (Unit {0}) = then_run (ask create_firewall api.new_firewall) λ creation.
      elim creation.errors [
        | some errors ↦ ([], err (install_failed (String.◌++◌ "Firewall creation failed: " errors)))
        | none ↦ ([], ok tt)
      ] in
    elim items [ none ↦ create | some n ↦ if n == 0 then create else ([], ok tt) ]

-- What `GcpServer` is made of: its id, the id and the name of its instance, and the operation that it
-- waits for.
pub record NewServer : Type 0 where
  pub id : String
  pub instance_id : String
  pub instance_name : String
  pub creation : String

-- `createServer`
unfoldable pub create_server : Api → String → String → Run NewServer
unfolding create_firewall_if_needed
create_server api account_id instance_name = then_run (create_firewall_if_needed api) λ _.
    then_run (ask (create_instance instance_name) api.new_instance) λ creation.
      elim creation.errors [
        | some errors ↦ ([], err (install_failed (String.◌++◌ "Instance creation failed: " errors)))
        | none ↦ (
          [],
          ok (record {
            id = String.◌++◌ account_id (String.◌++◌ ":" creation.target_id);
            instance_id = creation.target_id;
            instance_name = instance_name;
            creation = creation.name;
          }),
        )
      ]

-- a number with two digits at least
abbrev pub pad2 : ℕ → String
pad2 n = if ltb n 10 then String.◌++◌ "0" (to_decimal n) else to_decimal n

-- `makeGcpInstanceName`, from what the clock tells; January is month 0
unfoldable pub make_gcp_instance_name : ℕ → ℕ → ℕ → ℕ → ℕ → ℕ → String
make_gcp_instance_name year month day hour minute second = String.◌++◌ "outline-" (
    String.◌++◌ (to_decimal year) (
      String.◌++◌ (pad2 (suc month)) (
        String.◌++◌ (pad2 day)
          (String.◌++◌ "-" (String.◌++◌ (pad2 hour) (String.◌++◌ (pad2 minute) (pad2 second)))))))

-- the text behind the last `/`, if there is one
abbrev pub behind_last_slash : String → Option String
behind_last_slash String.[] = none
behind_last_slash (String.◌∷◌ c s) =
    let later = behind_last_slash s in
    elim later [ some text ↦ some text | none ↦ if code c == b'/' then some s else none ]

pub record BillingAccount : Type 0 where
  pub name : String
  pub display_name : String
  pub is_open : Bool

-- `listOpenBillingAccounts`, from the accounts in the answer: ids and names
unfoldable pub list_open_billing_accounts : List BillingAccount → List (String × String)
list_open_billing_accounts [] = []
list_open_billing_accounts (account ∷ accounts) =
    let rest = list_open_billing_accounts accounts in
    let id = elim (behind_last_slash account.name) as (λ _. String) [
      | some id ↦ id
      | none ↦ account.name
    ] in
    if account.is_open then (id, account.display_name) ∷ rest else rest

-- `isInFreeTier`, of a region
unfoldable pub is_in_free_tier : String → Bool
is_in_free_tier region = contains ("us-west1" ∷ "us-central1" ∷ "us-east1" ∷ []) region
