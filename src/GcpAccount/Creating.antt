-- ===== src/GcpAccount/Creating.antt =====
-- New servers of server_manager/web_app/gcp_account.ts.
use pepper_vpn_client.Common.{
  zero, suc, String, Bool, true, false, none, some, List, [], ◌∷◌, ◌≡◌, ◌&&◌, ◌||◌, arith,
}
use pepper_vpn_client.Common.Exec.{Result, ok, err}
use pepper_vpn_client.GcpAccount.{Call, Operation, Api, create_instance, create_server}

-- whether the API has made what it was asked for
abbrev pub is_made : Result String Operation → Bool
is_made (ok operation) = elim operation.errors [ none ↦ true | some _ ↦ false ]
is_made (err _) = false

-- whether the project has a firewall, or gets one
abbrev pub has_firewall : Api → Bool
has_firewall api = elim api.firewalls [
  | ok (some (suc _)) ↦ true
  | ok (some zero) ↦ is_made api.new_firewall
  | ok none ↦ is_made api.new_firewall
  | err _ ↦ false
]

abbrev pub is_instance_call : Call → Bool
is_instance_call (create_instance _) = true
is_instance_call _ = false

abbrev pub any_instance_call : List Call → Bool
any_instance_call [] = false
any_instance_call (call ∷ calls) = is_instance_call call || any_instance_call calls

abbrev pub succeeds {ℓ κ} : {E : Type κ} {A : Type ℓ} → Result E A → Bool
succeeds (ok _) = true
succeeds (err _) = false

-- A server is created exactly if the project has a firewall, or gets one, and the instance is made
-- without errors; an instance is asked for exactly if there is a firewall.
pub create_server_iff :
    (api : Api) (account_id instance_name : String)
    → (succeeds (create_server api account_id instance_name).1
        ≡ (has_firewall api && is_made api.new_instance))
      × (any_instance_call (create_server api account_id instance_name).0 ≡ has_firewall api)
unfolding create_server
create_server_iff api account_id instance_name = ground arith
