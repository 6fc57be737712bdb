-- ===== src/CloudAccounts/Legacy.antt =====
-- Tokens of the old form: server_manager/web_app/cloud_accounts.ts.
use pepper_vpn_client.Common.{String, true, false, none, some, ◌≡◌, refl, arith}
use pepper_vpn_client.Common.Map
use pepper_vpn_client.Common.Map.{Entries, get-set, get-remove}
use pepper_vpn_client.Common.Exec.{ok}
use pepper_vpn_client.Common.Text.{is_truthy}
use pepper_vpn_client.CloudAccounts.{
  CloudAccounts, AccountJson, legacy_digitalocean_storage_key, digitalocean_account_storage_key,
  gcp_account_storage_key, save, load_digital_ocean, load_gcp, load,
}
use pepper_vpn_client.CloudAccounts.Stored.{get-save}

module _ (json : AccountJson) where
  -- Where the storage has a token of the old form and none of the new one, loading takes it over and
  -- forgets the stored GCP account: there is none afterwards, in the storage neither.
  pub load_legacy_forgets_gcp :
      (storage : Entries String) (token : String)
      → is_truthy (Map.get storage digitalocean_account_storage_key) ≡ false
      → Map.get storage legacy_digitalocean_storage_key ≡ some token
      → is_truthy (some token) ≡ true
      → (accounts : CloudAccounts) × (load json storage ≡ ok accounts)
        × (accounts.digital_ocean_account ≡ some token)
        × (accounts.gcp_account ≡ none)
        × (Map.get accounts.storage gcp_account_storage_key ≡ none)
  unfolding load load_digital_ocean load_gcp
  load_legacy_forgets_gcp storage token absent legacy truthy =
      let saved =
        save json
          (record { digital_ocean_account = some token; gcp_account = none; storage = storage }) in
      let (_, gone, _) =
        get-save json
          (record { digital_ocean_account = some token; gcp_account = none; storage = storage }) in
      let first : load_digital_ocean json storage ≡ ok saved = ground arith in
      (
        saved,
        rw (first, load) (rw (gone, load_gcp)),
        unfold save in refl,
        unfold save in refl,
        gone,
      )
