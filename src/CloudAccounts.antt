-- ===== src/CloudAccounts.antt =====
-- server_manager/web_app/cloud_accounts.ts: the connected cloud accounts, kept in the browser's
-- storage. An account goes by its token.
pub mod Stored
pub mod Legacy
mod Tests
use pepper_vpn_client.Common.{String, Bool, Option, none, some, if◌then◌else◌}
use pepper_vpn_client.Common.Map
use pepper_vpn_client.Common.Map.{Entries}
use pepper_vpn_client.Common.Exec.{Result, ok, err, ◌>>=◌}
use pepper_vpn_client.Common.Text.{is_truthy}

pub record CloudAccounts : Type 0 where
  pub digital_ocean_account : Option String
  pub gcp_account : Option String
  pub storage : Entries String

-- JSON at `DigitalOceanAccountJson` and `GcpAccountJson`. An error is a message.
pub record AccountJson : Type 0 where
  pub stringify_access_token : String → String
  pub parse_access_token : String → Result String String
  pub stringify_refresh_token : String → String
  pub parse_refresh_token : String → Result String String

abbrev pub legacy_digitalocean_storage_key : String
legacy_digitalocean_storage_key = "LastDOToken"

abbrev pub digitalocean_account_storage_key : String
digitalocean_account_storage_key = "accounts.digitalocean"

abbrev pub gcp_account_storage_key : String
gcp_account_storage_key = "accounts.gcp"

-- `saveLegacyDigitalOceanToken`
unfoldable pub save_legacy_digital_ocean_token : Option String → Entries String → Entries String
save_legacy_digital_ocean_token none storage = Map.remove storage legacy_digitalocean_storage_key
save_legacy_digital_ocean_token (some token) storage =
    if is_truthy (some token)
    then Map.set storage legacy_digitalocean_storage_key token
    else Map.remove storage legacy_digitalocean_storage_key

module _ (json : AccountJson) where
  open json use {
    stringify_access_token, parse_access_token, stringify_refresh_token, parse_refresh_token,
  }

  -- the first half of `save`
  unfoldable pub save_digital_ocean : Option String → Entries String → Entries String
  unfolding save_legacy_digital_ocean_token
  save_digital_ocean none storage =
      save_legacy_digital_ocean_token none (Map.remove storage digitalocean_account_storage_key)
  save_digital_ocean (some token) storage =
      save_legacy_digital_ocean_token (some token)
        (Map.set storage digitalocean_account_storage_key (stringify_access_token token))

  -- the second half
  unfoldable pub save_gcp : Option String → Entries String → Entries String
  save_gcp none storage = Map.remove storage gcp_account_storage_key
  save_gcp (some token) storage =
      Map.set storage gcp_account_storage_key (stringify_refresh_token token)

  unfoldable pub save : CloudAccounts → CloudAccounts
  unfolding save_digital_ocean save_gcp
  save accounts = record accounts {
    storage =
        save_gcp accounts.gcp_account
          (save_digital_ocean accounts.digital_ocean_account accounts.storage);
  }

  unfoldable pub connect_digital_ocean_account : String → CloudAccounts → CloudAccounts
  unfolding save
  connect_digital_ocean_account token accounts =
      save (record accounts { digital_ocean_account = some token })

  unfoldable pub connect_gcp_account : String → CloudAccounts → CloudAccounts
  unfolding save
  connect_gcp_account token accounts = save (record accounts { gcp_account = some token })

  unfoldable pub disconnect_digital_ocean_account : CloudAccounts → CloudAccounts
  unfolding save
  disconnect_digital_ocean_account accounts =
      save (record accounts { digital_ocean_account = none })

  unfoldable pub disconnect_gcp_account : CloudAccounts → CloudAccounts
  unfolding save
  disconnect_gcp_account accounts = save (record accounts { gcp_account = none })

  -- The first half of `load`, from no accounts. A legacy token is saved in the new form at once.
  unfoldable pub load_digital_ocean : Entries String → Result String CloudAccounts
  unfolding save
  load_digital_ocean storage =
      let none_yet : CloudAccounts = record {
        digital_ocean_account = none;
        gcp_account = none;
        storage = storage;
      } in
      let legacy : CloudAccounts = elim (Map.get storage legacy_digitalocean_storage_key) [
        | none ↦ none_yet
        | some token ↦
            if is_truthy (some token)
            then save (record none_yet { digital_ocean_account = some token })
            else none_yet
      ] in
      elim (Map.get storage digitalocean_account_storage_key) [
        | none ↦ ok legacy
        | some text ↦
            if is_truthy (some text)
            then (parse_access_token text >>= λ token.
                ok (record none_yet { digital_ocean_account = some token }))
            else ok legacy
      ]

  -- the second half
  unfoldable pub load_gcp : CloudAccounts → Result String CloudAccounts
  load_gcp accounts = elim (Map.get accounts.storage gcp_account_storage_key) [
    | none ↦ ok accounts
    | some text ↦
        if is_truthy (some text)
        then (parse_refresh_token text >>= λ token.
            ok (record accounts { gcp_account = some token }))
        else ok accounts
  ]

  -- the constructor's `load`
  unfoldable pub load : Entries String → Result String CloudAccounts
  unfolding load_digital_ocean load_gcp
  load storage = load_digital_ocean storage >>= λ accounts. load_gcp accounts
