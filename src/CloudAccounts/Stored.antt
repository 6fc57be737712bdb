-- ===== src/CloudAccounts/Stored.antt =====
-- What a restart finds of the accounts: server_manager/web_app/cloud_accounts.ts.
use pepper_vpn_client.Common.{
  Bool-cases, ◌∙◌, String, true, Option, none, some, ◌≡◌, inl, inr, arith, if◌then◌else◌, str_eq,
}
use pepper_vpn_client.Common.Map
use pepper_vpn_client.Common.Map.{Entries, get-set, get-remove}
use pepper_vpn_client.Common.Exec.{ok}
use pepper_vpn_client.Common.Text.{is_truthy}
use pepper_vpn_client.CloudAccounts.{
  CloudAccounts, AccountJson, legacy_digitalocean_storage_key, digitalocean_account_storage_key,
  gcp_account_storage_key, save_legacy_digital_ocean_token, save_digital_ocean, save_gcp, save,
  load_digital_ocean, load_gcp, load, connect_digital_ocean_account, connect_gcp_account,
  disconnect_digital_ocean_account, disconnect_gcp_account,
}

-- What JSON gives back of what it has written, and that it writes something.
pub record ReadsBack (json : AccountJson) : Type 0 where
  pub access_token :
      (token : String) → json.parse_access_token (json.stringify_access_token token) ≡ ok token
  pub refresh_token :
      (token : String) → json.parse_refresh_token (json.stringify_refresh_token token) ≡ ok token
  pub access_token_text :
      (token : String) → is_truthy (some (json.stringify_access_token token)) ≡ true
  pub refresh_token_text :
      (token : String) → is_truthy (some (json.stringify_refresh_token token)) ≡ true

-- The four calls that change the accounts.
pub data Call : Type 0 where
  connect_digital_ocean connect_gcp : String → Call
  disconnect_digital_ocean disconnect_gcp : Call

module _ (json : AccountJson) where
  abbrev pub run : Call → CloudAccounts → CloudAccounts
  run (connect_digital_ocean token) accounts = connect_digital_ocean_account json token accounts
  run (connect_gcp token) accounts = connect_gcp_account json token accounts
  run disconnect_digital_ocean accounts = disconnect_digital_ocean_account json accounts
  run disconnect_gcp accounts = disconnect_gcp_account json accounts

  -- the text that the storage holds for a token
  abbrev written : (String → String) → Option String → Option String
  written f none = none
  written f (some token) = some (f token)

  get-save_gcp :
      (o : Option String) (m : Entries String) (k : String)
      → Map.get (save_gcp json o m) k ≡ (
          if str_eq gcp_account_storage_key k
          then written json.stringify_refresh_token o
          else Map.get m k)
  unfolding save_gcp
  get-save_gcp none m k = get-remove m gcp_account_storage_key k
  get-save_gcp (some token) m k = get-set m gcp_account_storage_key k _

  -- the legacy token that is kept beside a token
  abbrev legacy_of : Option String → Option String
  legacy_of o = if is_truthy o then o else none

  get-save_legacy :
      (o : Option String) (m : Entries String) (k : String)
      → Map.get (save_legacy_digital_ocean_token o m) k
        ≡ (if str_eq legacy_digitalocean_storage_key k then legacy_of o else Map.get m k)
  unfolding save_legacy_digital_ocean_token
  get-save_legacy none m k = get-remove m legacy_digitalocean_storage_key k
  get-save_legacy (some token) m k = elim (Bool-cases (is_truthy (some token))) [
    | inl t ↦ rw t (get-set m legacy_digitalocean_storage_key k token)
    | inr f ↦ rw f (get-remove m legacy_digitalocean_storage_key k)
  ]

  get-save_digital_ocean :
      (o : Option String) (m : Entries String) (k : String)
      → Map.get (save_digital_ocean json o m) k ≡ (
          if str_eq legacy_digitalocean_storage_key k
          then legacy_of o
          else if str_eq digitalocean_account_storage_key k
          then written json.stringify_access_token o
          else Map.get m k)
  unfolding save_digital_ocean
  get-save_digital_ocean none m k = rw (
    get-save_legacy none (Map.remove m digitalocean_account_storage_key) k,
    get-remove m digitalocean_account_storage_key k,
  )
  get-save_digital_ocean (some token) m k = rw (
    get-save_legacy (some token)
        (Map.set m digitalocean_account_storage_key (json.stringify_access_token token)) k,
    get-set m digitalocean_account_storage_key k (json.stringify_access_token token),
  )

  -- What the storage holds under the three keys after a `save`.
  pub get-save :
      (accounts : CloudAccounts)
      → (Map.get (save json accounts).storage digitalocean_account_storage_key
          ≡ written json.stringify_access_token accounts.digital_ocean_account)
        × (Map.get (save json accounts).storage gcp_account_storage_key
            ≡ written json.stringify_refresh_token accounts.gcp_account)
        × (Map.get (save json accounts).storage legacy_digitalocean_storage_key
            ≡ legacy_of accounts.digital_ocean_account)
  unfolding save
  get-save accounts =
      let m = save_digital_ocean json accounts.digital_ocean_account accounts.storage in
      (
        get-save_gcp accounts.gcp_account m digitalocean_account_storage_key
            ∙ get-save_digital_ocean accounts.digital_ocean_account accounts.storage
                digitalocean_account_storage_key,
        get-save_gcp accounts.gcp_account m gcp_account_storage_key,
        get-save_gcp accounts.gcp_account m legacy_digitalocean_storage_key
            ∙ get-save_digital_ocean accounts.digital_ocean_account accounts.storage
                legacy_digitalocean_storage_key,
      )

  load_digital_ocean-written :
      (o : Option String) (m : Entries String)
      → ReadsBack json
      → Map.get m digitalocean_account_storage_key ≡ written json.stringify_access_token o
      → Map.get m legacy_digitalocean_storage_key ≡ legacy_of o
      → load_digital_ocean json m
        ≡ ok (record { digital_ocean_account = o; gcp_account = none; storage = m })
  unfolding load_digital_ocean
  load_digital_ocean-written none m back h l = ground arith
  load_digital_ocean-written (some token) m back h l =
      ground (arith, back.access_token token, back.access_token_text token)

  load_gcp-written :
      (o p : Option String) (m : Entries String)
      → ReadsBack json
      → Map.get m gcp_account_storage_key ≡ written json.stringify_refresh_token o
      → load_gcp json (record { digital_ocean_account = p; gcp_account = none; storage = m })
        ≡ ok (record { digital_ocean_account = p; gcp_account = o; storage = m })
  unfolding load_gcp
  load_gcp-written none p m back h = ground arith
  load_gcp-written (some token) p m back h =
      ground (arith, back.refresh_token token, back.refresh_token_text token)

  load-save :
      (accounts : CloudAccounts)
      → ReadsBack json
      → load json (save json accounts).storage ≡ ok (save json accounts)
  unfolding load save
  load-save accounts back =
      let (d, g, l) = get-save accounts in
      let m = (save json accounts).storage in
      let first = load_digital_ocean-written accounts.digital_ocean_account m back d l in
      let second = load_gcp-written accounts.gcp_account accounts.digital_ocean_account m back g in
      rw (first, load) second

  -- After any call that changes the accounts, a restart that reads back what was stored finds the
  -- same accounts and leaves the storage as it is.
  pub load-run :
      (call : Call) (accounts : CloudAccounts)
      → ReadsBack json
      → load json (run call accounts).storage ≡ ok (run call accounts)
  unfolding connect_digital_ocean_account connect_gcp_account disconnect_digital_ocean_account
      disconnect_gcp_account
  load-run (connect_digital_ocean token) accounts back = load-save _ back
  load-run (connect_gcp token) accounts back = load-save _ back
  load-run disconnect_digital_ocean accounts back = load-save _ back
  load-run disconnect_gcp accounts back = load-save _ back
