-- ===== src/CloudAccounts/Tests.antt =====
-- Runs of server_manager/web_app/cloud_accounts.ts.
use pepper_vpn_client.Common.{String, true, false, none, some, [], ◌∷◌, ◌≡◌, refl}
use pepper_vpn_client.Common.Map
use pepper_vpn_client.Common.Map.{Entries}
use pepper_vpn_client.Common.Exec.{Result, ok, err}
use pepper_vpn_client.Common.Text.{is_truthy, strip_prefix}
use pepper_vpn_client.CloudAccounts.{
  CloudAccounts, AccountJson, legacy_digitalocean_storage_key, digitalocean_account_storage_key,
  gcp_account_storage_key, load,
}
use pepper_vpn_client.CloudAccounts.Stored.{ReadsBack, connect_gcp, run, load-run}

abbrev parse : String → Result String String
parse text = elim (strip_prefix "{" text) [ some token ↦ ok token | none ↦ err "no JSON" ]

abbrev json : AccountJson
json = record {
  stringify_access_token = λ token. String.◌∷◌ "{" token;
  parse_access_token = parse;
  stringify_refresh_token = λ token. String.◌∷◌ "{" token;
  parse_refresh_token = parse;
}

parse_written : (token : String) → parse (String.◌∷◌ "{" token) ≡ ok token
unfolding strip_prefix
parse_written token = refl

written_is_truthy : (token : String) → is_truthy (some (String.◌∷◌ "{" token)) ≡ true
written_is_truthy token = refl

json-ReadsBack : ReadsBack json
json-ReadsBack = record {
  access_token = parse_written;
  refresh_token = parse_written;
  access_token_text = written_is_truthy;
  refresh_token_text = written_is_truthy;
}

abbrev accounts : CloudAccounts
accounts = record { digital_ocean_account = some "d"; gcp_account = none; storage = [] }

load-run_example :
    load json (run json (connect_gcp "g") accounts).storage
    ≡ ok (run json (connect_gcp "g") accounts)
load-run_example = load-run json (connect_gcp "g") accounts json-ReadsBack

abbrev old_storage : Entries String
old_storage = (legacy_digitalocean_storage_key, "d") ∷ (gcp_account_storage_key, "{g") ∷ []

no_new_token : is_truthy (Map.get old_storage digitalocean_account_storage_key) ≡ false
unfolding Map.get
no_new_token = refl

old_token : Map.get old_storage legacy_digitalocean_storage_key ≡ some "d"
unfolding Map.get
old_token = refl
