-- ===== src/Settings/Tests.antt =====
-- Runs of src/www/app/settings.ts.
use pepper_vpn_client.Common.{String, [], ◌∷◌, ◌≡◌, refl, ap, sym}
use pepper_vpn_client.Common.Map
use pepper_vpn_client.Common.Map.{Entries}
use pepper_vpn_client.Common.Distinct.{IsDistinct}
use pepper_vpn_client.Common.Exec.{ok}
use pepper_vpn_client.Settings.{
  Settings, SettingsJson, settings_keys, is_valid_setting, set, load_settings,
}
use pepper_vpn_client.Settings.Stored.{set_to, load-run_settings}

abbrev acknowledged : Entries String
acknowledged = ("privacy-ack", "true") ∷ []

abbrev json : SettingsJson
json = record { stringify = λ _. "saved"; parse = λ _. ok acknowledged }

abbrev fresh : Settings
fresh = record { settings = []; storage = []; valid_keys = settings_keys }

set_settings : (set json "privacy-ack" "true" fresh).0.settings ≡ acknowledged
unfolding set is_valid_setting Map.set
set_settings = refl

set_works : (set json "privacy-ack" "true" fresh).1 ≡ ok tt
unfolding set is_valid_setting
set_works = refl

load-run_settings_example :
    IsDistinct (set json "privacy-ack" "true" fresh).0.settings
    × (load_settings json (set json "privacy-ack" "true" fresh).0.storage settings_keys
        ≡ ok (set json "privacy-ack" "true" fresh).0)
load-run_settings_example =
    load-run_settings json (set_to "privacy-ack" "true") fresh tt set_works refl
      (ap ok (sym set_settings))

test_invalid_key : (set json "colour" "red" fresh).0 ≡ fresh
unfolding set is_valid_setting
test_invalid_key = refl
