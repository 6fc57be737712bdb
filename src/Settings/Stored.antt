-- ===== src/Settings/Stored.antt =====
-- What a restart finds of the settings: src/www/app/settings.ts.
use pepper_vpn_client.Common.{String, true, some, ◌≡◌, arith, eq_refl}
use pepper_vpn_client.Common.Map
use pepper_vpn_client.Common.Map.{Entries, get-set, get-remove}
use pepper_vpn_client.Common.Distinct.{IsDistinct, set_all_empty, set-IsDistinct, remove-IsDistinct}
use pepper_vpn_client.Common.Exec.{Result, ok}
use pepper_vpn_client.Common.Text.{is_truthy}
use pepper_vpn_client.Settings.{
  Settings, SettingsJson, storage_key, is_valid_setting, store_settings, set, remove, load_settings,
}

-- The calls that change the settings.
pub data Call : Type 0 where
  set_to : String → String → Call
  removed : String → Call

module _ (json : SettingsJson) where
  -- a call, and whether it throws
  abbrev pub run : Call → Settings → Settings × Result String (Unit {0})
  run (set_to key value) s = set json key value s
  run (removed key) s = (remove json key s, ok tt)

  load-store_settings :
      (s : Settings)
      → IsDistinct s.settings
      → is_truthy (some (json.stringify s.settings)) ≡ true
      → json.parse (json.stringify s.settings) ≡ ok s.settings
      → load_settings json (store_settings json s).storage s.valid_keys ≡ ok (store_settings json s)
  unfolding load_settings store_settings
  load-store_settings s distinct text back = ground (
    arith,
    get-set s.storage storage_key storage_key (json.stringify s.settings),
    eq_refl storage_key,
    set_all_empty s.settings distinct,
  )

  -- After any call that does not throw, from settings with distinct keys, the keys are distinct
  -- again, and a restart that reads back what was stored, a text that is not of length 0, finds the
  -- same settings.
  pub load-run_settings :
      (call : Call) (s : Settings)
      → IsDistinct s.settings
      → (run call s).1 ≡ ok tt
      → is_truthy (some (json.stringify (run call s).0.settings)) ≡ true
      → json.parse (json.stringify (run call s).0.settings) ≡ ok (run call s).0.settings
      → IsDistinct (run call s).0.settings
        × (load_settings json (run call s).0.storage s.valid_keys ≡ ok (run call s).0)
  unfolding set remove store_settings
  load-run_settings (set_to key value) s distinct works text back =
      let valid : is_valid_setting s.valid_keys key ≡ true = ground arith in
      let s' = record s { settings = Map.set s.settings key value } in
      let state : (set json key value s).0 ≡ store_settings json s' = rw (valid, set) in
      let d = set-IsDistinct s.settings key value distinct in
      rw state (d, load-store_settings s' d (rw state at text) (rw state at back))
  load-run_settings (removed key) s distinct works text back =
      let s' = record s { settings = Map.remove s.settings key } in
      let d = remove-IsDistinct s.settings key distinct in (d, load-store_settings s' d text back)
