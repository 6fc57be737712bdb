-- ===== src/Settings.antt =====
-- src/www/app/settings.ts: the user's settings, kept in the browser's storage.
pub mod Stored
mod Tests
use pepper_vpn_client.Common.{
  String, Bool, true, false, Option, none, some, List, [], ◌∷◌, ◌||◌, if◌then◌else◌, str_eq,
}
use pepper_vpn_client.Common.Map
use pepper_vpn_client.Common.Map.{Entries}
use pepper_vpn_client.Common.Distinct.{set_all}
use pepper_vpn_client.Common.Exec.{Result, ok, err}
use pepper_vpn_client.Common.Text.{is_truthy}
use Prim.Native.String

-- the values of `SettingsKey`
abbrev pub settings_keys : List String
settings_keys = "vpn-warning-dismissed" ∷ "auto-connect-dialog-dismissed" ∷ "privacy-ack" ∷ []

abbrev pub storage_key : String
storage_key = "settings"

pub record Settings : Type 0 where
  pub settings : Entries String
  pub storage : Entries String
  pub valid_keys : List String

-- JSON at `StorageSettings`. An error is a message.
pub record SettingsJson : Type 0 where
  pub stringify : Entries String → String
  pub parse : String → Result String (Entries String)

-- `isValidSetting`
unfoldable pub is_valid_setting : List String → String → Bool
is_valid_setting [] key = false
is_valid_setting (k ∷ keys) key = str_eq k key || is_valid_setting keys key

module _ (json : SettingsJson) where
  unfoldable pub store_settings : Settings → Settings
  store_settings s = record s {
    storage = Map.set s.storage storage_key (json.stringify s.settings);
  }

  unfoldable pub set : String → String → Settings → Settings × Result String (Unit {0})
  unfolding store_settings
  set key value s =
      if is_valid_setting s.valid_keys key
      then (store_settings (record s { settings = Map.set s.settings key value }), ok tt)
      else (s, err (String.◌++◌ "Cannot set invalid key " key))

  unfoldable pub remove : String → Settings → Settings
  unfolding store_settings
  remove key s = store_settings (record s { settings = Map.remove s.settings key })

  -- The constructor's `loadSettings`, which does not test the keys.
  unfoldable pub load_settings : Entries String → List String → Result String Settings
  load_settings storage valid_keys =
      let loaded : Entries String → Result String Settings = λ settings.
        ok (record { settings = settings; storage = storage; valid_keys = valid_keys }) in
      elim (Map.get storage storage_key) [
        | none ↦ loaded []
        | some text ↦
            if is_truthy (some text)
            then (elim (json.parse text) [
              | ok entries ↦ loaded (set_all [] entries)
              | err message ↦ err message
            ])
            else loaded []
      ]
