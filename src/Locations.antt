-- ===== src/Locations.antt =====
-- server_manager/web_app/location_formatting.ts: the options for the location of a new server, on the
-- types of server_manager/model/location.ts. `T` is the caller's type of an option.
pub mod Filtering
mod Tests
use pepper_vpn_client.Common.{
  String, Bool, true, false, Option, none, some, List, [], ◌∷◌, ◌++◌, ◌||◌, not, if◌then◌else◌,
}
use pepper_vpn_client.Common.Map
use pepper_vpn_client.Common.Map.{Entries}

pub record GeoLocation : Type 0 where
  pub id : String
  pub country_code : String

pub record CloudLocation : Type 0 where
  pub id : Option String
  pub location : Option GeoLocation

pub record CloudLocationOption : Type 0 where
  pub cloud_location : CloudLocation
  pub available : Bool

-- the variables of `filterOptions`
pub record Filtered (T : Type 0) : Type 0 where
  pub entries : Entries T
  pub unmapped_options : List T

abbrev pub has_entry : {T : Type 0} → Entries T → String → Bool
has_entry entries id = elim (Map.get entries id) [ some _ ↦ true | none ↦ false ]

module _ {T : Type 0} (as_option : T → CloudLocationOption) where
  -- a round of `forEach`
  unfoldable pub add_option : T → Filtered T → Filtered T
  add_option option f = elim (as_option option).cloud_location.location [
    | some geo_location ↦
        if (as_option option).available || not (has_entry f.entries geo_location.id)
        then record f { entries = Map.set f.entries geo_location.id option }
        else f
    | none ↦
        if (as_option option).available
        then record f { unmapped_options = f.unmapped_options ++ option ∷ [] }
        else f
  ]

  unfoldable pub add_options : List T → Filtered T → Filtered T
  unfolding add_option
  add_options [] f = f
  add_options (option ∷ options) f = add_options options (add_option option f)

  unfoldable pub filter_options : List T → List T
  unfolding add_options
  filter_options options =
      let f = add_options options (record { entries = []; unmapped_options = [] }) in
      Map.values f.entries ++ f.unmapped_options
