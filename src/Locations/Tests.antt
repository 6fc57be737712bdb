-- ===== src/Locations/Tests.antt =====
-- Runs of server_manager/web_app/location_formatting.ts.
use pepper_vpn_client.Common.{
  String, Bool, true, false, Option, none, some, List, [], ◌∷◌, ◌++◌, ◌≡◌, refl,
}
use pepper_vpn_client.Common.Map
use pepper_vpn_client.Common.Map.{Entries}
use pepper_vpn_client.Common.Distinct.{IsDistinct}
use pepper_vpn_client.Locations.{
  GeoLocation, CloudLocationOption, add_option, add_options, filter_options,
}
use pepper_vpn_client.Locations.Filtering.{representative, unknown_available, filter_options-eq}

abbrev option_at : Option GeoLocation → String → Bool → CloudLocationOption
option_at geo_location zone available = record {
  cloud_location = record { id = some zone; location = geo_location };
  available = available;
}

abbrev london : Option GeoLocation
london = some (record { id = "london"; country_code = "GB" })

abbrev delhi : Option GeoLocation
delhi = some (record { id = "delhi"; country_code = "IN" })

abbrev options : List CloudLocationOption
options =
    option_at london "lon1" false
    ∷ option_at none "x1" true
    ∷ option_at delhi "del1" false
    ∷ option_at london "lon2" true
    ∷ option_at none "x2" false
    ∷ option_at london "lon3" false
    ∷ []

test_options :
    filter_options (λ o. o) options
    ≡ option_at london "lon2" true ∷ option_at delhi "del1" false ∷ option_at none "x1" true ∷ []
unfolding filter_options add_options add_option Map.get Map.set Map.values
test_options = refl

filter_options-eq_example :
    (entries : Entries CloudLocationOption) × (filter_options (λ o. o) options
      ≡ Map.values entries ++ unknown_available (λ o. o) options)
    × IsDistinct entries
    × ((id : String) → Map.get entries id ≡ representative (λ o. o) id options)
filter_options-eq_example = filter_options-eq (λ o. o) options
