-- ===== src/Repository/Tests.antt =====
-- Runs of the repository of src/www/app/outline_server_repository/index.ts, and its theorems at
-- them.
use pepper_vpn_client.Common.{
  All, String, true, false, none, some, List, [], ◌∷◌, ◌++◌, ◌≡◌, ap, sym, ◌↔◌, refl, if◌then◌else◌,
  str_eq,
}
use pepper_vpn_client.Common.Map
use pepper_vpn_client.Common.Map.{Entries}
use pepper_vpn_client.Common.Exec.{ok}
use pepper_vpn_client.Common.Text.{starts_with, strip_prefix, split, includes}
use pepper_vpn_client.AccessKey.{
  replace_prefix, Url, ParsedConfig, is_dynamic_access_key, static_key_to_session_config,
}
use pepper_vpn_client.Server.{
  OutlineServer, fetch_location, new_outline_server, is_server_cipher_supported,
}
use pepper_vpn_client.Repository.{
  tolerate, Repository, server_added, add, rename, load_servers, new_server, create_server, to_json,
  name_of_new, store_servers,
}
use pepper_vpn_client.Repository.Keys.{
  validate_config, OutlineServerJson, validate_access_key, validate_static_key,
  server_from_access_key, as_https, after_first, has_access_key, static_keys_match,
  server_name_from_access_key,
}
use pepper_vpn_client.Repository.Reload.{rest_of}
use pepper_vpn_client.Repository.Invariant.{
  IsConsistent, Step, added, renamed, Reach, here, next, Step-IsConsistent,
  load_servers_after_calls,
}
use pepper_vpn_client.Repository.Adding.{validate_static-eq-ok_iff, add_ok}
use pepper_vpn_client.Repository.Runs.{
  parse_key, parse_location, environment, static_server, empty, env, empty-IsConsistent, is_static,
  empty_free, static_parses,
}

test_add : add env "a" "ss://A" empty ≡ (
  record {
    server_by_id = ("a", static_server "a" "A" (some "undefined")) ∷ [];
    last_forgotten_server = none;
    storage = empty.storage;
    events = server_added (static_server "a" "A" (some "undefined")) ∷ [];
  },
  ok tt,
)
unfolding add new_server create_server new_outline_server validate_access_key validate_static_key
    validate_config server_from_access_key has_access_key static_keys_match name_of_new
    store_servers server_name_from_access_key tolerate is_dynamic_access_key
    static_key_to_session_config is_server_cipher_supported strip_prefix starts_with replace_prefix
    Map.set Map.get Map.values split includes
test_add = refl

-- Three methods, and what is stored in the end.
abbrev saved : List OutlineServerJson
saved =
    record { id = "a"; access_key = "ss://A"; name = some "Home" }
    ∷ record { id = "b"; access_key = "https://B"; name = some "undefined" }
    ∷ []

abbrev after_calls : Repository
after_calls =
    rename (environment saved) "a" "Home"
      (add (environment saved) "b" "ssconf://B" (add (environment saved) "a" "ss://A" empty).0).0

after_calls-json : to_json (environment saved) (Map.values after_calls.server_by_id) ≡ saved
unfolding add new_server create_server new_outline_server validate_access_key validate_static_key
    validate_config server_from_access_key has_access_key static_keys_match name_of_new
    store_servers server_name_from_access_key tolerate is_dynamic_access_key
    static_key_to_session_config is_server_cipher_supported strip_prefix starts_with replace_prefix
    Map.set Map.get Map.values split includes rename to_json fetch_location
after_calls-json = refl

free_id : Map.get (add (environment saved) "a" "ss://A" empty).0.server_by_id "b" ≡ none
unfolding add new_server create_server new_outline_server validate_access_key validate_static_key
    validate_config server_from_access_key has_access_key static_keys_match name_of_new
    store_servers server_name_from_access_key tolerate is_dynamic_access_key
    static_key_to_session_config is_server_cipher_supported strip_prefix starts_with replace_prefix
    Map.set Map.get Map.values split includes
free_id = refl

location_parses :
    (url : Url) × ((environment saved).parsers.parse_url (fetch_location "ssconf://B") ≡ ok url)
unfolding fetch_location replace_prefix strip_prefix
location_parses = (_, refl)

is_dynamic : is_dynamic_access_key "ssconf://B" ≡ true
unfolding is_dynamic_access_key starts_with strip_prefix
is_dynamic = refl

first-Step : Step (environment saved) empty (add (environment saved) "a" "ss://A" empty).0
first-Step = added "a" "ss://A" empty_free (static_parses saved)

calls : Reach (environment saved) empty after_calls
calls =
    next
      (next (next (here empty) first-Step) (added "b" "ssconf://B" free_id (λ d. location_parses)))
      (renamed "a" "Home")

load_servers_after_calls_example :
    load_servers (environment saved) after_calls.storage
    ≡ ok (record {
      server_by_id = rest_of after_calls.server_by_id;
      last_forgotten_server = none;
      storage = after_calls.storage;
      events = [];
    })
load_servers_after_calls_example =
    load_servers_after_calls (environment saved) empty after_calls calls (empty-IsConsistent saved)
      (λ e. cc) (ap ok (sym after_calls-json))

Step-IsConsistent_example :
    IsConsistent (environment saved) (add (environment saved) "a" "ss://A" empty).0
Step-IsConsistent_example =
    Step-IsConsistent (environment saved) first-Step (empty-IsConsistent saved)

abbrev one : Repository
one = (add env "a" "ss://A" empty).0

add_works : (add env "a" "ss://A" empty).1 ≡ ok tt
unfolding add new_server create_server new_outline_server validate_access_key validate_static_key
    validate_config server_from_access_key has_access_key static_keys_match name_of_new
    store_servers server_name_from_access_key tolerate is_dynamic_access_key
    static_key_to_session_config is_server_cipher_supported strip_prefix starts_with replace_prefix
    Map.set Map.get Map.values split includes
add_works = refl

add_ok_example :
    (server : OutlineServer) × (server.id ≡ "a")
    × (server.access_key
        ≡ (if is_dynamic_access_key "ss://A" then fetch_location "ss://A" else "ss://A"))
    × ((j : String)
        → Map.get one.server_by_id j
          ≡ (if str_eq "a" j then some server else Map.get empty.server_by_id j))
    × (one.last_forgotten_server ≡ none)
    × (one.events ≡ [] ++ server_added server ∷ [])
add_ok_example = add_ok env "a" "ss://A" empty add_works

validate_static-eq-ok_iff_example : (validate_access_key env [] "ss://A" ≡ ok tt) ↔ (
    (config : ParsedConfig) × (server_from_access_key env [] "ss://A" ≡ none)
    × (parse_key "ss://A" ≡ ok config)
    × (config.host_is_ipv6 ≡ false)
    × (is_server_cipher_supported (some config.method) ≡ true))
validate_static-eq-ok_iff_example = validate_static-eq-ok_iff env [] "ss://A" is_static

fragment_parts : All (λ pair. includes b'=' pair ≡ true) (split b'&' (after_first "#a=b"))
unfolding split includes
fragment_parts = (refl, tt)

fragment_location :
    parse_location (as_https "ss://A")
    ≡ ok (record { hostname = "A"; port = ""; protocol = "https:"; hash = "#a=b" })
unfolding strip_prefix
fragment_location = refl
