-- ===== src/Repository/ForgettingTests.antt =====
-- Runs of `forget` and `undoForget` of src/www/app/outline_server_repository/index.ts, and their
-- theorems at them.
use pepper_vpn_client.Common.{String, none, some, List, [], ◌∷◌, ◌++◌, ◌≡◌, refl}
use pepper_vpn_client.Common.Map
use pepper_vpn_client.Common.Map.{Entries}
use pepper_vpn_client.Common.Exec.{ok}
use pepper_vpn_client.Common.Text.{starts_with, strip_prefix, split, includes}
use pepper_vpn_client.AccessKey.{
  replace_prefix, is_dynamic_access_key, static_key_to_session_config,
}
use pepper_vpn_client.Server.{OutlineServer, new_outline_server, is_server_cipher_supported}
use pepper_vpn_client.Repository.{
  tolerate, Repository, server_forgotten, add, forget, undo_forget, new_server, create_server,
  to_json, servers_storage_key, name_of_new, store_servers, server_forget_undone,
}
use pepper_vpn_client.Repository.Keys.{
  validate_config, OutlineServerJson, validate_access_key, validate_static_key,
  server_from_access_key, has_access_key, static_keys_match, server_name_from_access_key,
}
use pepper_vpn_client.Repository.Invariant.{IsConsistent, added, forgotten, Step-IsConsistent}
use pepper_vpn_client.Repository.Forgetting.{undo_forget-forget}
use pepper_vpn_client.Repository.Runs.{
  environment, static_server, repository_of, empty, env, empty-IsConsistent, empty_free,
  static_parses,
}

abbrev held : OutlineServer
held = static_server "a" "A" none

abbrev holding : Repository
holding = repository_of (held ∷ []) none

held-found : Map.get holding.server_by_id "a" ≡ some held
unfolding Map.get
held-found = refl

undo_forget-forget_example :
    ((j : String)
      → Map.get (undo_forget env "a" (forget env "a" holding)).server_by_id j
        ≡ Map.get holding.server_by_id j)
    × ((undo_forget env "a" (forget env "a" holding)).server_by_id
        ≡ Map.remove holding.server_by_id "a" ++ ("a", held) ∷ [])
    × ((undo_forget env "a" (forget env "a" holding)).last_forgotten_server ≡ none)
    × ((undo_forget env "a" (forget env "a" holding)).events
        ≡ ([] ++ server_forgotten held ∷ []) ++ server_forget_undone held ∷ [])
    × (Map.get (undo_forget env "a" (forget env "a" holding)).storage servers_storage_key
        ≡ some (
            env.stringify
              (to_json env (Map.values (Map.remove holding.server_by_id "a" ++ ("a", held) ∷ [])))))
undo_forget-forget_example = undo_forget-forget env holding held held-found

-- Server "a" was forgotten, and its key was added again as server "c".
abbrev unnamed : String → OutlineServer
unnamed id = static_server id "A" (some "undefined")

abbrev both : List OutlineServerJson
both =
    record { id = "c"; access_key = "ss://A"; name = some "undefined" }
    ∷ record { id = "a"; access_key = "ss://A"; name = some "undefined" }
    ∷ []

abbrev readded : Repository
readded =
    (add (environment both) "c" "ss://A"
      (forget (environment both) "a" (add (environment both) "a" "ss://A" empty).0)).0

free_again :
    Map.get
      (forget (environment both) "a" (add (environment both) "a" "ss://A" empty).0).server_by_id
      "c"
    ≡ none
unfolding add new_server create_server new_outline_server validate_access_key validate_static_key
    validate_config server_from_access_key has_access_key static_keys_match name_of_new
    store_servers server_name_from_access_key tolerate is_dynamic_access_key
    static_key_to_session_config is_server_cipher_supported strip_prefix starts_with replace_prefix
    Map.set Map.get Map.values split includes forget Map.remove
free_again = refl

readded-fields :
    (readded.server_by_id ≡ ("c", unnamed "c") ∷ [])
    × (readded.last_forgotten_server ≡ some (unnamed "a"))
unfolding add new_server create_server new_outline_server validate_access_key validate_static_key
    validate_config server_from_access_key has_access_key static_keys_match name_of_new
    store_servers server_name_from_access_key tolerate is_dynamic_access_key
    static_key_to_session_config is_server_cipher_supported strip_prefix starts_with replace_prefix
    Map.set Map.get Map.values split includes forget Map.remove
readded-fields = (refl, refl)

readded-IsConsistent : IsConsistent (environment both) readded
readded-IsConsistent =
    Step-IsConsistent (environment both) (added "c" "ss://A" free_again (static_parses both)) (
      Step-IsConsistent (environment both) (forgotten "a") (
        Step-IsConsistent (environment both) (added "a" "ss://A" empty_free (static_parses both))
          (empty-IsConsistent both)))

free_to_undo : Map.get readded.server_by_id "a" ≡ none
unfolding Map.get
free_to_undo = rw readded-fields.0 refl

taken_again :
    server_from_access_key (environment both) (Map.values readded.server_by_id) "ss://A"
    ≡ some (unnamed "c")
unfolding server_from_access_key has_access_key static_keys_match static_key_to_session_config
    strip_prefix Map.values
taken_again = rw readded-fields.0 refl

both-json :
    (environment both).parse_servers "saved"
    ≡ ok (to_json (environment both) (Map.values (Map.set readded.server_by_id "a" (unnamed "a"))))
unfolding to_json Map.set Map.values
both-json = rw readded-fields.0 refl
