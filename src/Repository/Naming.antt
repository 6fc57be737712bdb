-- ===== src/Repository/Naming.antt =====
-- Keys that the list has already, and the names that keys give:
-- src/www/app/outline_server_repository/index.ts.
use pepper_vpn_client.Common.{
  String, true, false, none, some, List, [], ◌∷◌, ◌++◌, ◌≡◌, ◌≢◌, refl, ap, ◌∙◌, inl, inr, arith,
  eq_iff, All,
}
use pepper_vpn_client.Common.Map
use pepper_vpn_client.Common.Map.{Entries, set_new, get-remove, get-set, get_append_new}
use pepper_vpn_client.Common.Exec.{ok, err, Result-cases}
use pepper_vpn_client.Common.Text.{includes, split}
use pepper_vpn_client.Errors.{server_already_added}
use pepper_vpn_client.AccessKey.{
  Url, ParsedConfig, is_dynamic_access_key, static_key_to_session_config,
}
use pepper_vpn_client.Server.{OutlineServer}
use pepper_vpn_client.Repository.{
  Repository, new_server, name_of_new, store_servers, add, server_added,
}
use pepper_vpn_client.Repository.Keys.{
  Environment, has_access_key, server_from_access_key, validate_access_key, validate_static_key,
  server_name_from_access_key, as_https, after_first, find_name,
}
use pepper_vpn_client.Repository.Rebuild.{create_server-fields}
use pepper_vpn_client.Repository.Invariant.{new_server-created}
use pepper_vpn_client.Repository.Adding.{
  validate_static-eq-ok_iff, static_keys_match_refl, add_state, created-key,
}

module _ (env : Environment) where
  -- a list without the key, and then a server that has it
  found_at_end :
      (m : Entries OutlineServer) (k key : String) (server : OutlineServer)
      → server_from_access_key env (Map.values m) key ≡ none
      → has_access_key env key server ≡ true
      → server_from_access_key env (Map.values (m ++ (k, server) ∷ [])) key ≡ some server
  unfolding Map.values server_from_access_key
  found_at_end [] k key server free has = ground arith
  found_at_end ((j, s) ∷ m) k key server free has = ground (arith, found_at_end m k key server)

  found_rejected :
      (repo : Repository) (id key : String) (server : OutlineServer)
      → is_dynamic_access_key key ≡ false
      → server_from_access_key env (Map.values repo.server_by_id) key ≡ some server
      → (add env id key repo).1 ≡ err (server_already_added server.id)
  unfolding add new_server validate_access_key validate_static_key
  found_rejected repo id key server static found = ground arith

  has_own_key :
      (key : String) (server : OutlineServer) (config : ParsedConfig)
      → server.access_key ≡ key
      → env.parsers.parse_shadowsocks key ≡ ok config
      → has_access_key env key server ≡ true
  unfolding has_access_key static_key_to_session_config
  has_own_key key server config kept parsed = ground (
    arith,
    static_keys_match_refl env key (record {
      host = some config.host;
      port = some config.port;
      password = some config.password;
      method = some config.method;
      prefix = config.prefix;
    }),
  )

  -- A static key that was added under a new id is refused the next time, with the server that has
  -- it.
  pub add_twice :
      (id id' key : String) (repo : Repository)
      → is_dynamic_access_key key ≡ false
      → Map.get repo.server_by_id id ≡ none
      → (add env id key repo).1 ≡ ok tt
      → (add env id' key (add env id key repo).0).1 ≡ err (server_already_added id)
  add_twice id id' key repo static new h = elim (Result-cases (new_server env repo id key)) [
    | inr (e, threw) ↦ absurd (unfold add in ground arith)
    | inl (server, made) ↦
        let servers = Map.values repo.server_by_id in
        let (name, named, created, valid) = new_server-created env repo id key server made in
        let (same_id, _, _) = create_server-fields env servers id key name server created in
        let (config, free, parsed, _, _) =
          (validate_static-eq-ok_iff env servers key static).0 valid in
        let kept : server.access_key ≡ key =
          created-key env servers id key name server created ∙ (simp static) in
        let has = has_own_key key server config kept parsed in
        let appended = set_new repo.server_by_id server.id server (rw same_id new) in
        let found = found_at_end repo.server_by_id server.id key server free has in
        rw (add_state env id key repo server made) (
          found_rejected
            (record (store_servers env
              (record repo { server_by_id = Map.set repo.server_by_id server.id server })) {
                events = repo.events ++ server_added server ∷ [];
              })
            id' key server static (unfold store_servers in rw appended found)
          ∙ ap (λ n. err (server_already_added n)) same_id)
  ]

  find_name-none :
      (parts : List String) → All (λ pair. includes b'=' pair ≡ true) parts → find_name parts ≡ none
  find_name-none [] h = refl
  find_name-none (part ∷ parts) (p, h) = rw p (find_name-none parts h)

  -- The name of a key whose fragment has no part without "=" is the word that stands for an absent
  -- value, for a static and a dynamic key alike.
  pub name_of_new_unnamed :
      (key : String) (url : Url)
      → env.parsers.parse_url (as_https key) ≡ ok url
      → url.hash ≢ ""
      → All (λ pair. includes b'=' pair ≡ true) (split b'&' (after_first url.hash))
      → env.parsers.decode_uri_component "undefined" ≡ ok "undefined"
      → name_of_new env key ≡ ok (some "undefined")
  name_of_new_unnamed key url parsed nonempty pairs decoded =
      let unnamed = find_name-none (split b'&' (after_first url.hash)) pairs in
      unfold name_of_new server_name_from_access_key in ground (arith, unnamed, eq_iff url.hash "")
