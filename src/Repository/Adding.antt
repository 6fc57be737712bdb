-- ===== src/Repository/Adding.antt =====
-- Adding servers: `add`, `validateAccessKey` and `serverNameFromAccessKey` of
-- src/www/app/outline_server_repository/index.ts.
use pepper_vpn_client.Common.{
  ℕ, String, true, false, Option, none, some, List, [], ◌∷◌, ◌++◌, ◌≡◌, ◌↔◌, refl, inl, inr, arith,
  str_eq, eq_refl, if◌then◌else◌,
}
use pepper_vpn_client.Common.Map
use pepper_vpn_client.Common.Map.{Entries, set_new, get-remove, get-set}
use pepper_vpn_client.Common.Exec.{ok, Result-cases}
use pepper_vpn_client.AccessKey.{
  ParsedConfig, ShadowsocksSessionConfig, is_dynamic_access_key, static_key_to_session_config,
}
use pepper_vpn_client.Server.{
  OutlineServer, fetch_location, new_outline_server, is_server_cipher_supported,
}
use pepper_vpn_client.Repository.{
  Repository, create_server, tolerate, new_server, store_servers, add, server_added,
}
use pepper_vpn_client.Repository.Keys.{
  Environment, server_from_access_key, validate_access_key, validate_static_key, same_text,
  same_number, static_keys_match,
}
use pepper_vpn_client.Repository.Rebuild.{create_server-fields}
use pepper_vpn_client.Repository.Invariant.{new_server-created}

same_text_refl : (o : Option String) → same_text o o ≡ true
same_text_refl none = refl
same_text_refl (some s) = eq_refl s

same_number_refl : (o : Option ℕ) → same_number o o ≡ true
same_number_refl none = refl
same_number_refl (some n) = ground arith

module _ (env : Environment) where
  pub static_keys_match_refl :
      (key : String) (config : ShadowsocksSessionConfig)
      → static_key_to_session_config env.parsers key ≡ ok config
      → static_keys_match env key key ≡ true
  unfolding static_keys_match
  static_keys_match_refl key config h = ground (
    arith,
    same_text_refl config.host,
    same_number_refl config.port,
    same_text_refl config.password,
    same_text_refl config.method,
    same_text_refl config.prefix,
  )

  -- A static key is accepted exactly if no server of the list has it, it parses, its host is no IPv6
  -- address, and its cipher is one of the four supported ones.
  pub validate_static-eq-ok_iff :
      (servers : List OutlineServer) (key : String)
      → is_dynamic_access_key key ≡ false
      → (validate_access_key env servers key ≡ ok tt) ↔ (
          (config : ParsedConfig) × (server_from_access_key env servers key ≡ none)
          × (env.parsers.parse_shadowsocks key ≡ ok config)
          × (config.host_is_ipv6 ≡ false)
          × (is_server_cipher_supported (some config.method) ≡ true))
  unfolding validate_access_key validate_static_key
  validate_static-eq-ok_iff servers key static = (
    λ valid. elim (Result-cases (env.parsers.parse_shadowsocks key)) [
      | inl (config, parsed) ↦ (config, ground arith, parsed, ground arith, ground arith)
      | inr (message, failed) ↦ absurd (ground arith)
    ],
    λ (config, free, parsed, ipv4, supported). ground arith,
  )

  -- For a dynamic key the outcome of `add` does not depend on the list: a key that a server of the
  -- list already has is added once more.
  pub new_server_dynamic :
      (repo repo' : Repository) (id key : String)
      → is_dynamic_access_key key ≡ true
      → new_server env repo id key ≡ new_server env repo' id key
  unfolding new_server create_server validate_access_key
  new_server_dynamic repo repo' id key dynamic = simp dynamic

  pub created-key :
      (servers : List OutlineServer) (id key : String) (name : Option String)
      (server : OutlineServer)
      → create_server env servers id key name ≡ ok server
      → server.access_key ≡ (if is_dynamic_access_key key then fetch_location key else key)
  unfolding create_server new_outline_server tolerate
  created-key servers id key name server h = ground arith

  pub add_state :
      (id key : String) (repo : Repository) (server : OutlineServer)
      → new_server env repo id key ≡ ok server
      → (add env id key repo).0
        ≡ record (store_servers env
            (record repo { server_by_id = Map.set repo.server_by_id server.id server })) {
              events = repo.events ++ server_added server ∷ [];
            }
  unfolding add
  add_state id key repo server made = rw (made, add)

  -- A successful `add` puts one server, the one that it announces, under the new id, and leaves the
  -- others and the forgotten one as they are; the server has the id, and its key is the given one,
  -- or for a dynamic key the location to fetch from.
  pub add_ok :
      (id key : String) (repo : Repository)
      → (add env id key repo).1 ≡ ok tt
      → (server : OutlineServer) × (server.id ≡ id)
        × (server.access_key ≡ (if is_dynamic_access_key key then fetch_location key else key))
        × ((j : String)
            → Map.get (add env id key repo).0.server_by_id j
              ≡ (if str_eq id j then some server else Map.get repo.server_by_id j))
        × ((add env id key repo).0.last_forgotten_server ≡ repo.last_forgotten_server)
        × ((add env id key repo).0.events ≡ repo.events ++ server_added server ∷ [])
  add_ok id key repo h = elim (Result-cases (new_server env repo id key)) [
    | inr (e, threw) ↦ absurd (unfold add in ground arith)
    | inl (server, made) ↦
        let (name, named, created, valid) = new_server-created env repo id key server made in
        let (same_id, _, _) =
          create_server-fields env (Map.values repo.server_by_id) id key name server created in
        let kept = created-key (Map.values repo.server_by_id) id key name server created in
        rw (add_state id key repo server made) (
          server,
          same_id,
          kept,
          λ j. unfold store_servers in rw (get-set, same_id),
          unfold store_servers in refl,
          refl,
        )
  ]
