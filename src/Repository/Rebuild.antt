-- ===== src/Repository/Rebuild.antt =====
-- Creating a stored server again: `createServer` of src/www/app/outline_server_repository/index.ts
-- on the data that `storeServers` keeps.
use pepper_vpn_client.Common.{
  String, true, false, Option, none, List, [], ◌≡◌, refl, inl, inr, arith, Bool-cases,
}
use pepper_vpn_client.Common.Exec.{ok}
use pepper_vpn_client.AccessKey.{Url, is_dynamic_access_key}
use pepper_vpn_client.Server.{
  static_connection, dynamic_connection, OutlineServer, new_outline_server, fetch_location,
}
use pepper_vpn_client.Server.Location.{fetch_location_idempotent, replace_ssconf-fetch_location}
use pepper_vpn_client.Repository.{tolerate, create_server}
use pepper_vpn_client.Repository.Keys.{
  Environment, server_from_access_key, validate_access_key, validate_static_key,
}

-- A server as it is before it connects: the configuration of a dynamic server is not stored.
abbrev pub at_rest : OutlineServer → OutlineServer
at_rest server = elim server.type [
  | dynamic_connection ↦ record server { session_config = none }
  | static_connection ↦ server
]

abbrev pub with_name : Option String → OutlineServer → OutlineServer
with_name name server = record server { name = name }

module _ (env : Environment) where
  -- No server of the list has the key of a static server.
  abbrev pub IsFresh : List OutlineServer → OutlineServer → Type 0
  IsFresh servers server =
      server.type ≡ static_connection → server_from_access_key env servers server.access_key ≡ none

  -- Whatever stands in the list, as long as the key is free in it, the stored data of the server
  -- gives it back, with any name.
  abbrev pub IsStable : OutlineServer → Type 0
  IsStable server =
      (servers : List OutlineServer) (name : Option String)
      → IsFresh servers server
      → create_server env servers server.id server.access_key name
        ≡ ok (at_rest (with_name name server))

  pub create_server-IsFresh :
      (servers : List OutlineServer) (id key : String) (name : Option String)
      (server : OutlineServer)
      → create_server env servers id key name ≡ ok server
      → IsFresh servers server
  unfolding create_server new_outline_server tolerate validate_access_key validate_static_key
  create_server-IsFresh servers id key name server h static = ground arith

  validate_static :
      (servers : List OutlineServer) (key : String)
      → is_dynamic_access_key key ≡ false
      → server_from_access_key env servers key ≡ none
      → validate_access_key env servers key ≡ validate_access_key env [] key
  unfolding validate_access_key validate_static_key server_from_access_key
  validate_static servers key static free = ground arith

  -- What `createServer` makes of its arguments.
  pub create_server-fields :
      (servers : List OutlineServer) (id key : String) (name : Option String)
      (server : OutlineServer)
      → create_server env servers id key name ≡ ok server
      → (server.id ≡ id) × (server.name ≡ name) × (at_rest server ≡ server)
  unfolding create_server new_outline_server tolerate
  create_server-fields servers id key name server h = ground arith

  create_static :
      (servers : List OutlineServer) (id key : String) (name name' : Option String)
      (server : OutlineServer)
      → is_dynamic_access_key key ≡ false
      → server_from_access_key env servers key ≡ none
      → create_server env [] id key name ≡ ok server
      → create_server env servers id key name' ≡ ok (with_name name' server)
  unfolding create_server new_outline_server tolerate
  create_static servers id key name name' server static free h =
      ground (arith, validate_static servers key static free)

  validate_location :
      (servers : List OutlineServer) (key : String) (url : Url)
      → is_dynamic_access_key key ≡ true
      → env.parsers.parse_url (fetch_location key) ≡ ok url
      → validate_access_key env servers (fetch_location key) ≡ ok tt
  unfolding validate_access_key
  validate_location servers key url dynamic parses =
      ground (
        arith,
        (fetch_location_idempotent key dynamic).1,
        replace_ssconf-fetch_location key dynamic,
      )

  create_dynamic :
      (servers : List OutlineServer) (id key : String) (name : Option String) (url : Url)
      → is_dynamic_access_key key ≡ true
      → env.parsers.parse_url (fetch_location key) ≡ ok url
      → create_server env servers id (fetch_location key) name
        ≡ ok (record {
          id = id;
          access_key = fetch_location key;
          type = dynamic_connection;
          name = name;
          session_config = none;
          error_message_id = none;
        })
  unfolding create_server new_outline_server tolerate
  create_dynamic servers id key name url dynamic parses =
      let (same, still) = fetch_location_idempotent key dynamic in
      rw (still, validate_location servers key url dynamic parses, same) refl

  created_dynamic :
      (servers : List OutlineServer) (id key : String) (name : Option String)
      (server : OutlineServer)
      → is_dynamic_access_key key ≡ true
      → create_server env servers id key name ≡ ok server
      → server ≡ record {
        id = id;
        access_key = fetch_location key;
        type = dynamic_connection;
        name = name;
        session_config = none;
        error_message_id = none;
      }
  unfolding create_server new_outline_server tolerate validate_access_key
  created_dynamic servers id key name server dynamic h = ground arith

  created_static :
      (servers : List OutlineServer) (id key : String) (name : Option String)
      (server : OutlineServer)
      → is_dynamic_access_key key ≡ false
      → create_server env servers id key name ≡ ok server
      → (server.access_key ≡ key)
        × (server.type ≡ static_connection)
        × (create_server env [] id key name ≡ ok server)
  unfolding create_server new_outline_server tolerate
  created_static servers id key name server static h =
      let key_kept : server.access_key ≡ key = ground arith in
      let type_static : server.type ≡ static_connection = ground arith in
      let free : server_from_access_key env servers key ≡ none =
        rw key_kept at (create_server-IsFresh servers id key name server h type_static) in
      (key_kept, type_static, ground (arith, validate_static servers key static free))

  -- A server that `createServer` makes is stable, if the location of a dynamic one parses.
  pub create_server-IsStable :
      (servers : List OutlineServer) (id key : String) (name : Option String)
      (server : OutlineServer)
      → create_server env servers id key name ≡ ok server
      → (is_dynamic_access_key key ≡ true
          → (url : Url) × (env.parsers.parse_url (fetch_location key) ≡ ok url))
      → IsStable server
  create_server-IsStable servers id key name server h parses servers' name' fresh =
      elim (Bool-cases (is_dynamic_access_key key)) [
        | inl dynamic ↦
            let (url, parsed) = parses dynamic in
            rw (created_dynamic servers id key name server dynamic h)
              (create_dynamic servers' id key name' url dynamic parsed)
        | inr static ↦
            let (key_kept, type_static, alone) =
              created_static servers id key name server static h in
            let free : server_from_access_key env servers' key ≡ none =
              rw key_kept at (fresh type_static) in
            let again = create_static servers' id key name name' server static free alone in
            let fields = create_server-fields servers id key name server h in ground arith
      ]
