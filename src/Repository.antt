-- ===== src/Repository.antt =====
-- src/www/app/outline_server_repository/index.ts: the persisted list of servers. The storage is a
-- map of texts; the events that a method enqueues are appended to `events`. An object of the list
-- is either in `server_by_id` or the last forgotten one, never both, so it goes by value. A `plain`
-- error holds the message of its cause alone.
pub mod Keys
pub mod Rebuild
pub mod Reload
pub mod Kept
pub mod Invariant
pub mod Adding
pub mod Naming
pub mod Forgetting
pub mod Runs
mod Tests
mod ForgettingTests
use Prim.Native.String
use pepper_vpn_client.Common.{
  ℕ, String, Bool, true, false, Option, none, some, List, [], ◌∷◌, ◌++◌, ◌&&◌, ◌||◌, if◌then◌else◌,
  str_eq, ◌==◌, not, map,
}
use pepper_vpn_client.Common.Map.{Entries}
use pepper_vpn_client.Common.Map
use pepper_vpn_client.Common.Exec.{Result, ok, err, ◌>>=◌}
use pepper_vpn_client.Common.Text.{split, includes, strip_prefix, is_truthy}
use pepper_vpn_client.Errors.{
  Thrown, plain, server_already_added, server_url_invalid, server_incompatible,
  shadowsocks_unsupported_cipher,
}
use pepper_vpn_client.AccessKey.{
  ParsedConfig, ShadowsocksSessionConfig, Parsers, replace_prefix, is_dynamic_access_key,
  static_key_to_session_config,
}
use pepper_vpn_client.Server.{
  ServerType, static_connection, dynamic_connection, OutlineServer, new_outline_server,
  is_server_cipher_supported,
}
use pepper_vpn_client.Repository.Keys.{
  OutlineServerJson, ServersStorageV0Config, Environment, same_text, same_number, find_name,
  to_text, after_first, as_https, static_keys_match, server_name_from_access_key, has_access_key,
  server_from_access_key, validate_config, validate_static_key, validate_access_key,
}

pub data RepositoryEvent : Type 0 where
  server_added server_renamed server_forgotten server_forget_undone :
      OutlineServer → RepositoryEvent

pub record Repository : Type 0 where
  pub server_by_id : Entries OutlineServer
  pub last_forgotten_server : Option OutlineServer
  pub storage : Entries String
  pub events : List RepositoryEvent

abbrev pub servers_storage_key_v0 : String
servers_storage_key_v0 = "servers"

abbrev pub servers_storage_key : String
servers_storage_key = "servers_v1"

module _ (env : Environment) where
  open env use {parsers, stringify, parse_servers, parse_servers_v0, make_access_key}
  open parsers use {parse_url}

  -- the `catch` of `createServer`
  unfoldable pub tolerate : OutlineServer → Result Thrown (Unit {0}) → Result Thrown OutlineServer
  tolerate server (ok _) = ok server
  tolerate server (err (shadowsocks_unsupported_cipher _)) =
      ok (record server { error_message_id = some "unsupported-cipher" })
  tolerate server (err e) = err e

  unfoldable pub create_server :
      List OutlineServer → String → String → Option String → Result Thrown OutlineServer
  create_server servers id key name =
      let type : ServerType =
        if is_dynamic_access_key key then dynamic_connection else static_connection in
      new_outline_server parsers id key type name >>= λ server.
      tolerate server (validate_access_key env servers key)

  unfoldable pub to_json : List OutlineServer → List OutlineServerJson
  to_json =
      map (λ server. record { id = server.id; access_key = server.access_key; name = server.name })

  unfoldable pub store_servers : Repository → Repository
  unfolding to_json
  store_servers repo = record repo {
    storage =
        Map.set repo.storage servers_storage_key
          (stringify (to_json (Map.values repo.server_by_id)));
  }

  -- `eventQueue.enqueue`
  abbrev enqueue : Repository → RepositoryEvent → Repository
  enqueue repo event = record repo { events = repo.events ++ event ∷ [] }

  -- the name of a new server: the one in its key, or else the host of a dynamic key
  unfoldable pub name_of_new : String → Result Thrown (Option String)
  unfolding server_name_from_access_key
  name_of_new key = server_name_from_access_key env key >>= λ name.
      if not (is_truthy name) && is_dynamic_access_key key
      then (elim (parse_url key) [
        | ok url ↦ ok (some url.hostname)
        | err message ↦ err (plain message)
      ])
      else ok name

  -- What `add` computes before it changes anything.
  unfoldable pub new_server : Repository → String → String → Result Thrown OutlineServer
  unfolding name_of_new
  new_server repo id key = validate_access_key env (Map.values repo.server_by_id) key >>= λ _.
      name_of_new key >>= λ name. create_server (Map.values repo.server_by_id) id key name

  -- `add`; the id is what `uuidv4` gives
  unfoldable pub add : String → String → Repository → Repository × Result Thrown (Unit {0})
  unfolding store_servers
  add id key repo = elim (new_server repo id key) [
    | err e ↦ (repo, err e)
    | ok server ↦
        let added = record repo { server_by_id = Map.set repo.server_by_id server.id server } in
        (enqueue (store_servers added) (server_added server), ok tt)
  ]

  unfoldable pub rename : String → String → Repository → Repository
  unfolding store_servers
  rename id new_name repo = elim (Map.get repo.server_by_id id) [
    | none ↦ repo
    | some server ↦
        let renamed = record server { name = some new_name } in
        enqueue
          (store_servers (record repo { server_by_id = Map.set repo.server_by_id id renamed }))
          (server_renamed renamed)
  ]

  unfoldable pub forget : String → Repository → Repository
  unfolding store_servers
  forget id repo = elim (Map.get repo.server_by_id id) [
    | none ↦ repo
    | some server ↦
        enqueue
          (store_servers (record repo {
            server_by_id = Map.remove repo.server_by_id id;
            last_forgotten_server = some server;
          }))
          (server_forgotten server)
  ]

  unfoldable pub undo_forget : String → Repository → Repository
  unfolding store_servers
  undo_forget id repo = elim repo.last_forgotten_server [
    | none ↦ repo
    | some server ↦
        if str_eq server.id id
        then record (enqueue
            (store_servers
              (record repo { server_by_id = Map.set repo.server_by_id server.id server }))
            (server_forget_undone server)) { last_forgotten_server = none }
        else repo
  ]

  -- `loadServer` in the `try` of its callers: a server that cannot be created is skipped.
  unfoldable pub load_server : Entries OutlineServer → OutlineServerJson → Entries OutlineServer
  load_server servers json =
      elim (create_server (Map.values servers) json.id json.access_key json.name) [
        | ok server ↦ Map.set servers json.id server
        | err _ ↦ servers
      ]

  unfoldable pub load_all : Entries OutlineServer → List OutlineServerJson → Entries OutlineServer
  unfolding load_server
  load_all servers [] = servers
  load_all servers (json ∷ jsons) = load_all (load_server servers json) jsons

  -- The V0 format: a key that cannot be made is skipped too.
  unfoldable pub load_all_v0 :
      Entries OutlineServer → Entries ServersStorageV0Config → Entries OutlineServer
  unfolding load_server
  load_all_v0 servers [] = servers
  load_all_v0 servers ((id, config) ∷ configs) =
      load_all_v0
        (elim (make_access_key config) [
          | ok key ↦ load_server servers (record { id = id; access_key = key; name = config.name })
          | err _ ↦ servers
        ])
        configs

  -- The constructor's `loadServers`. A text of length 0 counts as none.
  unfoldable pub load_servers : Entries String → Result Thrown Repository
  unfolding load_all load_all_v0
  load_servers storage =
      let loaded : Entries OutlineServer → Result Thrown Repository = λ servers. ok (record {
        server_by_id = servers;
        last_forgotten_server = none;
        storage = storage;
        events = [];
      }) in
      let v1 = Map.get storage servers_storage_key in
      let v0 = Map.get storage servers_storage_key_v0 in
      if is_truthy v1
      then (elim (parse_servers (to_text v1)) [
        | ok jsons ↦ loaded (load_all [] jsons)
        | err message ↦ err (plain message)
      ])
      else if is_truthy v0
      then (elim (parse_servers_v0 (to_text v0)) [
        | ok configs ↦ loaded (load_all_v0 [] configs)
        | err message ↦ err (plain message)
      ])
      else loaded []
