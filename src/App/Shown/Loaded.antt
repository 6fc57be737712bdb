-- ===== src/App/Shown/Loaded.antt =====
-- The servers that src/www/app/app.ts is started with.
use pepper_vpn_client.Common.{sym, Bool-cases, ap, [], List, none, ◌≡◌, String, arith, inl, inr}
use pepper_vpn_client.Common.Text.{is_truthy}
use pepper_vpn_client.Repository.{
  servers_storage_key, servers_storage_key_v0, create_server, load_servers, load_all_v0, load_all,
  load_server, new_server, add, undo_forget,
}
use pepper_vpn_client.Repository.Keys.{to_text, ServersStorageV0Config, OutlineServerJson}
use pepper_vpn_client.App.Cards.{set-IsKeyed, IsKeyed}
use pepper_vpn_client.App.{◌∷◌, AppEnvironment}
use pepper_vpn_client.Repository
use pepper_vpn_client.Repository.Rebuild.{create_server-fields}
use pepper_vpn_client.Common.Map.{Entries}
use pepper_vpn_client.Common.Map
use pepper_vpn_client.Server.{OutlineServer}
use pepper_vpn_client.Common.Exec.{ok, Result-cases}

module _ (env : AppEnvironment) where
  load_server-IsKeyed :
      (m : Entries OutlineServer) (json : OutlineServerJson)
      → IsKeyed m
      → IsKeyed (load_server env.environment m json)
  unfolding load_server
  load_server-IsKeyed m json h =
      elim (Result-cases
        (create_server env.environment (Map.values m) json.id json.access_key json.name)) [
          | inl (server, made) ↦
              let (same, _, _) =
                create_server-fields env.environment (Map.values m) json.id json.access_key
                  json.name server made in
              rw (made, load_server) (set-IsKeyed m json.id server same h)
          | inr (e, threw) ↦ rw (threw, load_server) h
        ]

  load_all-IsKeyed :
      (m : Entries OutlineServer) (jsons : List OutlineServerJson)
      → IsKeyed m
      → IsKeyed (load_all env.environment m jsons)
  unfolding load_all
  load_all-IsKeyed m [] h = h
  load_all-IsKeyed m (json ∷ jsons) h =
      load_all-IsKeyed (load_server env.environment m json) jsons (load_server-IsKeyed m json h)

  load_all_v0-IsKeyed :
      (m : Entries OutlineServer) (configs : Entries ServersStorageV0Config)
      → IsKeyed m
      → IsKeyed (load_all_v0 env.environment m configs)
  unfolding load_all_v0
  load_all_v0-IsKeyed m [] h = h
  load_all_v0-IsKeyed m ((id, config) ∷ configs) h =
      elim (Result-cases (env.environment.make_access_key config)) [
        | inl (key, made) ↦
            rw (made, load_all_v0)
              (load_all_v0-IsKeyed
                (load_server env.environment m
                  (record { id = id; access_key = key; name = config.name }))
                configs
                (load_server-IsKeyed m (record { id = id; access_key = key; name = config.name })
                  h))
        | inr (e, threw) ↦ rw (threw, load_all_v0) (load_all_v0-IsKeyed m configs h)
      ]

  loaded :
      (m : Entries OutlineServer) (storage : Entries String) (repo : Repository.Repository)
      → IsKeyed m
      → record { server_by_id = m; last_forgotten_server = none; storage = storage; events = [] }
        ≡ repo
      → IsKeyed repo.server_by_id × (repo.events ≡ [])
  loaded m storage repo h e =
      let same : m ≡ repo.server_by_id = ap (λ (r : Repository.Repository). r.server_by_id) e in
      (rw same at h, sym (ap (λ (r : Repository.Repository). r.events) e))

  -- The servers of the storage stand under their ids, and no event waits.
  pub load_servers-IsKeyed :
      (storage : Entries String) (repo : Repository.Repository)
      → load_servers env.environment storage ≡ ok repo
      → IsKeyed repo.server_by_id × (repo.events ≡ [])
  unfolding load_servers
  load_servers-IsKeyed storage repo h =
      let v1 = Map.get storage servers_storage_key in
      let v0 = Map.get storage servers_storage_key_v0 in
      elim (Bool-cases (is_truthy v1)) [
        | inl new ↦ elim (Result-cases (env.environment.parse_servers (to_text v1))) [
          | inl (jsons, parsed) ↦
              loaded (load_all env.environment [] jsons) storage repo (load_all-IsKeyed [] jsons tt)
                (ground arith)
          | inr (e, failed) ↦ absurd (ground arith)
        ]
        | inr old ↦ elim (Bool-cases (is_truthy v0)) [
          | inl present ↦ elim (Result-cases (env.environment.parse_servers_v0 (to_text v0))) [
            | inl (configs, parsed) ↦
                loaded (load_all_v0 env.environment [] configs) storage repo
                  (load_all_v0-IsKeyed [] configs tt) (ground arith)
            | inr (e, failed) ↦ absurd (ground arith)
          ]
          | inr absent ↦ loaded [] storage repo tt (ground arith)
        ]
      ]
