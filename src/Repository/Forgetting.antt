-- ===== src/Repository/Forgetting.antt =====
-- Forgetting, undoing and renaming: src/www/app/outline_server_repository/index.ts.
use pepper_vpn_client.Common.{
  String, false, none, some, [], ◌∷◌, ◌++◌, ◌≡◌, ◌≢◌, refl, sym, ap, ◌∙◌, arith, str_eq, eq_iff,
  eq_refl, if◌then◌else◌,
}
use pepper_vpn_client.Common.Map
use pepper_vpn_client.Common.Map.{Entries, set_new, get-remove, get-set, get_append_new}
use pepper_vpn_client.Common.Exec.{ok}
use pepper_vpn_client.AccessKey.{is_dynamic_access_key}
use pepper_vpn_client.Server.{OutlineServer, new_outline_server}
use pepper_vpn_client.Repository.{
  Repository, servers_storage_key, create_server, to_json, load_server, load_all, tolerate,
  store_servers, forget, undo_forget, load_servers, server_forget_undone, server_forgotten,
}
use pepper_vpn_client.Repository.Keys.{
  Environment, server_from_access_key, validate_access_key, validate_static_key,
}
use pepper_vpn_client.Repository.Rebuild.{at_rest}
use pepper_vpn_client.Repository.Invariant.{IsConsistent}
use pepper_vpn_client.Repository.Reload.{taken-rest_of, load_all-append, rest_of, load_again}

module _ (env : Environment) where
  forget_state :
      (id : String) (repo : Repository) (server : OutlineServer)
      → Map.get repo.server_by_id id ≡ some server
      → forget env id repo
        ≡ record (store_servers env (record repo {
          server_by_id = Map.remove repo.server_by_id id;
          last_forgotten_server = some server;
        })) { events = repo.events ++ server_forgotten server ∷ [] }
  unfolding forget
  forget_state id repo server found = rw (found, forget)

  undo_state :
      (id : String) (repo : Repository) (server : OutlineServer)
      → repo.last_forgotten_server ≡ some server
      → server.id ≡ id
      → undo_forget env id repo
        ≡ record (store_servers env
            (record repo { server_by_id = Map.set repo.server_by_id server.id server })) {
              events = repo.events ++ server_forget_undone server ∷ [];
              last_forgotten_server = none;
            }
  unfolding undo_forget
  undo_state id repo server last named = ground (arith, eq_iff server.id id)

  get_back :
      (m : Entries OutlineServer) (j : String) (server : OutlineServer)
      → Map.get m server.id ≡ some server
      → (if str_eq server.id j then some server else Map.get (Map.remove m server.id) j)
        ≡ Map.get m j
  get_back m j server found = ground (arith, eq_iff server.id j, get-remove m server.id j)

  -- Forgetting a server that is in the list under its id, and undoing it, gives every id its
  -- server again and leaves nothing to undo. The server then stands at the end of the list, both
  -- events are announced, and the list is stored.
  pub undo_forget-forget :
      (repo : Repository) (server : OutlineServer)
      → Map.get repo.server_by_id server.id ≡ some server
      → ((j : String)
          → Map.get (undo_forget env server.id (forget env server.id repo)).server_by_id j
            ≡ Map.get repo.server_by_id j)
        × ((undo_forget env server.id (forget env server.id repo)).server_by_id
            ≡ Map.remove repo.server_by_id server.id ++ (server.id, server) ∷ [])
        × ((undo_forget env server.id (forget env server.id repo)).last_forgotten_server ≡ none)
        × ((undo_forget env server.id (forget env server.id repo)).events
            ≡ (repo.events ++ server_forgotten server ∷ []) ++ server_forget_undone server ∷ [])
        × (Map.get
              (undo_forget env server.id (forget env server.id repo)).storage
              servers_storage_key
            ≡ some (
                env.stringify (
                  to_json env (
                    Map.values
                      (Map.remove repo.server_by_id server.id ++ (server.id, server) ∷ [])))))
  unfolding store_servers
  undo_forget-forget repo server found =
      let removed = Map.remove repo.server_by_id server.id in
      let gone : Map.get removed server.id ≡ none =
        get-remove repo.server_by_id server.id server.id ∙ simp eq_refl in
      let appended = set_new removed server.id server gone in
      let state =
        undo_state server.id (forget env server.id repo) server
          (ap (λ r. r.last_forgotten_server) (forget_state server.id repo server found)) refl in
      let before = forget_state server.id repo server found in
      let list =
        ap (λ r. r.server_by_id) state ∙ ap (λ r. Map.set r.server_by_id server.id server) before in
      (
        (λ j.
            ap (λ m. Map.get m j) list
            ∙ get-set removed server.id j server
            ∙ get_back repo.server_by_id j server found),
        list ∙ appended,
        ap (λ r. r.last_forgotten_server) state,
        ap (λ r. r.events) state ∙ ap (λ r. r.events ++ server_forget_undone server ∷ []) before,
        ap (λ r. Map.get r.storage servers_storage_key) state
            ∙ get-set _ servers_storage_key servers_storage_key _
            ∙ ap (λ m. some (env.stringify (to_json env (Map.values m))))
                (sym (ap (λ r. r.server_by_id) state) ∙ list ∙ appended),
      )

  load_taken :
      (m : Entries OutlineServer) (server holder : OutlineServer)
      → is_dynamic_access_key server.access_key ≡ false
      → server_from_access_key env (Map.values m) server.access_key ≡ some holder
      → load_server env m
          (record { id = server.id; access_key = server.access_key; name = server.name })
        ≡ m
  unfolding load_server create_server new_outline_server tolerate validate_access_key
      validate_static_key
  load_taken m server holder static taken = ground arith

  -- In a consistent repository, if a server of the list has the key of the forgotten static server
  -- by the time that the forgetting is undone, and its id is free, the forgotten server comes back
  -- into the list, but a restart that reads back what was stored, a text that is not of length 0,
  -- finds the list without it.
  pub undo_forget_lost :
      (repo : Repository) (server holder : OutlineServer)
      → IsConsistent env repo
      → repo.last_forgotten_server ≡ some server
      → Map.get repo.server_by_id server.id ≡ none
      → is_dynamic_access_key server.access_key ≡ false
      → server_from_access_key env (Map.values repo.server_by_id) server.access_key ≡ some holder
      → (text : String)
      → env.stringify (to_json env (Map.values (Map.set repo.server_by_id server.id server))) ≡ text
      → text ≢ ""
      → env.parse_servers text
        ≡ ok (to_json env (Map.values (Map.set repo.server_by_id server.id server)))
      → (Map.get (undo_forget env server.id repo).server_by_id server.id ≡ some server)
        × (load_servers env (undo_forget env server.id repo).storage
            ≡ ok (record {
              server_by_id = rest_of repo.server_by_id;
              last_forgotten_server = none;
              storage = (undo_forget env server.id repo).storage;
              events = [];
            }))
  undo_forget_lost repo server holder c last new static taken text written nonempty reads =
      let back = record repo { server_by_id = Map.set repo.server_by_id server.id server } in
      let appended = set_new repo.server_by_id server.id server new in
      let loaded : load_all env []
            (to_json env (Map.values (Map.set repo.server_by_id server.id server)))
          ≡ rest_of repo.server_by_id =
        rw appended (
          load_all-append env [] repo.server_by_id server.id server
          ∙ ap
              (λ m.
                load_server env m
                  (record { id = server.id; access_key = server.access_key; name = server.name }))
              (load_again env [] repo.server_by_id c.loads)
          ∙ load_taken (rest_of repo.server_by_id) server (at_rest holder) static
              (taken-rest_of env repo.server_by_id server.access_key holder taken)) in
      rw (undo_state server.id repo server last refl) (
        unfold store_servers in
            (get-set repo.server_by_id server.id server.id server ∙ simp eq_refl),
        unfold load_servers store_servers in rw get-set (ground (arith, loaded, eq_iff text "")),
      )
