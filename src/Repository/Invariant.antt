-- ===== src/Repository/Invariant.antt =====
-- What holds of a repository between two calls of its methods, and what a restart then finds:
-- src/www/app/outline_server_repository/index.ts.
use pepper_vpn_client.Common.{
  String, true, Option, none, some, List, [], ◌∷◌, ◌++◌, ◌≡◌, ◌≢◌, inl, inr, arith, Option-cases,
  Bool-cases, str_eq, eq_iff,
}
use pepper_vpn_client.Common.Map
use pepper_vpn_client.Common.Map.{Entries, set_new, get-remove, get-set}
use pepper_vpn_client.Common.Exec.{ok, Result-cases}
use pepper_vpn_client.AccessKey.{Url, is_dynamic_access_key}
use pepper_vpn_client.Server.{OutlineServer, fetch_location}
use pepper_vpn_client.Repository.{
  Repository, servers_storage_key, create_server, to_json, new_server, name_of_new, store_servers,
  add, rename, forget, undo_forget, load_servers, RepositoryEvent, server_forget_undone,
}
use pepper_vpn_client.Repository.Keys.{Environment, validate_access_key}
use pepper_vpn_client.Repository.Rebuild.{
  with_name, IsFresh, IsStable, create_server-fields, create_server-IsStable, create_server-IsFresh,
}
use pepper_vpn_client.Repository.Reload.{Loads, rest_of, load_again}
use pepper_vpn_client.Repository.Kept.{Loads-set_new, Loads-forget, Loads-rename'}

module _ (env : Environment) where
  -- The stored text is that of the list, and the list can be loaded again.
  pub record IsConsistent (repo : Repository) : Type 0 where
    pub stored :
        Map.get repo.storage servers_storage_key
        ≡ some (env.stringify (to_json env (Map.values repo.server_by_id)))
    pub loads : Loads env [] repo.server_by_id
    pub forgotten :
        (server : OutlineServer) → repo.last_forgotten_server ≡ some server → IsStable env server

  get-IsStable :
      (before m : Entries OutlineServer) (k : String) (server : OutlineServer)
      → Loads env before m
      → Map.get m k ≡ some server
      → IsStable env server
  unfolding Map.get
  get-IsStable before [] k server h found = cc
  get-IsStable before ((j, s) ∷ m) k server (named, new, stable, fresh, later) found =
      elim (Bool-cases (str_eq j k)) [
        | inl same ↦ let e : s ≡ server = ground arith in rw e at stable
        | inr other ↦ get-IsStable (before ++ (j, s) ∷ []) m k server later (ground arith)
      ]

  store_servers-stored :
      (repo : Repository)
      → Map.get (store_servers env repo).storage servers_storage_key
        ≡ some (env.stringify (to_json env (Map.values repo.server_by_id)))
  unfolding store_servers
  store_servers-stored repo = simp get-set

  pub new_server-created :
      (repo : Repository) (id key : String) (server : OutlineServer)
      → new_server env repo id key ≡ ok server
      → (name : Option String) × (name_of_new env key ≡ ok name)
        × (create_server env (Map.values repo.server_by_id) id key name ≡ ok server)
        × (validate_access_key env (Map.values repo.server_by_id) key ≡ ok tt)
  unfolding new_server
  new_server-created repo id key server h = elim (Result-cases (name_of_new env key)) [
    | inr (e, threw) ↦ absurd (ground arith)
    | inl (name, named) ↦ (name, named, ground arith, ground arith)
  ]

  -- the location of a dynamic key parses with the scheme that it is stored with
  abbrev pub Reparses : String → Type 0
  Reparses key =
      is_dynamic_access_key key ≡ true
      → (url : Url) × (env.parsers.parse_url (fetch_location key) ≡ ok url)

  stored-IsConsistent :
      (repo : Repository) (events : List RepositoryEvent)
      → Loads env [] repo.server_by_id
      → ((server : OutlineServer) → repo.last_forgotten_server ≡ some server → IsStable env server)
      → IsConsistent (record (store_servers env repo) { events = events })
  unfolding store_servers
  stored-IsConsistent repo events loads forgotten = record {
    stored = store_servers-stored repo;
    loads = unfold store_servers in loads;
    forgotten = unfold store_servers in forgotten;
  }

  add-IsConsistent :
      (id key : String) (repo : Repository)
      → IsConsistent repo
      → Map.get repo.server_by_id id ≡ none
      → Reparses key
      → IsConsistent (add env id key repo).0
  unfolding add
  add-IsConsistent id key repo c new parses = elim (Result-cases (new_server env repo id key)) [
    | inr (e, threw) ↦ rw (threw, add) c
    | inl (server, made) ↦
        let servers = Map.values repo.server_by_id in
        let (name, named, created, valid) = new_server-created repo id key server made in
        let (same_id, _, _) = create_server-fields env servers id key name server created in
        let stable = create_server-IsStable env servers id key name server created parses in
        let fresh = create_server-IsFresh env servers id key name server created in
        let loads =
          Loads-set_new env repo.server_by_id server c.loads (rw same_id new) stable fresh in
        rw (made, add)
          (stored-IsConsistent
            (record repo { server_by_id = Map.set repo.server_by_id server.id server }) _ loads
            c.forgotten)
  ]

  rename-IsConsistent :
      (id name : String) (repo : Repository)
      → IsConsistent repo
      → IsConsistent (rename env id name repo)
  unfolding rename
  rename-IsConsistent id name repo c = elim (Option-cases (Map.get repo.server_by_id id)) [
    | inl missing ↦ rw (missing, rename) c
    | inr (server, found) ↦
        let loads = Loads-rename' env repo.server_by_id id server (some name) c.loads found in
        rw (found, rename)
          (stored-IsConsistent
            (record repo {
              server_by_id = Map.set repo.server_by_id id (with_name (some name) server);
            })
            _ loads c.forgotten)
  ]

  forget-IsConsistent :
      (id : String) (repo : Repository) → IsConsistent repo → IsConsistent (forget env id repo)
  unfolding forget
  forget-IsConsistent id repo c = elim (Option-cases (Map.get repo.server_by_id id)) [
    | inl missing ↦ rw (missing, forget) c
    | inr (server, found) ↦
        let stable = get-IsStable [] repo.server_by_id id server c.loads found in
        rw (found, forget)
          (stored-IsConsistent
            (record repo {
              server_by_id = Map.remove repo.server_by_id id;
              last_forgotten_server = some server;
            })
            _ (Loads-forget env repo.server_by_id id c.loads)
            (λ s same. let e : server ≡ s = cc in rw (← e) stable))
  ]

  -- The id and the key of the last forgotten server are still free.
  abbrev pub CanUndo : Repository → Type 0
  CanUndo repo =
      (server : OutlineServer)
      → repo.last_forgotten_server ≡ some server
      → (Map.get repo.server_by_id server.id ≡ none)
        × IsFresh env (Map.values repo.server_by_id) server

  undo_forget-IsConsistent :
      (id : String) (repo : Repository)
      → IsConsistent repo
      → CanUndo repo
      → IsConsistent (undo_forget env id repo)
  unfolding undo_forget
  undo_forget-IsConsistent id repo c can = elim (Option-cases repo.last_forgotten_server) [
    | inl nothing ↦
        rw (nothing, undo_forget)
          (record { stored = c.stored; loads = c.loads; forgotten = λ s e. cc })
    | inr (server, last) ↦ elim (Bool-cases (str_eq server.id id)) [
      | inl same ↦
          let (new, fresh) = can server last in
          let loads =
            Loads-set_new env repo.server_by_id server c.loads new (c.forgotten server last)
              fresh in
          let h =
            stored-IsConsistent
              (record repo {
                server_by_id = Map.set repo.server_by_id server.id server;
                last_forgotten_server = none;
              })
              (repo.events ++ server_forget_undone server ∷ []) loads (λ s e. cc) in
          unfold store_servers in rw (last, same, undo_forget) h
      | inr other ↦ rw (last, other, undo_forget) c
    ]
  ]

  -- One call of a method. `add` gets an id that is not taken; `undoForget` comes while the forgotten
  -- server's key is free.
  pub data Step (repo : Repository) : Repository → Type 0 where
    added :
        (id key : String)
        → Map.get repo.server_by_id id ≡ none
        → Reparses key
        → Step repo (add env id key repo).0
    renamed : (id name : String) → Step repo (rename env id name repo)
    forgotten : (id : String) → Step repo (forget env id repo)
    undone : (id : String) → CanUndo repo → Step repo (undo_forget env id repo)

  -- Every method keeps the stored text that of the list, and the list one that can be loaded again,
  -- whether it succeeds, throws or does nothing. Two methods have conditions: `add` gets a new id,
  -- and the location of a dynamic key parses as it will be stored; at `undoForget` the id of the
  -- last forgotten server and, if it is static, its key are still free.
  pub Step-IsConsistent :
      {repo repo' : Repository} → Step repo repo' → IsConsistent repo → IsConsistent repo'
  Step-IsConsistent {repo} (added id key new parses) c = add-IsConsistent id key repo c new parses
  Step-IsConsistent {repo} (renamed id name) c = rename-IsConsistent id name repo c
  Step-IsConsistent {repo} (forgotten id) c = forget-IsConsistent id repo c
  Step-IsConsistent {repo} (undone id can) c = undo_forget-IsConsistent id repo c can

  pub data Reach : Repository → Repository → Type 0 where
    here : (repo : Repository) → Reach repo repo
    next : {r s t : Repository} → Reach r s → Step s t → Reach r t

  Reach-IsConsistent :
      {repo repo' : Repository} → Reach repo repo' → IsConsistent repo → IsConsistent repo'
  Reach-IsConsistent (here repo) c = c
  Reach-IsConsistent (next r st) c = Step-IsConsistent st (Reach-IsConsistent r c)

  -- After any calls of the methods from a consistent repository, each under its condition in
  -- `Step`, a restart that reads back what was stored, a text that is not of length 0, finds the
  -- same servers under the same ids in the same order, with their names, keys, types and error
  -- messages; dynamic servers are without a session configuration. It remembers no forgotten
  -- server.
  pub load_servers_after_calls :
      (repo repo' : Repository)
      → Reach repo repo'
      → IsConsistent repo
      → env.stringify (to_json env (Map.values repo'.server_by_id)) ≢ ""
      → env.parse_servers (env.stringify (to_json env (Map.values repo'.server_by_id)))
        ≡ ok (to_json env (Map.values repo'.server_by_id))
      → load_servers env repo'.storage
        ≡ ok (record {
          server_by_id = rest_of repo'.server_by_id;
          last_forgotten_server = none;
          storage = repo'.storage;
          events = [];
        })
  unfolding load_servers
  load_servers_after_calls repo repo' calls c nonempty reads =
      let c' = Reach-IsConsistent calls c in
      let text = env.stringify (to_json env (Map.values repo'.server_by_id)) in
      let again = load_again env [] repo'.server_by_id c'.loads in
      ground (arith, c'.stored, again, eq_iff text "")
