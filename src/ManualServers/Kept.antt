-- ===== src/ManualServers/Kept.antt =====
-- What the storage of server_manager/web_app/manual_server.ts keeps.
use pepper_vpn_client.Common.{
  ◌⊎◌, String, true, Option, none, some, List, [], ◌∷◌, ◌≡◌, ◌≢◌, refl, sym, ap, arith, inl, inr,
  str_eq, eq_iff, All, Bool-cases, Option-cases,
}
use mathlib.Core.Path.{subst}
use pepper_vpn_client.Common.Exec.{ok, Result-cases}
use pepper_vpn_client.Common.Text.{is_truthy}
use pepper_vpn_client.ManualServers.{
  ManualServerConfig, ConfigsJson, ManualServerRepository, create_server, find_server, create_all,
  push, without, load_servers, new_repository, add_server, forget_server,
}

abbrev pub IsCreated : ManualServerConfig → Type 0
IsCreated config = create_server config ≡ ok config

create_all-ok :
    (servers : List ManualServerConfig) → All IsCreated servers → create_all servers ≡ ok servers
unfolding create_all
create_all-ok [] h = refl
create_all-ok (server ∷ servers) (made, h) = ground (arith, create_all-ok servers h)

create-ok :
    (config server : ManualServerConfig) → create_server config ≡ ok server → server ≡ config
unfolding create_server
create-ok config server made = ground arith

-- Where all servers are made, they are those of the configurations.
create_all-IsCreated :
    (configs servers : List ManualServerConfig)
    → create_all configs ≡ ok servers
    → (servers ≡ configs) × All IsCreated configs
unfolding create_all
create_all-IsCreated [] servers made = (ground arith, tt)
create_all-IsCreated (config ∷ configs) servers made = elim (Result-cases (create_server config)) [
  | inr (e, threw) ↦ absurd (ground arith)
  | inl (server, first) ↦ elim (Result-cases (create_all configs)) [
    | inr (e, threw) ↦ absurd (ground arith)
    | inl (rest, others) ↦
        let same = create-ok config server first in
        let (same_rest, all) = create_all-IsCreated configs rest others in
        (ground arith, (rw (same) at first, all))
  ]
]

push-IsCreated :
    (servers : List ManualServerConfig) (config : ManualServerConfig)
    → All IsCreated servers
    → IsCreated config
    → All IsCreated (push servers config)
push-IsCreated [] config h made = (made, tt)
push-IsCreated (server ∷ servers) config (first, h) made =
    (first, push-IsCreated servers config h made)

without-IsCreated :
    (url : String) (servers : List ManualServerConfig)
    → All IsCreated servers
    → All IsCreated (without url servers)
unfolding without
without-IsCreated url [] h = tt
without-IsCreated url (server ∷ servers) (first, h) =
    let rest = without-IsCreated url servers h in
    elim (Bool-cases (str_eq server.api_url url)) [
      | inl same ↦ rw (same, without) rest
      | inr other ↦ rw (other, without) (first, rest)
    ]

push-found :
    (servers : List ManualServerConfig) (config : ManualServerConfig)
    → find_server config.api_url servers ≡ none
    → find_server config.api_url (push servers config) ≡ some config
unfolding find_server
push-found [] config h = ground (arith, eq_iff config.api_url config.api_url)
push-found (server ∷ servers) config h = ground (arith, push-found servers config)

without-found :
    (url : String) (servers : List ManualServerConfig)
    → find_server url (without url servers) ≡ none
unfolding find_server without
without-found url [] = refl
without-found url (server ∷ servers) = ground (arith, without-found url servers)

without-others :
    (url other : String) (servers : List ManualServerConfig)
    → other ≢ url
    → find_server other (without url servers) ≡ find_server other servers
unfolding find_server without
without-others url other [] apart = refl
without-others url other (server ∷ servers) apart = ground (
  arith,
  eq_iff server.api_url url,
  eq_iff server.api_url other,
  without-others url other servers apart,
)

-- One call of the repository.
pub data Call : Type 0 where
  adds : ManualServerConfig → Call
  forgets : String → Call

module _ (json : ConfigsJson) where
  unfoldable pub call : Call → ManualServerRepository → ManualServerRepository
  call (adds config) repo = (add_server json config repo).0
  call (forgets url) repo = forget_server json url repo

  unfoldable pub calls : List Call → ManualServerRepository → ManualServerRepository
  calls [] repo = repo
  calls (c ∷ cs) repo = calls cs (call c repo)

  -- The storage has the text of the servers, or a start of the manager finds them in it, as the first
  -- one has.
  record IsKept (repo : ManualServerRepository) : Type 0 where
    stored :
        (load_servers json repo.storage ≡ repo.servers)
        ⊎ (repo.storage ≡ some (json.stringify repo.servers))
    created : All IsCreated repo.servers

  stored-loads :
      (servers : List ManualServerConfig)
      → json.parse (json.stringify servers) ≡ ok servers
      → is_truthy (some (json.stringify servers)) ≡ true
      → All IsCreated servers
      → load_servers json (some (json.stringify servers)) ≡ servers
  unfolding load_servers
  stored-loads servers back text h =
      let made = create_all-ok servers h in
      rw (text, load_servers) (rw (back, load_servers) (rw (made, load_servers) refl))

  add-IsKept :
      (config : ManualServerConfig) (repo : ManualServerRepository)
      → IsKept repo
      → IsKept (add_server json config repo).0
  unfolding add_server
  add-IsKept config repo h = elim (Option-cases (find_server config.api_url repo.servers)) [
    | inr (server, there) ↦ rw (there, add_server) h
    | inl absent ↦ elim (Result-cases (create_server config)) [
      | inr (e, threw) ↦ rw (absent, add_server) (rw (threw, add_server) h)
      | inl (server, made) ↦
          let same = create-ok config server made in
          let all =
            push-IsCreated repo.servers server h.created
              (subst (λ c. create_server c ≡ ok server) (sym same) made) in
          let kept : IsKept (record {
            servers = push repo.servers server;
            storage = some (json.stringify (push repo.servers server));
          }) =
            record { stored = inr refl; created = all } in
          rw (absent, add_server) (rw (made, add_server) kept)
    ]
  ]

  call-IsKept : (c : Call) (repo : ManualServerRepository) → IsKept repo → IsKept (call c repo)
  unfolding call forget_server
  call-IsKept (forgets url) repo h =
      let all = without-IsCreated url repo.servers h.created in
      record { stored = inr refl; created = all }
  call-IsKept (adds config) repo h = add-IsKept config repo h

  load-IsCreated : (storage : Option String) → All IsCreated (load_servers json storage)
  unfolding load_servers
  load-IsCreated none = tt
  load-IsCreated (some text) = elim (Bool-cases (is_truthy (some text))) [
    | inr no_text ↦ rw (no_text, load_servers) tt
    | inl there ↦ elim (Result-cases (json.parse text)) [
      | inr (e, failed) ↦ rw (there, load_servers) (rw (failed, load_servers) tt)
      | inl (configs, parsed) ↦ elim (Result-cases (create_all configs)) [
        | inr (e, threw) ↦
            rw (there, load_servers) (rw (parsed, load_servers) (rw (threw, load_servers) tt))
        | inl (servers, made) ↦
            let (same, all) = create_all-IsCreated configs servers made in
            rw (there, load_servers)
              (rw (parsed, load_servers) (rw (made, load_servers) (rw same all)))
      ]
    ]
  ]

  new-IsKept : (storage : Option String) → IsKept (new_repository json storage)
  unfolding new_repository
  new-IsKept storage = record { stored = inl refl; created = load-IsCreated storage }

  calls-IsKept :
      (cs : List Call) (repo : ManualServerRepository) → IsKept repo → IsKept (calls cs repo)
  unfolding calls
  calls-IsKept [] repo h = h
  calls-IsKept (c ∷ cs) repo h = calls-IsKept cs (call c repo) (call-IsKept c repo h)

  -- Whatever is added and forgotten from the start on, a restart finds the same servers in the same
  -- order, if JSON reads back what it has written last, a text that is not of length 0. What the first
  -- start has found in the storage may be anything.
  pub load_servers_after_adding :
      (storage : Option String) (cs : List Call)
      → json.parse (json.stringify (calls cs (new_repository json storage)).servers)
        ≡ ok (calls cs (new_repository json storage)).servers
      → is_truthy (some (json.stringify (calls cs (new_repository json storage)).servers)) ≡ true
      → new_repository json (calls cs (new_repository json storage)).storage
        ≡ calls cs (new_repository json storage)
  unfolding new_repository
  load_servers_after_adding storage cs back text =
      let kept = calls-IsKept cs (new_repository json storage) (new-IsKept storage) in
      let repo = calls cs (new_repository json storage) in
      let loads : load_servers json repo.storage ≡ repo.servers = elim kept.stored [
        | inl found ↦ found
        | inr written ↦ rw written (stored-loads repo.servers back text kept.created)
      ] in
      ap (λ (l : List ManualServerConfig). record { servers = l; storage = repo.storage }) loads

-- A server that is added is found from then on, and adding one of its address again changes nothing and
-- gives the same server.
pub add_server_found :
    (json : ConfigsJson) (config again server : ManualServerConfig) (repo : ManualServerRepository)
    → (add_server json config repo).1 ≡ ok server
    → again.api_url ≡ config.api_url
    → (find_server config.api_url (add_server json config repo).0.servers ≡ some server)
      × (add_server json again (add_server json config repo).0
          ≡ ((add_server json config repo).0, ok server))
unfolding add_server
add_server_found json config again server repo added same =
    elim (Option-cases (find_server config.api_url repo.servers)) [
      | inr (old, there) ↦ ground arith
      | inl absent ↦ elim (Result-cases (create_server config)) [
        | inr (e, threw) ↦ absurd (ground arith)
        | inl (new, made) ↦
            let is = create-ok config new made in
            let found = push-found repo.servers config absent in ground arith
      ]
    ]

-- A server that is forgotten is not found, and all others are found as before.
pub forget_server_found :
    (json : ConfigsJson) (url other : String) (repo : ManualServerRepository)
    → other ≢ url
    → (find_server url (forget_server json url repo).servers ≡ none)
      × (find_server other (forget_server json url repo).servers ≡ find_server other repo.servers)
unfolding forget_server
forget_server_found json url other repo apart =
    (without-found url repo.servers, without-others url other repo.servers apart)
