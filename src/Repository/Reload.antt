-- ===== src/Repository/Reload.antt =====
-- A stored list of servers, loaded again: `storeServers`, `loadServersV1` and `loadServer` of
-- src/www/app/outline_server_repository/index.ts.
use mathlib.Core.List.{append_assoc, append-nil}
use pepper_vpn_client.Common.{some, String, none, [], ◌∷◌, ◌++◌, ◌≡◌, refl, sym, ap, ◌∙◌, arith}
use pepper_vpn_client.Common.Map
use pepper_vpn_client.Common.Map.{Entries, set_new}
use pepper_vpn_client.Server.{OutlineServer}
use pepper_vpn_client.Repository.{to_json, load_server, load_all}
use pepper_vpn_client.Repository.Keys.{Environment, has_access_key, server_from_access_key}
use pepper_vpn_client.Repository.Rebuild.{at_rest, IsFresh, IsStable}

abbrev pub rest_of : Entries OutlineServer → Entries OutlineServer
rest_of [] = []
rest_of ((k, server) ∷ m) = (k, at_rest server) ∷ rest_of m

pub rest_of-append : (m n : Entries OutlineServer) → rest_of (m ++ n) ≡ rest_of m ++ rest_of n
rest_of-append [] n = refl
rest_of-append ((k, server) ∷ m) n = ap (λ t. (k, at_rest server) ∷ t) (rest_of-append m n)

get-rest_of-none :
    (m : Entries OutlineServer) (k : String) → Map.get m k ≡ none → Map.get (rest_of m) k ≡ none
unfolding Map.get
get-rest_of-none [] k h = refl
get-rest_of-none ((j, server) ∷ m) k h = ground (arith, get-rest_of-none m k)

module _ (env : Environment) where
  has_access_key-at_rest :
      (key : String) (server : OutlineServer)
      → has_access_key env key (at_rest server) ≡ has_access_key env key server
  unfolding has_access_key
  has_access_key-at_rest key server = ground arith

  free-rest_of :
      (m : Entries OutlineServer) (key : String)
      → server_from_access_key env (Map.values m) key ≡ none
      → server_from_access_key env (Map.values (rest_of m)) key ≡ none
  unfolding Map.values server_from_access_key
  free-rest_of [] key h = refl
  free-rest_of ((k, server) ∷ m) key h =
      ground (arith, has_access_key-at_rest key server, free-rest_of m key)

  pub taken-rest_of :
      (m : Entries OutlineServer) (key : String) (holder : OutlineServer)
      → server_from_access_key env (Map.values m) key ≡ some holder
      → server_from_access_key env (Map.values (rest_of m)) key ≡ some (at_rest holder)
  unfolding Map.values server_from_access_key
  taken-rest_of [] key holder h = cc
  taken-rest_of ((k, server) ∷ m) key holder h =
      ground (arith, has_access_key-at_rest key server, taken-rest_of m key holder)

  pub load_all-append :
      (acc m : Entries OutlineServer) (k : String) (server : OutlineServer)
      → load_all env acc (to_json env (Map.values (m ++ (k, server) ∷ [])))
        ≡ load_server env
            (load_all env acc (to_json env (Map.values m)))
            (record { id = server.id; access_key = server.access_key; name = server.name })
  unfolding load_all to_json Map.values
  load_all-append acc [] k server = refl
  load_all-append acc ((j, s) ∷ m) k server =
      load_all-append
        (load_server env acc (record { id = s.id; access_key = s.access_key; name = s.name })) m k
        server

  -- The entries `m`, behind the entries `before`: each stands under its server's id, no key stands
  -- twice, and each server can be created again behind those before it.
  abbrev pub Loads : Entries OutlineServer → Entries OutlineServer → Type 0
  Loads before [] = Unit
  Loads before ((k, server) ∷ m) =
      (server.id ≡ k)
      × (Map.get before k ≡ none)
      × IsStable env server
      × IsFresh env (Map.values before) server
      × Loads (before ++ (k, server) ∷ []) m

  load_server_again :
      (before : Entries OutlineServer) (k : String) (server : OutlineServer)
      → server.id ≡ k
      → Map.get before k ≡ none
      → IsStable env server
      → IsFresh env (Map.values before) server
      → load_server env
          (rest_of before)
          (record { id = server.id; access_key = server.access_key; name = server.name })
        ≡ rest_of (before ++ (k, server) ∷ [])
  unfolding load_server
  load_server_again before k server named new stable fresh =
      let created =
        stable (Map.values (rest_of before)) server.name
          (λ st. free-rest_of before server.access_key (fresh st)) in
      let appended = set_new (rest_of before) k (at_rest server) (get-rest_of-none before k new) in
      let moved = ap (λ id. Map.set (rest_of before) id (at_rest server)) named in
      rw (created, load_server) (moved ∙ appended ∙ sym (rest_of-append before ((k, server) ∷ [])))

  pub load_again :
      (before m : Entries OutlineServer)
      → Loads before m
      → load_all env (rest_of before) (to_json env (Map.values m)) ≡ rest_of (before ++ m)
  unfolding load_all to_json Map.values
  load_again before [] h = ap rest_of (sym (append-nil before))
  load_again before ((k, server) ∷ m) (named, new, stable, fresh, later) =
      ap (λ t. load_all env t (to_json env (Map.values m)))
        (load_server_again before k server named new stable fresh)
      ∙ load_again (before ++ (k, server) ∷ []) m later
      ∙ ap rest_of (append_assoc before ((k, server) ∷ []) m)
