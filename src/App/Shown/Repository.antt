-- ===== src/App/Shown/Repository.antt =====
-- The methods of the repository, with their events handled by the listeners of src/www/app/app.ts.
use pepper_vpn_client.Common.{
  String, false, some, [], ◌∷◌, ◌++◌, ◌≡◌, ◌∙◌, refl, arith, inl, inr, ap, sym, Option-cases,
  Bool-cases, str_eq,
}
use pepper_vpn_client.Common.Map
use pepper_vpn_client.Common.Exec.{Result-cases}
use pepper_vpn_client.Repository
use pepper_vpn_client.Repository.{
  server_added, server_renamed, server_forgotten, server_forget_undone, new_server, add, rename,
  forget, undo_forget, store_servers, RepositoryEvent,
}
use pepper_vpn_client.App.{AppEnvironment, App}
use pepper_vpn_client.App.Cards.{
  IsKeyed, server_ids, get-IsKeyed, set-IsKeyed, remove-IsKeyed, set-ids,
}
use pepper_vpn_client.App.Listeners.{publish}
use pepper_vpn_client.App.Shown.{IsShown}
use pepper_vpn_client.App.Shown.Published.{Announces, publish_one-IsShown, publish-IsShown}

module _ (env : AppEnvironment) where
  open env use {environment}

  -- the application with another repository
  abbrev pub with_repository : Repository.Repository → App → App
  with_repository repo app = record app { repository = repo }

  -- A method that enqueues one event behind those that wait.
  announced :
      (e : RepositoryEvent) (repo : Repository.Repository) (app : App)
      → IsShown app
      → IsKeyed repo.server_by_id
      → repo.events ≡ app.repository.events ++ e ∷ []
      → (app.publishing_stopped ≡ false → Announces env e (with_repository repo app))
      → IsShown (publish env (with_repository repo app)).0
  announced e repo app h keyed queued fits =
      publish_one-IsShown env e (with_repository repo app) keyed
        (λ going. (queued ∙ ap (λ es. es ++ e ∷ []) (h.handled going), fits going))

  pub forget-IsShown :
      (id : String) (app : App)
      → IsShown app
      → IsShown (publish env (with_repository (forget environment id app.repository) app)).0
  forget-IsShown id app h = elim (Option-cases (Map.get app.repository.server_by_id id)) [
    | inl absent ↦
        let same : forget environment id app.repository ≡ app.repository =
          unfold forget in ground arith in
        rw same (publish-IsShown env app h)
    | inr (server, found) ↦
        let repo = forget environment id app.repository in
        let m : repo.server_by_id ≡ Map.remove app.repository.server_by_id id =
          unfold forget store_servers in ground arith in
        let es : repo.events ≡ app.repository.events ++ server_forgotten server ∷ [] =
          unfold forget store_servers in ground arith in
        announced (server_forgotten server) repo app h
          (rw m (remove-IsKeyed app.repository.server_by_id id h.keyed)) es (λ going. tt)
  ]

  pub add-IsShown :
      (id key : String) (app : App)
      → IsShown app
      → IsShown (publish env (with_repository (add environment id key app.repository).0 app)).0
  add-IsShown id key app h = elim (Result-cases (new_server environment app.repository id key)) [
    | inr (e, threw) ↦
        let same : (add environment id key app.repository).0 ≡ app.repository =
          unfold add in ground arith in
        rw same (publish-IsShown env app h)
    | inl (server, made) ↦
        let repo = (add environment id key app.repository).0 in
        let m : repo.server_by_id ≡ Map.set app.repository.server_by_id server.id server =
          unfold add store_servers in ground arith in
        let es : repo.events ≡ app.repository.events ++ server_added server ∷ [] =
          unfold add store_servers in ground arith in
        announced (server_added server) repo app h
          (rw m (set-IsKeyed app.repository.server_by_id server.id server refl h.keyed)) es
          (λ going. tt)
  ]

  pub undo_forget-IsShown :
      (id : String) (app : App)
      → IsShown app
      → IsShown (publish env (with_repository (undo_forget environment id app.repository) app)).0
  undo_forget-IsShown id app h = elim (Option-cases app.repository.last_forgotten_server) [
    | inl absent ↦
        let same : undo_forget environment id app.repository ≡ app.repository =
          unfold undo_forget in ground arith in
        rw same (publish-IsShown env app h)
    | inr (server, last) ↦ elim (Bool-cases (str_eq server.id id)) [
      | inr other ↦
          let same : undo_forget environment id app.repository ≡ app.repository =
            unfold undo_forget in ground arith in
          rw same (publish-IsShown env app h)
      | inl same ↦
          let repo = undo_forget environment id app.repository in
          let m : repo.server_by_id ≡ Map.set app.repository.server_by_id server.id server =
            unfold undo_forget store_servers in ground arith in
          let es : repo.events ≡ app.repository.events ++ server_forget_undone server ∷ [] =
            unfold undo_forget store_servers in ground arith in
          announced (server_forget_undone server) repo app h
            (rw m (set-IsKeyed app.repository.server_by_id server.id server refl h.keyed)) es
            (λ going. tt)
    ]
  ]

  pub rename-IsShown :
      (id name : String) (app : App)
      → IsShown app
      → IsShown (publish env (with_repository (rename environment id name app.repository) app)).0
  rename-IsShown id name app h = elim (Option-cases (Map.get app.repository.server_by_id id)) [
    | inl absent ↦
        let same : rename environment id name app.repository ≡ app.repository =
          unfold rename in ground arith in
        rw same (publish-IsShown env app h)
    | inr (server, found) ↦
        let repo = rename environment id name app.repository in
        let renamed = record server { name = some name } in
        let m : repo.server_by_id ≡ Map.set app.repository.server_by_id id renamed =
          unfold rename store_servers in ground arith in
        let es : repo.events ≡ app.repository.events ++ server_renamed renamed ∷ [] =
          unfold rename store_servers in ground arith in
        let under = get-IsKeyed app.repository.server_by_id id server h.keyed found in
        announced (server_renamed renamed) repo app h
          (rw m (set-IsKeyed app.repository.server_by_id id renamed under h.keyed)) es
          (λ going.
            h.shown going
            ∙ sym (set-ids app.repository.server_by_id id server renamed found refl)
            ∙ ap (λ n. server_ids (Map.values n)) (sym m))
  ]
