-- ===== src/App/Shown/Views.antt =====
-- Links, feedback and the state of all servers leave the cards of src/www/app/app.ts with their servers.
use pepper_vpn_client.Common.{
  false, true, String, Bool, Option, none, some, List, [], ◌∷◌, inl, inr, Bool-cases,
}
use pepper_vpn_client.Common.Exec.{Result, Result-cases}
use pepper_vpn_client.Server.{OutlineServer}
use pepper_vpn_client.App.{
  AppEnvironment, App, thrown, feedback_submission_error, set_submitting, reset_feedback_form,
  access_key_invalid, change_to_default_page,
}
use pepper_vpn_client.App.AccessKeys.{unwrap_invite, is_outline_access_key}
use pepper_vpn_client.App.Adding.{
  confirm_add_server, request_add_server_confirmation, intercept_url,
}
use pepper_vpn_client.App.Feedback.{FeedbackForm, sync_connectivity_state, submit_feedback}
use pepper_vpn_client.App.Shown.{IsShown, call-IsShown}
use pepper_vpn_client.App.Shown.Handlers.{Keeps, show_error-IsShown}
use pepper_vpn_client.App.Shown.Steps.{confirm-IsShown, running-IsShown}

module _ (env : AppEnvironment) where
  pub all_running-IsShown :
      (running : OutlineServer → Option Bool) (servers : List OutlineServer) (app : App)
      → IsShown app
      → IsShown (sync_connectivity_state env running servers app)
  unfolding sync_connectivity_state
  all_running-IsShown running [] app h = h
  all_running-IsShown running (server ∷ servers) app h =
      all_running-IsShown running servers _ (running-IsShown env (running server) server.id app h)

  pub confirmation-IsShown :
      (is_adding : Bool) (key : String) (app : App)
      → IsShown app
      → IsShown (request_add_server_confirmation env is_adding key app)
  unfolding request_add_server_confirmation
  confirmation-IsShown is_adding key app h =
      let asked = confirm-IsShown env is_adding false key app h in
      elim (Result-cases (confirm_add_server env is_adding false key app).1) [
        | inl (done, accepted) ↦ rw (accepted, request_add_server_confirmation) asked
        | inr (e, threw) ↦
            rw (threw, request_add_server_confirmation) (call-IsShown access_key_invalid _ asked)
      ]

  pub intercept-IsShown :
      (is_adding : Bool) (url : String) (app : App)
      → IsShown app
      → IsShown (intercept_url env is_adding url app).0
  unfolding intercept_url
  intercept-IsShown is_adding url app h =
      let asked = confirm-IsShown env is_adding false url app h in
      elim (Bool-cases (is_outline_access_key (unwrap_invite env.environment.parsers url))) [
        | inr other ↦ rw (other, intercept_url) h
        | inl outline ↦ elim (Result-cases (confirm_add_server env is_adding false url app).1) [
          | inl (done, accepted) ↦ rw (outline, intercept_url) (rw (accepted, intercept_url) asked)
          | inr (e, threw) ↦
              rw (outline, intercept_url)
                (rw (threw, intercept_url)
                  (show_error-IsShown env (thrown e) _
                    (call-IsShown change_to_default_page _ asked)))
        ]
      ]

  pub feedback-IsShown :
      (meanwhile : App → App) (report : FeedbackForm → Result String (Unit {0}))
      (form : Option FeedbackForm) (app : App)
      → Keeps meanwhile
      → IsShown app
      → IsShown (submit_feedback env meanwhile report form app).0
  unfolding submit_feedback
  feedback-IsShown meanwhile report none app keeps h = h
  feedback-IsShown meanwhile report (some given) app keeps h =
      let waited = keeps _ (call-IsShown (set_submitting true) app h) in
      let ready = call-IsShown (set_submitting false) _ waited in
      elim (Result-cases (report given)) [
        | inl (done, sent) ↦
            rw (sent, submit_feedback)
              (call-IsShown _ _
                (call-IsShown change_to_default_page _ (call-IsShown reset_feedback_form _ ready)))
        | inr (e, failed) ↦
            rw (failed, submit_feedback) (show_error-IsShown env feedback_submission_error _ ready)
      ]
