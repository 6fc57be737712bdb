-- ===== src/Gcp/Settling.antt =====
-- The installation as a state machine: server_manager/web_app/gcp_server.ts.
use pepper_vpn_client.Common.{
  inr, inl, Bool-cases, ◌⊎◌, ap, String, Bool, true, false, ◌≡◌, sym, ◌∙◌, refl,
}
use pepper_vpn_client.Common.Map.{Entries}
use pepper_vpn_client.Common.Exec.{Result, ok, err}
use pepper_vpn_client.ValueStream.{new_stream, is_closed}
use pepper_vpn_client.Gcp.{
  is_final, creating, checking_ip, promoting, sleeping, fetching, GcpServer, new_gcp_server,
  poll_starts, instance_is_created, ip_is_checked, ip_is_promoted, poll_fetched, on_delete,
}
use pepper_vpn_client.Gcp.Installing.{
  IsSettled, Keeps, same-Keeps, places-Keeps, fails-Keeps, allocated-Keeps, created-Keeps,
  fetched-Keeps, deleted-Keeps,
}

-- What may happen to a server: the chain of promises goes on, the loop goes on, its request ends,
-- and the user deletes the server.
pub data Step (atob : String → Result String String) : GcpServer → GcpServer → Type 0 where
  created :
      (s : GcpServer) (r : Result String (Unit {0}))
      → s.readiness ≡ creating
      → Step atob s (instance_is_created r s)
  checked :
      (s : GcpServer) (r : Result String Bool)
      → s.readiness ≡ checking_ip
      → Step atob s (ip_is_checked r s)
  promoted :
      (s : GcpServer) (r : Result String (Unit {0}))
      → s.readiness ≡ promoting
      → Step atob s (ip_is_promoted r s)
  starts : (s : GcpServer) → s.poller ≡ sleeping → Step atob s (poll_starts s)
  fetched :
      (s : GcpServer) (r : Result String (Entries String))
      → s.poller ≡ fetching
      → Step atob s (poll_fetched atob r s)
  deleted : (s : GcpServer) → Step atob s (on_delete s)

Step-Keeps :
    {atob : String → Result String String} {s t : GcpServer}
    → Step atob s t
    → IsSettled s
    → Keeps s t
unfolding ip_is_checked ip_is_promoted poll_starts
Step-Keeps (created s r _) h = created-Keeps r s h
Step-Keeps (checked s (err message) _) h = fails-Keeps message s h
Step-Keeps (checked s (ok true) _) h = allocated-Keeps s h
Step-Keeps (checked s (ok false) _) h = places-Keeps s s promoting s.poller (same-Keeps s h)
Step-Keeps (promoted s (err message) _) h = fails-Keeps message s h
Step-Keeps (promoted s (ok tt) _) h = allocated-Keeps s h
Step-Keeps (starts s _) h = places-Keeps s s s.readiness _ (same-Keeps s h)
Step-Keeps {atob} (fetched s r _) h = fetched-Keeps atob r s h
Step-Keeps (deleted s) h = deleted-Keeps s h

pub data Reach (atob : String → Result String String) : GcpServer → GcpServer → Type 0 where
  here : (s : GcpServer) → Reach atob s s
  next : {r s t : GcpServer} → Reach atob r s → Step atob s t → Reach atob r t

Reach-Keeps :
    {atob : String → Result String String} {s t : GcpServer}
    → Reach atob s t
    → IsSettled s
    → Keeps s t
Reach-Keeps (here s) h = same-Keeps s h
Reach-Keeps (next {r} {s} {t} calls st) h =
    let before = Reach-Keeps calls h in
    let after = Step-Keeps st before.settled in
    record {
      settled = after.settled;
      stays = λ closed.
          let same = before.stays closed in
          let still = before.settled.closes ∙ ap is_final same ∙ sym h.closes ∙ closed in
          after.stays still ∙ same;
    }

new-IsSettled : IsSettled new_gcp_server
unfolding new_stream is_closed
new-IsSettled = record { closes = refl; has_api = λ e. cc }

-- In every state that a new server comes to, final or not, its stream of states is closed exactly if
-- the state is final, and it has its management API if it is completed; and when the state is final,
-- whatever happens later leaves it as it is.
pub gcp_final_stays :
    (atob : String → Result String String) (s t : GcpServer)
    → Reach atob new_gcp_server s
    → Reach atob s t
    → IsSettled s
      × ((is_final s.install_state.value ≡ false) ⊎ (t.install_state.value ≡ s.install_state.value))
gcp_final_stays atob s t before after =
    let settled = (Reach-Keeps before new-IsSettled).settled in
    (
      settled,
      elim (Bool-cases (is_final s.install_state.value)) [
        | inl final ↦ inr ((Reach-Keeps after settled).stays (settled.closes ∙ final))
        | inr going ↦ inl going
      ],
    )
