-- ===== src/Tun2socks/Stopping.antt =====
-- What stopping does to the restarts of src/electron/go_vpn_tunnel.ts.
use pepper_vpn_client.Common.{ℕ, true, ◌≡◌, ◌∙◌, refl, arith}
use pepper_vpn_client.Tun2socks.{GoTun2socks, stop, process_is_running, process_exits, goes_on}

-- What may happen while nobody calls `start`.
pub data Step : GoTun2socks → GoTun2socks → Type 0 where
  stopped : (t : GoTun2socks) → Step t (stop t)
  runs : (t : GoTun2socks) → Step t (process_is_running t)
  ends : (t : GoTun2socks) → Step t (process_exits t)
  continued : (t : GoTun2socks) (i : ℕ) → Step t (goes_on i t)

pub data Reach : GoTun2socks → GoTun2socks → Type 0 where
  here : (t : GoTun2socks) → Reach t t
  next : {r s t : GoTun2socks} → Reach r s → Step s t → Reach r t

goes_on_stopped :
    (i : ℕ) (t : GoTun2socks)
    → t.stop_requested ≡ true
    → ((goes_on i t).spawned ≡ t.spawned) × ((goes_on i t).stop_requested ≡ true)
unfolding goes_on
goes_on_stopped i t h = (ground arith, ground arith)

Step-stopped :
    {s t : GoTun2socks}
    → Step s t
    → s.stop_requested ≡ true
    → (t.spawned ≡ s.spawned) × (t.stop_requested ≡ true)
unfolding stop process_is_running process_exits
Step-stopped (stopped s) h = (refl, refl)
Step-stopped (runs s) h = ground arith
Step-stopped (ends s) h = ground arith
Step-stopped (continued s i) h = goes_on_stopped i s h

Reach-stopped :
    {s t : GoTun2socks}
    → Reach s t
    → s.stop_requested ≡ true
    → (t.spawned ≡ s.spawned) × (t.stop_requested ≡ true)
Reach-stopped (here t) h = (refl, h)
Reach-stopped (next calls st) h =
    let (same, still) = Reach-stopped calls h in
    let (now, after) = Step-stopped st still in (now ∙ same, after)

-- After `stop` no process is spawned, in whatever order the process and the loops go on, until
-- `start` is called.
pub stop_spawns_none : (s t : GoTun2socks) → Reach (stop s) t → t.spawned ≡ s.spawned
unfolding stop
stop_spawns_none s t calls = (Reach-stopped calls refl).0
