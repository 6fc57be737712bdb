-- ===== src/ElectronTunnel/Hearing.antt =====
-- What the listener of src/www/app/electron_outline_tunnel.ts hears, and what reaches the main process.
use pepper_vpn_client.Common.{
  if◌then◌else◌, ◌∙◌, ℕ, zero, suc, Bool, true, false, List, [], ◌∷◌, ◌++◌, ◌+◌, ◌≤◌, ◌≡◌, refl,
  arith, ◌==◌, All,
}
use pepper_vpn_client.ElectronTunnel.{
  listens, proxy_disconnects, proxy_reconnects, proxy_connects, stops, starts, stop_answers,
  reconnecting, stop_proxying, start_proxying, on_status_change, proxy_disconnected, stop_ends,
  start_ends, stop_begins, start_answers, new_electron_tunnel, start_begins, disconnected, Event,
  run, event, call_listeners, ElectronOutlineTunnel, Invoked, handle_status_change,
}
use pepper_vpn_client.VpnTunnel.{connected, TunnelStatus}

abbrev pub disconnections : List TunnelStatus → ℕ
disconnections [] = 0
disconnections (disconnected ∷ ss) = suc (disconnections ss)
disconnections (connected ∷ ss) = disconnections ss
disconnections (reconnecting ∷ ss) = disconnections ss

abbrev pub asked_to_start : List Invoked → ℕ
asked_to_start [] = 0
asked_to_start (start_proxying ∷ is) = suc (asked_to_start is)
asked_to_start (stop_proxying ∷ is) = asked_to_start is

abbrev pub asked_to_stop : List Invoked → ℕ
asked_to_stop [] = 0
asked_to_stop (start_proxying ∷ is) = asked_to_stop is
asked_to_stop (stop_proxying ∷ is) = suc (asked_to_stop is)

disconnections-append :
    (ss ts : List TunnelStatus) → disconnections (ss ++ ts) ≡ disconnections ss + disconnections ts
disconnections-append [] ts = omega arith
disconnections-append (disconnected ∷ ss) ts = omega (arith, disconnections-append ss ts)
disconnections-append (connected ∷ ss) ts = omega (arith, disconnections-append ss ts)
disconnections-append (reconnecting ∷ ss) ts = omega (arith, disconnections-append ss ts)

asked_to_start-append :
    (is js : List Invoked) → asked_to_start (is ++ js) ≡ asked_to_start is + asked_to_start js
asked_to_start-append [] js = omega arith
asked_to_start-append (start_proxying ∷ is) js = omega (arith, asked_to_start-append is js)
asked_to_start-append (stop_proxying ∷ is) js = omega (arith, asked_to_start-append is js)

asked_to_stop-append :
    (is js : List Invoked) → asked_to_stop (is ++ js) ≡ asked_to_stop is + asked_to_stop js
asked_to_stop-append [] js = omega arith
asked_to_stop-append (start_proxying ∷ is) js = omega (arith, asked_to_stop-append is js)
asked_to_stop-append (stop_proxying ∷ is) js = omega (arith, asked_to_stop-append is js)

-- what a change of the status adds
handle-disconnections :
    (status : TunnelStatus) (t : ElectronOutlineTunnel)
    → (disconnections (handle_status_change status t).heard
        ≤ disconnections t.heard + disconnections (status ∷ []))
      × ((handle_status_change status t).once_disconnected ≡ t.once_disconnected)
      × ((handle_status_change status t).invoked ≡ t.invoked)
unfolding handle_status_change
handle-disconnections status t = ground (arith, disconnections-append t.heard (status ∷ []))

call_listeners-disconnections :
    (n : ℕ) (t : ElectronOutlineTunnel)
    → (disconnections (call_listeners n t).heard ≤ disconnections t.heard + n)
      × ((call_listeners n t).once_disconnected ≡ t.once_disconnected)
      × ((call_listeners n t).invoked ≡ t.invoked)
unfolding call_listeners
call_listeners-disconnections zero t = ground arith
call_listeners-disconnections (suc n) t =
    let first = handle-disconnections disconnected t in
    let rest = call_listeners-disconnections n (handle_status_change disconnected t) in ground arith

-- the disconnections that were heard, or will be, are answers to calls of `start`
abbrev Answered : ElectronOutlineTunnel → Type 0
Answered t = disconnections t.heard + t.once_disconnected ≤ asked_to_start t.invoked

event-Answered : (e : Event) (t : ElectronOutlineTunnel) → Answered t → Answered (event e t)
unfolding event start_begins stop_begins start_ends stop_ends proxy_disconnected on_status_change
event-Answered starts t h = ground (arith, asked_to_start-append t.invoked (start_proxying ∷ []))
event-Answered stops t h = ground (arith, asked_to_start-append t.invoked (stop_proxying ∷ []))
event-Answered proxy_connects t h = ground (arith, handle-disconnections connected t)
event-Answered proxy_reconnects t h = ground (arith, handle-disconnections reconnecting t)
event-Answered proxy_disconnects t h =
    ground (
      arith,
      call_listeners-disconnections t.once_disconnected (record t { once_disconnected = 0 }),
    )
event-Answered listens t h = ground arith
event-Answered (start_answers code) t h = ground arith
event-Answered (stop_answers stopped) t h = ground arith

run-Answered : (es : List Event) (t : ElectronOutlineTunnel) → Answered t → Answered (run es t)
unfolding run
run-Answered [] t h = h
run-Answered (e ∷ es) t h = run-Answered es (event e t) (event-Answered e t h)

-- Whatever happens to a new tunnel, its listener hears of at most one disconnection for each call of
-- `start` that asked the main process; a tunnel that the main process has connected by itself
-- hears of none.
pub disconnections-le-starts :
    (es : List Event)
    → disconnections (run es new_electron_tunnel).heard
      ≤ asked_to_start (run es new_electron_tunnel).invoked
disconnections-le-starts es =
    let h = run-Answered es new_electron_tunnel (omega arith) in omega arith

-- neither connects the proxy nor tells of a successful start
abbrev pub keeps_waiting : Event → Bool
keeps_waiting proxy_connects = false
keeps_waiting (start_answers code) = if code == 0 then false else true
keeps_waiting _ = true

call_listeners_not_running :
    (n : ℕ) (t : ElectronOutlineTunnel)
    → t.running ≡ false
    → ((call_listeners n t).running ≡ false) × ((call_listeners n t).invoked ≡ t.invoked)
unfolding call_listeners handle_status_change
call_listeners_not_running zero t off = (off, refl)
call_listeners_not_running (suc n) t off =
    let rest = call_listeners_not_running n (handle_status_change disconnected t) in ground arith

event_not_running :
    (e : Event) (t : ElectronOutlineTunnel)
    → keeps_waiting e ≡ true
    → t.running ≡ false
    → ((event e t).running ≡ false) × (asked_to_stop (event e t).invoked ≡ asked_to_stop t.invoked)
unfolding event start_begins stop_begins start_ends stop_ends proxy_disconnected on_status_change
    handle_status_change
event_not_running starts t waits off =
    ground (arith, asked_to_stop-append t.invoked (start_proxying ∷ []))
event_not_running stops t waits off = ground arith
event_not_running proxy_connects t waits off = ground arith
event_not_running proxy_reconnects t waits off = ground arith
event_not_running proxy_disconnects t waits off =
    ground
      (arith, call_listeners_not_running t.once_disconnected (record t { once_disconnected = 0 }))
event_not_running listens t waits off = ground arith
event_not_running (start_answers code) t waits off = ground arith
event_not_running (stop_answers stopped) t waits off = ground arith

run_not_running :
    (es : List Event) (t : ElectronOutlineTunnel)
    → All (λ e. keeps_waiting e ≡ true) es
    → t.running ≡ false
    → asked_to_stop (run es t).invoked ≡ asked_to_stop t.invoked
unfolding run
run_not_running [] t waits off = refl
run_not_running (e ∷ es) t (wait, waits) off =
    let (still, same) = event_not_running e t wait off in
    run_not_running es (event e t) waits still ∙ same

-- Once the main process has told that it reconnects, no call of `stop` reaches it, until the proxy
-- is connected or a start succeeds.
pub reconnecting_cannot_stop :
    (es : List Event) (t : ElectronOutlineTunnel)
    → All (λ e. keeps_waiting e ≡ true) es
    → asked_to_stop (run es (event proxy_reconnects t)).invoked ≡ asked_to_stop t.invoked
unfolding event handle_status_change
reconnecting_cannot_stop es t waits =
    run_not_running es (event proxy_reconnects t) waits (ground arith) ∙ ground arith
