-- ===== src/MainProcess/Runs.antt =====
-- The handlers of src/electron/index.ts in any order.
use pepper_vpn_client.Common.Exec.{ok, err, Result-cases, Result}
use pepper_vpn_client.MainProcess.{
  Thrown, uncaught, rejected, fulfilled, clear_tunnel, save_tunnel, load_tunnel, Outcome,
  update_tray, connected, reconnecting, localization_response, start_vpn, tunnel_reconnected,
  tunnel_ends, tunnel_reconnecting, stop_vpn, SerializableTunnel, ask_to_disconnect, TunnelJson,
  MainProcess, setup_auto_launch, quit_app,
}
use pepper_vpn_client.Common.{
  ◌⊎◌, String, ◌<◌, ℕ, Bool, true, false, none, some, ◌≡◌, inl, inr, refl, arith, Bool-cases,
  Option-cases,
}
use pepper_vpn_client.MainProcess.Proxying.{
  with_host, id_of, Call, start_proxying, try_to_start, app_ready, Meanwhile, start_now,
}
use pepper_vpn_client.MainProcess.Alive.{
  set_ui-OneAlive, tunnel_ends-OneAlive, start_vpn-OneAlive, stop_vpn-OneAlive, OneAlive, Keeps,
}

-- Everything that happens while a handler waits leaves at most one tunnel alive.
pub record AllKeep (during : Meanwhile) : Type 0 where
  pub ending : Keeps during.ending
  pub looking_up : Keeps during.looking_up
  pub connecting : Keeps during.connecting
  pub saving : Keeps during.saving
  pub tearing : Keeps during.tearing
  pub ending_too : Keeps during.ending_too

Outcome-cases :
    {A : Type 0} (o : Outcome A)
    → ((a : A) × (o ≡ fulfilled a))
      ⊎ ((s : String) × (o ≡ rejected s))
      ⊎ ((s : String) × (o ≡ uncaught s))
Outcome-cases (fulfilled a) = inl (a, refl)
Outcome-cases (rejected s) = inr (inl (s, refl))
Outcome-cases (uncaught s) = inr (inr (s, refl))

setup-OneAlive :
    (json : TunnelJson) (write : Result String (Unit {0})) (can_launch : Bool)
    (tunnel : SerializableTunnel) (m : MainProcess)
    → OneAlive m
    → OneAlive (setup_auto_launch json write can_launch tunnel m)
unfolding setup_auto_launch
setup-OneAlive json write can_launch tunnel m h =
    elim (Outcome-cases (save_tunnel json write tunnel m.file).1) [
      | inl (saved, is) ↦ rw (is, setup_auto_launch) h
      | inr (inl (message, is)) ↦ rw (is, setup_auto_launch) h
      | inr (inr (message, is)) ↦ rw (is, setup_auto_launch) h
    ]

-- What `try_to_start` does when `startVpn` has come to its end.
abbrev finishes :
    Meanwhile
    → Call
    → SerializableTunnel
    → MainProcess × Result Thrown (Unit {0})
    → MainProcess × Result Thrown (Unit {0})
finishes during c tunnel (started, outcome) = elim outcome [
  | err e ↦ (started, err e)
  | ok _ ↦
      let saved = during.saving (setup_auto_launch c.json c.write c.can_launch tunnel started) in
      (record saved { file = (save_tunnel c.json c.write tunnel saved.file).0 }, ok tt)
]

finishes-OneAlive :
    (during : Meanwhile) (c : Call) (tunnel : SerializableTunnel)
    (begun : MainProcess × Result Thrown (Unit {0}))
    → AllKeep during
    → OneAlive begun.0
    → OneAlive (finishes during c tunnel begun).0
finishes-OneAlive during c tunnel (started, err e) k h = h
finishes-OneAlive during c tunnel (started, ok done) k h =
    k.saving _ (setup-OneAlive c.json c.write c.can_launch tunnel started h)

try-OneAlive :
    (during : Meanwhile) (c : Call) (m : MainProcess)
    → AllKeep during
    → OneAlive m
    → OneAlive (try_to_start during c m).0
unfolding try_to_start
try-OneAlive during c m k h =
    let resolved = k.looking_up m h in
    elim (Option-cases c.tunnel.config) [
      | inl absent ↦ rw (absent, try_to_start) h
      | inr (config, there) ↦ elim (Result-cases c.looked_up) [
        | inr (e, failed) ↦ rw (there, try_to_start) (rw (failed, try_to_start) resolved)
        | inl (host, found) ↦
            let tunnel = with_host host c.tunnel in
            let begun =
              start_vpn during.connecting c.connects tunnel.config (id_of c.tunnel) false
                (during.looking_up m) in
            let whole : (try_to_start during c m).0 ≡ (finishes during c tunnel begun).0 =
              ground arith in
            let started =
              start_vpn-OneAlive during.connecting c.connects tunnel.config (id_of c.tunnel) false _
                k.connecting resolved in
            rw whole (finishes-OneAlive during c tunnel begun k started)
      ]
    ]

start_now-OneAlive :
    (during : Meanwhile) (c : Call) (m : MainProcess)
    → AllKeep during
    → OneAlive m
    → OneAlive (start_now during c m).0
unfolding start_now
start_now-OneAlive during c m k h =
    let tried = try-OneAlive during c m k h in
    elim (Result-cases (try_to_start during c m).1) [
      | inl (returned, starts) ↦ rw (starts, start_now) tried
      | inr (e, failed) ↦
          rw (failed, start_now)
            (stop_vpn-OneAlive during.tearing during.ending_too c.unlink _ k.tearing k.ending_too
              tried)
    ]

start_proxying-OneAlive :
    (during : Meanwhile) (c : Call) (m : MainProcess)
    → AllKeep during
    → OneAlive m
    → OneAlive (start_proxying during c m).0
unfolding start_proxying
start_proxying-OneAlive during c m k h = elim (Option-cases m.current_tunnel) [
  | inl free ↦ rw (free, start_proxying) (start_now-OneAlive during c m k h)
  | inr (n, there) ↦
      let waited = k.ending (ask_to_disconnect n m) h in
      elim (Bool-cases ((during.ending (ask_to_disconnect n m)).ended n)) [
        | inl over ↦
            rw (there, start_proxying)
              (rw (over, start_proxying) (start_now-OneAlive during c _ k waited))
        | inr alive ↦ rw (there, start_proxying) (rw (alive, start_proxying) waited)
      ]
]

-- One handler, or one step of a tunnel.
pub data Step (m : MainProcess) : MainProcess → Type 0 where
  starts : (during : Meanwhile) (c : Call) → AllKeep during → Step m (start_proxying during c m).0
  boots : (during : Meanwhile) (c : Call) → AllKeep during → Step m (app_ready during c m).0
  stops :
      (tearing ending : MainProcess → MainProcess) (unlink : Result String (Unit {0}))
      → Keeps tearing
      → Keeps ending
      → Step m (stop_vpn tearing ending unlink m).0
  quits :
      (tearing ending : MainProcess → MainProcess) (unlink : Result String (Unit {0}))
      → Keeps tearing
      → Keeps ending
      → Step m (quit_app tearing ending unlink m).0
  ends : (n : ℕ) → n < m.created → Step m (tunnel_ends n m)
  reconnects : (n : ℕ) → Step m (tunnel_reconnecting n m)
  has_reconnected : (n : ℕ) → Step m (tunnel_reconnected n m)
  localizes : Step m (localization_response m)

boots-OneAlive :
    (during : Meanwhile) (c : Call) (m : MainProcess)
    → AllKeep during
    → OneAlive m
    → OneAlive (app_ready during c m).0
unfolding app_ready
boots-OneAlive during c m k h = elim (Outcome-cases (load_tunnel c.json m.file)) [
  | inl (tunnel, loaded) ↦
      rw (loaded, app_ready)
        (start_vpn-OneAlive during.connecting c.connects tunnel.config (id_of tunnel) true _
          k.connecting (set_ui-OneAlive reconnecting (id_of tunnel) m h))
  | inr (inr (message, is)) ↦ rw (is, app_ready) h
  | inr (inl (message, is)) ↦ elim (Outcome-cases (clear_tunnel c.unlink m.file).1) [
    | inl (cleared, does) ↦ rw (is, app_ready) (rw (does, app_ready) h)
    | inr (inl (text, does)) ↦ rw (is, app_ready) (rw (does, app_ready) h)
    | inr (inr (text, does)) ↦ rw (is, app_ready) (rw (does, app_ready) h)
  ]
]

quits-OneAlive :
    (tearing ending : MainProcess → MainProcess) (unlink : Result String (Unit {0}))
    (m : MainProcess)
    → Keeps tearing
    → Keeps ending
    → OneAlive m
    → OneAlive (quit_app tearing ending unlink m).0
unfolding quit_app
quits-OneAlive tearing ending unlink m tears keeps h =
    let stopped =
      stop_vpn-OneAlive tearing ending unlink (record m { is_app_quitting = true }) tears keeps h in
    ground arith

-- Every step leaves at most one tunnel alive, the current one: the tunnels that were created
-- before it have ended. What other handlers do while one waits leaves that too.
pub Step-OneAlive : {m m' : MainProcess} → Step m m' → OneAlive m → OneAlive m'
Step-OneAlive {m} (starts during c k) h = start_proxying-OneAlive during c m k h
Step-OneAlive {m} (boots during c k) h = boots-OneAlive during c m k h
Step-OneAlive {m} (stops tearing ending unlink tears keeps) h =
    stop_vpn-OneAlive tearing ending unlink m tears keeps h
Step-OneAlive {m} (quits tearing ending unlink tears keeps) h =
    quits-OneAlive tearing ending unlink m tears keeps h
Step-OneAlive {m} (ends n exists) h = tunnel_ends-OneAlive n m exists h
Step-OneAlive {m} (reconnects n) h =
    unfold tunnel_reconnecting in set_ui-OneAlive reconnecting (m.ids n) m h
Step-OneAlive {m} (has_reconnected n) h =
    unfold tunnel_reconnected in set_ui-OneAlive connected (m.ids n) m h
Step-OneAlive {m} localizes h = unfold localization_response update_tray in h

pub data Reach (first : MainProcess) : MainProcess → Type 0 where
  here : Reach first first
  next : {m m' : MainProcess} → Reach first m → Step m m' → Reach first m'

Reach-OneAlive : {first m : MainProcess} → Reach first m → OneAlive first → OneAlive m
Reach-OneAlive here h = h
Reach-OneAlive (next r st) h = Step-OneAlive st (Reach-OneAlive r h)

-- Whatever the handlers do from the start on, two tunnels that have not ended are one, and it is the
-- current one.
pub one_tunnel_alive :
    (first m : MainProcess) (n k : ℕ)
    → first.created ≡ 0
    → first.current_tunnel ≡ none
    → ((j : ℕ) → first.ended j ≡ false)
    → Reach first m
    → n < m.created
    → k < m.created
    → m.ended n ≡ false
    → m.ended k ≡ false
    → (n ≡ k) × (m.current_tunnel ≡ some n)
one_tunnel_alive first m n k none_created free none_ended calls exists_n exists_k alive_n alive_k =
    let start : OneAlive first = record {
      others_ended = λ j lt live. absurd (omega arith);
      current_created = λ j e. cc;
      current_alive = λ j e. cc;
      none_ahead = λ j over. cc (none_ended j);
    } in
    let h = Reach-OneAlive calls start in
    let a = h.others_ended n exists_n alive_n in
    let b = h.others_ended k exists_k alive_k in (ground arith, a)
