-- ===== src/MainProcess/Alive.antt =====
-- Which tunnels of src/electron/index.ts are alive.
use pepper_vpn_client.MainProcess.{
  ShadowsocksSessionConfig, connected, create_tunnel, ask_to_disconnect, TunnelStatus, Thrown,
  disconnected, tear_down_auto_launch, update_tray, start_vpn, stop_vpn, tunnel_ends, MainProcess,
  set_ui_tunnel_status,
}
use pepper_vpn_client.Common.{
  String, ℕ, suc, Bool, true, false, Option, none, some, ◌≡◌, ◌<◌, ◌==◌, inl, inr, arith,
  Bool-cases, if◌then◌else◌, Option-cases,
}
use pepper_vpn_client.Common.Exec.{Result, Result-cases}
use mathlib.Core.Path.{subst}

-- Every tunnel that was created has ended, or is the current one; the current one has not ended.
pub record IsAlive (current : Option ℕ) (created : ℕ) (ended : ℕ → Bool) : Type 0 where
  pub others_ended : (n : ℕ) → n < created → ended n ≡ false → current ≡ some n
  pub current_created : (n : ℕ) → current ≡ some n → n < created
  pub current_alive : (n : ℕ) → current ≡ some n → ended n ≡ false
  pub none_ahead : (n : ℕ) → ended n ≡ true → n < created

abbrev pub OneAlive : MainProcess → Type 0
OneAlive m = IsAlive m.current_tunnel m.created m.ended

abbrev pub Keeps : (MainProcess → MainProcess) → Type 0
Keeps meanwhile = (m : MainProcess) → OneAlive m → OneAlive (meanwhile m)

ended-IsAlive :
    (current : Option ℕ) (created : ℕ) (ended : ℕ → Bool) (n : ℕ)
    → n < created
    → ended n ≡ false
    → IsAlive current created ended
    → IsAlive none created (λ k. if n == k then true else ended k)
ended-IsAlive current created ended n exists alive h = record {
  others_ended = λ k lt live. ground (arith, h.others_ended k, h.others_ended n exists alive);
  current_created = λ k e. cc;
  current_alive = λ k e. cc;
  none_ahead = λ k over. ground (arith, h.none_ahead k);
}

created-IsAlive :
    (created : ℕ) (ended : ℕ → Bool)
    → IsAlive none created ended
    → IsAlive (some created) (suc created) ended
created-IsAlive created ended h = record {
  others_ended = λ k lt live. ground (arith, h.others_ended k);
  current_created = λ k e. ground arith;
  current_alive = λ k e. ground (arith, h.none_ahead k);
  none_ahead = λ k over. ground (arith, h.none_ahead k);
}

pub set_ui-OneAlive :
    (status : TunnelStatus) (id : String) (m : MainProcess)
    → OneAlive m
    → OneAlive (set_ui_tunnel_status status id m)
unfolding set_ui_tunnel_status update_tray
set_ui-OneAlive status id m h = elim (Bool-cases m.has_window) [
  | inl open_window ↦ rw (open_window, set_ui_tunnel_status) h
  | inr closed ↦ rw (closed, set_ui_tunnel_status) h
]

pub tunnel_ends-OneAlive :
    (n : ℕ) (m : MainProcess) → n < m.created → OneAlive m → OneAlive (tunnel_ends n m)
unfolding tunnel_ends
tunnel_ends-OneAlive n m exists h = elim (Bool-cases (m.ended n)) [
  | inl over ↦ rw (over, tunnel_ends) h
  | inr alive ↦
      rw (alive, tunnel_ends)
        (set_ui-OneAlive disconnected (m.ids n) _
          (ended-IsAlive m.current_tunnel m.created m.ended n exists alive h))
]

pub start_vpn-OneAlive :
    (meanwhile : MainProcess → MainProcess) (connects : Result Thrown (Unit {0}))
    (config : Option ShadowsocksSessionConfig) (id : String) (auto : Bool) (m : MainProcess)
    → Keeps meanwhile
    → OneAlive m
    → OneAlive (start_vpn meanwhile connects config id auto m).0
unfolding start_vpn
start_vpn-OneAlive meanwhile connects none id auto m keeps h =
    elim (Option-cases m.current_tunnel) [
      | inr (n, there) ↦ rw (there, start_vpn) h
      | inl free ↦ rw (free, start_vpn) h
    ]
start_vpn-OneAlive meanwhile connects (some config) id auto m keeps h =
    elim (Option-cases m.current_tunnel) [
      | inr (n, there) ↦ rw (there, start_vpn) h
      | inl free ↦
          let begun : OneAlive (create_tunnel config auto id m) =
            unfold create_tunnel in
            created-IsAlive m.created m.ended (subst (λ c. IsAlive c m.created m.ended) free h) in
          let waited = keeps (create_tunnel config auto id m) begun in
          elim (Result-cases connects) [
            | inl (returned, joins) ↦
                rw (free, start_vpn) (rw (joins, start_vpn) (set_ui-OneAlive connected id _ waited))
            | inr (e, failed) ↦ rw (free, start_vpn) (rw (failed, start_vpn) waited)
          ]
    ]

pub stop_vpn-OneAlive :
    (tearing ending : MainProcess → MainProcess) (unlink : Result String (Unit {0}))
    (m : MainProcess)
    → Keeps tearing
    → Keeps ending
    → OneAlive m
    → OneAlive (stop_vpn tearing ending unlink m).0
unfolding stop_vpn tear_down_auto_launch
stop_vpn-OneAlive tearing ending unlink m tears ends h = elim (Option-cases m.current_tunnel) [
  | inl free ↦ rw (free, stop_vpn) h
  | inr (n, there) ↦
      let torn = tears (tear_down_auto_launch unlink (ask_to_disconnect n m)) h in
      let asked = tear_down_auto_launch unlink (ask_to_disconnect n m) in
      elim (Option-cases (tearing asked).current_tunnel) [
        | inl gone ↦ rw (there, stop_vpn) (rw (gone, stop_vpn) torn)
        | inr (k, still) ↦ rw (there, stop_vpn) (rw (still, stop_vpn) (ends (tearing asked) torn))
      ]
]
