-- ===== src/MainProcess/Failing.antt =====
-- When the handler of src/electron/index.ts that starts the VPN fails, and what it does then.
use pepper_vpn_client.MainProcess.{
  SerializableTunnel, ShadowsocksSessionConfig, MainProcess, done, plain, stop_vpn, start_vpn,
  tear_down_auto_launch, ask_to_disconnect,
}
use pepper_vpn_client.Common.{
  String, refl, arith, ℕ, true, false, Option, some, none, ◌≡◌, ◌⊎◌, inl, inr, Option-cases,
}
use pepper_vpn_client.Common.Exec.{Result, ok, err, Result-cases}
use pepper_vpn_client.Errors.{Thrown, thrown_to_error_code}
use pepper_vpn_client.Errors.ErrorCode
use pepper_vpn_client.MainProcess.Proxying.{
  Call, Meanwhile, with_host, id_of, start_now, try_to_start,
}

-- The reasons for which the `try` throws, in the order in which they are met.
pub data Fails (during : Meanwhile) (c : Call) (m : MainProcess) : Thrown → Type 0 where
  no_config : c.tunnel.config ≡ none → Fails during c m (plain "TypeError")
  no_address :
      (config : ShadowsocksSessionConfig) (e : Thrown)
      → c.tunnel.config ≡ some config
      → c.looked_up ≡ err e
      → Fails during c m e
  already_connected :
      (config : ShadowsocksSessionConfig) (host : String) (n : ℕ)
      → c.tunnel.config ≡ some config
      → c.looked_up ≡ ok host
      → (during.looking_up m).current_tunnel ≡ some n
      → Fails during c m (plain "already connected")
  no_connection :
      (config : ShadowsocksSessionConfig) (host : String) (e : Thrown)
      → c.tunnel.config ≡ some config
      → c.looked_up ≡ ok host
      → (during.looking_up m).current_tunnel ≡ none
      → c.connects ≡ err e
      → Fails during c m e

-- The `try` comes to its end.
pub record Succeeds (during : Meanwhile) (c : Call) (m : MainProcess) : Type 0 where
  pub config : ShadowsocksSessionConfig
  pub host : String
  pub has_config : c.tunnel.config ≡ some config
  pub resolves : c.looked_up ≡ ok host
  pub is_free : (during.looking_up m).current_tunnel ≡ none
  pub connects : c.connects ≡ ok tt

-- The tunnel that is the current one when the `try` has thrown has been asked to disconnect; when
-- there is none, nothing is done.
abbrev pub LeavesAsked : MainProcess → MainProcess → Type 0
LeavesAsked before after =
    ((before.current_tunnel ≡ none) × (after ≡ before))
    ⊎ ((n : ℕ) × (before.current_tunnel ≡ some n) × (after.asked n ≡ true))

-- A handler that waits does not take back that a tunnel was asked to disconnect.
abbrev pub KeepsAsked : (MainProcess → MainProcess) → Type 0
KeepsAsked meanwhile = (n : ℕ) (a : MainProcess) → a.asked n ≡ true → (meanwhile a).asked n ≡ true

with_host_config :
    (host : String) (tunnel : SerializableTunnel) (config : ShadowsocksSessionConfig)
    → tunnel.config ≡ some config
    → (with_host host tunnel).config ≡ some (record config { host = some host })
with_host_config host tunnel config is = ground arith

stop_vpn-LeavesAsked :
    (tearing ending : MainProcess → MainProcess) (unlink : Result String (Unit {0}))
    (m : MainProcess)
    → KeepsAsked tearing
    → KeepsAsked ending
    → LeavesAsked m (stop_vpn tearing ending unlink m).0
unfolding stop_vpn tear_down_auto_launch
stop_vpn-LeavesAsked tearing ending unlink m tears ends = elim (Option-cases m.current_tunnel) [
  | inl free ↦ inl (free, ground arith)
  | inr (n, there) ↦
      let torn = tearing (tear_down_auto_launch unlink (ask_to_disconnect n m)) in
      let asked : torn.asked n ≡ true = tears n _ (ground arith) in
      inr (
        n,
        there,
        elim (Option-cases torn.current_tunnel) [
          | inl gone ↦ rw (there, stop_vpn) (rw (gone, stop_vpn) asked)
          | inr (k, still) ↦ rw (there, stop_vpn) (rw (still, stop_vpn) (ends n torn asked))
        ],
      )
]

started_connected :
    (meanwhile : MainProcess → MainProcess) (connects : Result Thrown (Unit {0}))
    (given : Option ShadowsocksSessionConfig) (id : String) (n : ℕ) (m : MainProcess)
    → m.current_tunnel ≡ some n
    → (start_vpn meanwhile connects given id false m).1 ≡ err (plain "already connected")
unfolding start_vpn
started_connected meanwhile connects given id n m there = rw (there, start_vpn) refl

started_alone :
    (meanwhile : MainProcess → MainProcess) (connects : Result Thrown (Unit {0}))
    (given : Option ShadowsocksSessionConfig) (config : ShadowsocksSessionConfig) (id : String)
    (m : MainProcess)
    → given ≡ some config
    → m.current_tunnel ≡ none
    → (start_vpn meanwhile connects given id false m).1 ≡ connects
unfolding start_vpn
started_alone meanwhile connects given config id m is free = elim (Result-cases connects) [
  | inl (made, joins) ↦ ground arith
  | inr (e, fails) ↦ ground arith
]

-- The `try` throws exactly for one of the reasons.
tries :
    (during : Meanwhile) (c : Call) (m : MainProcess)
    → (((try_to_start during c m).1 ≡ ok tt) × Succeeds during c m)
      ⊎ ((e : Thrown) × ((try_to_start during c m).1 ≡ err e) × Fails during c m e)
unfolding try_to_start
tries during c m = elim (Option-cases c.tunnel.config) [
  | inl absent ↦ inr (_, rw (absent, try_to_start) refl, no_config absent)
  | inr (config, there) ↦ elim (Result-cases c.looked_up) [
    | inr (e, lost) ↦
        inr (
          e,
          rw (there, try_to_start) (rw (lost, try_to_start) refl),
          no_address config e there lost,
        )
    | inl (host, found) ↦
        let tunnel = with_host host c.tunnel in
        let resolved = during.looking_up m in
        let is = with_host_config host c.tunnel config there in
        elim (Option-cases resolved.current_tunnel) [
          | inr (n, current) ↦
              let threw =
                started_connected during.connecting c.connects tunnel.config (id_of c.tunnel) n
                  resolved current in
              inr (_, ground arith, already_connected config host n there found current)
          | inl free ↦
              let same =
                started_alone during.connecting c.connects tunnel.config _ (id_of c.tunnel) resolved
                  is free in
              elim (Result-cases c.connects) [
                | inr (e, fails) ↦
                    inr (e, ground arith, no_connection config host e there found free fails)
                | inl (made, joins) ↦ inl (
                  ground arith,
                  record {
                    config = config;
                    host = host;
                    has_config = there;
                    resolves = found;
                    is_free = free;
                    connects = joins;
                  },
                )
              ]
        ]
  ]
]

-- The handler, once no old tunnel is waited for, whatever happens while it waits, if that takes back
-- no request to disconnect. If there is a configuration, its host is resolved, no tunnel is the
-- current one then, and the new one connects, the answer is that there was no error, and nothing is
-- done after the `try`. Otherwise the answer is the code of the first of these that has failed; and
-- the tunnel that is the current one then, the new one or one that another handler has started, has
-- been asked to disconnect.
pub failed_start_stops :
    (during : Meanwhile) (c : Call) (m : MainProcess)
    → KeepsAsked during.tearing
    → KeepsAsked during.ending_too
    → (Succeeds during c m
        × (start_now during c m ≡ ((try_to_start during c m).0, done (ok ErrorCode.no_error))))
      ⊎ ((e : Thrown) × Fails during c m e
          × ((start_now during c m).1 ≡ done (thrown_to_error_code e))
          × LeavesAsked (try_to_start during c m).0 (start_now during c m).0)
unfolding start_now
failed_start_stops during c m tears ends = elim (tries during c m) [
  | inl (returns, all) ↦ inl (all, rw (returns, start_now) refl)
  | inr (e, throws, why) ↦ inr (
    e,
    why,
    rw (throws, start_now) refl,
    rw (throws, start_now)
        (stop_vpn-LeavesAsked during.tearing during.ending_too c.unlink (try_to_start during c m).0
          tears ends),
  )
]
