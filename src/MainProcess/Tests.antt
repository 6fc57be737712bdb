-- ===== src/MainProcess/Tests.antt =====
-- Runs of src/electron/index.ts.
use pepper_vpn_client.Errors.{Thrown, vpn_start_failure, plain, native_error, thrown_to_error_code}
use pepper_vpn_client.MainProcess.Proxying.{
  try_to_start, start_now, Meanwhile, Call, start_proxying, with_host,
}
use pepper_vpn_client.Common.Text.{strip_prefix}
use pepper_vpn_client.MainProcess.{clear_tunnel, MainProcess, done, tunnel_ends, stop_vpn}
use pepper_vpn_client.TunnelStore.{save_tunnel, SerializableTunnel, TunnelJson}
use pepper_vpn_client.Common.{◌∷◌, arith, ℕ, true, false, some, none, [], ◌≡◌, ◌⊎◌, refl}
use pepper_vpn_client.Common.Exec.{ok, err}
use pepper_vpn_client.Errors.ErrorCode
use pepper_vpn_client.MainProcess.Answers.{stop_vpn_throws}
use pepper_vpn_client.MainProcess.Failing.{
  failed_start_stops, KeepsAsked, Fails, Succeeds, LeavesAsked,
}
use pepper_vpn_client.MainProcess.Runs.{AllKeep, starts, ends, here, next, one_tunnel_alive, Reach}
use pepper_vpn_client.MainProcess.Links.{intercept_shadowsocks_link}
use pepper_vpn_client.MainProcess.Sent.{intercepted_once, SentLink}

abbrev idle : MainProcess
idle = record {
  current_tunnel = none;
  created = 0;
  ids = λ _. "";
  configs = λ _. none;
  auto_connects = λ _. false;
  asked = λ _. false;
  ended = λ _. false;
  has_window = true;
  sent = [];
  tray_is_connected = false;
  file = none;
  launches_at_login = false;
  is_app_quitting = false;
  has_quit = false;
}

abbrev tunnel : SerializableTunnel
tunnel = record {
  id = some "a";
  config = some (record {
    host = some "h";
    port = some 443;
    password = some "p";
    method = some "aes-256-gcm";
    prefix = none;
  });
}

abbrev json : TunnelJson
json = record { stringify = λ _. "saved"; parse = λ _. ok (with_host "1.2.3.4" tunnel) }

abbrev call : Call
call = record {
  json = json;
  tunnel = tunnel;
  looked_up = ok "1.2.3.4";
  connects = ok tt;
  write = ok tt;
  unlink = ok tt;
  can_launch = true;
}

abbrev failing : Call
failing = record call { connects = err (native_error vpn_start_failure) }

abbrev quiet : Meanwhile
quiet = record {
  ending = λ m. m;
  looking_up = λ m. m;
  connecting = λ m. m;
  saving = λ m. m;
  tearing = λ m. m;
  ending_too = λ m. m;
}

quiet_keeps : AllKeep quiet
quiet_keeps = record {
  ending = λ m h. h;
  looking_up = λ m h. h;
  connecting = λ m h. h;
  saving = λ m h. h;
  tearing = λ m h. h;
  ending_too = λ m h. h;
}

abbrev started : MainProcess
started = (start_proxying quiet call idle).0

abbrev stopped : MainProcess
stopped = tunnel_ends 0 started

abbrev restarted : MainProcess
restarted = (start_proxying quiet call stopped).0

was_created : started.created ≡ 1
unfolding start_proxying save_tunnel
was_created = refl

restarted_created : restarted.created ≡ 2
unfolding start_proxying tunnel_ends save_tunnel
restarted_created = refl

restarted_alive : restarted.ended 1 ≡ false
unfolding start_proxying tunnel_ends save_tunnel
restarted_alive = refl

restarts : Reach idle restarted
restarts =
    next (next (next here (starts quiet call quiet_keeps)) (ends 0 (rw was_created (omega arith))))
      (starts quiet call quiet_keeps)

one_tunnel_alive_example : (Path ℕ 1 1) × (restarted.current_tunnel ≡ some 1)
one_tunnel_alive_example =
    one_tunnel_alive idle restarted 1 1 refl refl (λ j. refl) restarts
      (rw restarted_created (omega arith)) (rw restarted_created (omega arith)) restarted_alive
      restarted_alive

abbrev boot : MainProcess
boot = record idle { file = started.file }

-- The window is closed while the tunnel connects.
abbrev closing : Meanwhile
closing = record quiet { connecting = λ m. record m { has_window = false } }

-- While the tunnel fails to connect, the store is cleared, and the tunnel ends.
abbrev busy : Meanwhile
busy = record quiet { tearing = tunnel_ends 0 }

ends_keep_asked : KeepsAsked busy.tearing
unfolding tunnel_ends pepper_vpn_client.MainProcess.set_ui_tunnel_status
    pepper_vpn_client.MainProcess.update_tray
ends_keep_asked n a h = ground (arith, h)

failed_start_stops_example :
    (Succeeds busy failing idle
      × (start_now busy failing idle
          ≡ ((try_to_start busy failing idle).0, done (ok ErrorCode.no_error))))
    ⊎ ((e : Thrown) × Fails busy failing idle e
        × ((start_now busy failing idle).1 ≡ done (thrown_to_error_code e))
        × LeavesAsked (try_to_start busy failing idle).0 (start_now busy failing idle).0)
failed_start_stops_example = failed_start_stops busy failing idle ends_keep_asked (λ n a h. h)

abbrev running : MainProcess
running = record idle { current_tunnel = some 0; created = 1 }

stop_vpn_throws_example :
    ((stop_vpn (tunnel_ends 0) (λ a. a) (ok tt) running).1 ≡ done (err (plain "TypeError")))
    × ((stop_vpn (tunnel_ends 0) (λ a. a) (ok tt) running).0.ended 0 ≡ true)
    × ((stop_vpn (tunnel_ends 0) (λ a. a) (ok tt) running).0.tray_is_connected ≡ false)
stop_vpn_throws_example = stop_vpn_throws (λ a. a) (ok tt) 0 running refl refl

intercepted_once_example :
    ((intercept_shadowsocks_link true ("pepper" ∷ "ssconf://a/b#c/" ∷ []) ≡ [])
      × ((true ≡ false)
          ⊎ ((strip_prefix "ss://" "ssconf://a/b#c/" ≡ none)
              × (strip_prefix "ssconf://" "ssconf://a/b#c/" ≡ none))))
    ⊎ ((true ≡ true)
        × (SentLink "ss://" "ssconf://a/b#c/"
              (intercept_shadowsocks_link true ("pepper" ∷ "ssconf://a/b#c/" ∷ []))
            ⊎ SentLink "ssconf://" "ssconf://a/b#c/"
                (intercept_shadowsocks_link true ("pepper" ∷ "ssconf://a/b#c/" ∷ []))))
intercepted_once_example = intercepted_once true "pepper" "ssconf://a/b#c/" []

-- the path of a dynamic key is lost
path_is_lost :
    intercept_shadowsocks_link true ("pepper" ∷ "ssconf://a/b/" ∷ []) ≡ "ssconf://ab" ∷ []
unfolding intercept_shadowsocks_link
path_is_lost = refl
