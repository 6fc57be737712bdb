-- ===== src/ValueStream/Tests.antt =====
-- Runs of the stream of server_manager/infrastructure/value_stream.ts.
use pepper_vpn_client.Common.{ℕ, true, false, some, [], ◌≡◌, refl}
use pepper_vpn_client.Common.Exec.{ok}
use pepper_vpn_client.ValueStream.{
  pending, resolved, awaiting, ended, ValueStream, new_stream, put, resolve, wake_all, is_closed,
  set_value, close, watch_round, resume,
}
use pepper_vpn_client.ValueStream.Watching.{Reach, here, next, set_to, closed, resumed}
use pepper_vpn_client.ValueStream.Seen.{waiting_seen, closed_ends}

-- Watcher 0 has seen 7 and waits.
abbrev waiting : ValueStream ℕ
waiting = resume 0 (resume 0 (new_stream 7))

calls : Reach (new_stream 7) waiting
calls = next (next (here (new_stream 7)) (resumed (new_stream 7) 0)) (resumed _ 0)

abbrev set_to_eight : ValueStream ℕ
set_to_eight = record {
  value = 8;
  wakers = some [];
  watchers = put waiting.watchers 0 (awaiting 7 (resolved false));
}

waits : waiting.watchers 0 ≡ awaiting 7 pending
unfolding resume watch_round new_stream
waits = refl

waiting_seen_example : (7 ≡ waiting.value) × (is_closed waiting ≡ false)
waiting_seen_example = waiting_seen 7 waiting 0 7 calls waits

set_works : set_value 8 waiting ≡ ok set_to_eight
unfolding set_value wake_all resolve resume watch_round new_stream
set_works = refl

abbrev shut : ValueStream ℕ
shut = close set_to_eight

shut_calls : Reach (new_stream 7) shut
shut_calls = next (next calls (set_to 8 set_works)) (closed set_to_eight)

shut-is_closed : is_closed shut ≡ true
unfolding is_closed close
shut-is_closed = refl

closed_ends_example : (resume 0 (resume 0 (resume 0 (resume 0 shut)))).watchers 0 ≡ ended shut.value
closed_ends_example = closed_ends 7 shut 0 shut_calls shut-is_closed
