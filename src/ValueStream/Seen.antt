-- ===== src/ValueStream/Seen.antt =====
-- What a watcher of server_manager/infrastructure/value_stream.ts has seen when it waits, and when
-- it ends.
use pepper_vpn_client.Common.{
  ap, [], ℕ, List, true, false, Option, none, some, ◌≡◌, ◌≢◌, arith, refl,
}
use pepper_vpn_client.Common.Exec.{ok}
use pepper_vpn_client.ValueStream.{
  pending, resolved, Watcher, not_started, yielded, awaiting, ended, ValueStream, new_stream,
  is_closed, set_value, watch_round, resume,
}
use pepper_vpn_client.ValueStream.Watching.{
  Sees, Reach, next, set_to, Reach-IsWatched, new_stream-IsWatched,
}

module _ {T : Type 0} where
  -- Whatever happened to a new stream, a watcher that waits for a change has seen the present value,
  -- and the stream is open.
  pub waiting_seen :
      (v : T) (s : ValueStream T) (i : ℕ) (seen : T)
      → Reach (new_stream v) s
      → s.watchers i ≡ awaiting seen pending
      → (seen ≡ s.value) × (is_closed s ≡ false)
  unfolding is_closed
  waiting_seen v s i seen calls waits =
      let h = Reach-IsWatched calls (new_stream-IsWatched v) i in
      let (ws, going, _, same) = rw waits at h in (same, rw going refl)

  -- Whatever happened to a new stream, no watcher waits for a change when a `set` has just succeeded.
  pub set_value_wakes :
      (v new : T) (s t : ValueStream T) (i : ℕ) (seen : T)
      → Reach (new_stream v) s
      → set_value new s ≡ ok t
      → t.watchers i ≢ awaiting seen pending
  set_value_wakes v new s t i seen calls e waits =
      let h = Reach-IsWatched (next calls (set_to new e)) (new_stream-IsWatched v) i in
      let (ws, going, found, _) = rw waits at h in
      let emptied : t.wakers ≡ some [] = unfold set_value in ground arith in cc

  -- where a watcher of a closed stream with the value `v` goes
  abbrev goes_to : T → Watcher T → Watcher T
  goes_to v not_started = yielded v (resolved true)
  goes_to v (yielded seen change) = awaiting seen change
  goes_to v (awaiting seen pending) = awaiting seen pending
  goes_to v (awaiting seen (resolved false)) = yielded v (resolved true)
  goes_to v (awaiting seen (resolved true)) = ended v
  goes_to v (ended seen) = ended seen

  resume_closed_from :
      (i : ℕ) (s : ValueStream T) (w : Watcher T)
      → s.watchers i ≡ w
      → s.wakers ≡ none
      → ((resume i s).watchers i ≡ goes_to s.value w)
        × ((resume i s).wakers ≡ none)
        × ((resume i s).value ≡ s.value)
  unfolding resume watch_round
  resume_closed_from i s not_started h closed = ground arith
  resume_closed_from i s (yielded seen change) h closed = ground arith
  resume_closed_from i s (awaiting seen pending) h closed = ground arith
  resume_closed_from i s (awaiting seen (resolved false)) h closed = ground arith
  resume_closed_from i s (awaiting seen (resolved true)) h closed = ground arith
  resume_closed_from i s (ended seen) h closed = ground arith

  goes_to_end :
      (v : T) (wakers : Option (List ℕ)) (i : ℕ) (w : Watcher T)
      → Sees v wakers i w
      → wakers ≡ none
      → goes_to v (goes_to v (goes_to v (goes_to v w))) ≡ ended v
  goes_to_end v wakers i not_started h closed = refl
  goes_to_end v wakers i (yielded seen pending) (ws, going, _, _) closed = cc
  goes_to_end v wakers i (awaiting seen pending) (ws, going, _, _) closed = cc
  goes_to_end v wakers i (yielded seen (resolved false)) h closed = refl
  goes_to_end v wakers i (awaiting seen (resolved false)) h closed = refl
  goes_to_end v wakers i (yielded seen (resolved true)) h closed = refl
  goes_to_end v wakers i (awaiting seen (resolved true)) h closed = refl
  goes_to_end v wakers i (ended seen) (_, same) closed = ap ended same

  -- Once a stream is closed, any watcher ends within four steps, and the last value that it yields is
  -- the last value of the stream, whatever happened to the stream before.
  pub closed_ends :
      (v : T) (s : ValueStream T) (i : ℕ)
      → Reach (new_stream v) s
      → is_closed s ≡ true
      → (resume i (resume i (resume i (resume i s)))).watchers i ≡ ended s.value
  closed_ends v s i calls shut =
      let closed : s.wakers ≡ none = unfold is_closed in ground arith in
      let h = Reach-IsWatched calls (new_stream-IsWatched v) i in
      let (at1, closed1, value1) = resume_closed_from i s (s.watchers i) refl closed in
      let (at2, closed2, value2) = resume_closed_from i (resume i s) _ at1 closed1 in
      let (at3, closed3, value3) = resume_closed_from i (resume i (resume i s)) _ at2 closed2 in
      let (at4, closed4, value4) =
        resume_closed_from i (resume i (resume i (resume i s))) _ at3 closed3 in
      let last = goes_to_end s.value s.wakers i (s.watchers i) h closed in cc
