-- ===== src/ValueStream.antt =====
-- server_manager/infrastructure/value_stream.ts: a value that changes over time, and the generators
-- that watch it. A watcher is seen at the points where it stops: after a `yield`, until its consumer
-- asks for the next value, and at the `await` of the promise that `nextChange` gave it. Resolving a
-- promise and going on after its `await` are two steps, with anything in between.
pub mod Watching
pub mod Seen
mod Tests
use pepper_vpn_client.Common.{
  ℕ, String, Bool, true, false, Option, none, some, List, [], ◌∷◌, ◌++◌, ◌==◌, if◌then◌else◌,
}
use pepper_vpn_client.Common.Exec.{Result, ok, err}

-- the promise of `nextChange`
pub data Change : Type 0 where
  pending : Change
  resolved : Bool → Change

-- Where a generator of `watch` is. `yielded` and `ended` hold the value that it yielded last.
pub data Watcher (T : Type 0) : Type 0 where
  not_started : Watcher T
  -- behind the `yield` in the loop
  yielded : T → Change → Watcher T
  -- at the `await`
  awaiting : T → Change → Watcher T
  -- behind the `yield` that follows the loop
  ended : T → Watcher T

-- The stream with its watchers, by number. `wakers` is `none` once it is `null`; a waker is the
-- number of the watcher whose promise it resolves.
pub record ValueStream (T : Type 0) : Type 0 where
  pub value : T
  pub wakers : Option (List ℕ)
  pub watchers : ℕ → Watcher T

module _ {T : Type 0} where
  unfoldable pub new_stream : T → ValueStream T
  new_stream v = record { value = v; wakers = some []; watchers = λ _. not_started }

  abbrev pub put : (ℕ → Watcher T) → ℕ → Watcher T → ℕ → Watcher T
  put watchers i w = λ j. if i == j then w else watchers j

  -- resolving the promise of a watcher, which does it once
  unfoldable pub resolve : Bool → Watcher T → Watcher T
  resolve closed (yielded seen pending) = yielded seen (resolved closed)
  resolve closed (awaiting seen pending) = awaiting seen (resolved closed)
  resolve closed w = w

  -- `wakers.forEach(waker => waker(closed))`
  unfoldable pub wake_all : Bool → List ℕ → (ℕ → Watcher T) → ℕ → Watcher T
  wake_all closed [] watchers = watchers
  wake_all closed (i ∷ wakers) watchers =
      wake_all closed wakers (put watchers i (resolve closed (watchers i)))

  unfoldable pub is_closed : ValueStream T → Bool
  is_closed s = elim s.wakers [ none ↦ true | some _ ↦ false ]

  -- `set`; an error holds the message.
  unfoldable pub set_value : T → ValueStream T → Result String (ValueStream T)
  set_value v s = elim s.wakers [
    | none ↦ err "Cannot change a closed value stream"
    | some wakers ↦
        ok (record { value = v; wakers = some []; watchers = wake_all false wakers s.watchers })
  ]

  unfoldable pub close : ValueStream T → ValueStream T
  close s = elim s.wakers [
    | none ↦ s
    | some wakers ↦ record s { wakers = none; watchers = wake_all true wakers s.watchers }
  ]

  -- One round of the loop of `watch`, up to its `yield`: `nextChange`, then the value.
  unfoldable pub watch_round : ℕ → ValueStream T → ValueStream T
  watch_round i s = elim s.wakers [
    | none ↦ record s { watchers = put s.watchers i (yielded s.value (resolved true)) }
    | some wakers ↦ record s {
      wakers = some (wakers ++ i ∷ []);
      watchers = put s.watchers i (yielded s.value pending);
    }
  ]

  -- A watcher goes on as far as it can: its consumer asks for a value, or its promise is resolved.
  unfoldable pub resume : ℕ → ValueStream T → ValueStream T
  unfolding watch_round
  resume i s = elim (s.watchers i) [
    | not_started ↦ watch_round i s
    | yielded seen change ↦ record s { watchers = put s.watchers i (awaiting seen change) }
    | awaiting seen pending ↦ s
    | awaiting seen (resolved false) ↦ watch_round i s
    | awaiting seen (resolved true) ↦ record s { watchers = put s.watchers i (ended s.value) }
    | ended seen ↦ s
  ]
