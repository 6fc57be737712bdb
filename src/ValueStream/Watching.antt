-- ===== src/ValueStream/Watching.antt =====
-- What a watcher of server_manager/infrastructure/value_stream.ts gets to see.
use pepper_vpn_client.Common.{
  ℕ, Bool, true, false, Option, none, some, List, [], ◌∷◌, ◌++◌, ◌≡◌, ◌||◌, ◌==◌, refl, inl, inr,
  arith, if◌then◌else◌, Bool-cases, Option-cases,
}
use pepper_vpn_client.Common.Exec.{ok}
use pepper_vpn_client.ValueStream.{
  Change, pending, resolved, Watcher, not_started, yielded, awaiting, ended, ValueStream,
  new_stream, put, resolve, wake_all, set_value, close, watch_round, resume,
}

abbrev pub has : ℕ → List ℕ → Bool
has i [] = false
has i (j ∷ js) = j == i || has i js

has-append : (i j : ℕ) (is : List ℕ) → has i (is ++ j ∷ []) ≡ (has i is || j == i)
has-append i j [] = ground arith
has-append i j (k ∷ is) = ground (arith, has-append i j is)

wakers_same : (ws us : List ℕ) (i : ℕ) → some ws ≡ some us → has i us ≡ true → has i ws ≡ true
wakers_same ws us i e h = cc

has_pushed :
    (ws us : List ℕ) (i j : ℕ) → some ws ≡ some us → has i us ≡ true → has i (ws ++ j ∷ []) ≡ true
has_pushed ws us i j e h = ground (arith, has-append i j ws, wakers_same ws us i e h)

has_last : (ws : List ℕ) (i : ℕ) → has i (ws ++ i ∷ []) ≡ true
has_last ws i = ground (arith, has-append i i ws)

module _ {T : Type 0} where
  resolve-resolve : (c : Bool) (w : Watcher T) → resolve c (resolve c w) ≡ resolve c w
  unfolding resolve
  resolve-resolve c w = ground arith

  -- Every watcher in the list has its promise resolved, and no other one is touched.
  pub wake_all-eq :
      (c : Bool) (wakers : List ℕ) (watchers : ℕ → Watcher T) (i : ℕ)
      → wake_all c wakers watchers i ≡ (if has i wakers then resolve c (watchers i) else watchers i)
  unfolding wake_all
  wake_all-eq c [] watchers i = refl
  wake_all-eq c (j ∷ wakers) watchers i =
      let rest = wake_all-eq c wakers (put watchers j (resolve c (watchers j))) i in
      ground (arith, rest, resolve-resolve c (watchers i))

  -- What holds of one watcher of a stream with the value `v` and the given wakers.
  abbrev pub Sees : T → Option (List ℕ) → ℕ → Watcher T → Type 0
  Sees v wakers i not_started = Unit
  Sees v wakers i (yielded seen pending) =
      (ws : List ℕ) × (wakers ≡ some ws) × (has i ws ≡ true) × (seen ≡ v)
  Sees v wakers i (awaiting seen pending) =
      (ws : List ℕ) × (wakers ≡ some ws) × (has i ws ≡ true) × (seen ≡ v)
  Sees v wakers i (yielded seen (resolved false)) = Unit
  Sees v wakers i (awaiting seen (resolved false)) = Unit
  Sees v wakers i (yielded seen (resolved true)) = wakers ≡ none
  Sees v wakers i (awaiting seen (resolved true)) = wakers ≡ none
  Sees v wakers i (ended seen) = (wakers ≡ none) × (seen ≡ v)

  abbrev pub IsWatched : ValueStream T → Type 0
  IsWatched s = (i : ℕ) → Sees s.value s.wakers i (s.watchers i)

  if_same : (b : Bool) (w : Watcher T) → (if b then w else w) ≡ w
  if_same b w = ground arith

  Sees-set :
      (v v' : T) (ws : List ℕ) (i : ℕ) (w : Watcher T)
      → Sees v (some ws) i w
      → Sees v' (some []) i (if has i ws then resolve false w else w)
  unfolding resolve
  Sees-set v v' ws i not_started h = rw (if_same (has i ws) not_started) tt
  Sees-set v v' ws i (yielded seen pending) (us, e, m, same) = rw (wakers_same ws us i e m) tt
  Sees-set v v' ws i (awaiting seen pending) (us, e, m, same) = rw (wakers_same ws us i e m) tt
  Sees-set v v' ws i (yielded seen (resolved false)) h =
      rw (if_same (has i ws) (yielded seen (resolved false))) tt
  Sees-set v v' ws i (awaiting seen (resolved false)) h =
      rw (if_same (has i ws) (awaiting seen (resolved false))) tt
  Sees-set v v' ws i (yielded seen (resolved true)) h = cc
  Sees-set v v' ws i (awaiting seen (resolved true)) h = cc
  Sees-set v v' ws i (ended seen) (h, same) = cc

  Sees-close :
      (v : T) (ws : List ℕ) (i : ℕ) (w : Watcher T)
      → Sees v (some ws) i w
      → Sees v none i (if has i ws then resolve true w else w)
  unfolding resolve
  Sees-close v ws i not_started h = rw (if_same (has i ws) not_started) tt
  Sees-close v ws i (yielded seen pending) (us, e, m, same) = rw (wakers_same ws us i e m) refl
  Sees-close v ws i (awaiting seen pending) (us, e, m, same) = rw (wakers_same ws us i e m) refl
  Sees-close v ws i (yielded seen (resolved false)) h =
      rw (if_same (has i ws) (yielded seen (resolved false))) tt
  Sees-close v ws i (awaiting seen (resolved false)) h =
      rw (if_same (has i ws) (awaiting seen (resolved false))) tt
  Sees-close v ws i (yielded seen (resolved true)) h = cc
  Sees-close v ws i (awaiting seen (resolved true)) h = cc
  Sees-close v ws i (ended seen) (h, same) = cc

  -- A new waker at the end of the list.
  Sees-push :
      (v : T) (ws : List ℕ) (i j : ℕ) (w : Watcher T)
      → Sees v (some ws) i w
      → Sees v (some (ws ++ j ∷ [])) i w
  Sees-push v ws i j not_started h = tt
  Sees-push v ws i j (yielded seen pending) (us, e, m, same) =
      (ws ++ j ∷ [], refl, has_pushed ws us i j e m, same)
  Sees-push v ws i j (awaiting seen pending) (us, e, m, same) =
      (ws ++ j ∷ [], refl, has_pushed ws us i j e m, same)
  Sees-push v ws i j (yielded seen (resolved false)) h = tt
  Sees-push v ws i j (awaiting seen (resolved false)) h = tt
  Sees-push v ws i j (yielded seen (resolved true)) h = cc
  Sees-push v ws i j (awaiting seen (resolved true)) h = cc
  Sees-push v ws i j (ended seen) (h, same) = cc

  set_value-IsWatched :
      (v : T) (s s' : ValueStream T) → IsWatched s → set_value v s ≡ ok s' → IsWatched s'
  unfolding set_value
  set_value-IsWatched v s s' h e = elim (Option-cases s.wakers) [
    | inl closed ↦ absurd (ground arith)
    | inr (ws, going) ↦
        let state : record { value = v; wakers = some []; watchers = wake_all false ws s.watchers }
            ≡ s' =
          ground arith in
        rw (← state) (λ i.
          rw (wake_all-eq false ws s.watchers i)
            (Sees-set s.value v ws i (s.watchers i) (rw going at (h i))))
  ]

  close-IsWatched : (s : ValueStream T) → IsWatched s → IsWatched (close s)
  unfolding close
  close-IsWatched s h = elim (Option-cases s.wakers) [
    | inl closed ↦ rw (closed, close) h
    | inr (ws, going) ↦
        rw (going, close)
          (λ i.
            rw (wake_all-eq true ws s.watchers i)
              (Sees-close s.value ws i (s.watchers i) (rw going at (h i))))
  ]

  -- One watcher replaced, and the wakers too.
  put-Sees :
      (v : T) (wakers : Option (List ℕ)) (watchers : ℕ → Watcher T) (i : ℕ) (w : Watcher T)
      → ((j : ℕ) → Sees v wakers j (watchers j))
      → Sees v wakers i w
      → (j : ℕ) → Sees v wakers j (put watchers i w j)
  put-Sees v wakers watchers i w h now j = elim (Bool-cases (i == j)) [
    | inl same ↦ let e : i ≡ j = ground arith in rw (same, ← e) now
    | inr other ↦ rw other (h j)
  ]

  watch_round-IsWatched : (i : ℕ) (s : ValueStream T) → IsWatched s → IsWatched (watch_round i s)
  unfolding watch_round
  watch_round-IsWatched i s h = elim (Option-cases s.wakers) [
    | inl closed ↦
        rw (closed, watch_round)
          (put-Sees s.value s.wakers s.watchers i (yielded s.value (resolved true)) h closed)
    | inr (ws, going) ↦
        rw (going, watch_round)
          (put-Sees s.value (some (ws ++ i ∷ [])) s.watchers i (yielded s.value pending)
            (λ j. Sees-push s.value ws j i (s.watchers j) (rw going at (h j)))
            (ws ++ i ∷ [], refl, has_last ws i, refl))
  ]

  Sees-awaiting :
      (v : T) (wakers : Option (List ℕ)) (i : ℕ) (seen : T) (change : Change)
      → Sees v wakers i (yielded seen change)
      → Sees v wakers i (awaiting seen change)
  Sees-awaiting v wakers i seen pending h = h
  Sees-awaiting v wakers i seen (resolved false) h = h
  Sees-awaiting v wakers i seen (resolved true) h = h

  -- `resume` at each place where the watcher may be
  resume_from :
      (i : ℕ) (s : ValueStream T) (w : Watcher T)
      → s.watchers i ≡ w
      → Sees s.value s.wakers i w
      → IsWatched s
      → IsWatched (resume i s)
  unfolding resume
  resume_from i s not_started here_at now h = rw (here_at, resume) (watch_round-IsWatched i s h)
  resume_from i s (yielded seen change) here_at now h =
      rw (here_at, resume)
        (put-Sees s.value s.wakers s.watchers i (awaiting seen change) h
          (Sees-awaiting s.value s.wakers i seen change now))
  resume_from i s (awaiting seen pending) here_at now h = rw (here_at, resume) h
  resume_from i s (awaiting seen (resolved false)) here_at now h =
      rw (here_at, resume) (watch_round-IsWatched i s h)
  resume_from i s (awaiting seen (resolved true)) here_at now h =
      rw (here_at, resume) (put-Sees s.value s.wakers s.watchers i (ended s.value) h (now, refl))
  resume_from i s (ended seen) here_at now h = rw (here_at, resume) h

  resume-IsWatched : (i : ℕ) (s : ValueStream T) → IsWatched s → IsWatched (resume i s)
  resume-IsWatched i s h = resume_from i s (s.watchers i) refl (h i) h

  -- What may happen to a stream.
  pub data Step : ValueStream T → ValueStream T → Type 0 where
    set_to : {s t : ValueStream T} (v : T) → set_value v s ≡ ok t → Step s t
    closed : (s : ValueStream T) → Step s (close s)
    resumed : (s : ValueStream T) (i : ℕ) → Step s (resume i s)

  pub data Reach : ValueStream T → ValueStream T → Type 0 where
    here : (s : ValueStream T) → Reach s s
    next : {r s t : ValueStream T} → Reach r s → Step s t → Reach r t

  pub Reach-IsWatched : {s t : ValueStream T} → Reach s t → IsWatched s → IsWatched t
  Reach-IsWatched (here s) h = h
  Reach-IsWatched (next {s} {t} calls (set_to v e)) h =
      set_value-IsWatched v s t (Reach-IsWatched calls h) e
  Reach-IsWatched (next calls (closed s)) h = close-IsWatched s (Reach-IsWatched calls h)
  Reach-IsWatched (next calls (resumed s i)) h = resume-IsWatched i s (Reach-IsWatched calls h)

  pub new_stream-IsWatched : (v : T) → IsWatched (new_stream v)
  unfolding new_stream
  new_stream-IsWatched v i = tt
