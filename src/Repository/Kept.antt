-- ===== src/Repository/Kept.antt =====
-- What the methods of src/www/app/outline_server_repository/index.ts do to a list that can be
-- loaded again.
use mathlib.Core.List.{append_assoc, append-nil}
use pepper_vpn_client.Common.{
  String, false, Option, none, some, [], ◌∷◌, ◌++◌, ◌≡◌, refl, sym, inl, inr, arith, Bool-cases,
  str_eq, eq_iff,
}
use pepper_vpn_client.Common.Map
use pepper_vpn_client.Common.Map.{Entries, set_new, get-remove, get-set}
use pepper_vpn_client.Server.{OutlineServer}
use pepper_vpn_client.Repository.Keys.{Environment, has_access_key, server_from_access_key}
use pepper_vpn_client.Repository.Rebuild.{with_name, IsFresh, IsStable}
use pepper_vpn_client.Repository.Reload.{Loads}

module _ (env : Environment) where
  -- Every id and every key that is free in `m` is free in `n`.
  record Frees (m n : Entries OutlineServer) : Type 0 where
    id_free : (k : String) → Map.get m k ≡ none → Map.get n k ≡ none
    key_free :
        (key : String)
        → server_from_access_key env (Map.values m) key ≡ none
        → server_from_access_key env (Map.values n) key ≡ none

  get-append_none :
      (m : Entries OutlineServer) (j k : String) (server : OutlineServer)
      → Map.get (m ++ (j, server) ∷ []) k ≡ none
      → (Map.get m k ≡ none) × (str_eq j k ≡ false)
  unfolding Map.get
  get-append_none [] j k server h = ground arith
  get-append_none ((i, s) ∷ m) j k server h = ground (arith, get-append_none m j k server)

  append_none-get :
      (m : Entries OutlineServer) (j k : String) (server : OutlineServer)
      → Map.get m k ≡ none
      → str_eq j k ≡ false
      → Map.get (m ++ (j, server) ∷ []) k ≡ none
  unfolding Map.get
  append_none-get [] j k server h n = ground arith
  append_none-get ((i, s) ∷ m) j k server h n = ground (arith, append_none-get m j k server)

  free-append :
      (m : Entries OutlineServer) (j key : String) (server : OutlineServer)
      → server_from_access_key env (Map.values (m ++ (j, server) ∷ [])) key ≡ none
      → (server_from_access_key env (Map.values m) key ≡ none)
        × (has_access_key env key server ≡ false)
  unfolding Map.values server_from_access_key
  free-append [] j key server h = ground arith
  free-append ((i, s) ∷ m) j key server h = ground (arith, free-append m j key server)

  append-free :
      (m : Entries OutlineServer) (j key : String) (server : OutlineServer)
      → server_from_access_key env (Map.values m) key ≡ none
      → has_access_key env key server ≡ false
      → server_from_access_key env (Map.values (m ++ (j, server) ∷ [])) key ≡ none
  unfolding Map.values server_from_access_key
  append-free [] j key server h n = ground arith
  append-free ((i, s) ∷ m) j key server h n = ground (arith, append-free m j key server)

  -- The same entry behind both, up to its name.
  Frees-append :
      {m n : Entries OutlineServer} (k : String) (server : OutlineServer) (name : Option String)
      → Frees m n
      → Frees (m ++ (k, server) ∷ []) (n ++ (k, with_name name server) ∷ [])
  Frees-append {m} {n} k server name f = record {
    id_free = λ j h.
        let (rest, other) = get-append_none m k j server h in
        append_none-get n k j (with_name name server) (f.id_free j rest) other;
    key_free = λ key h.
        let (rest, other) = free-append m k key server h in
        append-free n k key (with_name name server) (f.key_free key rest)
          (unfold has_access_key in other);
  }

  Frees-skip :
      {m n : Entries OutlineServer} (k : String) (server : OutlineServer)
      → Frees m n
      → Frees (m ++ (k, server) ∷ []) n
  Frees-skip {m} {n} k server f = record {
    id_free = λ j h. f.id_free j (get-append_none m k j server h).0;
    key_free = λ key h. f.key_free key (free-append m k key server h).0;
  }

  Loads-weaken :
      (before before' m : Entries OutlineServer)
      → Frees before before'
      → Loads env before m
      → Loads env before' m
  Loads-weaken before before' [] f h = tt
  Loads-weaken before before' ((j, server) ∷ m) f (named, new, stable, fresh, later) = (
    named,
    f.id_free j new,
    stable,
    (λ st. f.key_free server.access_key (fresh st)),
    Loads-weaken (before ++ (j, server) ∷ []) (before' ++ (j, server) ∷ []) m
        (Frees-append j server server.name f) later,
  )

  Loads-remove :
      (before before' m : Entries OutlineServer) (k : String)
      → Frees before before'
      → Loads env before m
      → Loads env before' (Map.remove m k)
  unfolding Map.remove
  Loads-remove before before' [] k f h = tt
  Loads-remove before before' ((j, server) ∷ m) k f (named, new, stable, fresh, later) =
      let skipped =
        Loads-remove (before ++ (j, server) ∷ []) before' m k (Frees-skip j server f) later in
      let kept =
        Loads-remove (before ++ (j, server) ∷ []) (before' ++ (j, server) ∷ []) m k
          (Frees-append j server server.name f) later in
      elim (Bool-cases (str_eq j k)) [
        | inl same ↦ rw same skipped
        | inr other ↦
            rw other (
              named,
              f.id_free j new,
              stable,
              (λ st. f.key_free server.access_key (fresh st)),
              kept,
            )
      ]

  Loads-rename :
      (before before' m : Entries OutlineServer) (k : String) (server : OutlineServer)
      (name : Option String)
      → Frees before before'
      → Loads env before m
      → Map.get m k ≡ some server
      → Loads env before' (Map.set m k (with_name name server))
  unfolding Map.set Map.get
  Loads-rename before before' [] k server name f h found = cc
  Loads-rename before before' ((j, s) ∷ m) k server name f (named, new, stable, fresh, later)
        found =
      elim (Bool-cases (str_eq j k)) [
        | inl same ↦
            let e : s ≡ server = ground arith in
            let here : j ≡ k = (eq_iff j k).0 same in
            rw (same, ← e, ← here)
              (
                named,
                f.id_free j new,
                stable,
                (λ st. f.key_free s.access_key (fresh st)),
                Loads-weaken (before ++ (j, s) ∷ []) (before' ++ (j, with_name name s) ∷ []) m
                    (Frees-append j s name f) later,
              )
        | inr other ↦
            let kept =
              Loads-rename (before ++ (j, s) ∷ []) (before' ++ (j, s) ∷ []) m k server name
                (Frees-append j s s.name f) later (ground arith) in
            rw other
              (named, f.id_free j new, stable, (λ st. f.key_free s.access_key (fresh st)), kept)
      ]

  Loads-append :
      (before m : Entries OutlineServer) (k : String) (server : OutlineServer)
      → Loads env before m
      → server.id ≡ k
      → Map.get (before ++ m) k ≡ none
      → IsStable env server
      → IsFresh env (Map.values (before ++ m)) server
      → Loads env before (m ++ (k, server) ∷ [])
  Loads-append before [] k server h named new stable fresh =
      (named, rw (append-nil before) at new, stable, rw (append-nil before) at fresh, tt)
  Loads-append before ((j, s) ∷ m) k server (n, w, st, fr, later) named new stable fresh =
      let regroup = sym (append_assoc before ((j, s) ∷ []) m) in
      (
        n,
        w,
        st,
        fr,
        Loads-append (before ++ (j, s) ∷ []) m k server later named (rw regroup at new) stable
            (rw regroup at fresh),
      )

  Frees-refl : (m : Entries OutlineServer) → Frees m m
  Frees-refl m = record { id_free = λ k h. h; key_free = λ key h. h }

  -- A new server behind the others, under an id that none of them has.
  pub Loads-set_new :
      (m : Entries OutlineServer) (server : OutlineServer)
      → Loads env [] m
      → Map.get m server.id ≡ none
      → IsStable env server
      → IsFresh env (Map.values m) server
      → Loads env [] (Map.set m server.id server)
  Loads-set_new m server h new stable fresh =
      rw (set_new m server.id server new)
        (Loads-append [] m server.id server h refl new stable fresh)

  pub Loads-forget :
      (m : Entries OutlineServer) (k : String) → Loads env [] m → Loads env [] (Map.remove m k)
  Loads-forget m k h = Loads-remove [] [] m k (Frees-refl []) h

  pub Loads-rename' :
      (m : Entries OutlineServer) (k : String) (server : OutlineServer) (name : Option String)
      → Loads env [] m
      → Map.get m k ≡ some server
      → Loads env [] (Map.set m k (with_name name server))
  Loads-rename' m k server name h found = Loads-rename [] [] m k server name (Frees-refl []) h found
