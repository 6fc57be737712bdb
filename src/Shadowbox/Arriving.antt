-- ===== src/Shadowbox/Arriving.antt =====
-- The configuration that server_manager/web_app/shadowbox_server.ts keeps, when the answers to its requests
-- arrive.
use pepper_vpn_client.Common.{
  zero, suc, ℕ, none, some, List, [], ◌∷◌, ◌++◌, ◌≡◌, refl, ap, arith, All, inl, inr, Option-cases,
}
use pepper_vpn_client.Common.Exec.{ok, err}
use pepper_vpn_client.Shadowbox.{
  ServerConfig, ShadowboxServer, Change, name_to, hostname_to, metrics_to, port_to, limit_to,
  no_limit, setter_ends, write_config, apply_change, health_event,
}
use pepper_vpn_client.Shadowbox.Remote.{Answer, answer, config, deliver, deliver_all, pick}

-- a configuration without its host name
abbrev pub but_hostname : ServerConfig → ServerConfig
but_hostname c = record c { hostname_for_access_keys = none }

-- The object holds a configuration that is another one, up to the host name.
abbrev pub Holds : ShadowboxServer → ServerConfig → Type 0
Holds s c = (d : ServerConfig) × (s.server_config ≡ some d) × (but_hostname d ≡ but_hostname c)

pub pick-All :
    {A : Type 0} (P : A → Type 0) (k : ℕ) (xs : List A) (y : A) (ys : List A)
    → pick k xs ≡ some (y, ys)
    → All P xs
    → P y × All P ys
unfolding pick
pick-All P k [] y ys e h = cc
pick-All P zero (x ∷ xs) y ys e (p, h) = (ground (arith, p), ground (arith, h))
pick-All P (suc k) (x ∷ xs) y ys e (p, h) = elim (Option-cases (pick k xs)) [
  | inl none_there ↦ absurd (ground arith)
  | inr ((z, zs), found) ↦
      let (q, all) = pick-All P k xs z zs found h in (ground (arith, q), ground (arith, p, all))
]

pub apply-but_hostname :
    (change : Change) (c d : ServerConfig)
    → but_hostname d ≡ but_hostname c
    → but_hostname (apply_change change d) ≡ but_hostname (apply_change change c)
unfolding apply_change
apply-but_hostname (name_to name) c d same =
    ap (λ (x : ServerConfig). record x { name = name }) same
apply-but_hostname (hostname_to hostname) c d same = same
apply-but_hostname (metrics_to on) c d same =
    ap (λ (x : ServerConfig). record x { metrics_enabled = on }) same
apply-but_hostname (port_to port) c d same =
    ap (λ (x : ServerConfig). record x { port_for_new_access_keys = some port }) same
apply-but_hostname (limit_to limit) c d same =
    ap (λ (x : ServerConfig). record x { access_key_data_limit = some limit }) same
apply-but_hostname no_limit c d same =
    ap (λ (x : ServerConfig). record x { access_key_data_limit = none }) same

-- What is left of a configuration when an answer has arrived.
unfoldable pub after : Answer → ServerConfig → ServerConfig
after (answer change (ok _)) c = apply_change change c
after (answer change (err _)) c = c
after (config now) c = now

unfoldable pub after_all : List Answer → ServerConfig → ServerConfig
unfolding after
after_all [] c = c
after_all (a ∷ more) c = after_all more (after a c)

pub after_all-append :
    (xs : List Answer) (a : Answer) (c : ServerConfig)
    → after_all (xs ++ a ∷ []) c ≡ after a (after_all xs c)
unfolding after_all
after_all-append [] a c = refl
after_all-append (x ∷ xs) a c = after_all-append xs a (after x c)

after-but_hostname :
    (a : Answer) (c d : ServerConfig)
    → but_hostname d ≡ but_hostname c
    → but_hostname (after a d) ≡ but_hostname (after a c)
unfolding after
after-but_hostname (answer change (ok _)) c d same = apply-but_hostname change c d same
after-but_hostname (answer change (err _)) c d same = same
after-but_hostname (config now) c d same = refl

pub after_all-but_hostname :
    (xs : List Answer) (c d : ServerConfig)
    → but_hostname d ≡ but_hostname c
    → but_hostname (after_all xs d) ≡ but_hostname (after_all xs c)
unfolding after_all
after_all-but_hostname [] c d same = same
after_all-but_hostname (x ∷ xs) c d same =
    after_all-but_hostname xs (after x c) (after x d) (after-but_hostname x c d same)

pub deliver-after :
    (a : Answer) (s : ShadowboxServer) (d : ServerConfig)
    → s.server_config ≡ some d
    → (deliver a s).server_config ≡ some (after a d)
unfolding deliver after setter_ends write_config health_event
deliver-after (answer change (ok _)) s d there = ground arith
deliver-after (answer change (err _)) s d there = there
deliver-after (config now) s d there = refl

pub deliver_all-after :
    (xs : List Answer) (s : ShadowboxServer) (d : ServerConfig)
    → s.server_config ≡ some d
    → (deliver_all xs s).server_config ≡ some (after_all xs d)
unfolding deliver_all after_all
deliver_all-after [] s d there = there
deliver_all-after (x ∷ xs) s d there =
    deliver_all-after xs (deliver x s) (after x d) (deliver-after x s d there)
