-- ===== src/Shadowbox/Replaying.antt =====
-- The configuration that server_manager/web_app/shadowbox_server.ts keeps, against the one of its server.
use pepper_vpn_client.Common.{
  String, Bool, Option, some, List, [], ◌∷◌, ◌≡◌, refl, arith, All, All-append, inl, inr,
  Bool-cases, Option-cases, ◌∙◌,
}
use pepper_vpn_client.Common.Exec.{Result, ok, err, Result-cases}
use pepper_vpn_client.PathApi.{ApiError}
use pepper_vpn_client.Shadowbox.{
  ServerConfig, ShadowboxServer, Change, Request, name_to, hostname_to, metrics_to, port_to,
  limit_to, no_limit, failed, setter_begins, setter_ends, write_config, apply_change, request_of,
  default_data_limit_path, health_event, get_hostname_for_access_keys,
}
use pepper_vpn_client.Shadowbox.Remote.{
  IsDocumented, Answer, answer, config, World, Event, asks, serves, tells_config, arrives,
  config_is_lost, times_out, deliver, deliver_all, pick, served, happens, all_happen,
}
use pepper_vpn_client.Shadowbox.Arriving.{
  but_hostname, Holds, pick-All, apply-but_hostname, after, after_all, after_all-append,
  after_all-but_hostname, deliver-after, deliver_all-after,
}

module _ (gte : String → String → Bool) where
  -- A setter changes at most the host name before its answer.
  begins-Holds :
      (change : Change) (s : ShadowboxServer) (c : ServerConfig)
      → Holds s c
      → Holds (setter_begins gte change s).0 c
  unfolding setter_begins write_config apply_change
  begins-Holds (name_to name) s c (d, there, same) = (d, ground arith, same)
  begins-Holds (hostname_to hostname) s c (d, there, same) =
      (record d { hostname_for_access_keys = some hostname }, ground arith, same)
  begins-Holds (metrics_to on) s c (d, there, same) = (d, ground arith, same)
  begins-Holds (port_to port) s c (d, there, same) = (d, ground arith, same)
  begins-Holds (limit_to limit) s c (d, there, same) = (d, ground arith, same)
  begins-Holds no_limit s c (d, there, same) = (d, ground arith, same)

  -- A setter that waits has sent the request of its change.
  begins-sends :
      (change : Change) (s : ShadowboxServer) (d : ServerConfig)
      → s.server_config ≡ some d
      → (setter_begins gte change s).1 ≡ ok tt
      → (version : String) × ((setter_begins gte change s).0.requests
          ≡ request_of gte version change ∷ s.requests)
  unfolding setter_begins write_config
  begins-sends (name_to name) s d there sent = ("", ground arith)
  begins-sends (hostname_to hostname) s d there sent = ("", ground arith)
  begins-sends (metrics_to on) s d there sent = ("", ground arith)
  begins-sends (port_to port) s d there sent = ("", ground arith)
  begins-sends (limit_to limit) s d there sent = (d.version, ground arith)
  begins-sends no_limit s d there sent = (d.version, ground arith)

  module _ (serve : Request → ServerConfig → ServerConfig) (documented : IsDocumented serve) where
    -- The server does by a request what the object writes when it is accepted.
    abbrev IsAnsweredBy : Change × Request → Type 0
    IsAnsweredBy (change, r) = (c : ServerConfig) → serve r c ≡ apply_change change c

    request-IsAnsweredBy :
        (change : Change) (version : String) → IsAnsweredBy (change, request_of gte version change)
    unfolding request_of apply_change default_data_limit_path
    request-IsAnsweredBy (name_to name) version c = documented.put_name name c
    request-IsAnsweredBy (hostname_to hostname) version c = documented.put_hostname hostname c
    request-IsAnsweredBy (metrics_to on) version c = documented.put_metrics on c
    request-IsAnsweredBy (port_to port) version c = documented.put_port port c
    request-IsAnsweredBy (limit_to limit) version c = elim (Bool-cases (gte version "1.4.0")) [
      | inl newer ↦ rw (newer, request_of, default_data_limit_path) (documented.put_limit limit c)
      | inr older ↦
          rw (older, request_of, default_data_limit_path) (documented.put_old_limit limit c)
    ]
    request-IsAnsweredBy no_limit version c = elim (Bool-cases (gte version "1.4.0")) [
      | inl newer ↦ rw (newer, request_of, default_data_limit_path) (documented.delete_limit c)
      | inr older ↦ rw (older, request_of, default_data_limit_path) (documented.delete_old_limit c)
    ]

    -- When the answers under way have arrived, the object has the server's configuration, up to the
    -- host name.
    record Agrees (w : World) : Type 0 where
      held : ServerConfig
      there : w.object.server_config ≡ some held
      same : but_hostname (after_all w.answers held) ≡ but_hostname w.remote
      sent : All IsAnsweredBy w.pending

    asks-Agrees :
        (change : Change) (w : World) → Agrees w → Agrees (happens gte serve (asks change) w)
    unfolding happens
    asks-Agrees change w h =
        let (d, there, same) = begins-Holds change w.object h.held (h.held, h.there, refl) in
        let holds = after_all-but_hostname w.answers h.held d same ∙ h.same in
        elim (Result-cases (setter_begins gte change w.object).1) [
          | inr (e, fails) ↦
              rw (fails, happens) (record { held = d; there = there; same = holds; sent = h.sent })
          | inl (done, sends) ↦
              let (version, requests) = begins-sends change w.object h.held h.there sends in
              rw (sends, happens)
                (record {
                  held = d;
                  there = there;
                  same = holds;
                  sent =
                      All-append IsAnsweredBy w.pending _ h.sent
                        (rw requests (request-IsAnsweredBy change version, tt));
                })
        ]

    served-Agrees :
        (result : Result ApiError (Unit {0})) (change : Change) (r : Request)
        (others : List (Change × Request)) (w : World)
        → IsAnsweredBy (change, r)
        → All IsAnsweredBy others
        → Agrees w
        → Agrees (served gte serve result change r others w)
    unfolding served after
    served-Agrees (err e) change r others w does all h = record {
      held = h.held;
      there = h.there;
      same = rw (after_all-append w.answers (answer change (err e)) h.held) h.same;
      sent = all;
    }
    served-Agrees (ok done) change r others w does all h = record {
      held = h.held;
      there = h.there;
      same =
          rw (after_all-append w.answers (answer change (ok done)) h.held, does w.remote)
            (apply-but_hostname change w.remote (after_all w.answers h.held) h.same);
      sent = all;
    }

    arrives-Agrees :
        (s : ShadowboxServer) (c : ServerConfig) (pending : List (Change × Request))
        (answers : List Answer)
        → Agrees (record { object = s; remote = c; pending = pending; answers = answers })
        → Agrees (
            happens gte serve arrives
              (record { object = s; remote = c; pending = pending; answers = answers }))
    unfolding happens after_all
    arrives-Agrees s c pending [] h = h
    arrives-Agrees s c pending (a ∷ more) h = record {
      held = after a h.held;
      there = deliver-after a s h.held h.there;
      same = h.same;
      sent = h.sent;
    }

    happens-Agrees : (e : Event) (w : World) → Agrees w → Agrees (happens gte serve e w)
    unfolding happens after after_all health_event
    happens-Agrees (asks change) w h = asks-Agrees change w h
    happens-Agrees (serves k result) w h = elim (Option-cases (pick k w.pending)) [
      | inl nothing ↦ rw (nothing, happens) h
      | inr (((change, r), others), found) ↦
          let (does, all) = pick-All IsAnsweredBy k w.pending (change, r) others found h.sent in
          rw (found, happens) (served-Agrees result change r others w does all h)
    ]
    happens-Agrees tells_config w h = record {
      held = h.held;
      there = h.there;
      same = rw (after_all-append w.answers (config w.remote) h.held) refl;
      sent = h.sent;
    }
    happens-Agrees arrives w h = arrives-Agrees w.object w.remote w.pending w.answers h
    happens-Agrees config_is_lost w h = h
    happens-Agrees times_out w h = h

    all-Agrees : (es : List Event) (w : World) → Agrees w → Agrees (all_happen gte serve es w)
    unfolding all_happen
    all-Agrees [] w h = h
    all-Agrees (e ∷ es) w h = all-Agrees es (happens gte serve e w) (happens-Agrees e w h)

    -- Whatever setters are called, in whatever order the server handles their requests, accepting or
    -- refusing each, and whatever `isHealthy` meets: if the answers arrive in the order in which the
    -- server gave them, and a refused request has changed nothing there, then the configuration that
    -- the object keeps when the answers under way have arrived is the server's own, in all but the
    -- host name. It starts as that, and the server does by each request what is documented.
    pub config_replays :
        (es : List Event) (s : ShadowboxServer) (c : ServerConfig)
        → s.server_config ≡ some c
        → let w =
            all_happen gte serve es
              (record { object = s; remote = c; pending = []; answers = [] }) in
          Holds (deliver_all w.answers w.object) w.remote
    unfolding after_all
    config_replays es s c there =
        let first : Agrees (record { object = s; remote = c; pending = []; answers = [] }) =
          record { held = c; there = there; same = refl; sent = tt } in
        let h = all-Agrees es _ first in (_, deliver_all-after _ _ h.held h.there, h.same)

  -- A host name that the server has refused is kept, and shown, although the call rejects; the server
  -- itself keeps its old one.
  pub refused_hostname_kept :
      (serve : Request → ServerConfig → ServerConfig) (hostname_of : String → Option String)
      (hostname base : String) (e : ApiError) (s : ShadowboxServer) (c : ServerConfig)
      → s.server_config ≡ some c
      → s.base ≡ some base
      → let w =
          all_happen gte serve
            (asks (hostname_to hostname) ∷ serves 0 (err e) ∷ arrives ∷ [])
            (record { object = s; remote = c; pending = []; answers = [] }) in
        ((setter_ends
            (hostname_to hostname)
            (err e)
            (setter_begins gte (hostname_to hostname) s).0).1
          ≡ err (failed e))
        × (get_hostname_for_access_keys hostname_of w.object ≡ hostname)
        × (w.remote ≡ c)
  unfolding setter_begins setter_ends write_config apply_change happens deliver all_happen pick
      served get_hostname_for_access_keys
  refused_hostname_kept serve hostname_of hostname base e s c there has_api = ground arith
