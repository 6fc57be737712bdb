-- ===== src/Shadowbox/Remote.antt =====
-- The server of server_manager/web_app/shadowbox_server.ts behind its management API, with the requests
-- that it has not answered and the answers that have not arrived. The server is no part of the
-- repository: what it does on a request is a parameter, `serve`.
use pepper_vpn_client.Common.{
  ℕ, zero, suc, String, Bool, Option, none, some, List, [], ◌∷◌, ◌++◌, ◌≡◌,
}
use pepper_vpn_client.Common.Exec.{Result, ok, err}
use pepper_vpn_client.PathApi.{ApiError}
use pepper_vpn_client.Shadowbox.{
  ServerConfig, ShadowboxServer, Change, Request, no_body, name_body, hostname_body, limit_body,
  port_body, metrics_body, setter_begins, setter_ends, config_arrives, config_fails, time_is_over,
  health_event,
}

-- The documented requests of the management API, each by its method, path and body, and what the
-- server's configuration is after it. The limit has an older path and a newer one.
pub record IsDocumented (serve : Request → ServerConfig → ServerConfig) : Type 0 where
  pub put_name :
      (name : String) (c : ServerConfig)
      → serve (record { path = "name"; method = "PUT"; body = name_body name }) c
        ≡ record c { name = name }
  pub put_metrics :
      (on : Bool) (c : ServerConfig)
      → serve (record { path = "metrics/enabled"; method = "PUT"; body = metrics_body on }) c
        ≡ record c { metrics_enabled = on }
  pub put_port :
      (port : ℕ) (c : ServerConfig)
      → serve
          (record {
            path = "server/port-for-new-access-keys";
            method = "PUT";
            body = port_body port;
          })
          c
        ≡ record c { port_for_new_access_keys = some port }
  pub put_hostname :
      (hostname : String) (c : ServerConfig)
      → serve
          (record {
            path = "server/hostname-for-access-keys";
            method = "PUT";
            body = hostname_body hostname;
          })
          c
        ≡ record c { hostname_for_access_keys = some hostname }
  pub put_limit :
      (limit : ℕ) (c : ServerConfig)
      → serve
          (record {
            path = "server/access-key-data-limit";
            method = "PUT";
            body = limit_body limit;
          })
          c
        ≡ record c { access_key_data_limit = some limit }
  pub put_old_limit :
      (limit : ℕ) (c : ServerConfig)
      → serve
          (record {
            path = "experimental/access-key-data-limit";
            method = "PUT";
            body = limit_body limit;
          })
          c
        ≡ record c { access_key_data_limit = some limit }
  pub delete_limit :
      (c : ServerConfig)
      → serve
          (record { path = "server/access-key-data-limit"; method = "DELETE"; body = no_body })
          c
        ≡ record c { access_key_data_limit = none }
  pub delete_old_limit :
      (c : ServerConfig)
      → serve
          (record {
            path = "experimental/access-key-data-limit";
            method = "DELETE";
            body = no_body;
          })
          c
        ≡ record c { access_key_data_limit = none }

-- An answer on its way: to a setter, or to the question for the configuration, with what the
-- configuration was when the server answered.
pub data Answer : Type 0 where
  answer : Change → Result ApiError (Unit {0}) → Answer
  config : ServerConfig → Answer

pub record World : Type 0 where
  pub object : ShadowboxServer
  pub remote : ServerConfig
  -- the setters that wait, with the requests that they have sent
  pub pending : List (Change × Request)
  -- the answers that have not arrived, the oldest first
  pub answers : List Answer

pub data Event : Type 0 where
  -- a setter is called
  asks : Change → Event
  -- the server accepts or refuses one of the requests
  serves : ℕ → Result ApiError (Unit {0}) → Event
  tells_config : Event
  -- the oldest answer arrives
  arrives : Event
  -- a question for the configuration fails, or takes too long
  config_is_lost times_out : Event

unfoldable pub deliver : Answer → ShadowboxServer → ShadowboxServer
deliver (answer change result) s = (setter_ends change result s).0
deliver (config c) s = (health_event (config_arrives c) (s, none)).0

unfoldable pub deliver_all : List Answer → ShadowboxServer → ShadowboxServer
deliver_all [] s = s
deliver_all (a ∷ more) s = deliver_all more (deliver a s)

-- The request that a setter has just sent.
abbrev pub just_sent : Change → List Request → List (Change × Request)
just_sent change [] = []
just_sent change (r ∷ _) = (change, r) ∷ []

-- One element of a list, and the others.
unfoldable pub pick {ℓ} : {A : Type ℓ} → ℕ → List A → Option (A × List A)
pick k [] = none
pick zero (x ∷ xs) = some (x, xs)
pick (suc k) (x ∷ xs) = elim (pick k xs) [ none ↦ none | some (y, ys) ↦ some (y, x ∷ ys) ]

module _ (gte : String → String → Bool) (serve : Request → ServerConfig → ServerConfig) where
  -- The server answers a request that it has accepted or refused.
  unfoldable pub served :
      Result ApiError (Unit {0}) → Change → Request → List (Change × Request) → World → World
  served (ok done) change r others w = record w {
    remote = serve r w.remote;
    pending = others;
    answers = w.answers ++ answer change (ok done) ∷ [];
  }
  served (err e) change r others w = record w {
    pending = others;
    answers = w.answers ++ answer change (err e) ∷ [];
  }

  unfoldable pub happens : Event → World → World
  unfolding served
  happens (asks change) w =
      let (s, outcome) = setter_begins gte change w.object in
      elim outcome [
        | ok _ ↦ record w { object = s; pending = w.pending ++ just_sent change s.requests }
        | err _ ↦ record w { object = s }
      ]
  happens (serves k result) w = elim (pick k w.pending) [
    | none ↦ w
    | some ((change, r), others) ↦ served result change r others w
  ]
  happens tells_config w = record w { answers = w.answers ++ config w.remote ∷ [] }
  happens arrives w = elim w.answers [
    | [] ↦ w
    | a ∷ more ↦ record w { object = deliver a w.object; answers = more }
  ]
  happens config_is_lost w = record w { object = (health_event config_fails (w.object, none)).0 }
  happens times_out w = record w { object = (health_event time_is_over (w.object, none)).0 }

  unfoldable pub all_happen : List Event → World → World
  unfolding happens
  all_happen [] w = w
  all_happen (e ∷ es) w = all_happen es (happens e w)
