-- ===== src/AccessKey/Fetch/Tests.antt =====
-- Runs of `fetchSessionConfig`.
use pepper_vpn_client.Common.{
  Option, ℕ, String, none, some, [], ◌∷◌, ◌≡◌, ◌↔◌, refl, if◌then◌else◌, str_eq,
}
use pepper_vpn_client.Common.Exec.{ok, err}
use pepper_vpn_client.Common.Text.{starts_with, trim}
use pepper_vpn_client.Errors.{session_config_error}
use pepper_vpn_client.AccessKey.{shadowsocks, xray, Url}
use pepper_vpn_client.AccessKey.Fetch.{
  ResponseJson, object, FetchEnvironment, parse_response, fetch_session_config,
}
use pepper_vpn_client.AccessKey.Fetch.Outcome.{parse_response_shadowsocks_iff}

abbrev location : Url
location = record { hostname = "h"; port = ""; protocol = "https:"; hash = "" }

abbrev shadowsocks_response : ResponseJson
shadowsocks_response = record {
  error = none;
  method = some (some "aes-256-gcm");
  password = some (some "p");
  server = some (some "h");
  server_port = some (some 443);
  prefix = none;
  outbounds = none;
  inbounds = none;
}

abbrev xray_response : ResponseJson
xray_response = record {
  error = none;
  method = none;
  password = none;
  server = none;
  server_port = none;
  prefix = none;
  outbounds = some (
      record { settings = some (record { vnext = some (record { address = some "v" } ∷ []) }) }
      ∷ []);
  inbounds = some (record { host = none; port = some 1 } ∷ []);
}

-- The answer " E " reports an error.
abbrev env : FetchEnvironment
env = record {
  parsers = record {
    parse_shadowsocks = λ _. err "no key";
    parse_url = λ _. ok location;
    decode_uri_component = λ s. ok s;
  };
  to_string = λ _. "https://h";
  append_search_param = λ name value url. url;
  fetch = λ url agent. ok (ok " E ");
  parse_json = λ text.
      if str_eq text "E"
      then ok (object (record shadowsocks_response { error = some (some (some "gone")) }))
      else err "no JSON";
  stringify = λ r. elim r.inbounds [
    | some (inbound ∷ _) ↦ elim inbound.port [ some p ↦ "with a port" | none ↦ "without" ]
    | _ ↦ "without"
  ];
  app_version = "1";
  platform = "linux";
  version = "2";
}

reports : fetch_session_config env location ≡ err (session_config_error (some "gone"))
unfolding fetch_session_config starts_with trim
reports = refl

parse_response_shadowsocks_iff_example :
    (parse_response env (object shadowsocks_response)
      ≡ ok (
          shadowsocks (record {
            host = some "h";
            port = some 443;
            password = some "p";
            method = some "aes-256-gcm";
            prefix = none;
          })))
    ↔ ((password : Option String) × (server : Option String) × (port : Option ℕ) × (some (some "p")
          ≡ some password)
        × (some (some "h") ≡ some server)
        × (some (some 443) ≡ some port)
        × (shadowsocks (record {
          host = some "h";
          port = some 443;
          password = some "p";
          method = some "aes-256-gcm";
          prefix = none;
        })
            ≡ shadowsocks (record {
              host = server;
              port = port;
              password = password;
              method = some "aes-256-gcm";
              prefix = none;
            })))
parse_response_shadowsocks_iff_example =
    parse_response_shadowsocks_iff env shadowsocks_response (some "aes-256-gcm")
      (shadowsocks (record {
        host = some "h";
        port = some 443;
        password = some "p";
        method = some "aes-256-gcm";
        prefix = none;
      }))
      refl refl

-- a field that is `null` is not missing
null_is_there :
    parse_response env (object (record shadowsocks_response { password = some none }))
    ≡ ok (
        shadowsocks (record {
          host = some "h";
          port = some 443;
          password = none;
          method = some "aes-256-gcm";
          prefix = none;
        }))
unfolding parse_response
null_is_there = refl

test_xray :
    parse_response env (object xray_response)
    ≡ ok (xray (record { xray_config = "with a port"; host = some "v" }))
unfolding parse_response
test_xray = refl
