-- ===== src/AccessKey/Fetch/Outcome.antt =====
-- What fetching a session configuration can give: `fetchSessionConfig` of
-- src/www/app/outline_server_repository/access_key_serialization.ts.
use pepper_vpn_client.AccessKey.Fetch.{
  value_of, ResponseJson, object, FetchEnvironment, missing_keys,
  parse_shadowsocks_session_config_json, parse_response, rethrow, parse_body, user_agent,
  fetch_session_config,
}
use pepper_vpn_client.Common.{
  ℕ, String, Option, none, some, ◌≡◌, ◌↔◌, ◌⊎◌, inl, inr, arith, Option-cases,
}
use pepper_vpn_client.Common.Exec.{Result, ok, err}
use pepper_vpn_client.Common.Text.{trim, replace_text}
use pepper_vpn_client.Errors.{Thrown, server_access_key_invalid, session_config_error}
use pepper_vpn_client.AccessKey.{SessionConfig, shadowsocks, Url}

module _ (env : FetchEnvironment) where
  open env use {parsers, to_string, append_search_param, fetch, parse_json, stringify}

  rethrow_errors :
      (r : Result Thrown SessionConfig) (e : Thrown)
      → rethrow env r ≡ err e
      → (e ≡ server_access_key_invalid)
        ⊎ ((message : Option String) × (e ≡ session_config_error message))
  unfolding rethrow
  rethrow_errors r e h = ground arith

  -- Once the location has been parsed and the answer has been read, fetching fails in two ways
  -- alone, whatever the text is: the key is invalid, or the answer itself reports an error.
  pub fetch_session_config_errors :
      (location url : Url) (text : String) (e : Thrown)
      → parsers.parse_url (replace_text "^xray:" "https:" (to_string location)) ≡ ok url
      → fetch (append_search_param "type" "1" url) (user_agent env) ≡ ok (ok text)
      → fetch_session_config env location ≡ err e
      → (e ≡ server_access_key_invalid)
        ⊎ ((message : Option String) × (e ≡ session_config_error message))
  unfolding fetch_session_config
  fetch_session_config_errors location url text e parsed answered failed =
      let body_failed : parse_body env (trim text) ≡ err e = ground arith in
      rethrow_errors _ e (unfold parse_body in body_failed)

  -- An answer without an error and with a method is a Shadowsocks configuration exactly if it has a
  -- password, a server and a port, each of which may be `null`, as the method may; the configuration
  -- has its fields.
  pub parse_response_shadowsocks_iff :
      (r : ResponseJson) (method : Option String) (config : SessionConfig)
      → r.error ≡ none
      → r.method ≡ some method
      → (parse_response env (object r) ≡ ok config) ↔ (
          (password : Option String) × (server : Option String) × (port : Option ℕ) × (r.password
            ≡ some password)
          × (r.server ≡ some server)
          × (r.server_port ≡ some port)
          × (config
              ≡ shadowsocks (record {
                host = server;
                port = port;
                password = password;
                method = method;
                prefix = value_of r.prefix;
              })))
  unfolding parse_response parse_shadowsocks_session_config_json missing_keys
  parse_response_shadowsocks_iff r method config fine has_method = (
    λ h. elim (Option-cases r.password) [
      | inl no_password ↦ absurd (ground arith)
      | inr (password, p) ↦ elim (Option-cases r.server) [
        | inl no_server ↦ absurd (ground arith)
        | inr (server, s) ↦ elim (Option-cases r.server_port) [
          | inl no_port ↦ absurd (ground arith)
          | inr (port, t) ↦ (password, server, port, p, s, t, ground arith)
        ]
      ]
    ],
    λ (password, server, port, p, s, t, same). ground arith,
  )
