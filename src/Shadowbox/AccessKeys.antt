-- ===== src/Shadowbox/AccessKeys.antt =====
-- The calls of server_manager/web_app/shadowbox_server.ts on access keys.
use Prim.Native.String.{◌++◌}
use pepper_vpn_client.Common.{ℕ, String, Option, none, some, List, [], ◌∷◌}
use pepper_vpn_client.Common.Map
use pepper_vpn_client.Shadowbox.{Request, no_body, name_form, limit_body}

-- The calls on access keys, which keep nothing.
pub data AccessKeyCall : Type 0 where
  get_access_key remove_access_key remove_access_key_data_limit : String → AccessKeyCall
  list_access_keys add_access_key get_data_usage : AccessKeyCall
  rename_access_key : String → String → AccessKeyCall
  set_access_key_data_limit : String → ℕ → AccessKeyCall

unfoldable pub access_key_request : AccessKeyCall → Request
access_key_request (get_access_key id) = record {
  path = "access-keys/" ++ id;
  method = "GET";
  body = no_body;
}
access_key_request list_access_keys = record {
  path = "access-keys";
  method = "GET";
  body = no_body;
}
access_key_request add_access_key = record { path = "access-keys"; method = "POST"; body = no_body }
access_key_request (rename_access_key id name) = record {
  path = ("access-keys/" ++ id) ++ "/name";
  method = "PUT";
  body = name_form name;
}
access_key_request (remove_access_key id) = record {
  path = "access-keys/" ++ id;
  method = "DELETE";
  body = no_body;
}
access_key_request (set_access_key_data_limit id limit) = record {
  path = ("access-keys/" ++ id) ++ "/data-limit";
  method = "PUT";
  body = limit_body limit;
}
access_key_request (remove_access_key_data_limit id) = record {
  path = ("access-keys/" ++ id) ++ "/data-limit";
  method = "DELETE";
  body = no_body;
}
access_key_request get_data_usage = record {
  path = "metrics/transfer";
  method = "GET";
  body = no_body;
}

-- the loop of `getDataUsage`
unfoldable pub usage_map : List (String × Option ℕ) → Map.Entries ℕ → Map.Entries ℕ
usage_map [] usage = usage
usage_map ((id, bytes) ∷ entries) usage =
    usage_map entries (Map.set usage id (elim bytes [ some n ↦ n | none ↦ 0 ]))
