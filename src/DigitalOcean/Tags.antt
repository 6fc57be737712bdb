-- ===== src/DigitalOcean/Tags.antt =====
-- The key-value tags of a droplet, and the address of the management API:
-- server_manager/web_app/digitalocean_server.ts.
use pepper_vpn_client.Common.{Bool, Option, none, some, List, [], ◌∷◌, ◌++◌, if◌then◌else◌}
use pepper_vpn_client.Common.Exec.{Result, ok, err}
use pepper_vpn_client.Common.Units.{
  Units, units, same_units, to_lower_case, take_length, drop_length, until, behind, find_tag,
  set_tag, ends_with,
}
use pepper_vpn_client.HexEncoding.{hex_to_string}

-- one of `networks.v4`
pub record Network : Type 0 where
  pub type : Units
  pub ip_address : Units

abbrev pub tag_prefix : Units
tag_prefix = units "kv:"

abbrev pub install_started_tag : Units
install_started_tag = units "install-started"

abbrev pub certificate_fingerprint_tag : Units
certificate_fingerprint_tag = units "certsha256"

abbrev pub api_url_tag : Units
api_url_tag = units "apiurl"

abbrev pub install_error_tag : Units
install_error_tag = units "install-error"

abbrev pub deprecated_api_port_tag : Units
deprecated_api_port_tag = units "apiport"

abbrev pub deprecated_api_prefix_tag : Units
deprecated_api_prefix_tag = units "apiprefix"

-- `startsWithCaseInsensitive`
unfoldable pub starts_with_case_insensitive : Units → Units → Bool
starts_with_case_insensitive text prefix =
    same_units (to_lower_case (take_length prefix text)) (to_lower_case prefix)

-- One round of the loop of `getTagMap`. With no `:` there is no value, and decoding throws, as it
-- does at a value of odd length; the `catch` skips the tag.
unfoldable pub add_tag : List (Units × Units) → Units → List (Units × Units)
unfolding starts_with_case_insensitive
add_tag m tag =
    let pair = drop_length tag_prefix tag in
    let added : List (Units × Units) = elim (behind b':' pair) [
      | none ↦ m
      | some rest ↦ elim (hex_to_string (until b':' rest)) [
        | ok value ↦ set_tag m (to_lower_case (until b':' pair)) value
        | err _ ↦ m
      ]
    ] in
    if starts_with_case_insensitive tag tag_prefix then added else m

unfoldable pub add_tags : List (Units × Units) → List Units → List (Units × Units)
unfolding add_tag
add_tags m [] = m
add_tags m (tag ∷ tags) = add_tags (add_tag m tag) tags

unfoldable pub get_tag_map : List Units → List (Units × Units)
unfolding add_tags
get_tag_map tags = add_tags [] tags

unfoldable pub ipv4_address : List Network → Option Units
ipv4_address [] = none
ipv4_address (network ∷ networks) =
    if same_units network.type (units "public")
    then some network.ip_address
    else ipv4_address networks

-- an optional text, `none` if it counts as false
abbrev pub nonempty : Option Units → Option Units
nonempty none = none
nonempty (some []) = none
nonempty (some (c ∷ s)) = some (c ∷ s)

-- the address from the old tags
unfoldable pub deprecated_address : List (Units × Units) → List Network → Result (Unit {0}) Units
deprecated_address tags networks = elim (nonempty (find_tag tags deprecated_api_port_tag)) [
  | none ↦ err tt
  | some port ↦ elim (nonempty (ipv4_address networks)) [
    | none ↦ err tt
    | some address ↦
        let base = units "https://" ++ address ++ units ":" ++ port ++ units "/" in
        elim (nonempty (find_tag tags deprecated_api_prefix_tag)) [
          | none ↦ ok base
          | some prefix ↦ ok (base ++ prefix ++ units "/")
        ]
  ]
]

-- `if (!apiAddress.endsWith('/')) apiAddress += '/'`
unfoldable pub with_slash : Units → Units
with_slash address = if ends_with b'/' address then address else address ++ units "/"

-- `getManagementApiAddress`
unfoldable pub get_management_api_address : List Units → List Network → Result (Unit {0}) Units
unfolding deprecated_address get_tag_map ipv4_address
get_management_api_address tags networks =
    let found : Result (Unit {0}) Units =
      elim (nonempty (find_tag (get_tag_map tags) api_url_tag)) [
        | some address ↦ ok address
        | none ↦ deprecated_address (get_tag_map tags) networks
      ] in
    elim found [ err e ↦ err e | ok address ↦ ok (with_slash address) ]

-- `getCertificateFingerprint`
unfoldable pub get_certificate_fingerprint : List Units → Result (Unit {0}) Units
unfolding get_tag_map
get_certificate_fingerprint tags =
    elim (nonempty (find_tag (get_tag_map tags) certificate_fingerprint_tag)) [
      | some fingerprint ↦ ok fingerprint
      | none ↦ err tt
    ]
