-- ===== src/App/AccessKeys.antt =====
-- Access keys and invitations in src/www/app/app.ts.
use pepper_vpn_client.Common.{String, Bool, false, Option, none, some, ◌||◌, if◌then◌else◌, str_eq}
use pepper_vpn_client.Common.Exec.{ok, err}
use pepper_vpn_client.Common.Text.{starts_with, strip_prefix, is_truthy}
use pepper_vpn_client.AccessKey.{Parsers}

-- `text.substring(text.indexOf(pattern))`, if the pattern occurs
unfoldable pub from_first : String → String → Option String
from_first pattern String.[] = elim (strip_prefix pattern "") [ some _ ↦ some "" | none ↦ none ]
from_first pattern (String.◌∷◌ c s) =
    let later = from_first pattern s in
    elim (strip_prefix pattern (String.◌∷◌ c s)) [ some _ ↦ some (String.◌∷◌ c s) | none ↦ later ]

-- An index of -1 counts as 0.
abbrev pub substring_from : String → String → String
substring_from pattern text = elim (from_first pattern text) [ some rest ↦ rest | none ↦ text ]

-- `unwrapInvite`
unfoldable pub unwrap_invite : Parsers → String → String
unfolding from_first
unwrap_invite parsers text = elim (parsers.parse_url text) [
  | err _ ↦ text
  | ok url ↦
      if is_truthy (some url.hash)
      then (elim (parsers.decode_uri_component url.hash) [
        | err _ ↦ text
        | ok fragment ↦
            let key = substring_from "ss://" fragment in
            elim (parsers.parse_url key) [
              | err _ ↦ text
              | ok inner ↦ if str_eq inner.protocol "ss:" then key else text
            ]
      ])
      else text
]

-- `isOutlineAccessKey`
unfoldable pub is_outline_access_key : String → Bool
is_outline_access_key url =
    if is_truthy (some url) then starts_with url "ss://" || starts_with url "ssconf://" else false
