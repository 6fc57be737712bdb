-- ===== src/Server/Location.antt =====
-- What the constructor of src/www/app/outline_server_repository/server.ts makes of a dynamic key.
use Prim.Native.String.{◌++◌}
use text.Mathlib.TextLemmas.{cons-append}
use pepper_vpn_client.Common.{String, true, none, some, ◌≡◌, ◌∙◌, inl, inr, arith, Option-cases}
use pepper_vpn_client.Common.Text.{
  strip_prefix, strip_prefix-append, strip_prefix_sound, starts_with,
}
use pepper_vpn_client.AccessKey.{replace_prefix, is_dynamic_access_key}
use pepper_vpn_client.Server.{fetch_location}

-- A text of the scheme "https" has no other scheme.
strip_ssconf : (rest : String) → strip_prefix "ssconf://" ("https://" ++ rest) ≡ none
unfolding strip_prefix
strip_ssconf rest = rw cons-append

strip_xray : (rest : String) → strip_prefix "xray://" ("https://" ++ rest) ≡ none
unfolding strip_prefix
strip_xray rest = rw cons-append

replace_none : (p by text : String) → strip_prefix p text ≡ none → replace_prefix p by text ≡ text
unfolding replace_prefix
replace_none p by text h = rw (h, replace_prefix)

replace_some :
    (p by text rest : String)
    → strip_prefix p text ≡ some rest
    → replace_prefix p by text ≡ by ++ rest
unfolding replace_prefix
replace_some p by text rest h = rw (h, replace_prefix)

-- The stored form of a key is stored as it is.
pub fetch_location-https :
    (rest : String) → fetch_location ("https://" ++ rest) ≡ "https://" ++ rest
unfolding fetch_location
fetch_location-https rest =
    rw (replace_none "ssconf://" "https://" ("https://" ++ rest) (strip_ssconf rest))
      (replace_none "xray://" "https://" ("https://" ++ rest) (strip_xray rest))

pub dynamic-https : (rest : String) → is_dynamic_access_key ("https://" ++ rest) ≡ true
unfolding is_dynamic_access_key starts_with
dynamic-https rest = simp strip_prefix-append (ground arith)

-- A dynamic key is stored with the scheme "https".
pub https_of_dynamic :
    (key : String)
    → is_dynamic_access_key key ≡ true
    → (rest : String) × (fetch_location key ≡ "https://" ++ rest)
https_of_dynamic key h = elim (Option-cases (strip_prefix "ssconf://" key)) [
  | inr (rest, ssconf) ↦ (
    rest,
    unfold fetch_location in
        rw (replace_some "ssconf://" "https://" key rest ssconf)
          (replace_none "xray://" "https://" ("https://" ++ rest) (strip_xray rest)),
  )
  | inl other ↦ elim (Option-cases (strip_prefix "xray://" key)) [
    | inr (rest, xray) ↦ (
      rest,
      unfold fetch_location in
          rw (replace_none "ssconf://" "https://" key other)
            (replace_some "xray://" "https://" key rest xray),
    )
    | inl neither ↦ elim (Option-cases (strip_prefix "https://" key)) [
      | inr (rest, https) ↦ (
        rest,
        unfold fetch_location in
            rw (replace_none "ssconf://" "https://" key other) (
              replace_none "xray://" "https://" key neither
              ∙ strip_prefix_sound "https://" key rest https),
      )
      | inl static ↦ absurd (unfold is_dynamic_access_key starts_with in ground arith)
    ]
  ]
]

-- Loading a stored dynamic key again gives the same location, and the key stays dynamic.
pub fetch_location_idempotent :
    (key : String)
    → is_dynamic_access_key key ≡ true
    → (fetch_location (fetch_location key) ≡ fetch_location key)
      × (is_dynamic_access_key (fetch_location key) ≡ true)
fetch_location_idempotent key h =
    let (rest, stored) = https_of_dynamic key h in
    rw stored (fetch_location-https rest, dynamic-https rest)

pub replace_ssconf-fetch_location :
    (key : String)
    → is_dynamic_access_key key ≡ true
    → replace_prefix "ssconf://" "https://" (fetch_location key) ≡ fetch_location key
replace_ssconf-fetch_location key h =
    let (rest, stored) = https_of_dynamic key h in
    rw stored (replace_none "ssconf://" "https://" ("https://" ++ rest) (strip_ssconf rest))
