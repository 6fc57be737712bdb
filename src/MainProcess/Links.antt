-- ===== src/MainProcess/Links.antt =====
-- `interceptShadowsocksLink` of src/electron/index.ts.
use Prim.Native.String
use Prim.Native.Char.{code}
use pepper_vpn_client.Common.{String, Bool, none, some, List, [], ◌∷◌, ◌++◌, ◌==◌, if◌then◌else◌}
use pepper_vpn_client.Common.Text.{strip_prefix}

-- `text.replace(/\//g, '')`
unfoldable pub without_slashes : String → String
without_slashes String.[] = ""
without_slashes (String.◌∷◌ c s) =
    let rest = without_slashes s in if code c == b'/' then rest else String.◌∷◌ c rest

-- One round of the loop: the link without slashes behind its protocol, and the messages to the window.
abbrev pub round : Bool → String → String × List String → String × List String
round has_window protocol (url, sent) = elim (strip_prefix protocol url) [
  | none ↦ (url, sent)
  | some rest ↦
      let cleaned = String.◌++◌ protocol (without_slashes rest) in
      if has_window then (cleaned, sent ++ cleaned ∷ []) else (url, sent)
]

unfoldable pub intercept_shadowsocks_link : Bool → List String → List String
unfolding without_slashes strip_prefix
intercept_shadowsocks_link has_window [] = []
intercept_shadowsocks_link has_window (program ∷ []) = []
intercept_shadowsocks_link has_window (program ∷ url ∷ _) =
    (round has_window "ssconf://" (round has_window "ss://" (url, []))).1
