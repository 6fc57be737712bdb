-- ===== src/MainProcess/Sent.antt =====
-- The links that `interceptShadowsocksLink` of src/electron/index.ts sends to the window.
use pepper_vpn_client.Common.{
  arith, String, Bool, true, false, some, none, List, [], ◌∷◌, ◌≡◌, ◌⊎◌, ◌==◌, inl, inr, refl,
  Bool-cases, Option-cases,
}
use Prim.Native.String
use Prim.Native.Char.{Char, code}
use text.Mathlib.TextLemmas.{cons-append}
use pepper_vpn_client.Common.Text.{strip_prefix, strip_prefix_sound}
use pepper_vpn_client.MainProcess.Links.{round, without_slashes, intercept_shadowsocks_link}

-- The second text is the first with its slashes left out, and with nothing else changed.
pub data SlashesDropped : String → String → Type 0 where
  empty : SlashesDropped "" ""
  dropped :
      (c : Char) (s t : String)
      → code c ≡ b'/'
      → SlashesDropped s t
      → SlashesDropped (String.◌∷◌ c s) t
  kept :
      (c : Char) (s t : String)
      → ¬ (code c ≡ b'/')
      → SlashesDropped s t
      → SlashesDropped (String.◌∷◌ c s) (String.◌∷◌ c t)

without_slashes-SlashesDropped : (s : String) → SlashesDropped s (without_slashes s)
unfolding without_slashes
without_slashes-SlashesDropped String.[] = empty
without_slashes-SlashesDropped (String.◌∷◌ c s) = elim (Bool-cases (code c == b'/')) [
  | inl same ↦
      rw (same, without_slashes) (dropped c s _ (ground arith) (without_slashes-SlashesDropped s))
  | inr differs ↦
      rw (differs, without_slashes) (kept c s _ (ground arith) (without_slashes-SlashesDropped s))
]

other_protocol : (rest : String) → strip_prefix "ssconf://" (String.◌++◌ "ss://" rest) ≡ none
unfolding strip_prefix
other_protocol rest =
    rw (cons-append "s" "s://" rest, cons-append "s" "://" rest, cons-append ":" "//" rest) refl

round_passes :
    (has_window : Bool) (protocol url : String)
    → strip_prefix protocol url ≡ none
    → round has_window protocol (url, []) ≡ (url, [])
round_passes has_window protocol url other = rw (other, round) refl

round_closed : (protocol url : String) → round false protocol (url, []) ≡ (url, [])
round_closed protocol url = elim (Option-cases (strip_prefix protocol url)) [
  | inl other ↦ round_passes false protocol url other
  | inr (rest, same) ↦ rw (same, round) refl
]

round_sends :
    (protocol url rest : String)
    → strip_prefix protocol url ≡ some rest
    → round true protocol (url, []) ≡ (
      String.◌++◌ protocol (without_slashes rest),
      String.◌++◌ protocol (without_slashes rest) ∷ [],
    )
round_sends protocol url rest same = rw (same, round) refl

rounds :
    (has_window : Bool) (program url : String) (more : List String)
    → intercept_shadowsocks_link has_window (program ∷ url ∷ more)
      ≡ (round has_window "ssconf://" (round has_window "ss://" (url, []))).1
unfolding intercept_shadowsocks_link
rounds has_window program url more = refl

-- What the window is sent for a link in the arguments.
abbrev pub SentLink : String → String → List String → Type 0
SentLink protocol url sent =
    (rest : String) × (bare : String) × (url ≡ String.◌++◌ protocol rest)
    × SlashesDropped rest bare
    × (sent ≡ String.◌++◌ protocol bare ∷ [])

sends :
    (protocol url rest : String) (sent : List String)
    → strip_prefix protocol url ≡ some rest
    → sent ≡ String.◌++◌ protocol (without_slashes rest) ∷ []
    → SentLink protocol url sent
sends protocol url rest sent found same = (
  rest,
  without_slashes rest,
  strip_prefix_sound protocol url rest found,
  without_slashes-SlashesDropped rest,
  same,
)

-- For a second argument `url`: if there is no window, or the link has neither protocol, nothing is
-- sent. Otherwise exactly one link is sent, and that is the protocol and what follows it in `url`
-- with every slash left out, not only a slash at the end: the path of a dynamic key is run together.
pub intercepted_once :
    (has_window : Bool) (program url : String) (more : List String)
    → ((intercept_shadowsocks_link has_window (program ∷ url ∷ more) ≡ [])
        × ((has_window ≡ false)
            ⊎ ((strip_prefix "ss://" url ≡ none) × (strip_prefix "ssconf://" url ≡ none))))
      ⊎ ((has_window ≡ true)
          × (SentLink "ss://" url (intercept_shadowsocks_link has_window (program ∷ url ∷ more))
              ⊎ SentLink "ssconf://" url
                  (intercept_shadowsocks_link has_window (program ∷ url ∷ more))))
intercepted_once false program url more = inl (
  rw (rounds false program url more, round_closed "ss://" url)
      (rw (round_closed "ssconf://" url) refl),
  inl refl,
)
intercepted_once true program url more = elim (Option-cases (strip_prefix "ss://" url)) [
  | inr (rest, short) ↦ inr (
    refl,
    inl (
        sends "ss://" url rest _ short (
          rw (rounds true program url more, round_sends "ss://" url rest short)
            (rw (other_protocol (without_slashes rest), round) refl))),
  )
  | inl not_short ↦ elim (Option-cases (strip_prefix "ssconf://" url)) [
    | inl neither ↦ inl (
      rw (rounds true program url more, round_passes true "ss://" url not_short)
          (rw (round_passes true "ssconf://" url neither) refl),
      inr (not_short, neither),
    )
    | inr (rest, long) ↦ inr (
      refl,
      inr (
          sends "ssconf://" url rest _ long (
            rw (rounds true program url more, round_passes true "ss://" url not_short)
              (rw (round_sends "ssconf://" url rest long) refl))),
    )
  ]
]
