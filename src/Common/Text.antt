-- ===== src/Common/Text.antt =====
-- Prefixes of texts, by characters.
use Prim.Native.Char.{Char, code}
use Prim.Native.String.{String, [], ◌∷◌, ◌++◌}
use Prim.Native.Nat.{ℕ}
use mathlib.Core.Path.{◌≡◌, sym}
use mathlib.Core.Logic.{inl, inr}
use mathlib.Core.Bool.{Bool, true, false, ◌||◌}
use mathlib.Core.List.{List}
use mathlib.Core.Option.{Option, none, some}
use native.Mathlib.Omega.{arith}
use text.Mathlib.TextLemmas.{nil-append, cons-append}
use text.Mathlib.TextEquality.{Char-path}
use pepper_vpn_client.Common.Units.{is_white_space}
use pepper_vpn_client.Common.Tests.{◌==◌, if◌then◌else◌, is_some, Bool-cases}

-- What follows a prefix, if the text begins with it.
unfoldable pub strip_prefix : String → String → Option String
strip_prefix [] s = some s
strip_prefix (c ∷ p) [] = none
strip_prefix (c ∷ p) (d ∷ s) = if code c == code d then strip_prefix p s else none

pub strip_prefix-append : (p s : String) → strip_prefix p (p ++ s) ≡ some s
unfolding strip_prefix
strip_prefix-append [] s = rw nil-append
strip_prefix-append (c ∷ p) s = rw cons-append (ground (arith, strip_prefix-append p s))

pub strip_prefix_sound : (p s r : String) → strip_prefix p s ≡ some r → s ≡ p ++ r
unfolding strip_prefix
strip_prefix_sound [] s r h = rw nil-append (cc)
strip_prefix_sound (c ∷ p) [] r h = cc
strip_prefix_sound (c ∷ p) (d ∷ s) r h = elim (Bool-cases (code c == code d)) [
  | inl same ↦
      let e : c ≡ d = Char-path c d (ground arith) in
      let rest : s ≡ p ++ r = strip_prefix_sound p s r (ground arith) in
      rw (e, rest) (sym (cons-append d p r))
  | inr other ↦ absurd (ground arith)
]

-- Whether a text begins with another.
unfoldable pub starts_with : String → String → Bool
unfolding strip_prefix
starts_with s p = is_some (strip_prefix p s)

abbrev single : String → List String
single s = List.◌∷◌ s List.[]

abbrev push_front : String → List String → List String
push_front s ss = List.◌∷◌ s ss

-- `s.split(sep)` for a separator of one character.
split_from : ℕ → String → String → List String
split_from sep cur [] = single cur
split_from sep cur (c ∷ s) =
    let closed = push_front cur (split_from sep "" s) in
    let longer = split_from sep (cur ++ (c ∷ [])) s in if code c == sep then closed else longer

unfoldable pub split : ℕ → String → List String
unfolding split_from
split sep s = split_from sep "" s

-- `s.includes(c)` for one character.
unfoldable pub includes : ℕ → String → Bool
includes c [] = false
includes c (d ∷ s) = code d == c || includes c s

-- `s.trim()`
trim_start : String → String
trim_start [] = []
trim_start (c ∷ s) = let rest = trim_start s in if is_white_space (code c) then rest else c ∷ s

-- a text with a character in front, unless both are blank
abbrev unless_blank : Char → String → String
unless_blank c [] = if is_white_space (code c) then [] else c ∷ []
unless_blank c (d ∷ s) = c ∷ d ∷ s

trim_end : String → String
trim_end [] = []
trim_end (c ∷ s) = unless_blank c (trim_end s)

unfoldable pub trim : String → String
unfolding trim_start trim_end
trim s = trim_end (trim_start s)

-- `text.replace(pattern, by)` for a pattern that is a text: the first occurrence alone.
unfoldable pub replace_text : String → String → String → String
replace_text pattern by [] = elim (strip_prefix pattern []) [ some rest ↦ by ++ rest | none ↦ [] ]
replace_text pattern by (c ∷ s) =
    let later = replace_text pattern by s in
    elim (strip_prefix pattern (c ∷ s)) [ some rest ↦ by ++ rest | none ↦ c ∷ later ]

-- `texts.join(sep)`
unfoldable pub join : String → List String → String
join sep List.[] = ""
join sep (List.◌∷◌ s List.[]) = s
join sep (List.◌∷◌ s (List.◌∷◌ t ss)) = s ++ sep ++ join sep (List.◌∷◌ t ss)

-- JavaScript's truth of a text that may be absent
abbrev pub is_truthy : Option String → Bool
is_truthy none = false
is_truthy (some []) = false
is_truthy (some (c ∷ s)) = true
