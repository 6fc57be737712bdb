-- ===== src/Common/Units.antt =====
-- JavaScript's texts as lists of UTF-16 code units, for code that computes with single units. The
-- literals of the source are ASCII.
use Prim.Native.Char.{code}
use Prim.Native.Nat.{ℕ, ◌+◌}
use Prim.Native.String.{String}
use mathlib.Core.Path.{◌≡◌, refl}
use mathlib.Core.Bool.{Bool, true, false, ◌&&◌, ◌||◌}
use mathlib.Core.List.{List, [], ◌∷◌, ◌++◌, map}
use mathlib.Core.Option.{Option, none, some}
use native.Mathlib.Omega.{arith}
use pepper_vpn_client.Common.Tests.{◌==◌, leb, if◌then◌else◌}

abbrev pub Units : Type 0
Units = List ℕ

-- the units of an ASCII literal
unfoldable pub units : String → Units
units String.[] = []
units (String.◌∷◌ c s) = code c ∷ units s

unfoldable pub same_units : Units → Units → Bool
same_units [] [] = true
same_units (a ∷ s) (b ∷ t) = a == b && same_units s t
same_units _ _ = false

pub same_units_refl : (s : Units) → same_units s s ≡ true
unfolding same_units
same_units_refl [] = refl
same_units_refl (a ∷ s) = ground (arith, same_units_refl s)

-- JavaScript's white space and line ends
abbrev pub is_white_space : ℕ → Bool
is_white_space c =
    leb 9 c && leb c 13
    || c == 32
    || c == 160
    || c == 5760
    || leb 8192 c && leb c 8202
    || c == 8232
    || c == 8233
    || c == 8239
    || c == 8287
    || c == 12288
    || c == 65279

-- `toLowerCase`, as far as it is needed: the code calls it on the tags of a droplet and on constants,
-- whose letters are ASCII ones. Other letters stay as they are here, and do not in JavaScript.
abbrev pub lower_case : ℕ → ℕ
lower_case c = if leb 65 c && leb c 90 then c + 32 else c

unfoldable pub to_lower_case : Units → Units
to_lower_case = map lower_case

-- what follows a prefix of the length of the first text, if the text is so long
abbrev pub drop_length : Units → Units → Units
drop_length [] s = s
drop_length (_ ∷ p) [] = []
drop_length (_ ∷ p) (_ ∷ s) = drop_length p s

abbrev pub take_length : Units → Units → Units
take_length [] s = []
take_length (_ ∷ p) [] = []
take_length (_ ∷ p) (c ∷ s) = c ∷ take_length p s

-- `s.split(sep, 2)` at a separator of one unit: the text up to the first separator, and the one
-- between the first and the second, if there is a first.
unfoldable pub until : ℕ → Units → Units
until sep [] = []
until sep (c ∷ s) = let rest = until sep s in if c == sep then [] else c ∷ rest

unfoldable pub behind : ℕ → Units → Option Units
behind sep [] = none
behind sep (c ∷ s) = let rest = behind sep s in if c == sep then some s else rest

-- `s.endsWith(c)` at one unit
unfoldable pub ends_with : ℕ → Units → Bool
ends_with c [] = false
ends_with c (d ∷ []) = d == c
ends_with c (d ∷ s) = ends_with c s

pub ends_with-append : (c : ℕ) (s : Units) → ends_with c (s ++ c ∷ []) ≡ true
unfolding ends_with
ends_with-append c [] = ground arith
ends_with-append c (d ∷ []) = ground arith
ends_with-append c (d ∷ e ∷ s) = ends_with-append c (e ∷ s)

-- `Map` with such texts as keys
unfoldable pub find_tag : List (Units × Units) → Units → Option Units
find_tag [] k = none
find_tag ((j, v) ∷ m) k = if same_units j k then some v else find_tag m k

unfoldable pub set_tag : List (Units × Units) → Units → Units → List (Units × Units)
set_tag [] k v = (k, v) ∷ []
set_tag ((j, w) ∷ m) k v = if same_units j k then (k, v) ∷ m else (j, w) ∷ set_tag m k v

-- whether a value was found and is not the text of length 0
abbrev pub is_nonempty : Option Units → Bool
is_nonempty none = false
is_nonempty (some []) = false
is_nonempty (some (_ ∷ _)) = true
