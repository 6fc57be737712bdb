-- ===== src/Common/Map.antt =====
-- JavaScript's `Map` with text keys: entries stay in the order in which their keys came, writing a
-- key again keeps its place, and deleting a key forgets it.
use mathlib.Core.Path.{◌≡◌, refl}
use mathlib.Core.Option.{Option, none, some}
use mathlib.Core.List.{List, [], ◌∷◌, ◌++◌}
use native.Mathlib.Omega.{arith}
use Prim.Native.String.{String}
use text.Mathlib.Text.{◌==◌}
use text.Mathlib.TextEquality.{eq_iff}
use pepper_vpn_client.Common.Tests.{if◌then◌else◌}

abbrev pub Entries {ℓ} : Type ℓ → Type ℓ
Entries V = List (String × V)

module _ {ℓ} {V : Type ℓ} where
  unfoldable pub get : Entries V → String → Option V
  get [] k = none
  get ((j, v) ∷ m) k = if j == k then some v else get m k

  unfoldable pub set : Entries V → String → V → Entries V
  set [] k v = (k, v) ∷ []
  set ((j, w) ∷ m) k v = if j == k then (k, v) ∷ m else (j, w) ∷ set m k v

  -- `delete`; no key stands twice
  unfoldable pub remove : Entries V → String → Entries V
  remove [] k = []
  remove ((j, v) ∷ m) k = let rest = remove m k in if j == k then rest else (j, v) ∷ rest

  unfoldable pub values : Entries V → List V
  values [] = []
  values ((_, v) ∷ m) = v ∷ values m

  unfoldable pub keys : Entries V → List String
  keys [] = []
  keys ((k, _) ∷ m) = k ∷ keys m

  pub get-set :
      (m : Entries V) (k j : String) (v : V)
      → get (set m k v) j ≡ (if k == j then some v else get m j)
  unfolding get set
  get-set [] k j v = refl
  get-set ((i, w) ∷ m) k j v = ground (arith, eq_iff k j, eq_iff i k, eq_iff i j, get-set m k j v)

  pub get-remove :
      (m : Entries V) (k j : String) → get (remove m k) j ≡ (if k == j then none else get m j)
  unfolding get remove
  get-remove [] k j = ground arith
  get-remove ((i, w) ∷ m) k j = ground (arith, eq_iff k j, eq_iff i k, eq_iff i j, get-remove m k j)

  -- A new key goes to the end.
  pub set_new : (m : Entries V) (k : String) (v : V) → get m k ≡ none → set m k v ≡ m ++ (k, v) ∷ []
  unfolding get set
  set_new [] k v h = refl
  set_new ((i, w) ∷ m) k v h = ground (arith, set_new m k v)

  pub get_append_new :
      (m : Entries V) (k j : String) (v : V)
      → get m k ≡ none
      → get (m ++ (k, v) ∷ []) j ≡ (if k == j then some v else get m j)
  unfolding get
  get_append_new [] k j v h = refl
  get_append_new ((i, w) ∷ m) k j v h =
      ground (arith, eq_iff k j, eq_iff i k, eq_iff i j, get_append_new m k j v)

pub ruleset map_laws = (get-set, get-remove)
