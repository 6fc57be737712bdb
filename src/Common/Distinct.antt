-- ===== src/Common/Distinct.antt =====
-- Maps without a key that stands twice, and what is built entry by entry.
use mathlib.Core.Path.{◌≡◌, refl, sym, ◌∙◌}
use mathlib.Core.Logic.{inl, inr}
use mathlib.Core.Bool.{false}
use mathlib.Core.Option.{none}
use mathlib.Core.List.{[], ◌∷◌, ◌++◌, append_assoc, append-nil}
use native.Mathlib.Omega.{arith}
use Prim.Native.String.{String}
use text.Mathlib.Text.{◌==◌}
use text.Mathlib.TextEquality.{eq_iff}
use pepper_vpn_client.Common.Tests.{Bool-cases}
use pepper_vpn_client.Common.Map.{Entries, get, set, remove, get-set, get-remove, set_new}

module _ {ℓ} {V : Type ℓ} where
  -- No key stands twice.
  abbrev pub IsDistinct : Entries V → Type ℓ
  IsDistinct [] = Unit
  IsDistinct ((k, v) ∷ m) = (get m k ≡ none) × IsDistinct m

  -- `set` for each entry in turn
  unfoldable pub set_all : Entries V → Entries V → Entries V
  set_all m [] = m
  set_all m ((k, v) ∷ n) = set_all (set m k v) n

  pub set-IsDistinct : (m : Entries V) (k : String) (v : V) → IsDistinct m → IsDistinct (set m k v)
  unfolding set get
  set-IsDistinct [] k v h = (refl, tt)
  set-IsDistinct ((i, w) ∷ m) k v (new, h) = elim (Bool-cases (i == k)) [
    | inl same ↦ let e = (eq_iff i k).0 same in rw same (rw e at new, h)
    | inr other ↦
        rw other (get-set m k i v ∙ ground (arith, eq_iff k i, eq_iff i k), set-IsDistinct m k v h)
  ]

  pub remove-IsDistinct : (m : Entries V) (k : String) → IsDistinct m → IsDistinct (remove m k)
  unfolding remove get
  remove-IsDistinct [] k h = tt
  remove-IsDistinct ((i, w) ∷ m) k (new, h) = elim (Bool-cases (i == k)) [
    | inl same ↦ rw same (remove-IsDistinct m k h)
    | inr other ↦ rw other (get-remove m k i ∙ ground arith, remove-IsDistinct m k h)
  ]

  get_append_other :
      (m : Entries V) (k j : String) (v : V)
      → get m j ≡ none
      → (k == j) ≡ false
      → get (m ++ (k, v) ∷ []) j ≡ none
  unfolding get
  get_append_other [] k j v h n = ground arith
  get_append_other ((i, w) ∷ m) k j v h n = ground (arith, get_append_other m k j v)

  -- the keys of the second map are free in the first
  abbrev IsApart : Entries V → Entries V → Type ℓ
  IsApart m [] = Unit
  IsApart m ((k, v) ∷ n) = (get m k ≡ none) × IsApart m n

  IsApart-append :
      (m n : Entries V) (k : String) (v : V)
      → get n k ≡ none
      → IsApart m n
      → IsApart (m ++ (k, v) ∷ []) n
  unfolding get
  IsApart-append m [] k v new h = tt
  IsApart-append m ((i, w) ∷ n) k v new (free, h) =
      let other : (k == i) ≡ false = ground (arith, eq_iff i k, eq_iff k i) in
      let rest : get n k ≡ none = ground arith in
      (get_append_other m k i v free other, IsApart-append m n k v rest h)

  set_all-append : (m n : Entries V) → IsDistinct n → IsApart m n → set_all m n ≡ m ++ n
  unfolding set_all
  set_all-append m [] d h = sym (append-nil m)
  set_all-append m ((k, v) ∷ n) (new, d) (free, h) = rw (set_new m k v free) (
      set_all-append (m ++ (k, v) ∷ []) n d (IsApart-append m n k v new h)
      ∙ append_assoc m ((k, v) ∷ []) n)

  empty-IsApart : (n : Entries V) → IsApart [] n
  unfolding get
  empty-IsApart [] = tt
  empty-IsApart ((k, v) ∷ n) = (refl, empty-IsApart n)

  -- Setting the entries of a map one by one gives the map.
  pub set_all_empty : (m : Entries V) → IsDistinct m → set_all [] m ≡ m
  set_all_empty m d = set_all-append [] m d (empty-IsApart m)
