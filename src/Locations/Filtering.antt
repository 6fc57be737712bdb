-- ===== src/Locations/Filtering.antt =====
-- Which options server_manager/web_app/location_formatting.ts offers.
use pepper_vpn_client.Common.{
  String, Bool, false, Option, none, some, List, [], ◌∷◌, ◌++◌, ◌&&◌, ◌≡◌, arith, str_eq, ap, inl,
  inr, Option-cases, eq_iff, if◌then◌else◌,
}
use mathlib.Core.List.{append_assoc, append-nil}
use pepper_vpn_client.Common.Map
use pepper_vpn_client.Common.Map.{Entries, get-set}
use pepper_vpn_client.Common.Distinct.{IsDistinct, set-IsDistinct}
use pepper_vpn_client.Locations.{
  CloudLocationOption, Filtered, add_option, add_options, filter_options,
}

abbrev pub or_else : {T : Type 0} → Option T → Option T → Option T
or_else (some x) y = some x
or_else none y = y

module _ {T : Type 0} (as_option : T → CloudLocationOption) where
  abbrev pub is_at : String → T → Bool
  is_at id option = elim (as_option option).cloud_location.location [
    | some geo ↦ str_eq geo.id id
    | none ↦ false
  ]

  abbrev pub is_unknown : T → Bool
  is_unknown option = elim (as_option option).cloud_location.location [
    | some geo ↦ false
    | none ↦ (as_option option).available
  ]

  abbrev pub first_at : String → List T → Option T
  first_at id [] = none
  first_at id (option ∷ options) = if is_at id option then some option else first_at id options

  abbrev pub last_available : String → List T → Option T
  last_available id [] = none
  last_available id (option ∷ options) =
      or_else (last_available id options)
        (if is_at id option && (as_option option).available then some option else none)

  -- the last available option of a location, or else its first option
  abbrev pub representative : String → List T → Option T
  representative id options = or_else (last_available id options) (first_at id options)

  abbrev pub unknown_available : List T → List T
  unknown_available [] = []
  unknown_available (option ∷ options) =
      let rest = unknown_available options in if is_unknown option then option ∷ rest else rest

  -- What a round does to the entry of a location.
  abbrev entry_after : Option T → T → String → Option T
  entry_after before option id =
      if is_at id option
      then if (as_option option).available then some option else or_else before (some option)
      else before

  get-add_option :
      (option : T) (f : Filtered T) (id : String)
      → Map.get (add_option as_option option f).entries id
        ≡ entry_after (Map.get f.entries id) option id
  unfolding add_option
  get-add_option option f id = elim (Option-cases (as_option option).cloud_location.location) [
    | inl unknown ↦ ground arith
    | inr (geo, known) ↦ ground (
      arith,
      eq_iff geo.id id,
      get-set f.entries geo.id id option,
      Option-cases (Map.get f.entries geo.id),
    )
  ]

  entry_or :
      (before : Option T) (option : T) (id : String) (options : List T)
      → or_else
          (last_available id options)
          (or_else (entry_after before option id) (first_at id options))
        ≡ or_else
            (last_available id (option ∷ options))
            (or_else before (first_at id (option ∷ options)))
  entry_or before option id options = ground arith

  get-add_options :
      (options : List T) (f : Filtered T) (id : String)
      → Map.get (add_options as_option options f).entries id
        ≡ or_else (last_available id options) (or_else (Map.get f.entries id) (first_at id options))
  unfolding add_options
  get-add_options [] f id = ground arith
  get-add_options (option ∷ options) f id =
      let rest = get-add_options options (add_option as_option option f) id in
      let first = get-add_option option f id in
      let both = entry_or (Map.get f.entries id) option id options in
      let here =
        ap (λ e. or_else (last_available id options) (or_else e (first_at id options))) first in
      cc

  add_option-IsDistinct :
      (option : T) (f : Filtered T)
      → IsDistinct f.entries
      → IsDistinct (add_option as_option option f).entries
  unfolding add_option
  add_option-IsDistinct option f h =
      elim (Option-cases (as_option option).cloud_location.location) [
        | inl unknown ↦ ground arith
        | inr (geo, known) ↦ ground (arith, set-IsDistinct f.entries geo.id option h)
      ]

  add_options-IsDistinct :
      (options : List T) (f : Filtered T)
      → IsDistinct f.entries
      → IsDistinct (add_options as_option options f).entries
  unfolding add_options
  add_options-IsDistinct [] f h = h
  add_options-IsDistinct (option ∷ options) f h =
      add_options-IsDistinct options (add_option as_option option f)
        (add_option-IsDistinct option f h)

  unmapped-add_options :
      (options : List T) (f : Filtered T)
      → (add_options as_option options f).unmapped_options
        ≡ f.unmapped_options ++ unknown_available options
  unfolding add_options add_option
  unmapped-add_options [] f = ground (arith, append-nil f.unmapped_options)
  unmapped-add_options (option ∷ options) f =
      let rest = unmapped-add_options options (add_option as_option option f) in
      ground
        (arith, rest, append_assoc f.unmapped_options (option ∷ []) (unknown_available options))

  -- What is offered is one option for each location, under distinct locations, and then, in their
  -- order, the available options without a location. The option for a location is its last available
  -- one, or if none is available its first one; a location that no option has gets none.
  pub filter_options-eq :
      (options : List T)
      → (entries : Entries T) × (filter_options as_option options
          ≡ Map.values entries ++ unknown_available options)
        × IsDistinct entries
        × ((id : String) → Map.get entries id ≡ representative id options)
  unfolding filter_options
  filter_options-eq options =
      let empty : Filtered T = record { entries = []; unmapped_options = [] } in
      let f = add_options as_option options empty in
      (
        f.entries,
        ap (λ u. Map.values f.entries ++ u) (unmapped-add_options options empty),
        add_options-IsDistinct options empty tt,
        λ id. unfold Map.get in get-add_options options empty id,
      )
