-- ===== src/UrlInterceptor/Tests.antt =====
-- Runs of src/www/app/url_interceptor.ts.
use pepper_vpn_client.Common.{none, List, [], ◌∷◌, ◌++◌, ◌≡◌, refl}
use pepper_vpn_client.UrlInterceptor.{new_url_interceptor}
use pepper_vpn_client.UrlInterceptor.Heard.{
  Event, registers, intercepts, all_happen, first_hears, links, intercept_all, last_link, to_list,
  first_listener_hears,
}

abbrev later : List Event
later = intercepts "ss://c" ∷ registers ∷ intercepts "" ∷ intercepts "ss://d" ∷ []

first_listener_hears_example :
    first_hears
      (all_happen
        (intercept_all ("ss://a" ∷ "ss://b" ∷ []) ++ registers ∷ later)
        new_url_interceptor).delivered
    ≡ to_list (last_link none ("ss://a" ∷ "ss://b" ∷ [])) ++ links later
first_listener_hears_example = first_listener_hears ("ss://a" ∷ "ss://b" ∷ []) later

heard :
    to_list (last_link none ("ss://a" ∷ "ss://b" ∷ [])) ++ links later
    ≡ "ss://b" ∷ "ss://c" ∷ "ss://d" ∷ []
heard = refl
