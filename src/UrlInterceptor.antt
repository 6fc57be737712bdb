-- ===== src/UrlInterceptor.antt =====
-- src/www/app/url_interceptor.ts: links that the system hands to the mobile clients. Listeners are numbered
-- in the order in which they are registered.
pub mod Heard
mod Tests
use pepper_vpn_client.Common.{
  ℕ, zero, suc, String, Option, none, some, List, [], ◌∷◌, ◌++◌, ◌==◌, if◌then◌else◌,
}
use pepper_vpn_client.Common.Text.{is_truthy}

pub record UrlInterceptor : Type 0 where
  pub launch_url : Option String
  pub listeners : ℕ
  -- the calls of the listeners
  pub delivered : List (ℕ × String)

unfoldable pub new_url_interceptor : UrlInterceptor
new_url_interceptor = record { launch_url = none; listeners = 0; delivered = [] }

unfoldable pub register_listener : UrlInterceptor → UrlInterceptor
register_listener i = elim i.launch_url [
  | none ↦ record i { listeners = suc i.listeners }
  | some url ↦
      if is_truthy (some url)
      then record i {
        listeners = suc i.listeners;
        launch_url = none;
        delivered = i.delivered ++ (i.listeners, url) ∷ [];
      }
      else record i { listeners = suc i.listeners }
]

-- the loop over the listeners
unfoldable pub deliver_all : ℕ → String → List (ℕ × String)
deliver_all zero url = []
deliver_all (suc n) url = deliver_all n url ++ (n, url) ∷ []

unfoldable pub execute_listeners : Option String → UrlInterceptor → UrlInterceptor
unfolding deliver_all
execute_listeners none i = i
execute_listeners (some url) i =
    if is_truthy (some url)
    then if i.listeners == 0
      then record i { launch_url = some url }
      else record i { delivered = i.delivered ++ deliver_all i.listeners url }
    else i

-- `AppleUrlInterceptor`
unfoldable pub new_apple_url_interceptor : Option String → UrlInterceptor
unfolding execute_listeners new_url_interceptor
new_apple_url_interceptor launch_url = execute_listeners launch_url new_url_interceptor
