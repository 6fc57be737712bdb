-- ===== src/UrlInterceptor/Heard.antt =====
-- What the first listener of src/www/app/url_interceptor.ts hears.
use pepper_vpn_client.Common.{
  ℕ, zero, suc, String, true, false, Option, none, some, List, [], ◌∷◌, ◌++◌, ◌≡◌, ◌==◌, refl, sym,
  ap, ◌∙◌, ◌⊎◌, arith, inl, inr, if◌then◌else◌, Bool-cases,
}
use mathlib.Core.List.{append_assoc, append-nil}
use pepper_vpn_client.Common.Text.{is_truthy}
use pepper_vpn_client.UrlInterceptor.{
  UrlInterceptor, new_url_interceptor, register_listener, deliver_all, execute_listeners,
}

pub data Event : Type 0 where
  registers : Event
  intercepts : String → Event

unfoldable pub happens : Event → UrlInterceptor → UrlInterceptor
happens registers i = register_listener i
happens (intercepts url) i = execute_listeners (some url) i

unfoldable pub all_happen : List Event → UrlInterceptor → UrlInterceptor
all_happen [] i = i
all_happen (e ∷ es) i = all_happen es (happens e i)

-- the links of the calls of the first listener
abbrev pub first_hears : List (ℕ × String) → List String
first_hears [] = []
first_hears ((n, url) ∷ calls) = let rest = first_hears calls in if n == 0 then url ∷ rest else rest

-- the links that are not of length 0
abbrev pub links : List Event → List String
links [] = []
links (registers ∷ es) = links es
links (intercepts url ∷ es) =
    let rest = links es in if is_truthy (some url) then url ∷ rest else rest

abbrev pub intercept_all : List String → List Event
intercept_all [] = []
intercept_all (url ∷ urls) = intercepts url ∷ intercept_all urls

-- the last of some links that is not of length 0
abbrev pub last_link : Option String → List String → Option String
last_link kept [] = kept
last_link kept (url ∷ urls) = last_link (if is_truthy (some url) then some url else kept) urls

abbrev pub to_list : Option String → List String
to_list none = []
to_list (some url) = url ∷ []

first_hears-append :
    (a b : List (ℕ × String)) → first_hears (a ++ b) ≡ first_hears a ++ first_hears b
first_hears-append [] b = refl
first_hears-append ((n, url) ∷ a) b = ground (arith, first_hears-append a b)

not_zero : (n : ℕ) → (suc n == 0) ≡ false
not_zero n = ground arith

first_hears-deliver_all : (n : ℕ) (url : String) → first_hears (deliver_all (suc n) url) ≡ url ∷ []
unfolding deliver_all
first_hears-deliver_all zero url = refl
first_hears-deliver_all (suc n) url =
    let last : first_hears ((suc n, url) ∷ []) ≡ [] = rw (not_zero n) refl in
    first_hears-append (deliver_all (suc n) url) ((suc n, url) ∷ [])
    ∙ ap (λ l. first_hears (deliver_all (suc n) url) ++ l) last
    ∙ ap (λ l. l ++ []) (first_hears-deliver_all n url)

-- With a listener there, every link is heard.
after :
    (es : List Event) (n : ℕ) (calls : List (ℕ × String))
    → first_hears
        (all_happen es
          (record { launch_url = none; listeners = suc n; delivered = calls })).delivered
      ≡ first_hears calls ++ links es
unfolding all_happen happens register_listener execute_listeners
after [] n calls = sym (append-nil _)
after (registers ∷ es) n calls = after es (suc n) calls
after (intercepts url ∷ es) n calls = elim (Bool-cases (is_truthy (some url))) [
  | inr empty ↦ rw (empty, all_happen, happens, execute_listeners) (after es n calls)
  | inl link ↦
      rw (link, all_happen, happens, execute_listeners)
        (rw (not_zero n) (
          after es n (calls ++ deliver_all (suc n) url)
          ∙ ap (λ l. l ++ links es)
              (first_hears-append calls (deliver_all (suc n) url)
                ∙ ap (λ l. first_hears calls ++ l) (first_hears-deliver_all n url))
          ∙ append_assoc (first_hears calls) (url ∷ []) (links es)))
]

-- With none, the last link is kept.
before :
    (urls : List String) (kept : Option String) (es : List Event)
    → all_happen
        (intercept_all urls ++ es)
        (record { launch_url = kept; listeners = 0; delivered = [] })
      ≡ all_happen es (record { launch_url = last_link kept urls; listeners = 0; delivered = [] })
unfolding all_happen happens execute_listeners
before [] kept es = refl
before (url ∷ urls) kept es = elim (Bool-cases (is_truthy (some url))) [
  | inl link ↦ rw (link, all_happen, happens, execute_listeners) (before urls (some url) es)
  | inr empty ↦ rw (empty, all_happen, happens, execute_listeners) (before urls kept es)
]

-- What is kept is no link of length 0.
abbrev pub IsLink : Option String → Type 0
IsLink kept = (kept ≡ none) ⊎ (is_truthy kept ≡ true)

last_link-IsLink :
    (urls : List String) (kept : Option String) → IsLink kept → IsLink (last_link kept urls)
last_link-IsLink [] kept h = h
last_link-IsLink (url ∷ urls) kept h = elim (Bool-cases (is_truthy (some url))) [
  | inl link ↦ rw link (last_link-IsLink urls (some url) (inr link))
  | inr empty ↦ rw empty (last_link-IsLink urls kept h)
]

first_registers :
    (kept : Option String) (es : List Event)
    → IsLink kept
    → first_hears
        (all_happen
          (registers ∷ es)
          (record { launch_url = kept; listeners = 0; delivered = [] })).delivered
      ≡ to_list kept ++ links es
unfolding all_happen happens register_listener
first_registers none es h = after es 0 []
first_registers (some url) es (inl absent) = cc
first_registers (some url) es (inr link) =
    rw (link, all_happen, happens, register_listener) (after es 0 ((0, url) ∷ []))

-- The first listener hears the last link that came before it was registered, of those that are not of
-- length 0, and then every link that comes, in order and once; the links before the last one are lost.
pub first_listener_hears :
    (urls : List String) (es : List Event)
    → first_hears (all_happen (intercept_all urls ++ registers ∷ es) new_url_interceptor).delivered
      ≡ to_list (last_link none urls) ++ links es
unfolding new_url_interceptor
first_listener_hears urls es =
    rw (before urls none (registers ∷ es))
      (first_registers (last_link none urls) es (last_link-IsLink urls none (inl refl)))
