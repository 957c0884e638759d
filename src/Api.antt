-- ===== src/Api.antt =====
-- web/src/api.ts: the credential, the URL that carries it, and what a reply becomes.
-- The page's query string is its list of parameters in order, as `URLSearchParams` reads it;
-- `encodeURIComponent` is the parameter `encode`.
pub mod Token
pub mod Request
pub mod Endpoints
pub mod Routes
pub mod Arrival
pub mod Auth
pub mod Handlers
pub mod Profiles
pub mod Saved
pub mod Unseen
pub mod Served
use rcon_ui.Base.{Option, none, some, List, [], ◌∷◌, ◌++◌, if◌then◌else◌}
use rcon_ui.Text.{Text, codes, includes, starts_with}
use rcon_ui.Text.Dict.{lookup, erase}

-- What `token()` reads and writes: `cachedToken`, `window.__RCON_UI_TOKEN__` and the address bar.
pub record Page : Type 0 where
  pub cached : Option Text
  pub injected : Option Text
  pub pathname : Text
  pub params : List (Text × Text)
  pub hash : Text

-- `if (s)`: undefined and the empty string are falsy.
abbrev pub truthy : Option Text → Option Text
truthy none = none
truthy (some []) = none
truthy (some (c ∷ s)) = some (c ∷ s)

abbrev pub token_param : Text
token_param = codes "access_token"

-- `history.replaceState` shows the path and the remaining query, and so drops the fragment.
unfoldable pub from_url : Page → Option Text × Page
from_url p = elim (truthy (lookup token_param p.params)) [
  | none ↦ (none, p)
  | some t ↦ (some t, record p { cached = some t; params = erase token_param p.params; hash = [] })
]

unfoldable pub token : Page → Option Text × Page
unfolding from_url
token p = elim (truthy p.cached) [
  | some t ↦ (some t, p)
  | none ↦ elim (truthy p.injected) [
    | some t ↦ (some t, record p { cached = some t })
    | none ↦ from_url p
  ]
]

module _ (encode : Text → Text) where
  -- `path + (path.includes("?") ? "&" : "?") + "access_token=" + encodeURIComponent(t)`
  unfoldable pub add_token : Text → Text → Text
  unfolding includes starts_with
  add_token path t =
      path
      ++ (if includes path (codes "?") then codes "&" else codes "?")
      ++ codes "access_token="
      ++ encode t

  unfoldable pub with_token : Page → Text → Text × Page
  unfolding token add_token
  with_token p path =
      let (t, p') = token p in elim t [ none ↦ (path, p') | some s ↦ (add_token path s, p') ]
