-- ===== src/Api/Auth.antt =====
-- withAuth of internal/api/api.go, and the credential that the front end sends.
use rcon_ui.Base.{
  ◌≡◌, refl, ap, Bool, not, ◌||◌, Option, none, some, [], ◌++◌, if◌then◌else◌, coalesce, drop,
}
use rcon_ui.Text.{Text, codes, ◌===◌, is_empty, starts_with}
use rcon_ui.Text.Dict.{lookup}
use rcon_ui.Api.{Page, token, truthy}
use rcon_ui.Api.Request.{send}

-- The token supplied: the query's, unless the header has one.
abbrev pub supplied : Text → Text → Text
supplied from_query header =
    if starts_with header (codes "Bearer ") then drop 7 header else from_query

-- Whether the request gets past `withAuth`, by the daemon's token, the path, the query's
-- `access_token` and the header `Authorization`, empty where they are missing.
unfoldable pub is_authorized : Text → Text → Text → Text → Bool
is_authorized daemon path from_query header =
    is_empty daemon
    || (not (starts_with path (codes "/api/")) || (supplied from_query header === daemon))

bearer : (t from_query : Text) → supplied from_query (codes "Bearer " ++ t) ≡ t
unfolding starts_with
bearer t from_query = refl

-- A request of a page that has a credential gets past the daemon's check exactly if the daemon asks
-- for none, or not for that path, or the credential is the daemon's, whatever the query says.
pub is_authorized-send {ℓ} :
    {B : Type ℓ} (page : Page) (t daemon method path from_query : Text) (body : Option B)
    → truthy (token page).0 ≡ some t
    → is_authorized daemon path from_query
        (coalesce (lookup (codes "Authorization") (send page method path body).0.headers) [])
      ≡ (is_empty daemon || (not (starts_with path (codes "/api/")) || (t === daemon)))
unfolding send lookup is_authorized ◌===◌
is_authorized-send page t daemon method path from_query none h = rw h (
    ap (λ s. is_empty daemon || (not (starts_with path (codes "/api/")) || (s === daemon)))
      (bearer t from_query))
is_authorized-send page t daemon method path from_query (some b) h = rw h (
    ap (λ s. is_empty daemon || (not (starts_with path (codes "/api/")) || (s === daemon)))
      (bearer t from_query))
