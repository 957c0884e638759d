-- ===== src/Tests/Api.antt =====
-- The calls of the front end on the daemon's routes.
use rcon_ui.Base.{◌≡◌, refl, not, ◌||◌, none, some, [], ◌∷◌, coalesce}
use rcon_ui.Text.{Text, codes, ◌===◌, is_empty, starts_with}
use rcon_ui.Text.Dict.{lookup}
use rcon_ui.Api.{Page}
use rcon_ui.Api.Request.{send}
use rcon_ui.Api.Auth.{is_authorized, is_authorized-send}
use rcon_ui.Api.Endpoints.{ApiCall, history, call}
use rcon_ui.Api.Routes.{dispatch, handle_history}
use rcon_ui.Api.Arrival.{dispatch-call}
use rcon_ui.Tests.{encode}

abbrev fetch_history : ApiCall Text Text
fetch_history = history (codes "4f0a") 100

path_test : (call encode fetch_history).path ≡ codes "/api/servers/4f0a/history?limit=100"
unfolding call
path_test = refl

dispatch-call_example :
    dispatch (call encode fetch_history).method (call encode fetch_history).path
    ≡ some (handle_history, codes "4f0a" ∷ [])
dispatch-call_example =
    dispatch-call encode fetch_history ((refl, (refl, (refl, (refl, (refl, tt))))), tt)

abbrev page : Page
page = record {
  cached = some (codes "secret");
  injected = none;
  pathname = codes "/";
  params = [];
  hash = [];
}

is_authorized-send_example :
    is_authorized (codes "other") (codes "/api/servers") (codes "other") (
      coalesce
        (lookup
          (codes "Authorization")
          (send {B = Text} page (codes "GET") (codes "/api/servers") none).0.headers)
        [])
    ≡ (is_empty (codes "other")
        || (not (starts_with (codes "/api/servers") (codes "/api/"))
            || (codes "secret" === codes "other")))
unfolding rcon_ui.Api.token
is_authorized-send_example =
    is_authorized-send page (codes "secret") (codes "other") (codes "GET") (codes "/api/servers")
      (codes "other") none refl
