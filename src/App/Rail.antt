-- ===== src/App/Rail.antt =====
-- web/src/App.tsx: what the rail beside the page and the keyboard do.
use rcon_ui.Base.{◌&&◌, ◌||◌, if◌then◌else◌}
use rcon_ui.Text.{Text, codes, ◌===◌}
use rcon_ui.App.{none, true, Bool, State, templates, select}

-- A click on a server, on "add", on the palette's button or on "Templates"; and a key that is pressed
-- with the Meta key, with Ctrl, or with neither.
pub data RailEvent : Type 0 where
  picks_server : Text → RailEvent
  adds_server opens_palette opens_templates : RailEvent
  presses : Bool → Bool → Text → RailEvent

-- `lower` is `toLowerCase`.
unfoldable pub on_rail : (Text → Text) → RailEvent → State → State
unfolding select ◌===◌
on_rail lower (picks_server id) s = select id s
on_rail lower adds_server s = record s { dialog = record { open? = true; server = none } }
on_rail lower opens_palette s = record s { palette_open = true }
on_rail lower opens_templates s = record s { view = templates }
on_rail lower (presses meta ctrl key) s =
    if (meta || ctrl) && (lower key === codes "k") then record s { palette_open = true } else s
