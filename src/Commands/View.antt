-- ===== src/Commands/View.antt =====
-- web/src/components/CommandsPanel.tsx: what the panel shows, and what its controls do.
use rcon_ui.Base.{ℕ, Bool, not, Option, none, some, List, ◌++◌, map, if◌then◌else◌, length}
use rcon_ui.Text.{Text, codes, is_empty}
use rcon_ui.Text.Trim.{trim}
use rcon_ui.Discovery.{DiscoveredCommand, DiscoveryReport}
use rcon_ui.Commands.{Storage, load_pins, toggle_pin, command_rows, is_pinned, Launch, launch}

-- `CommandCells`: an empty usage is not shown.
pub record CommandCells : Type 0 where
  pub name : Text
  pub description : Text
  pub usage : Option Text

abbrev pub command_cells : Text → Text → Text → CommandCells
command_cells name description usage = record {
  name = name;
  description = description;
  usage = if is_empty usage then none else some usage;
}

pub record CommandRow : Type 0 where
  pub cells : CommandCells
  pub pinned : Bool
  pub star_label : Text
  pub run_label : Text
  pub enabled : Bool

abbrev pub star_label : Bool → Text → Text
star_label pinned name = (if pinned then codes "Unpin " else codes "Pin ") ++ name

-- `cmd.usage.trim() === ""`
unfoldable pub is_immediate : DiscoveredCommand → Bool
unfolding trim
is_immediate c = is_empty (trim c.usage)

unfoldable pub command_row : Bool → List Text → DiscoveredCommand → CommandRow
unfolding is_immediate
command_row connected pins c = record {
  cells = command_cells c.name c.description c.usage;
  pinned = is_pinned pins c;
  star_label = star_label (is_pinned pins c) c.name;
  run_label = if is_immediate c then codes "run" else codes "run…";
  enabled = connected;
}

pub record Catalog : Type 0 where
  pub pins : List Text
  pub filter_text : Text
  pub storage : Storage

pub data CatalogEvent : Type 0 where
  shows_server : Text → CatalogEvent
  filters : Text → CatalogEvent
  stars : Text → CatalogEvent

-- The effect on a new server, and the events of the controls, in the panel of a server.
unfoldable pub on_catalog : Text → CatalogEvent → Catalog → Catalog
unfolding load_pins toggle_pin
on_catalog server_id (shows_server id) s = record s { pins = load_pins id s.storage }
on_catalog server_id (filters text) s = record s { filter_text = text }
on_catalog server_id (stars name) s =
    let (pins, storage) = toggle_pin server_id name s.pins s.storage in
    record s { pins = pins; storage = storage }

-- A text in place of the panel, or the number in the filter's hint, and the rows.
pub data CatalogView : Type 0 where
  note : Text → CatalogView
  listing : ℕ → List CommandRow → CatalogView

unfoldable pub catalog_view : (Text → Text) → Bool → Option DiscoveryReport → Catalog → CatalogView
unfolding command_rows command_row
catalog_view lower connected none s = note (codes "No discovery yet — use ↻ re-scan above.")
catalog_view lower connected (some r) s =
    if not r.capabilities.commands
    then note (codes "This server did not report a command catalog.")
    else listing (length r.commands)
        (map (command_row connected s.pins) (command_rows lower (some r) s.filter_text s.pins))

-- The button of a row; one that is not enabled cannot be pressed.
unfoldable pub press_run : Bool → DiscoveredCommand → Option Launch
unfolding launch
press_run connected c = if connected then some (launch c) else none
