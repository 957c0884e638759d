-- ===== src/Commands.antt =====
-- web/src/components/CommandsPanel.tsx: the command catalog of a server, its filter, and the pins
-- kept in the browser's storage. `lower` is `toLowerCase`. The storage maps a key to the array that
-- its JSON holds, or to none where the text there is no such array.
pub mod Pins
pub mod Rows
pub mod View
use rcon_ui.Base.{Bool, not, ◌||◌, Option, none, some, List, [], ◌++◌, if◌then◌else◌, filter}
use rcon_ui.Text.{Text, codes, is_empty, includes}
use rcon_ui.Text.Trim.{trim}
use rcon_ui.Text.Dict.{lookup, insert}
use rcon_ui.Text.ObjectKeys.{contains}
use rcon_ui.Text.TextSet.{of_list, toggle}
use rcon_ui.Discovery.{DiscoveredCommand, DiscoveryReport}

abbrev pub Storage : Type 0
Storage = List (Text × Option (List Text))

unfoldable pub pins_key : Text → Text
pins_key server_id = codes "rcon-ui:pins:" ++ server_id

-- `raw ? JSON.parse(raw) : []`, and the empty set where parsing throws.
abbrev pub stored_pins : Option (Option (List Text)) → List Text
stored_pins none = []
stored_pins (some none) = []
stored_pins (some (some names)) = names

-- The effect that runs when the server changes.
unfoldable pub load_pins : Text → Storage → List Text
unfolding lookup of_list pins_key
load_pins server_id storage = of_list (stored_pins (lookup (pins_key server_id) storage))

-- The new pins, and the storage that they are written to.
unfoldable pub toggle_pin : Text → Text → List Text → Storage → List Text × Storage
unfolding toggle insert pins_key
toggle_pin server_id name pins storage =
    let next = toggle name pins in (next, insert (pins_key server_id) (some next) storage)

unfoldable pub command_matches : (Text → Text) → Text → DiscoveredCommand → Bool
command_matches lower filter_text c =
    let needle = lower (trim filter_text) in
    is_empty needle || (includes (lower c.name) needle || includes (lower c.description) needle)

abbrev pub is_pinned : List Text → DiscoveredCommand → Bool
is_pinned pins c = contains c.name pins

-- `report?.commands ?? []`
abbrev pub reported : Option DiscoveryReport → List DiscoveredCommand
reported none = []
reported (some r) = r.commands

unfoldable pub command_rows :
    (Text → Text) → Option DiscoveryReport → Text → List Text → List DiscoveredCommand
unfolding command_matches
command_rows lower report filter_text pins =
    let shown = filter (command_matches lower filter_text) (reported report) in
    filter (is_pinned pins) shown ++ filter (λ c. not (is_pinned pins c)) shown

-- What a row's button does: run at once where the command takes no arguments, otherwise start it in
-- the console.
pub data Launch : Type 0 where
  execute : Text → Launch
  prefill : Text → Launch

unfoldable pub launch : DiscoveredCommand → Launch
unfolding trim
launch c = if is_empty (trim c.usage) then execute c.name else prefill (c.name ++ codes " ")
