-- ===== src/Catalog/Rust.antt =====
-- web/src/catalog/rust.ts: the curated RCON surface of Rust.
use rcon_ui.Base.{List, [], ◌∷◌, true, false, some, none}
use rcon_ui.Text.{codes}
use rcon_ui.Catalog.Types.{CatalogCommand, GameTemplate, command, command_with, game_capabilities}

abbrev pub rust_commands : List CatalogCommand
rust_commands =
    command "status" "List server status and player count."
    ∷ command_with "say" "Broadcast a message to all players." "say <message>"
    ∷ command "serverinfo" "Print server info as JSON (players, uptime, framerate)."
    ∷ command "playerlist" "List connected players with SteamIDs."
    ∷ command_with "ban" "Ban a player by SteamID." "ban <steamid> [reason]"
    ∷ command_with "kick" "Disconnect a connected player." "kick <steamid> [reason]"
    ∷ command "save" "Force an immediate world save."
    ∷ command_with "teleport" "Teleport a player to coordinates." "teleport <name> <x> <y> <z>"
    ∷ command_with "weather.fog" "Set fog weight for the day/night cycle." "weather.fog <0-1>"
    ∷ []

abbrev pub rust_template : GameTemplate
rust_template = record {
  id = codes "rust";
  name = codes "Rust";
  default_port = some 28016;
  caveats =
      codes
        "Rust RCON is typically a WebSocket protocol (RCON.web); this client speaks the TCP Source variant -- verify your server exposes it."
      ∷ codes "Settings are convars, not enumerable."
      ∷ [];
  capabilities = game_capabilities false false true;
  write_template = none;
  options = [];
  commands = rust_commands;
}
