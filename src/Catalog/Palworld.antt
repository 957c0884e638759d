-- ===== src/Catalog/Palworld.antt =====
-- web/src/catalog/palworld.ts: the curated RCON surface of Palworld.
use rcon_ui.Base.{List, [], ◌∷◌, true, false, some, none}
use rcon_ui.Text.{codes}
use rcon_ui.Catalog.Types.{CatalogCommand, GameTemplate, command, command_with, game_capabilities}

abbrev pub palworld_commands : List CatalogCommand
palworld_commands =
    command "Info" "Print server name and version."
    ∷ command "ShowPlayers" "List connected players with UID and SteamID."
    ∷ command_with "Broadcast" "Send a message to all players." "Broadcast <message>"
    ∷ command_with "KickPlayer" "Disconnect a player by SteamID." "KickPlayer <steamid>"
    ∷ command_with "BanPlayer" "Ban a player by SteamID." "BanPlayer <steamid>"
    ∷ command "Save" "Force an immediate world save."
    ∷ command_with "Shutdown" "Schedule a graceful shutdown with a countdown message."
        "Shutdown <seconds> <message>"
    ∷ command "DoExit" "Shut down the server immediately without a countdown."
    ∷ command_with "TeleportToPlayer" "Teleport the admin to a player's location."
        "TeleportToPlayer <steamid>"
    ∷ []

abbrev pub palworld_template : GameTemplate
palworld_template = record {
  id = codes "palworld";
  name = codes "Palworld";
  default_port = some 25575;
  caveats =
      codes "Fixed command set; no settings dump."
      ∷ codes "A separate REST API covers more (player management, server metrics)."
      ∷ [];
  capabilities = game_capabilities false false true;
  write_template = none;
  options = [];
  commands = palworld_commands;
}
