-- ===== src/Catalog/SevenDaysToDie.antt =====
-- web/src/catalog/sevendaystodie.ts: the curated RCON surface of 7 Days to Die.
use rcon_ui.Base.{List, [], ◌∷◌, true, false, some, none}
use rcon_ui.Text.{codes}
use rcon_ui.Catalog.Types.{CatalogCommand, GameTemplate, command, command_with, game_capabilities}

abbrev pub seven_days_to_die_commands : List CatalogCommand
seven_days_to_die_commands =
    command "listplayers" "List connected players with IDs and ping."
    ∷ command_with "say" "Broadcast a message to all players." "say <message>"
    ∷ command_with "kick" "Disconnect a player." "kick <name> [reason]"
    ∷ command_with "ban add" "Ban a player for a duration." "ban add <name> <duration> [reason]"
    ∷ command "saveworld" "Force an immediate world save."
    ∷ command_with "settime" "Set the in-game time." "settime <ticks>"
    ∷ command "shutdown" "Save and shut down the server."
    ∷ command "gettime" "Print the current in-game day and time."
    ∷ []

abbrev pub seven_days_to_die_template : GameTemplate
seven_days_to_die_template = record {
  id = codes "sevendaystodie";
  name = codes "7 Days to Die";
  default_port = some 8081;
  caveats =
      codes "7DTD RCON derives from its telnet console; behavior can differ from Source RCON." ∷ [];
  capabilities = game_capabilities false false true;
  write_template = none;
  options = [];
  commands = seven_days_to_die_commands;
}
