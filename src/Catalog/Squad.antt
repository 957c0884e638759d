-- ===== src/Catalog/Squad.antt =====
-- web/src/catalog/squad.ts: the curated RCON surface of Squad.
use rcon_ui.Base.{List, [], ◌∷◌, true, false, some, none}
use rcon_ui.Text.{codes}
use rcon_ui.Catalog.Types.{CatalogCommand, GameTemplate, command, command_with, game_capabilities}

abbrev pub squad_commands : List CatalogCommand
squad_commands =
    command "ListPlayers" "List connected players, teams, and Steam IDs."
    ∷ command_with "AdminBroadcast" "Broadcast a message to all players." "AdminBroadcast <message>"
    ∷ command_with "AdminKick" "Disconnect a player." "AdminKick <playerid> [reason]"
    ∷ command_with "AdminBan" "Ban a player for a duration."
        "AdminBan <playerid> <duration> [reason]"
    ∷ command_with "AdminChangeMap" "Switch to a different map/layer." "AdminChangeMap <layer>"
    ∷ command "AdminRestartMatch" "Restart the current match immediately."
    ∷ command "ShowNextMap" "Print the next map in rotation."
    ∷ []

abbrev pub squad_template : GameTemplate
squad_template = record {
  id = codes "squad";
  name = codes "Squad";
  default_port = some 21114;
  caveats = codes "Admin command surface; no settings enumeration." ∷ [];
  capabilities = game_capabilities false false true;
  write_template = none;
  options = [];
  commands = squad_commands;
}
