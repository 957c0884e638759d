-- ===== src/Catalog/Ark.antt =====
-- web/src/catalog/ark.ts: the curated RCON surface of ARK: Survival Ascended.
use rcon_ui.Base.{List, [], ◌∷◌, true, false, some, none}
use rcon_ui.Text.{codes}
use rcon_ui.Catalog.Types.{CatalogCommand, GameTemplate, command, command_with, game_capabilities}

abbrev pub ark_commands : List CatalogCommand
ark_commands =
    command "ListPlayers" "List connected players and their Steam/EOS IDs."
    ∷ command_with "Broadcast" "Send a message to all players." "Broadcast <message>"
    ∷ command "SaveWorld" "Force an immediate world save."
    ∷ command_with "KickPlayer" "Disconnect a player by their platform ID." "KickPlayer <playerid>"
    ∷ command_with "BanPlayer" "Ban a player by their platform ID." "BanPlayer <playerid>"
    ∷ command "DoExit" "Save and shut down the server immediately."
    ∷ command "GetGameLog" "Retrieve the recent server game log (joins, deaths, tribe events)."
    ∷ command_with "ServerChat" "Send a server-wide chat message." "ServerChat <message>"
    ∷ []

abbrev pub ark_template : GameTemplate
ark_template = record {
  id = codes "ark";
  name = codes "ARK: Survival Ascended";
  default_port = some 27020;
  caveats = codes "Settings live in GameUserSettings.ini, not readable over RCON." ∷ [];
  capabilities = game_capabilities false false true;
  write_template = none;
  options = [];
  commands = ark_commands;
}
