-- ===== src/Catalog/Cs2.antt =====
-- web/src/catalog/cs2.ts: the curated RCON surface of Counter-Strike 2.
use rcon_ui.Base.{List, [], ◌∷◌, true, false, some, none}
use rcon_ui.Text.{codes}
use rcon_ui.Catalog.Types.{CatalogCommand, GameTemplate, command, command_with, game_capabilities}

abbrev pub cs2_commands : List CatalogCommand
cs2_commands =
    command "status" "List server status and connected players."
    ∷ command_with "say" "Broadcast a chat message to all players." "say <message>"
    ∷ command_with "mp_restartgame" "Restart the round after a delay in seconds."
        "mp_restartgame <seconds>"
    ∷ command_with "changelevel" "Switch to a different map." "changelevel <mapname>"
    ∷ command_with "bot_add" "Add a bot to a team." "bot_add [T|CT]"
    ∷ command_with "sv_cheats" "Toggle cheat-protected commands." "sv_cheats <0|1>"
    ∷ command_with "kick" "Disconnect a player by name or slot." "kick <name|#userid>"
    ∷ command "mp_warmup_start" "Force the warmup period to begin."
    ∷ command_with "host_workshop_map" "Load a Workshop map by its published file ID."
        "host_workshop_map <workshop_id>"
    ∷ []

abbrev pub cs2_template : GameTemplate
cs2_template = record {
  id = codes "cs2";
  name = codes "Counter-Strike 2";
  default_port = some 27015;
  caveats = codes "Configuration is cvars set via console, not enumerable over RCON." ∷ [];
  capabilities = game_capabilities false false true;
  write_template = none;
  options = [];
  commands = cs2_commands;
}
