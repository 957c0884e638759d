-- ===== src/Catalog/Factorio.antt =====
-- web/src/catalog/factorio.ts: the curated RCON surface of Factorio.
use rcon_ui.Base.{List, [], ◌∷◌, true, false, some, none}
use rcon_ui.Text.{codes}
use rcon_ui.Catalog.Types.{CatalogCommand, GameTemplate, command, command_with, game_capabilities}

abbrev pub factorio_commands : List CatalogCommand
factorio_commands =
    command "/players" "List connected players."
    ∷ command_with "/save" "Save the game, optionally to a named slot." "/save [name]"
    ∷ command_with "/ban" "Ban a player." "/ban <player> [reason]"
    ∷ command_with "/kick" "Disconnect a player." "/kick <player> [reason]"
    ∷ command_with "/whitelist" "Manage the whitelist." "/whitelist <add|remove|get> [player]"
    ∷ command "/server-save" "Force an immediate autosave."
    ∷ command_with "/c" "Execute Lua immediately and print the returned value."
        "/c <lua expression>"
    ∷ command_with "/sc" "Execute Lua silently, with no console echo." "/sc <lua expression>"
    ∷ []

abbrev pub factorio_template : GameTemplate
factorio_template = record {
  id = codes "factorio";
  name = codes "Factorio";
  default_port = some 27015;
  caveats =
      codes "Factorio RCON executes server Lua -- /c and /sc run arbitrary code. No settings dump."
      ∷ [];
  capabilities = game_capabilities false false true;
  write_template = none;
  options = [];
  commands = factorio_commands;
}
