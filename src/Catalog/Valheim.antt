-- ===== src/Catalog/Valheim.antt =====
-- web/src/catalog/valheim.ts: the curated RCON surface of Valheim.
use rcon_ui.Base.{List, [], ◌∷◌, false, some, none}
use rcon_ui.Text.{codes}
use rcon_ui.Catalog.Types.{CatalogCommand, GameTemplate, command, command_with, game_capabilities}

abbrev pub valheim_commands : List CatalogCommand
valheim_commands =
    command "save" "Force an immediate world save (requires a server-side RCON mod)."
    ∷ command_with "kick" "Disconnect a player (mod-dependent syntax)." "kick <name>"
    ∷ command_with "ban" "Ban a player (mod-dependent syntax)." "ban <name>"
    ∷ []

abbrev pub valheim_template : GameTemplate
valheim_template = record {
  id = codes "valheim";
  name = codes "Valheim";
  default_port = some 2456;
  caveats =
      codes
        "Valheim has NO native RCON -- it requires a server mod (e.g. a BepInEx RCON plugin); command set depends on the mod. Listed for reference."
      ∷ [];
  capabilities = game_capabilities false false false;
  write_template = none;
  options = [];
  commands = valheim_commands;
}
