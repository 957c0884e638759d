-- ===== src/Catalog/ConanExiles.antt =====
-- web/src/catalog/conanexiles.ts: the curated RCON surface of Conan Exiles.
use rcon_ui.Base.{List, [], ◌∷◌, true, false, some, none}
use rcon_ui.Text.{codes}
use rcon_ui.Catalog.Types.{CatalogCommand, GameTemplate, command, command_with, game_capabilities}

abbrev pub conan_exiles_commands : List CatalogCommand
conan_exiles_commands =
    command "listplayers" "List connected players and character names."
    ∷ command_with "kick" "Disconnect a player." "kick <name>"
    ∷ command_with "ban" "Ban a player." "ban <name>"
    ∷ command "save" "Force an immediate world save."
    ∷ command_with "broadcast" "Send a server-wide message." "broadcast <message>"
    ∷ []

abbrev pub conan_exiles_template : GameTemplate
conan_exiles_template = record {
  id = codes "conanexiles";
  name = codes "Conan Exiles";
  default_port = some 25575;
  caveats =
      codes "Command surface only; settings in ServerSettings.ini."
      ∷ codes
          "Public documentation of Conan Exiles' RCON command set is sparse; verify against your server build."
      ∷ [];
  capabilities = game_capabilities false false true;
  write_template = none;
  options = [];
  commands = conan_exiles_commands;
}
