-- ===== src/Catalog/Minecraft.antt =====
-- web/src/catalog/minecraft.ts: the curated RCON surface of Minecraft: Java Edition.
use rcon_ui.Base.{List, [], ◌∷◌, ◌++◌, true, some}
use rcon_ui.Text.{codes}
use rcon_ui.Catalog.Types.{
  CatalogCommand, CatalogOption, GameTemplate, command, command_with, entry, game_capabilities,
  with_max, with_min,
}

-- World
abbrev pub minecraft_world_options : List CatalogOption
minecraft_world_options =
    entry "doDaylightCycle" "true" "World"
      "Advance time normally; disable to freeze the day/night cycle."
    ∷ entry "doWeatherCycle" "true" "World" "Allow weather to change on its own."
    ∷ entry "doFireTick" "true" "World" "Let fire spread and burn out over time."
    ∷ with_min 0 (
        entry "randomTickSpeed" "3" "World"
          "Random block updates applied per loaded chunk section each tick (crop growth, leaf decay, ...).")
    ∷ with_min 0 (
        entry "spawnRadius" "10" "World"
          "Blocks around the world spawn point where new players can appear.")
    ∷ with_min 0 (
        entry "maxEntityCramming" "24" "World"
          "Entities packed into one block before they take suffocation damage.")
    ∷ []

-- Mobs
abbrev pub minecraft_mobs_options : List CatalogOption
minecraft_mobs_options =
    entry "doMobSpawning" "true" "Mobs" "Allow mobs to spawn naturally."
    ∷ entry "doInsomnia" "true" "Mobs"
        "Allow phantoms to spawn from insomnia (players who haven't slept)."
    ∷ entry "doPatrolSpawning" "true" "Mobs" "Allow pillager patrols to spawn."
    ∷ entry "doTraderSpawning" "true" "Mobs" "Allow wandering traders to spawn."
    ∷ entry "mobGriefing" "true" "Mobs"
        "Let mobs change blocks (creeper craters, enderman pickups, ...)."
    ∷ entry "universalAnger" "false" "Mobs"
        "Neutral mobs angered by any player attack anyone nearby, not just the attacker."
    ∷ entry "forgiveDeadPlayers" "true" "Mobs"
        "Stop neutral mobs from staying angry at a player who has died."
    ∷ []

-- Player
abbrev pub minecraft_player_options : List CatalogOption
minecraft_player_options =
    entry "keepInventory" "false" "Player" "Players keep their inventory and XP on death."
    ∷ entry "naturalRegeneration" "true" "Player"
        "Players regenerate health automatically when hunger allows."
    ∷ entry "doImmediateRespawn" "false" "Player" "Skip the death screen and respawn immediately."
    ∷ entry "fallDamage" "true" "Player" "Players and mobs take damage from falling."
    ∷ entry "fireDamage" "true" "Player" "Players and mobs take damage from fire and lava."
    ∷ entry "drowningDamage" "true" "Player" "Players and mobs take damage from drowning."
    ∷ entry "freezeDamage" "true" "Player" "Players and mobs take damage from powder snow."
    ∷ with_min 0 (
        with_max 100 (
          entry "playersSleepingPercentage" "100" "Player"
            "Percentage of online players who must sleep to skip the night."))
    ∷ []

-- Admin & Feedback
abbrev pub minecraft_admin_feedback_options : List CatalogOption
minecraft_admin_feedback_options =
    entry "announceAdvancements" "true" "Admin & Feedback"
      "Broadcast advancement completions in chat."
    ∷ entry "commandBlockOutput" "true" "Admin & Feedback"
        "Broadcast command block output to admins."
    ∷ entry "logAdminCommands" "true" "Admin & Feedback" "Log admin command usage to the console."
    ∷ entry "sendCommandFeedback" "true" "Admin & Feedback" "Show command feedback in chat."
    ∷ entry "showDeathMessages" "true" "Admin & Feedback"
        "Broadcast a chat line when a player dies."
    ∷ entry "reducedDebugInfo" "false" "Admin & Feedback"
        "Hide detailed information from the client's F3 debug screen."
    ∷ with_min 1 (
        entry "maxCommandChainLength" "65536" "Admin & Feedback"
          "Maximum commands a single command block chain can execute.")
    ∷ entry "doLimitedCrafting" "false" "Admin & Feedback"
        "Require a recipe to be unlocked before it can be crafted."
    ∷ entry "disableElytraMovementCheck" "false" "Admin & Feedback"
        "Disable the anti-cheat check for fast elytra movement."
    ∷ []

abbrev pub minecraft_commands : List CatalogCommand
minecraft_commands =
    command "list" "List connected players."
    ∷ command_with "say" "Broadcast a message in chat." "say <message>"
    ∷ command_with "kick" "Disconnect a player." "kick <player> [reason]"
    ∷ command_with "ban" "Ban a player." "ban <player> [reason]"
    ∷ command_with "pardon" "Remove a ban." "pardon <player>"
    ∷ command_with "op" "Grant operator status." "op <player>"
    ∷ command_with "deop" "Revoke operator status." "deop <player>"
    ∷ command "save-all" "Force a world save."
    ∷ command "stop" "Save and shut down the server."
    ∷ command_with "gamemode" "Change a player's game mode."
        "gamemode <survival|creative|adventure|spectator> <player>"
    ∷ []

abbrev pub minecraft_template : GameTemplate
minecraft_template = record {
  id = codes "minecraft";
  name = codes "Minecraft: Java Edition";
  default_port = some 25575;
  caveats =
      codes
        "gamerule only covers vanilla rules read at query time -- data pack- or plugin-added rules can be missing from a given server's list."
      ∷ codes
          "server.properties settings (difficulty, view-distance, ...) are not gamerules and are not covered here; changing most of them still requires a restart."
      ∷ [];
  capabilities = game_capabilities true true true;
  write_template = some (codes "gamerule {key} {value}");
  options =
      minecraft_world_options
      ++ (minecraft_mobs_options ++ (minecraft_player_options ++ minecraft_admin_feedback_options));
  commands = minecraft_commands;
}
