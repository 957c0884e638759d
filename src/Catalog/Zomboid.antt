-- ===== src/Catalog/Zomboid.antt =====
-- web/src/catalog/zomboid.ts: the curated RCON surface of Project Zomboid.
use rcon_ui.Base.{List, [], ◌∷◌, ◌++◌, true, some}
use rcon_ui.Text.{codes}
use rcon_ui.Catalog.Types.{
  CatalogCommand, CatalogOption, GameTemplate, command, command_with, entry, game_capabilities,
  requiring_restart, with_max, with_min,
}

-- Server
abbrev pub zomboid_server_options : List CatalogOption
zomboid_server_options =
    entry "Public" "true" "Server" "List this server in the public in-game browser."
    ∷ entry "PublicName" "My Zomboid Server" "Server" "Name shown in the server browser."
    ∷ entry "PublicDescription" "Whitelisted PvE server, mods: Brita's, ORGM" "Server"
        "Short blurb shown in the server browser listing."
    ∷ requiring_restart (
        with_min 1 (
          with_max 100 (
            entry "MaxPlayers" "32" "Server"
              "Player slots. Read at startup; takes effect after the next restart.")))
    ∷ entry "Open" "true" "Server" "Allow joining without whitelist approval."
    ∷ with_min 0 (
        with_max 999
          (entry "PingLimit" "400" "Server" "Kick players whose ping stays above this (ms)."))
    ∷ entry "AutoCreateUserInWhiteList" "false" "Server"
        "Automatically whitelist a username the first time it logs in."
    ∷ entry "DisplayUserName" "true" "Server" "Show player names above their characters."
    ∷ entry "ServerWelcomeMessage" "Welcome! Read the rules in #info." "Server"
        "Message shown in chat when a player joins."
    ∷ entry "LoginQueueEnabled" "false" "Server"
        "Queue joins when the server is full instead of rejecting them."
    ∷ with_min 0 (
        entry "LoginQueueConnectTimeout" "60" "Server"
          "Seconds a queued connection is held before it's dropped.")
    ∷ []

-- Gameplay
abbrev pub zomboid_gameplay_options : List CatalogOption
zomboid_gameplay_options =
    entry "PVP" "true" "Gameplay" "Player-versus-player damage anywhere outside safe zones."
    ∷ with_min 0 (
        with_max 500 (
          entry "PVPMeleeDamageModifier" "30" "Gameplay"
            "Melee damage multiplier (%) applied to PVP hits."))
    ∷ with_min 0 (
        with_max 500 (
          entry "PVPFirearmDamageModifier" "50" "Gameplay"
            "Firearm damage multiplier (%) applied to PVP hits."))
    ∷ entry "PauseEmpty" "true" "Gameplay" "Freeze world time while nobody is online."
    ∷ entry "AnnounceDeath" "true" "Gameplay" "Broadcast a chat line when a player dies."
    ∷ with_min 0 (with_max 200 (entry "SpeedLimit" "70" "Gameplay" "Vehicle speed cap."))
    ∷ entry "KnockedDownAllowed" "true" "Gameplay" "Players can be knocked down in melee."
    ∷ entry "SleepAllowed" "true" "Gameplay" "Players can sleep in beds to pass time."
    ∷ entry "SleepNeeded" "false" "Gameplay" "Players suffer stat penalties if they don't sleep."
    ∷ entry "PlayerRespawnWithSelf" "false" "Gameplay"
        "New character spawns with the same inventory as the last death."
    ∷ entry "PlayerRespawnWithOther" "false" "Gameplay"
        "New character can loot their own corpse's items from another player."
    ∷ []

-- Safehouses
abbrev pub zomboid_safehouses_options : List CatalogOption
zomboid_safehouses_options =
    entry "SafehouseAllowTrepass" "true" "Safehouses" "Non-members may enter claimed safehouses."
    ∷ entry "SafehouseAllowFire" "false" "Safehouses"
        "Non-members may start fires inside claimed safehouses."
    ∷ entry "SafehouseAllowLoot" "false" "Safehouses"
        "Non-members may loot containers inside claimed safehouses."
    ∷ entry "SafehouseAllowRespawn" "false" "Safehouses"
        "Players may set a claimed safehouse as their respawn point."
    ∷ with_min 0 (
        entry "SafehouseDaySurvivedToClaim" "0" "Safehouses"
          "In-game days a player must survive before claiming a safehouse.")
    ∷ with_min 0 (
        entry "SafeHouseRemovalTime" "144" "Safehouses"
          "Hours of inactivity before an unclaimed safehouse is released.")
    ∷ []

-- Saving & Backups
abbrev pub zomboid_saving_backups_options : List CatalogOption
zomboid_saving_backups_options =
    with_min 1 (entry "SaveWorldEveryMinutes" "15" "Saving" "World autosave interval.")
    ∷ requiring_restart
        (entry "BackupsOnStart" "true" "Saving" "Snapshot the world each time the server boots.")
    ∷ entry "BackupsOnVersionChange" "true" "Saving"
        "Snapshot the world when the game build changes."
    ∷ with_min 0 (entry "BackupsPeriod" "30" "Saving" "Minutes between periodic world backups.")
    ∷ with_min 0 (
        entry "BackupsCount" "5" "Saving"
          "Number of rotating backups kept before the oldest is deleted.")
    ∷ []

-- Chat & Voice
abbrev pub zomboid_chat_voice_options : List CatalogOption
zomboid_chat_voice_options =
    entry "GlobalChat" "true" "Chat & Voice" "Enable the all-players chat channel."
    ∷ entry "VoiceEnable" "true" "Chat & Voice" "Allow in-game proximity voice chat."
    ∷ entry "Voice3D" "true" "Chat & Voice"
        "Attenuate voice volume by in-game distance and direction."
    ∷ []

abbrev pub zomboid_commands : List CatalogCommand
zomboid_commands =
    command "players" "List connected players."
    ∷ command_with "kickuser" "Disconnect a player from the server." "kickuser \"playername\""
    ∷ command_with "banuser" "Ban a player by username." "banuser \"playername\" [-ip] [-r reason]"
    ∷ command_with "unbanuser" "Remove a username from the ban list." "unbanuser \"playername\""
    ∷ command_with "grantadmin" "Grant admin rights to a player." "grantadmin \"playername\""
    ∷ command_with "removeadmin" "Revoke admin rights from a player." "removeadmin \"playername\""
    ∷ command_with "servermsg" "Broadcast a message to all players." "servermsg \"message text\""
    ∷ command "save" "Force an immediate world save."
    ∷ command "quit" "Save and shut down the server."
    ∷ command_with "teleport" "Teleport one player to another." "teleport \"player\" \"toPlayer\""
    ∷ []

abbrev pub zomboid_template : GameTemplate
zomboid_template = record {
  id = codes "zomboid";
  name = codes "Project Zomboid";
  default_port = some 27015;
  caveats =
      codes
        "The options dump (showoptions) only lists keys the running build recognizes -- mod-added settings and newer keys can be missing from a given server's list."
      ∷ codes
          "Some options only take effect after the server restarts (see the restart badge below); a live changeoption still succeeds but does nothing until then."
      ∷ [];
  capabilities = game_capabilities true true true;
  write_template = some (codes "changeoption {key} \"{value}\"");
  options =
      zomboid_server_options
      ++ (zomboid_gameplay_options
          ++ (zomboid_safehouses_options
              ++ (zomboid_saving_backups_options ++ zomboid_chat_voice_options)));
  commands = zomboid_commands;
}
