-- ===== src/App/Palette.antt =====
-- web/src/App.tsx: the list of commands that the palette offers, and what each of them does.
pub mod Ids
use rcon_ui.Base.{
  ◌/◌, Bool, false, Option, none, some, List, [], ◌∷◌, ◌++◌, map, if◌then◌else◌, take,
}
use rcon_ui.Text.{Text, codes}
use rcon_ui.Discovery.{DiscoveryReport}
use rcon_ui.Sidebar.{Server}
use rcon_ui.CommandPalette.{Command}
use rcon_ui.App.{State, Macro, Tab, settings, commands, selected}

-- What an entry runs; the calls to the daemon are named, and `delete` asks first.
pub data Run : Type 0 where
  open_dialog : Option Server → Run
  toggle_theme open_templates rescan : Run
  connect disconnect delete : Text → Run
  choose : Tab → Run
  execute : Text → Run

abbrev entry : Text → Text → Run → Command Run
entry id label run = record { id = id; label = label; hint = none; run = run }

abbrev pub general : List (Command Run)
general =
    entry (codes "add") (codes "Add server…") (open_dialog none)
    ∷ entry (codes "theme") (codes "Toggle light / dark") toggle_theme
    ∷ entry (codes "open-templates") (codes "Browse templates") open_templates
    ∷ []

abbrev quoted : Text → Server → Text → Text
quoted verb s tail = verb ++ codes " “" ++ s.name ++ codes "”" ++ tail

abbrev pub of_server : Server → List (Command Run)
of_server s =
    entry (codes "edit") (quoted (codes "Edit") s (codes "…")) (open_dialog (some s))
    ∷ entry (codes "connect") (quoted (codes "Reconnect") s []) (connect s.id)
    ∷ entry (codes "disconnect") (quoted (codes "Disconnect") s []) (disconnect s.id)
    ∷ entry (codes "rescan") (quoted (codes "Re-scan") s []) rescan
    ∷ entry (codes "delete") (quoted (codes "Delete") s (codes "…")) (delete s.id)
    ∷ []

abbrev pub has_options : Option DiscoveryReport → Bool
has_options none = false
has_options (some r) = r.capabilities.options

abbrev pub has_commands : Option DiscoveryReport → Bool
has_commands none = false
has_commands (some r) = r.capabilities.commands

abbrev pub of_report : Option DiscoveryReport → List (Command Run)
of_report r =
    (if has_options r
      then entry (codes "open-settings") (codes "Open settings") (choose settings) ∷ []
      else [])
    ++ (if has_commands r
        then entry (codes "open-commands") (codes "Open commands") (choose commands) ∷ []
        else [])

abbrev pub of_macro : Macro → Command Run
of_macro m = record {
  id = codes "macro-" ++ m.id;
  label = m.name;
  hint = some m.command;
  run = execute m.command;
}

abbrev pub of_history : Text → Command Run
of_history cmd = record {
  id = codes "history-" ++ cmd;
  label = cmd;
  hint = some (codes "recent");
  run = execute cmd;
}

-- The first entries of the history alone are offered.
abbrev pub recent : List Text → List Text
recent history = take 20 history

-- The whole list, by the server selected.
abbrev pub entries : Option Server → State → List (Command Run)
entries none s = general
entries (some server) s =
    (general ++ of_server server ++ of_report s.report)
    ++ (map of_macro s.macros ++ map of_history (recent s.history))

unfoldable pub palette_commands : State → List (Command Run)
palette_commands s = entries (selected s) s
