-- ===== src/App/Page.antt =====
-- web/src/App.tsx: what the application shows beside the rail (the markup of App, StatusBadge,
-- TabButton and DiscoveryStrip, by the texts, the buttons and the panels that stand in it).
use rcon_ui.Base.{
  ℕ, Bool, true, false, not, ◌||◌, Option, none, some, List, [], ◌∷◌, ◌++◌, map, if◌then◌else◌,
  length,
}
use rcon_ui.Text.{Text, codes, is_empty}
use rcon_ui.Discovery.{DiscoveryReport, DiscoveredCommand}
use rcon_ui.Sidebar.{Server, Status, connected, connecting, auth_failed, disconnected}
use rcon_ui.CommandInput.{Prefill}
use rcon_ui.App.{Tab, settings, commands, console, server, templates, State, Macro, selected}

abbrev pub status_label : Status → Text
status_label connected = codes "connected"
status_label connecting = codes "connecting…"
status_label auth_failed = codes "auth failed"
status_label disconnected = codes "disconnected"

abbrev pub is_connected : Status → Bool
is_connected connected = true
is_connected _ = false

abbrev pub is_auth_failed : Status → Bool
is_auth_failed auth_failed = true
is_auth_failed _ = false

abbrev pub same_tab : Tab → Tab → Bool
same_tab settings settings = true
same_tab commands commands = true
same_tab console console = true
same_tab _ _ = false

pub record TabButton : Type 0 where
  pub opens : Tab
  pub count : Option ℕ
  pub active : Bool

-- `report?.capabilities.options ?? true`, and the same of the commands.
abbrev pub options_offered : Option DiscoveryReport → Bool
options_offered none = true
options_offered (some r) = r.capabilities.options

abbrev pub commands_offered : Option DiscoveryReport → Bool
commands_offered none = true
commands_offered (some r) = r.capabilities.commands

abbrev pub options_count : Option DiscoveryReport → Option ℕ
options_count none = none
options_count (some r) = some (length r.options)

abbrev pub commands_count : Option DiscoveryReport → Option ℕ
commands_count none = none
commands_count (some r) = some (length r.commands)

abbrev pub button : Tab → Tab → Option ℕ → TabButton
button tab t count = record { opens = t; count = count; active = same_tab tab t }

unfoldable pub tab_buttons : Option DiscoveryReport → Tab → List TabButton
tab_buttons report tab =
    (if options_offered report then button tab settings (options_count report) ∷ [] else [])
    ++ ((if commands_offered report then button tab commands (commands_count report) ∷ [] else [])
        ++ button tab console none ∷ [])

-- What is given to the panel of the tab.
pub data TabPanel : Type 0 where
  settings_panel commands_panel : Text → Bool → Option DiscoveryReport → TabPanel
  console_panel : Text → Bool → List Text → List Macro → List Text → Option Prefill → TabPanel

abbrev pub empty_hint : Status → Text
empty_hint connected =
    codes
      "Connected. Type a command below — RCON shows replies to what you send, not a live server log."
empty_hint _ = codes "Not connected yet."

abbrev pub command_names : Option DiscoveryReport → List Text
command_names none = []
command_names (some r) = map (λ (c : DiscoveredCommand). c.name) r.commands

unfoldable pub tab_panel : State → Server → TabPanel
tab_panel s shown = elim s.tab [
  | settings ↦ settings_panel shown.id (is_connected shown.status) s.report
  | commands ↦ commands_panel shown.id (is_connected shown.status) s.report
  | console ↦
      console_panel (empty_hint shown.status) (not (is_connected shown.status)) s.history s.macros
        (command_names s.report) s.prefill
]

-- The strip's chips in order, and its button.
pub data Chip : Type 0 where
  label failure : Text → Chip
  options_chip commands_chip : ℕ → Chip
  options_mark write_mark : Bool → Chip
  not_discovered : Chip

pub record Strip : Type 0 where
  pub chips : List Chip
  pub rescan_disabled : Bool
  pub rescan_label : Text

abbrev pub report_chips : Option DiscoveryReport → List Chip
report_chips none = not_discovered ∷ []
report_chips (some r) =
    label r.label
    ∷ ((if r.capabilities.options then options_chip (length r.options) ∷ [] else [])
        ++ ((if r.capabilities.commands then commands_chip (length r.commands) ∷ [] else [])
            ++ options_mark r.capabilities.options ∷ (write_mark r.capabilities.option_write ∷ [])))

-- An empty error is not shown.
abbrev pub failure_chip : Option Text → List Chip
failure_chip none = []
failure_chip (some message) = if is_empty message then [] else failure message ∷ []

unfoldable pub discovery_strip : State → Server → Strip
discovery_strip s shown = record {
  chips = report_chips s.report ++ failure_chip s.report_error;
  rescan_disabled = s.rescanning || not (is_connected shown.status);
  rescan_label = if s.rescanning then codes "scanning…" else codes "↻ re-scan";
}

-- The page of a server; `can_disconnect` tells which of the two buttons stands there.
pub record ServerPage : Type 0 where
  pub title : Text
  pub subtitle : Text
  pub badge : Text
  pub can_disconnect : Bool
  pub password_refused : Bool
  pub strip : Strip
  pub tabs : List TabButton
  pub panel : TabPanel

pub data Main : Type 0 where
  catalog no_server : Main
  unreachable : Text → Main
  server_page : ServerPage → Main

unfoldable pub page_of : State → Server → ServerPage
unfolding tab_buttons tab_panel discovery_strip
page_of s shown = record {
  title = shown.name;
  subtitle = shown.addr ++ (codes " · " ++ shown.protocol);
  badge = status_label shown.status;
  can_disconnect = is_connected shown.status;
  password_refused = is_auth_failed shown.status;
  strip = discovery_strip s shown;
  tabs = tab_buttons s.report s.tab;
  panel = tab_panel s shown;
}

abbrev pub selected_page : State → Option Server → Main
selected_page s none = no_server
selected_page s (some shown) = server_page (page_of s shown)

-- An empty load error does not count.
abbrev pub load_failure : Option Text → Option Text
load_failure none = none
load_failure (some []) = none
load_failure (some (c ∷ cs)) = some (c ∷ cs)

abbrev pub reachable_page : State → Option Text → Main
reachable_page s (some message) = unreachable message
reachable_page s none = selected_page s (selected s)

unfoldable pub main_page : State → Main
unfolding page_of selected
main_page s = elim s.view [
  | templates ↦ catalog
  | server ↦ reachable_page s (load_failure s.load_error)
]
