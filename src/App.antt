-- ===== src/App.antt =====
-- web/src/App.tsx: the state of the application and its handlers. Each handler is the run of state
-- updates between two awaits; what the daemon answers is an argument. The effects that React runs
-- after a render are composed in where the code's dependencies make them run. The list of protocols
-- and the events of the console are left out of the state.
pub mod Selection
pub mod History
pub mod Async
pub mod Reports
pub mod Calm
pub mod Stale
pub mod Palette
pub mod Refetch
pub mod Page
pub mod Served
pub mod Rail
pub mod Tabs
use rcon_ui.Base.{
  ℕ, Bool, true, false, not, ◌||◌, Option, none, some, List, [], ◌∷◌, ◌==◌, if◌then◌else◌, coalesce,
  filter,
}
use rcon_ui.Text.{Text, ◌===◌}
use rcon_ui.Text.Keyed.{find_key, has_key}
use rcon_ui.Discovery.{DiscoveryReport}
use rcon_ui.Sidebar.{Server}
use rcon_ui.CommandInput.{Prefill}
use rcon_ui.Api.Request.{Outcome, value, api_error, other_error}

pub data Tab : Type 0 where
  settings commands console : Tab

pub data View : Type 0 where
  server templates : View

pub record Macro : Type 0 where
  pub id : Text
  pub server_id : Option Text
  pub name : Text
  pub command : Text
  pub position : ℕ

pub record Dialog : Type 0 where
  pub open? : Bool
  pub server : Option Server

pub record State : Type 0 where
  pub servers : List Server
  pub selected_id : Option Text
  pub macros : List Macro
  pub history : List Text
  pub dialog : Dialog
  pub palette_open : Bool
  pub load_error : Option Text
  pub view : View
  pub report : Option DiscoveryReport
  pub report_error : Option Text
  pub rescanning : Bool
  pub tab : Tab
  pub tab_touched : Bool
  pub prefill : Option Prefill
  pub stored_id : Option Text

unfoldable pub default_tab : Option DiscoveryReport → Tab
default_tab none = console
default_tab (some r) =
    if r.capabilities.options
    then settings
    else if r.capabilities.commands
    then commands
    else console

abbrev pub server_id : Server → Text
server_id s = s.id

-- `servers.find((s) => s.id === selectedId) ?? null`
unfoldable pub selected : State → Option Server
selected s = elim s.selected_id [ none ↦ none | some id ↦ find_key server_id id s.servers ]

abbrev first_id : List Server → Option Text
first_id [] = none
first_id (s ∷ ss) = some s.id

-- `current && list.some((s) => s.id === current) ? current : (list[0]?.id ?? null)`
unfoldable pub keep_selection : List Server → Option Text → Option Text
keep_selection list none = first_id list
keep_selection list (some []) = first_id list
keep_selection list (some (c ∷ cs)) =
    if has_key server_id (c ∷ cs) list then some (c ∷ cs) else first_id list

-- `refreshServers`, by what the request settles to.
unfoldable pub servers_loaded : List Server → State → State
unfolding keep_selection
servers_loaded list s = record s {
  servers = list;
  load_error = none;
  selected_id = keep_selection list s.selected_id;
}

unfoldable pub servers_failed : Text → State → State
servers_failed message s = record s { load_error = some message }

-- `setReport`, with the effect on `[report]`: it runs unless null stays null, and moves the tab
-- unless the user has chosen one.
abbrev pub report_stays : Option DiscoveryReport → Option DiscoveryReport → Bool
report_stays none none = true
report_stays _ _ = false

unfoldable pub set_report : Option DiscoveryReport → State → State
unfolding default_tab
set_report r s =
    if report_stays s.report r || s.tab_touched
    then record s { report = r }
    else record s { report = r; tab = default_tab r }

-- `refreshDiscovery`: a 404 is the normal state of a server never discovered.
unfoldable pub discovery_settled : Outcome DiscoveryReport → State → State
unfolding set_report
discovery_settled (value r) s = record (set_report r s) { report_error = none }
discovery_settled (api_error status message) s = record (set_report none s) {
  report_error = if status == 404 then none else some message;
}
discovery_settled (other_error message) s = record (set_report none s) {
  report_error = some message;
}

-- The effect on a new `selectedId`: none and "" clear what was shown of a server.
unfoldable pub on_selected : Option Text → State → State
unfolding set_report
on_selected id s = elim (coalesce id []) [
  | [] ↦ record (set_report none s) { macros = []; history = []; report_error = none }
  | c ∷ cs ↦ record s { stored_id = some (c ∷ cs); tab_touched = false; tab = console }
]

-- A click on a server of the rail; the effect runs if the id is another one.
abbrev pub same_id : Option Text → Text → Bool
same_id none id = false
same_id (some old) id = old === id

unfoldable pub select : Text → State → State
unfolding on_selected
select id s =
    let s' : State = record s { view = server; selected_id = some id } in
    if same_id s.selected_id id then s' else on_selected (some id) s'

unfoldable pub macros_settled : Option (List Macro) → State → State
macros_settled list s = record s { macros = coalesce list [] }

unfoldable pub history_settled : Option (List Text) → State → State
history_settled list s = record s { history = coalesce list [] }

unfoldable pub choose_tab : Tab → State → State
choose_tab t s = record s { tab_touched = true; tab = t }

-- The local half of `execute`; the command then goes to the daemon.
unfoldable pub remember : Text → List Text → List Text
remember command history = command ∷ filter (λ c. not (c === command)) history

unfoldable pub execute : Text → State → State
unfolding remember
execute command s = elim (coalesce s.selected_id []) [
  | [] ↦ s
  | c ∷ cs ↦ record s { history = remember command s.history }
]

unfoldable pub run_prefill : Text → ℕ → State → State
unfolding choose_tab
run_prefill command now s = record (choose_tab console s) {
  prefill = some (record { text = command; nonce = now });
}

unfoldable pub rescan_started : State → State
rescan_started s = record s { rescanning = true }

-- A failed scan keeps the report and shows the error beside it.
unfoldable pub rescan_settled : Outcome DiscoveryReport → State → State
unfolding set_report
rescan_settled (value r) s = record (set_report r s) { report_error = none; rescanning = false }
rescan_settled (api_error status message) s = record s {
  report_error = some message;
  rescanning = false;
}
rescan_settled (other_error message) s = record s {
  report_error = some message;
  rescanning = false;
}
