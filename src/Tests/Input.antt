-- ===== src/Tests/Input.antt =====
-- The prompt and the command palette.
use rcon_ui.Base.{◌≡◌, refl, false, none, some, List, [], ◌∷◌, arith, length}
use mathlib.Core.List.{Memᴰ}
use rcon_ui.Text.{Text, codes, starts_with}
use rcon_ui.Text.Trim.{trim}
use rcon_ui.CommandInput.{Input, submit, tab}
use rcon_ui.CommandInput.Browse.{press_up, press_down, press_down-press_up}
use rcon_ui.CommandPalette.{
  Command, PaletteEvent, type, hover, arrow_down, opened, palette_matches, enter,
}
use rcon_ui.CommandPalette.Keys.{react_all, enter-react_all}
use rcon_ui.Tests.{ascii_lower}

abbrev history : List Text
history = codes "kick bob" ∷ codes "players" ∷ []

abbrev line : Input
line = record { value = codes " say hi "; cursor = 0; draft = [] }

press_down-press_up_example :
    (r : Input) × (press_down history 4 (press_up history 3 line) ≡ some r)
    × (r.value ≡ codes " say hi ")
    × (r.cursor ≡ 0)
press_down-press_up_example = press_down-press_up history line 3 4 refl (omega arith)

submit_test :
    submit false line ≡ (some (codes "say hi"), record { value = []; cursor = 0; draft = [] })
unfolding submit
submit_test = refl

abbrev started : Input
started = record { value = codes "pl x"; cursor = 0; draft = [] }

abbrev names : List Text
names = codes "kick" ∷ codes "players" ∷ []

tab_test : tab names started ≡ record started { value = codes "players x" }
unfolding tab starts_with rcon_ui.Text.◌===◌
tab_test = refl

abbrev command : Text → Command Text
command name = record { id = name; label = name; hint = none; run = name }

abbrev commands : List (Command Text)
commands = command (codes "Settings") ∷ command (codes "Console") ∷ command (codes "Templates") ∷ []

abbrev events : List PaletteEvent
events = arrow_down ∷ type (codes " set") ∷ arrow_down ∷ hover 5 ∷ []

one_match :
    length
      (palette_matches ascii_lower commands (react_all ascii_lower commands events opened).query)
    ≡ 1
unfolding palette_matches trim rcon_ui.CommandPalette.react rcon_ui.Text.includes starts_with
one_match = refl

enter-react_all_example :
    (c : Command Text) × Memᴰ c
      (palette_matches ascii_lower commands (react_all ascii_lower commands events opened).query)
    × (enter ascii_lower commands (react_all ascii_lower commands events opened) ≡ some c.run)
enter-react_all_example = enter-react_all ascii_lower commands events (omega (arith, one_match))
