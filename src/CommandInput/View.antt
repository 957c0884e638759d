-- ===== src/CommandInput/View.antt =====
-- web/src/components/CommandInput.tsx: what the prompt shows, and its buttons.
use rcon_ui.Base.{
  ◌≡◌, Bool, true, false, not, ◌||◌, Option, none, some, List, [], ◌∷◌, map, arith, if◌then◌else◌,
  is_some,
}
use rcon_ui.Text.{Text, codes, is_empty}
use rcon_ui.Text.Trim.{trim}
use rcon_ui.App.{Macro}
use rcon_ui.CommandInput.{Input, submit}

-- A macro's button, with its command as the title.
pub record MacroButton : Type 0 where
  pub id : Text
  pub name : Text
  pub title : Text
  pub enabled : Bool

abbrev pub macro_button : Bool → Macro → MacroButton
macro_button disabled m = record {
  id = m.id;
  name = m.name;
  title = m.command;
  enabled = not disabled;
}

abbrev pub placeholder : Bool → List Text → Text
placeholder true names = codes "Not connected"
placeholder false [] = codes "Type a command, ↑ for history"
placeholder false (n ∷ names) = codes "Type a command… (↑ history · Tab completes)"

pub record PromptView : Type 0 where
  pub macros : List MacroButton
  pub value : Text
  pub enabled : Bool
  pub hint : Text
  pub can_send : Bool

unfoldable pub prompt_view : Bool → List Macro → List Text → Input → PromptView
unfolding trim
prompt_view disabled macros names s = record {
  macros = map (macro_button disabled) macros;
  value = s.value;
  enabled = not disabled;
  hint = placeholder disabled names;
  can_send = not (disabled || is_empty (trim s.value));
}

-- A click on a macro submits its command, unless the button is disabled.
unfoldable pub press_macro : Bool → Macro → Option Text
press_macro disabled m = if disabled then none else some m.command

-- The button is enabled exactly when pressing it, or Enter, submits a command.
pub can_send-submit :
    (disabled : Bool) (macros : List Macro) (names : List Text) (s : Input)
    → (prompt_view disabled macros names s).can_send ≡ is_some (submit disabled s).0
unfolding prompt_view submit
can_send-submit disabled macros names s = ground arith
