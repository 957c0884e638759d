-- ===== src/Probe/Zomboid.antt =====
-- internal/discovery/zomboid.go: the answers of a Project Zomboid server.
use rcon_ui.Base.{
  ℕ, Bool, true, false, not, ◌||◌, Option, none, some, List, [], ◌∷◌, ◌++◌, ◌==◌, if◌then◌else◌,
  is_some,
}
use rcon_ui.Text.{Text, codes, includes}
use rcon_ui.Discovery.{DiscoveredOption, DiscoveredCommand}
use rcon_ui.Probe.White.{trim_space}
use rcon_ui.Probe.Pattern.{
  skip_blanks, some_blanks, solid_run, take_run, to_lower, after_fold, is_letter, lines, gather,
}
use rcon_ui.Probe.Filter.{infer_type}
use rcon_ui.Text.Decimal.{is_digit}

-- `zomboidWriteTemplate`
abbrev pub zomboid_write_template : Text
zomboid_write_template = codes "changeoption {key} \"{value}\""

abbrev pub is_key_code : ℕ → Bool
is_key_code c = is_letter c || (is_digit c || ((c == b'_') || (c == b'.')))

-- The optional mark at the start of a line.
abbrev pub skip_mark : Text → Text
skip_mark [] = []
skip_mark (c ∷ s) = if c == b'*' then s else c ∷ s

-- What stands after the key: the sign, and the value.
unfoldable pub option_value : Text → Option Text
unfolding skip_blanks
option_value [] = none
option_value (c ∷ s) = if c == b'=' then some (skip_blanks s) else none

unfoldable pub key_value : Text → Option (Text × Text)
unfolding take_run skip_blanks
key_value [] = none
key_value (c ∷ s) =
    let (rest_of_key, after) = take_run is_key_code s in
    if is_letter c
    then (elim (option_value (skip_blanks after)) [
      | none ↦ none
      | some value ↦ some (c ∷ rest_of_key, value)
    ])
    else none

-- `zomboidOptionLine`: the key and the value.
unfoldable pub option_line : Text → Option (Text × Text)
unfolding skip_blanks
option_line line = key_value (skip_blanks (skip_mark line))

-- An option with the type of its value.
unfoldable pub typed_option : (Text → Bool) → Text → Text → DiscoveredOption
unfolding infer_type trim_space
typed_option is_float key value = record {
  key = key;
  value = trim_space value;
  type = infer_type is_float (trim_space value);
}

abbrev pub typed_pair : (Text → Bool) → Option (Text × Text) → Option DiscoveredOption
typed_pair is_float none = none
typed_pair is_float (some (key, value)) = some (typed_option is_float key value)

-- One line of a dump. A blank line has no key.
unfoldable pub read_option : (Text → Bool) → Text → Option DiscoveredOption
unfolding option_line trim_space typed_option
read_option is_float line = typed_pair is_float (option_line (trim_space line))

unfoldable pub parse_zomboid_options : (Text → Bool) → Text → List DiscoveredOption
unfolding gather
parse_zomboid_options is_float reply = gather (read_option is_float) (lines reply)

abbrev pub is_nil {ℓ} : {A : Type ℓ} → List A → Bool
is_nil [] = true
is_nil (x ∷ xs) = false

unfoldable pub looks_like_zomboid_options : (Text → Bool) → Text → Bool
unfolding includes parse_zomboid_options
looks_like_zomboid_options is_float reply =
    includes (to_lower reply) (codes "list of server options")
    || not (is_nil (parse_zomboid_options is_float reply))

-- What stands before the last colon, and after it.
abbrev pub last_colon : Text → Option (Text × Text)
last_colon [] = none
last_colon (c ∷ s) = elim (last_colon s) [
  | some (before, after) ↦ some (c ∷ before, after)
  | none ↦ if c == b':' then some ([], s) else none
]

-- A name that ends inside its run, which is the longest that a colon follows.
unfoldable pub name_in : Text → Text → Option (Text × Text)
unfolding skip_blanks
name_in [] after = none
name_in (c ∷ run) after = elim (last_colon run) [
  | none ↦ none
  | some (name, rest) ↦ some (c ∷ name, skip_blanks (rest ++ after))
]

-- The whole run is the name when a colon stands after the blanks that end it.
unfoldable pub named : Text → Text → Text → Option (Text × Text)
unfolding skip_blanks
named run after [] = name_in run after
named run after (c ∷ s) = if c == b':' then some (run, skip_blanks s) else name_in run after

unfoldable pub help_name : Text → Option (Text × Text)
unfolding skip_blanks solid_run
help_name s = let (run, after) = solid_run (skip_blanks s) in named run after (skip_blanks after)

-- `zomboidHelpLine`: the name and the description.
unfoldable pub help_line : Text → Option (Text × Text)
help_line [] = none
help_line (c ∷ s) = if c == b'*' then help_name s else none

-- The text before the first `Use:`, and the text after it.
unfoldable pub cut_use : Text → Option (Text × Text)
unfolding after_fold
cut_use [] = none
cut_use (c ∷ s) =
    let later = cut_use s in
    elim (after_fold (codes "use:") (c ∷ s)) [
      | some rest ↦ some ([], rest)
      | none ↦ elim later [ none ↦ none | some (before, after) ↦ some (c ∷ before, after) ]
    ]

unfoldable pub starts_example : Text → Bool
unfolding after_fold skip_blanks
starts_example s = elim (some_blanks s) [
  | none ↦ false
  | some rest ↦ is_some (after_fold (codes "example:") rest)
]

-- The text up to the blanks before `Example:`.
abbrev pub until_example : Text → Text
until_example [] = []
until_example (c ∷ s) =
    let rest = until_example s in if starts_example (c ∷ s) then [] else c ∷ rest

-- The fragment moves from the description to the usage.
unfoldable pub move_usage : Text → Text → DiscoveredCommand
unfolding skip_blanks trim_space
move_usage name desc = elim (cut_use desc) [
  | none ↦ record { name = name; description = desc; usage = [] }
  | some (before, after) ↦ record {
    name = name;
    description = trim_space before;
    usage = trim_space (until_example (skip_blanks after));
  }
]

unfoldable pub read_command : Text → Option DiscoveredCommand
unfolding help_line trim_space
read_command line = elim (help_line (trim_space line)) [
  | none ↦ none
  | some (name, desc) ↦ some (move_usage name (trim_space desc))
]

unfoldable pub parse_zomboid_help : Text → List DiscoveredCommand
unfolding gather
parse_zomboid_help reply = gather read_command (lines reply)
