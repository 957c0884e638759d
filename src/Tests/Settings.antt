-- ===== src/Tests/Settings.antt =====
-- The settings panel on two options of a Zomboid server.
use mathlib.Core.List.{Memᴰ}
use rcon_ui.Settings.Apply.{answered, apply_changed}
use rcon_ui.Tests.{report, Without-of_lacks}
use rcon_ui.Settings.{Row, Panel, set_value, rows, dirty_keys, preview, apply, build_command}
use rcon_ui.Base.{ℕ, zero, suc, ◌≡◌, refl, ◌⊎◌, false, Option, none, some, List, [], ◌∷◌}
use rcon_ui.Text.{Text, codes, ◌===◌}
use rcon_ui.Text.Dict.{lookup}
use rcon_ui.Discovery.{DiscoveryReport, integer}
use rcon_ui.Settings.Command.{Piece, lit, key, value, build_command-render}
use rcon_ui.Settings.Preview.{logging, unlogged, apply-preview}

-- A server that counts its commands and refuses every second one.
abbrev execute : Text → ℕ → Option Text × ℕ
execute command zero = (none, 1)
execute command (suc n) = (some (codes "refused"), 0)

-- A server that cannot be read again.
abbrev discover : ℕ → Option DiscoveryReport × ℕ
discover w = (none, w)

-- Both options are staged with new values.
abbrev panel : Panel
panel = record {
  edits = (codes "PVP", codes "false") ∷ (codes "MaxPlayers", codes "32") ∷ [];
  errors = [];
  applying = false;
}

-- The first option alone is staged with a new value.
abbrev one_edit : Panel
one_edit = record {
  edits = (codes "PVP", codes "false") ∷ (codes "MaxPlayers", codes "16") ∷ [];
  errors = [];
  applying = false;
}

-- The user types another value for the first option while the commands are sent.
abbrev typing : Panel → Panel
unfolding set_value
typing p = set_value (codes "PVP") (codes "maybe") p

preview_test :
    preview report panel.edits (dirty_keys panel.edits (rows (some report)))
    ≡ codes "changeoption PVP \"false\"" ∷ codes "changeoption MaxPlayers \"32\"" ∷ []
unfolding preview dirty_keys rows ◌===◌ lookup
preview_test = refl

apply-preview_example :
    (apply (logging execute) (unlogged discover) typing (some report) panel ([], 0)).2.0
    ≡ preview report panel.edits (dirty_keys panel.edits (rows (some report)))
apply-preview_example = apply-preview execute discover typing report panel 0

abbrev pieces : List Piece
pieces = lit (codes "changeoption ") ∷ key ∷ lit (codes " ") ∷ value ∷ []

build_command-render_example :
    build_command (codes "changeoption {key} {value}") (codes "PVP") (codes "{key}")
    ≡ codes "changeoption PVP {key}"
build_command-render_example =
    build_command-render pieces (codes "PVP") (codes "{key}")
      (
        Without-of_lacks b'{' (codes "changeoption ") refl,
        (Without-of_lacks b'{' (codes " ") refl, tt),
      )
      (Without-of_lacks b'{' (codes "PVP") refl) (Without-of_lacks b'$' (codes "PVP") refl)
      (Without-of_lacks b'$' (codes "{key}") refl)

apply_changed_example :
    let after = (apply execute discover (λ s. s) (some report) panel 0).0 in
    (Memᴰ (codes "PVP", none) (answered execute report panel 0)
      × (lookup (codes "PVP") after.edits ≡ none))
    ⊎ ((message : Text) × Memᴰ (codes "PVP", some message) (answered execute report panel 0)
        × (lookup (codes "PVP") after.edits ≡ lookup (codes "PVP") panel.edits)
        × (lookup (codes "PVP") after.errors ≡ some message))
unfolding dirty_keys rows ◌===◌ lookup
apply_changed_example = apply_changed execute discover report panel 0 (codes "PVP") refl

abbrev row : Row
row = record { key = codes "MaxPlayers"; value = codes "16"; type = integer; meta = none }
