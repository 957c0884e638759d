-- ===== src/Tests/Rows.antt =====
-- The rows of the settings panel and their controls.
use rcon_ui.Base.{◌≡◌, refl, none, some}
use rcon_ui.Base.Int.{pos, negsuc}
use rcon_ui.Text.{codes}
use rcon_ui.Text.Decimal.{parse_int}
use rcon_ui.Discovery.{integer}
use rcon_ui.Settings.{Row}
use rcon_ui.Settings.View.{bump}

abbrev players_row : Row
players_row = record {
  key = codes "MaxPlayers";
  value = codes "16";
  type = integer;
  meta = some (record {
    label = none;
    description = none;
    section = some (codes "Players");
    min = some 1;
    max = some 32;
    requires_restart = none;
    options = none;
  });
}

parse_int_test : parse_int (codes " -12px") ≡ some (negsuc 11)
unfolding parse_int
parse_int_test = refl

bump_test : bump (pos 1) players_row (codes "x") ≡ codes "1"
unfolding bump
bump_test = refl
