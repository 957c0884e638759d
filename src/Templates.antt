-- ===== src/Templates.antt =====
-- web/src/components/TemplatesPanel.tsx: the catalog without a server. `lower` is `toLowerCase`.
pub mod Shown
pub mod View
use rcon_ui.Base.{Bool, ◌||◌, List, coalesce, filter}
use rcon_ui.Text.{Text, ◌===◌, codes, is_empty, includes}
use rcon_ui.Text.Trim.{trim}
use rcon_ui.Text.Keyed.{find_key}
use rcon_ui.Catalog.{games}
use rcon_ui.Catalog.Types.{CatalogOption, CatalogCommand, GameTemplate}
use rcon_ui.Catalog.Zomboid.{zomboid_template}
use rcon_ui.Grouping.{group_by, sort, other_last}

-- `opt.section ?? "Other"`
abbrev pub option_section : CatalogOption → Text
option_section o = coalesce o.section (codes "Other")

unfoldable pub is_other : Text → Bool
unfolding ◌===◌
is_other name = name === codes "Other"

unfoldable pub group_by_section : List CatalogOption → List (Text × List CatalogOption)
unfolding group_by sort other_last is_other
group_by_section options = sort (other_last is_other) (group_by option_section options)

-- `games.find((g) => g.id === selectedId) ?? games[0]`
unfoldable pub shown_game : Text → GameTemplate
unfolding games
shown_game id = coalesce (find_key (λ (g : GameTemplate). g.id) id games) zomboid_template

unfoldable pub catalog_command_matches : (Text → Text) → Text → CatalogCommand → Bool
catalog_command_matches lower filter_text c =
    let needle = lower (trim filter_text) in
    is_empty needle || (includes (lower c.name) needle || includes (lower c.description) needle)

unfoldable pub visible_commands : (Text → Text) → Text → GameTemplate → List CatalogCommand
unfolding catalog_command_matches
visible_commands lower filter_text game =
    filter (catalog_command_matches lower filter_text) game.commands
