-- ===== src/Catalog.antt =====
-- web/src/catalog/index.ts: the catalog of games, and its lookup.
pub mod Types
pub mod Laws
pub mod Zomboid
pub mod Minecraft
pub mod Cs2
pub mod Rust
pub mod Valheim
pub mod Palworld
pub mod Ark
pub mod SevenDaysToDie
pub mod Squad
pub mod ConanExiles
pub mod Factorio
use rcon_ui.Base.{List, [], ◌∷◌, Option, find?}
use rcon_ui.Text.{Text, ◌===◌}
use Types.{GameTemplate}
use Zomboid.{zomboid_template}
use Minecraft.{minecraft_template}
use Cs2.{cs2_template}
use Rust.{rust_template}
use Valheim.{valheim_template}
use Palworld.{palworld_template}
use Ark.{ark_template}
use SevenDaysToDie.{seven_days_to_die_template}
use Squad.{squad_template}
use ConanExiles.{conan_exiles_template}
use Factorio.{factorio_template}

unfoldable pub games : List GameTemplate
games =
    zomboid_template ∷ minecraft_template ∷ cs2_template ∷ rust_template ∷ valheim_template
    ∷ palworld_template ∷ ark_template ∷ seven_days_to_die_template ∷ squad_template
    ∷ conan_exiles_template ∷ factorio_template ∷ []

unfoldable pub template_by_id : Text → Option GameTemplate
unfolding games ◌===◌
template_by_id id = find? (λ g. g.id === id) games
