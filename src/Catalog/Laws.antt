-- ===== src/Catalog/Laws.antt =====
-- Lookup in the catalog.
use mathlib.Core.List.{Memᴰ}
use rcon_ui.Base.{◌≡◌, refl, ◌↔◌, true, some, all, of_all}
use rcon_ui.Text.{Text, ◌===◌}
use rcon_ui.Text.Keyed.{distinct, find_key_sound, find_key_complete}
use rcon_ui.Catalog.{games, template_by_id}
use rcon_ui.Catalog.Types.{GameTemplate, CatalogOption}

pub ids_distinct : distinct (λ (g : GameTemplate). g.id) games ≡ true
unfolding games ◌===◌
ids_distinct = refl

-- The catalog finds a game by its identifier exactly when the game is listed under it.
pub template_by_id_iff :
    (id : Text) (g : GameTemplate) → (template_by_id id ≡ some g) ↔ (Memᴰ g games × (g.id ≡ id))
unfolding template_by_id
template_by_id_iff id g = (
  find_key_sound (λ (g : GameTemplate). g.id) id games,
  λ (m, e). find_key_complete (λ (g : GameTemplate). g.id) id games ids_distinct m e,
)

keys_distinct :
    all (λ (g : GameTemplate). distinct (λ (o : CatalogOption). o.key) g.options) games ≡ true
unfolding games ◌===◌
keys_distinct = refl

-- The options of a listed game have distinct keys.
pub distinct-options :
    {g : GameTemplate} → Memᴰ g games → distinct (λ (o : CatalogOption). o.key) g.options ≡ true
distinct-options m =
    of_all (λ (g : GameTemplate). distinct (λ (o : CatalogOption). o.key) g.options) games
      keys_distinct m
