-- ===== src/Templates/Shown.antt =====
-- The options that the catalog shows are those that enrichment uses.
use rcon_ui.Base.{
  ◌≡◌, refl, sym, ◌∙◌, subst, inl, inr, true, some, List, ◌++◌, Option-cases, coalesce,
}
use mathlib.Core.List.{Memᴰ}
use rcon_ui.Text.{Text}
use rcon_ui.Text.Dict.{lookup}
use rcon_ui.Text.DictKeys.{entry_key}
use rcon_ui.Text.Keyed.{find_key, find_key_sound, distinct}
use rcon_ui.Catalog.{games}
use rcon_ui.Catalog.Types.{CatalogOption, GameTemplate}
use rcon_ui.Catalog.Zomboid.{zomboid_template}
use rcon_ui.Enrich.{meta_for}
use rcon_ui.Enrich.Laws.{meta_for_iff}
use rcon_ui.Grouping.{group_by, other_last}
use rcon_ui.Grouping.Laws.{group, lookup-group_by, distinct-group_by}
use rcon_ui.Grouping.Order.{lookup-sort, sort-other_last, named, others}
use rcon_ui.Templates.{shown_game, option_section, group_by_section, is_other}

-- The game on the panel is always one of the catalog.
pub shown_game-mem : (id : Text) → Memᴰ (shown_game id) games
unfolding shown_game games
shown_game-mem id = elim (Option-cases (find_key (λ (g : GameTemplate). g.id) id games)) [
  | inl e ↦ subst (λ o. Memᴰ (coalesce o zomboid_template) games) (sym e) (Memᴰ.head refl)
  | inr (g, e) ↦
      subst (λ o. Memᴰ (coalesce o zomboid_template) games) (sym e)
        (find_key_sound (λ (g : GameTemplate). g.id) id games e).0
]

-- Whatever is selected, every option of the game on the panel is the one that the live settings of
-- that game are enriched by.
pub meta_for-shown_game :
    (id : Text) (o : CatalogOption)
    → Memᴰ o (shown_game id).options
    → meta_for (shown_game id).id o.key ≡ some o.meta
meta_for-shown_game id o m = (meta_for_iff (shown_game id).id o.key o.meta).1 (record {
  game = shown_game id;
  option = o;
  listed = shown_game-mem id;
  under = refl;
  offered = m;
  keyed = refl;
  carries = refl;
})

-- Under each heading stand exactly the options of that section, in the catalog's order, no heading
-- stands twice, and "Other" comes last, after the sections in the order in which they first appear.
pub group_by_section_lem :
    (options : List CatalogOption) (n : Text)
    → (lookup n (group_by_section options) ≡ group option_section n options)
      × (distinct entry_key (group_by_section options) ≡ true)
      × (group_by_section options
          ≡ named is_other (group_by option_section options)
            ++ others is_other (group_by option_section options))
unfolding group_by_section
group_by_section_lem options n =
    let (kept, apart) =
      lookup-sort (other_last is_other) n (group_by option_section options)
        (distinct-group_by option_section options) in
    (
      kept ∙ lookup-group_by option_section n options,
      apart,
      sort-other_last is_other (group_by option_section options),
    )
