-- ===== src/Tests/Catalog.antt =====
-- The catalog, and the panels that read it.
use rcon_ui.Base.{◌≡◌, refl, none, some, [], ◌∷◌}
use rcon_ui.Text.{codes}
use rcon_ui.Catalog.{games, template_by_id}
use rcon_ui.Catalog.Types.{CatalogOption, entry}
use rcon_ui.Catalog.Rust.{rust_template}
use rcon_ui.Templates.{group_by_section}

template_by_id_test : template_by_id (codes "rust") ≡ some rust_template
unfolding template_by_id games
template_by_id_test = refl

abbrev public : CatalogOption
public = entry "Public" "true" "Server" "List this server in the public in-game browser."

abbrev plain : CatalogOption
plain = record (entry "Motd" "" "" "") { meta = record (public.meta) { section = none } }

group_by_section_test :
    group_by_section (plain ∷ public ∷ [])
    ≡ (codes "Server", public ∷ []) ∷ (codes "Other", plain ∷ []) ∷ []
unfolding group_by_section
group_by_section_test = refl
