-- ===== src/Enrich.antt =====
-- web/src/enrich/index.ts: curated metadata for a discovered option.
pub mod Laws
use rcon_ui.Base.{Option, none, some, ◌>>=◌}
use rcon_ui.Text.{Text}
use rcon_ui.Text.Keyed.{find_key}
use rcon_ui.Catalog.{template_by_id}
use rcon_ui.Catalog.Types.{OptionMeta, CatalogOption}

abbrev project : CatalogOption → OptionMeta
project o = record {
  label = o.label;
  description = o.description;
  section = o.section;
  min = o.min;
  max = o.max;
  requires_restart = o.requires_restart;
  options = o.options;
}

unfoldable pub meta_for : Text → Text → Option OptionMeta
unfolding template_by_id
meta_for fingerprint key = do
  template ← template_by_id fingerprint
  option ← find_key (λ (o : CatalogOption). o.key) key template.options
  some (project option)
