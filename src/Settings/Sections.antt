-- ===== src/Settings/Sections.antt =====
-- The sections that the options are shown in.
use rcon_ui.Base.{◌≡◌, ◌∙◌, true, List, ◌++◌}
use rcon_ui.Text.{Text}
use rcon_ui.Text.Dict.{lookup}
use rcon_ui.Text.DictKeys.{entry_key}
use rcon_ui.Text.Keyed.{distinct}
use rcon_ui.Grouping.{group_by, other_last}
use rcon_ui.Grouping.Laws.{group, lookup-group_by, distinct-group_by}
use rcon_ui.Grouping.Order.{lookup-sort, sort-other_last, named, others}
use rcon_ui.Settings.{Row, section_name, is_other_section, sections}

-- Under each heading stand exactly the rows of that section, in the report's order, and no heading
-- stands twice; the headings are in the order in which the report first names them, but those that
-- begin with "Other" come last.
pub sections_lem :
    (rs : List Row) (n : Text)
    → (lookup n (sections rs) ≡ group section_name n rs)
      × (distinct entry_key (sections rs) ≡ true)
      × (sections rs
          ≡ named is_other_section (group_by section_name rs)
            ++ others is_other_section (group_by section_name rs))
unfolding sections
sections_lem rs n =
    let (kept, apart) =
      lookup-sort (other_last is_other_section) n (group_by section_name rs)
        (distinct-group_by section_name rs) in
    (
      kept ∙ lookup-group_by section_name n rs,
      apart,
      sort-other_last is_other_section (group_by section_name rs),
    )
