-- ===== src/Sidebar/Groups.antt =====
-- The groups of the rail.
use rcon_ui.Base.{◌≡◌, ◌∙◌, true, List}
use rcon_ui.Text.{Text}
use rcon_ui.Text.Dict.{lookup}
use rcon_ui.Text.DictKeys.{entry_key}
use rcon_ui.Text.Keyed.{distinct}
use rcon_ui.Grouping.{Sign, group_by}
use rcon_ui.Grouping.Laws.{group, lookup-group_by, distinct-group_by}
use rcon_ui.Grouping.Order.{lookup-sort}
use rcon_ui.Grouping.Sorted.{IsOrder, IsSorted, sort-IsSorted}
use rcon_ui.Sidebar.{Server, group_name, groups}

-- Under each heading stand exactly the servers of that group, in the list's order, no heading stands
-- twice, and the headings are in the order of `localeCompare`.
pub groups_lem :
    (locale_compare : Text → Text → Sign) (order : IsOrder locale_compare) (servers : List Server)
    (n : Text)
    → (lookup n (groups locale_compare servers) ≡ group group_name n servers)
      × (distinct entry_key (groups locale_compare servers) ≡ true)
      × IsSorted locale_compare order (groups locale_compare servers)
unfolding groups
groups_lem locale_compare order servers n =
    let (kept, apart) =
      lookup-sort locale_compare n (group_by group_name servers)
        (distinct-group_by group_name servers) in
    (
      kept ∙ lookup-group_by group_name n servers,
      apart,
      sort-IsSorted locale_compare order (group_by group_name servers),
    )
