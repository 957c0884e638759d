-- ===== src/Store/Records.antt =====
-- internal/store/store.go: the history and the macros, and the lists with their orders.
use rcon_ui.Text.{◌===◌, Text, is_empty}
use rcon_ui.Base.Int.{ℤ, pos, negsuc, ltb_ℤ}
use rcon_ui.Base.{
  ℕ, zero, suc, Bool, true, false, not, ◌&&◌, ◌||◌, Option, none, some, List, [], ◌∷◌, ◌++◌, map,
  ltb, ◌==◌, if◌then◌else◌, coalesce, is_some, take, filter,
}
use rcon_ui.Text.Keyed.{has_key}
use rcon_ui.Text.Table.{remove_key}
use rcon_ui.Store.{
  Profile, ServerRow, MacroRow, HistoryEntry, Database, StoreResult, done, failed, no_row,
  is_required, refused, row_id, is_of,
}

-- `ORDER BY`, for a strict order: rows that are not apart in it stay as they stood.
unfoldable pub place_row {ℓ} : {A : Type ℓ} → (A → A → Bool) → A → List A → List A
place_row before x [] = x ∷ []
place_row before x (y ∷ ys) =
    let rest = place_row before x ys in if before y x then y ∷ rest else x ∷ (y ∷ ys)

unfoldable pub order_by {ℓ} : {A : Type ℓ} → (A → A → Bool) → List A → List A
unfolding place_row
order_by before [] = []
order_by before (x ∷ xs) = place_row before x (order_by before xs)

-- The order of SQLite on texts.
unfoldable pub is_less : Text → Text → Bool
is_less s [] = false
is_less [] (d ∷ t) = true
is_less (c ∷ s) (d ∷ t) = ltb c d || (c == d) && is_less s t

unfoldable pub add_history : ℕ → Text → Text → Database → StoreResult Unit × Database
add_history now id command db =
    if has_key row_id id db.servers
    then (
      done tt,
      record db {
        history =
            db.history
            ++ (record { id = suc db.last_id; server_id = id; command = command; at = now }) ∷ [];
        last_id = suc db.last_id;
      },
    )
    else (failed refused, db)

-- `at DESC, id DESC`
abbrev pub is_newer : HistoryEntry → HistoryEntry → Bool
is_newer x y = ltb y.at x.at || (x.at == y.at) && ltb y.id x.id

abbrev pub page_size : ℤ → ℕ
page_size (pos zero) = 100
page_size (pos (suc n)) = suc n
page_size (negsuc n) = 100

unfoldable pub list_history : Text → ℤ → Database → List HistoryEntry
unfolding order_by
list_history id limit db =
    take (page_size limit) (order_by is_newer (filter (λ h. h.server_id === id) db.history))

-- `Macro`, whose server is empty for every server.
pub record Macro : Type 0 where
  pub id : Text
  pub server_id : Text
  pub name : Text
  pub command : Text
  pub position : ℤ

abbrev pub macro_id : MacroRow → Text
macro_id m = m.id

abbrev pub to_null : Text → Option Text
to_null t = if is_empty t then none else some t

-- What the foreign key asks of a macro.
abbrev pub has_server : List ServerRow → Option Text → Bool
has_server servers none = true
has_server servers (some id) = has_key row_id id servers

unfoldable pub create_macro : Text → Macro → Database → StoreResult Macro × Database
create_macro new_id m db =
    if is_empty m.name || is_empty m.command
    then (failed is_required, db)
    else if has_key macro_id new_id db.macros || not (has_server db.servers (to_null m.server_id))
    then (failed refused, db)
    else (
      done (record m { id = new_id }),
      record db {
        macros =
            db.macros
            ++ (record {
              id = new_id;
              server_id = to_null m.server_id;
              name = m.name;
              command = m.command;
              position = m.position;
            })
              ∷ [];
      },
    )

-- `position, name`
abbrev pub is_earlier : MacroRow → MacroRow → Bool
is_earlier x y =
    ltb_ℤ x.position y.position || not (ltb_ℤ y.position x.position) && is_less x.name y.name

abbrev pub read_macro : MacroRow → Macro
read_macro m = record {
  id = m.id;
  server_id = coalesce m.server_id [];
  name = m.name;
  command = m.command;
  position = m.position;
}

unfoldable pub list_macros : Text → Database → List Macro
unfolding order_by
list_macros id db =
    map read_macro
      (order_by is_earlier (filter (λ m. not (is_some m.server_id) || is_of id m) db.macros))

unfoldable pub delete_macro : Text → Database → StoreResult Unit × Database
delete_macro id db =
    if has_key macro_id id db.macros
    then (done tt, record db { macros = remove_key macro_id id db.macros })
    else (failed no_row, db)

-- `grp, name`
abbrev pub is_above : Profile → Profile → Bool
is_above x y = is_less x.group y.group || (x.group === y.group) && is_less x.name y.name

unfoldable pub list_servers : Database → List Profile
unfolding order_by
list_servers db = order_by is_above (map (λ r. r.profile) db.servers)
