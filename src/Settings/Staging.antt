-- ===== src/Settings/Staging.antt =====
-- Which options count as changed.
use mathlib.Core.List.{Memᴰ}
use rcon_ui.Base.{
  ◌≡◌, sym, ap, ◌∙◌, Bool, true, false, not, ◌&&◌, none, some, List, arith, if◌then◌else◌, is_some,
  any,
}
use rcon_ui.Text.{Text, ◌===◌}
use rcon_ui.Text.Dict.{lookup, lookup-insert}
use rcon_ui.Text.DictKeys.{is_some-lookup}
use rcon_ui.Text.Keyed.{distinct, any_of_mem}
use rcon_ui.Text.ObjectKeys.{object_keys, contains, contains-object_keys, contains-filter}
use rcon_ui.Settings.{Row, Edits, Panel, differs, dirty_keys, set_value}

abbrev pub row_key : Row → Text
row_key r = r.key

-- `OptionRow`: `staged !== undefined && staged !== row.value`, for `staged = edits[row.key]`.
unfoldable pub is_dirty : Edits → Row → Bool
is_dirty edits r = elim (lookup r.key edits) [ none ↦ false | some v ↦ not (v === r.value) ]

contains-dirty_keys :
    (k : Text) (edits : Edits) (rs : List Row)
    → contains k (dirty_keys edits rs) ≡ (is_some (lookup k edits) && any (differs edits k) rs)
unfolding dirty_keys
contains-dirty_keys k edits rs =
    contains-filter (λ j. any (differs edits j) rs) k (object_keys edits)
    ∙ ap (λ b. b && any (differs edits k) rs)
        (contains-object_keys k edits ∙ sym (is_some-lookup k edits))

-- The keys that the staging bar counts and the rows that are marked as changed are the same, where
-- the report lists no key twice.
pub dirty_keys-is_dirty :
    (edits : Edits) (rs : List Row) {r : Row}
    → distinct row_key rs ≡ true
    → Memᴰ r rs
    → contains r.key (dirty_keys edits rs) ≡ is_dirty edits r
unfolding is_dirty
dirty_keys-is_dirty edits rs {r} d m =
    contains-dirty_keys r.key edits rs
    ∙ ap (λ b. is_some (lookup r.key edits) && b)
        (any_of_mem row_key
          (λ x. elim (lookup r.key edits) [ none ↦ true | some v ↦ not (v === x.value) ]) rs d m)
    ∙ ground arith

-- Staging a value for one option: that option is changed exactly if the value differs from the
-- server's, and every other option stays as it was.
pub dirty_keys-set_value :
    (k v : Text) (p : Panel) (rs : List Row) {r : Row}
    → distinct row_key rs ≡ true
    → Memᴰ r rs
    → contains r.key (dirty_keys (set_value k v p).edits rs)
      ≡ (if k === r.key then not (v === r.value) else contains r.key (dirty_keys p.edits rs))
unfolding set_value is_dirty
dirty_keys-set_value k v p rs {r} d m = ground (
  arith,
  dirty_keys-is_dirty (set_value k v p).edits rs {r = r} d m,
  dirty_keys-is_dirty p.edits rs {r = r} d m,
  lookup-insert k r.key v p.edits,
)
