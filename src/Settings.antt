-- ===== src/Settings.antt =====
-- web/src/components/SettingsPanel.tsx: the staged edits of a server's options, the commands that
-- they become, and how applying them ends.
-- An edit is a text staged under an option's key. `W` is the state of the world that the awaited
-- calls act on; `lower` is `toLowerCase`.
pub mod Command
pub mod Staging
pub mod Preview
pub mod Apply
pub mod Sections
pub mod View
pub mod Stepper
pub mod Shown
use rcon_ui.Base.{
  Bool, true, false, not, ◌&&◌, ◌||◌, Option, none, some, List, [], ◌∷◌, ◌++◌, map, coalesce,
  filter, any,
}
use rcon_ui.Text.{Text, ◌===◌, codes, is_empty, includes, starts_with}
use rcon_ui.Text.Trim.{trim}
use rcon_ui.Text.Replace.{replace_all}
use rcon_ui.Text.Dict.{lookup, insert, erase}
use rcon_ui.Text.ObjectKeys.{object_keys}
use rcon_ui.Catalog.Types.{OptionMeta}
use rcon_ui.Enrich.{meta_for}
use rcon_ui.Discovery.{DiscoveredOption, DiscoveryReport, OptionType}
use rcon_ui.Grouping.{group_by, sort, other_last}

abbrev pub key_hole : Text
key_hole = codes "{key}"

abbrev pub value_hole : Text
value_hole = codes "{value}"

unfoldable pub build_command : Text → Text → Text → Text
unfolding replace_all
build_command template key value = replace_all (replace_all template key_hole key) value_hole value

pub record Row : Type 0 where
  pub key : Text
  pub value : Text
  pub type : OptionType
  pub meta : Option OptionMeta

unfoldable pub rows : Option DiscoveryReport → List Row
rows none = []
rows (some report) =
    map
      (λ (o : DiscoveredOption). record {
        key = o.key;
        value = o.value;
        type = o.type;
        meta = meta_for report.fingerprint o.key;
      })
      report.options

-- `row.meta?.section ?? "Other · undocumented"`
unfoldable pub section_name : Row → Text
section_name row =
    coalesce (elim row.meta [ none ↦ none | some m ↦ m.section ]) (codes "Other · undocumented")

abbrev pub is_other_section : Text → Bool
is_other_section name = starts_with name (codes "Other")

unfoldable pub sections : List Row → List (Text × List Row)
unfolding group_by sort other_last
sections rs = sort (other_last is_other_section) (group_by section_name rs)

-- `needle` is the trimmed filter in lower case; the label and the description default to "".
unfoldable pub matches : (Text → Text) → Text → Row → Bool
matches lower filter_text row =
    let needle = lower (trim filter_text) in
    is_empty needle
    || (includes (lower row.key) needle
        || (includes (lower (coalesce (elim row.meta [ none ↦ none | some m ↦ m.label ]) [])) needle
            || (includes
                  (lower (coalesce (elim row.meta [ none ↦ none | some m ↦ m.description ]) []))
                  needle
                || includes (lower row.value) needle)))

abbrev pub Edits : Type 0
Edits = List (Text × Text)

-- `r.key === k && edits[k] !== r.value`
abbrev pub differs : Edits → Text → Row → Bool
differs edits k r =
    (r.key === k) && elim (lookup k edits) [ none ↦ true | some v ↦ not (v === r.value) ]

unfoldable pub dirty_keys : Edits → List Row → List Text
unfolding object_keys
dirty_keys edits rs = filter (λ k. any (differs edits k) rs) (object_keys edits)

-- The component's state, but for the filter.
pub record Panel : Type 0 where
  pub edits : Edits
  pub errors : List (Text × Text)
  pub applying : Bool

unfoldable pub set_value : Text → Text → Panel → Panel
unfolding insert
set_value key value p = record p { edits = insert key value p.edits }

unfoldable pub discard : Panel → Panel
discard p = record p { edits = []; errors = [] }

-- The lines of the staging bar.
unfoldable pub preview : DiscoveryReport → Edits → List Text → List Text
unfolding build_command
preview report edits dirty =
    map (λ k. build_command report.write_template k (coalesce (lookup k edits) [])) dirty

-- What the loop of `apply` leaves: the keys applied, and an error for each of the others.
pub record Applied {ℓ} (W : Type ℓ) : Type ℓ where
  pub applied : List Text
  pub next_errors : List (Text × Text)
  pub world : W

-- One round of the loop: the call succeeded, or was rejected with a message.
unfoldable pub settle_key {ℓ} : {W : Type ℓ} → Text → Option Text × W → Applied W → Applied W
settle_key key (none, w) a = record a { applied = a.applied ++ key ∷ []; world = w }
settle_key key (some message, w) a = record a {
  next_errors = insert key message a.next_errors;
  world = w;
}

module _ {ℓ} {W : Type ℓ} (execute : Text → W → Option Text × W) where
  -- `edits` is the snapshot that the click's render closed over.
  unfoldable pub send_all : Text → Edits → List Text → Applied W → Applied W
  unfolding build_command settle_key
  send_all template edits [] a = a
  send_all template edits (key ∷ keys) a =
      let command = build_command template key (coalesce (lookup key edits) []) in
      send_all template edits keys (settle_key key (execute command a.world) a)

  abbrev pub start : W → Applied W
  start w = record { applied = []; next_errors = []; world = w }

-- `for (const key of applied) delete next[key]`
unfoldable pub delete_all : List Text → Edits → Edits
delete_all [] edits = edits
delete_all (k ∷ ks) edits = delete_all ks (erase k edits)

-- The state updates before the first and after the last `await`; `p` is the state at that time.
unfoldable pub begin_apply : Panel → Panel
begin_apply p = record p { applying = true }

unfoldable pub end_apply {ℓ} : {W : Type ℓ} → Applied W → Panel → Panel
unfolding delete_all
end_apply a p = record {
  edits = delete_all a.applied p.edits;
  errors = a.next_errors;
  applying = false;
}

-- The whole click, with the user's edits made while it waits as a function on the state. The report
-- is read anew at the end: none where that call fails.
unfoldable pub apply {ℓ} :
    {W : Type ℓ}
    → (Text → W → Option Text × W)
    → (W → Option DiscoveryReport × W)
    → (Panel → Panel)
    → Option DiscoveryReport
    → Panel
    → W
    → Panel × Option DiscoveryReport × W
unfolding send_all begin_apply end_apply dirty_keys rows
apply execute discover meanwhile none p w = (p, none, w)
apply execute discover meanwhile (some report) p w =
    let sent =
      send_all execute report.write_template p.edits (dirty_keys p.edits (rows (some report)))
        (start execute w) in
    let (fresh, w') = discover sent.world in
    (
      end_apply sent (meanwhile (begin_apply p)),
      elim fresh [ none ↦ some report | some r ↦ some r ],
      w',
    )
