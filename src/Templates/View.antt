-- ===== src/Templates/View.antt =====
-- web/src/components/TemplatesPanel.tsx: what the panel shows of its games, and its two events. The
-- rows are those of the settings panel, read only.
use rcon_ui.Base.{
  ℕ, ◌≡◌, refl, sym, ap, subst, inl, inr, Bool, true, false, Option, none, some, List, [], ◌∷◌, map,
  arith, if◌then◌else◌, Bool-cases, coalesce, length, filter,
}
use mathlib.Core.List.{Memᴰ}
use rcon_ui.Text.{Text, ◌===◌, ===_iff, ===_refl}
use rcon_ui.Text.Keyed.{has_key, has_key_of_mem, distinct, find_key_complete}
use rcon_ui.Discovery.{string}
use rcon_ui.Catalog.{games}
use rcon_ui.Catalog.Zomboid.{zomboid_template}
use rcon_ui.Catalog.Types.{CatalogOption, CatalogCommand, GameTemplate}
use rcon_ui.Catalog.Laws.{ids_distinct}
use rcon_ui.Settings.{Row, Panel}
use rcon_ui.Settings.View.{RowView, option_row}
use rcon_ui.Templates.{group_by_section, shown_game, visible_commands}
use rcon_ui.Commands.View.{CommandCells, command_cells}

pub record Choice : Type 0 where
  pub selected_id : Text
  pub filter_text : Text

pub data ChoiceEvent : Type 0 where
  pick_game : Text → ChoiceEvent
  type_filter : Text → ChoiceEvent

unfoldable pub choose : ChoiceEvent → Choice → Choice
choose (pick_game id) p = record p { selected_id = id }
choose (type_filter text) p = record p { filter_text = text }

-- A game in the list at the side; without options it says so.
pub record GameButton : Type 0 where
  pub id : Text
  pub name : Text
  pub option_count : Option ℕ
  pub command_count : ℕ
  pub active : Bool

abbrev pub game_button : Text → GameTemplate → GameButton
game_button selected g = record {
  id = g.id;
  name = g.name;
  option_count = if g.capabilities.options then some (length g.options) else none;
  command_count = length g.commands;
  active = g.id === selected;
}

-- The row of an option: its example stands for the value.
abbrev pub example_row : CatalogOption → Row
example_row o = record { key = o.key; value = o.example; type = string; meta = some o.meta }

-- Nothing is staged and nothing has failed.
abbrev pub untouched : Panel
untouched = record { edits = []; errors = []; applying = false }

unfoldable pub example_view : CatalogOption → RowView
unfolding option_row
example_view o = option_row true untouched (example_row o)

-- A section of options with their number.
unfoldable pub section_view : Text × List CatalogOption → Text × ℕ × List RowView
unfolding example_view
section_view (name, options) = (name, length options, map example_view options)

-- Without options, or without commands, a text stands in their place.
pub record GameView : Type 0 where
  pub name : Text
  pub default_port : Option ℕ
  pub has_options : Bool
  pub has_write : Bool
  pub has_commands : Bool
  pub caveats : List Text
  pub sections : Option (List (Text × ℕ × List RowView))
  pub command_count : ℕ
  pub commands : Option (List CommandCells)

abbrev pub catalog_cells : CatalogCommand → CommandCells
catalog_cells c = command_cells c.name c.description (coalesce c.usage [])

abbrev pub listed {ℓ κ} : {A : Type ℓ} {B : Type κ} → List A → List B → Option (List B)
listed [] shown = none
listed (x ∷ xs) shown = some shown

unfoldable pub game_view : (Text → Text) → Text → GameTemplate → GameView
unfolding section_view group_by_section visible_commands
game_view lower filter_text g = record {
  name = g.name;
  default_port = g.default_port;
  has_options = g.capabilities.options;
  has_write = g.capabilities.option_write;
  has_commands = g.capabilities.commands;
  caveats = g.caveats;
  sections =
      if g.capabilities.options then some (map section_view (group_by_section g.options)) else none;
  command_count = length g.commands;
  commands = listed g.commands (map catalog_cells (visible_commands lower filter_text g));
}

abbrev pub game_buttons : Text → List GameTemplate → List GameButton
game_buttons selected gs = map (game_button selected) gs

unfoldable pub templates_view : (Text → Text) → Choice → List GameButton × GameView
unfolding games shown_game game_view
templates_view lower p =
    (game_buttons p.selected_id games, game_view lower p.filter_text (shown_game p.selected_id))

no_active :
    (id : Text) (gs : List GameTemplate)
    → has_key (λ (g : GameTemplate). g.id) id gs ≡ false
    → filter (λ (b : GameButton). b.active) (game_buttons id gs) ≡ []
no_active id [] h = refl
no_active id (g ∷ gs) h = ground (arith, no_active id gs)

head_active :
    (g : GameTemplate) (gs : List GameTemplate)
    → distinct (λ (g : GameTemplate). g.id) (g ∷ gs) ≡ true
    → filter (λ (b : GameButton). b.active) (game_buttons g.id (g ∷ gs)) ≡ game_button g.id g ∷ []
head_active g gs d =
    let lit : Bool → GameButton = λ t. record (game_button g.id g) { active = t } in
    subst
      (λ (t : Bool).
        filter (λ (b : GameButton). b.active) (lit t ∷ game_buttons g.id gs) ≡ lit t ∷ [])
      (sym (===_refl g.id)) (ap (lit true ∷◌) (no_active g.id gs (ground arith)))

one_active :
    (gs : List GameTemplate) {g : GameTemplate}
    → distinct (λ (g : GameTemplate). g.id) gs ≡ true
    → Memᴰ g gs
    → filter (λ (b : GameButton). b.active) (game_buttons g.id gs) ≡ game_button g.id g ∷ []
one_active [] d m = elim m [ ]
one_active (x ∷ gs) {g} d (Memᴰ.head e) =
    subst
      (λ (y : GameTemplate).
        filter (λ (b : GameButton). b.active) (game_buttons y.id (x ∷ gs))
        ≡ game_button y.id y ∷ [])
      (sym e) (head_active x gs d)
one_active (x ∷ gs) {g} d (Memᴰ.tail m) = elim (Bool-cases (x.id === g.id)) [
  | inl e ↦
      let found =
        has_key_of_mem (λ (g : GameTemplate). g.id) x.id gs m (sym ((===_iff x.id g.id).0 e)) in
      absurd (ground (arith, found))
  | inr e ↦ rw e (one_active gs (ground arith) m)
]

-- A click on a game's button shows that game, marks its button and no other, and keeps the filter.
pub templates_view-choose :
    (lower : Text → Text) (p : Choice) {g : GameTemplate}
    → Memᴰ g games
    → let (buttons, shown) = templates_view lower (choose (pick_game g.id) p) in
      (shown ≡ game_view lower p.filter_text g)
      × (filter (λ (b : GameButton). b.active) buttons ≡ game_button g.id g ∷ [])
unfolding templates_view choose shown_game
templates_view-choose lower p {g} m = (
  ap (λ o. game_view lower p.filter_text (coalesce o zomboid_template))
      (find_key_complete (λ (g : GameTemplate). g.id) g.id games ids_distinct m refl),
  one_active games ids_distinct m,
)
