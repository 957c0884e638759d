-- ===== src/Sidebar/Rail.antt =====
-- What the rail shows: a tile per server under the heading of its group.
use rcon_ui.Base.{
  ◌≡◌, refl, ap, ◌∙◌, inl, inr, Bool, true, false, Option, none, some, List, [], ◌∷◌, map,
  Bool-cases,
}
use rcon_ui.Text.{Text, ◌===◌, codes}
use rcon_ui.Text.Dict.{lookup}
use rcon_ui.Grouping.{Sign}
use rcon_ui.Grouping.Laws.{group}
use rcon_ui.Grouping.Sorted.{IsOrder}
use rcon_ui.Sidebar.{
  Server, Status, connected, connecting, auth_failed, disconnected, group_name, groups,
  fingerprint_label,
}
use rcon_ui.Sidebar.Groups.{groups_lem}

abbrev pub status_label : Status → Text
status_label connected = codes "Connected"
status_label connecting = codes "Connecting…"
status_label auth_failed = codes "Wrong password"
status_label disconnected = codes "Disconnected"

-- A click on a tile selects its id.
pub record Tile : Type 0 where
  pub id : Text
  pub current : Bool
  pub status : Text
  pub name : Text
  pub addr : Text
  pub chip : Text

abbrev pub is_selected : Option Text → Server → Bool
is_selected none s = false
is_selected (some id) s = s.id === id

unfoldable pub tile : (Text → Text) → Option Text → Server → Tile
unfolding fingerprint_label
tile upper selected_id s = record {
  id = s.id;
  current = is_selected selected_id s;
  status = status_label s.status;
  name = s.name;
  addr = s.addr;
  chip = fingerprint_label upper s;
}

-- The empty group has no heading of its own.
pub record Rail : Type 0 where
  pub templates_active : Bool
  pub no_servers : Bool
  pub tiles : List (Text × List Tile)

abbrev pub is_nil {ℓ} : {A : Type ℓ} → List A → Bool
is_nil [] = true
is_nil (x ∷ xs) = false

unfoldable pub rail : (Text → Text) → (Text → Text → Sign) → List Server → Option Text → Bool → Rail
unfolding groups tile
rail upper locale_compare servers selected_id templates_active = record {
  templates_active = templates_active;
  no_servers = is_nil servers;
  tiles =
      map (λ (g : Text × List Server). (g.0, map (tile upper selected_id) g.1))
        (groups locale_compare servers);
}

abbrev tiles_of {ℓ κ} : {A : Type ℓ} {B : Type κ} → (A → B) → Option (List A) → Option (List B)
tiles_of f none = none
tiles_of f (some xs) = some (map f xs)

lookup-map {ℓ κ} :
    {A : Type ℓ} {B : Type κ} (f : A → B) (n : Text) (m : List (Text × List A))
    → lookup n (map (λ (g : Text × List A). (g.0, map f g.1)) m) ≡ tiles_of f (lookup n m)
unfolding lookup
lookup-map f n [] = refl
lookup-map f n ((j, xs) ∷ m) = elim (Bool-cases (j === n)) [
  | inl e ↦ rw e refl
  | inr e ↦ rw e (lookup-map f n m)
]

-- Under each heading of the rail stand the tiles of exactly the servers of that group, in the list's
-- order, and a heading stands there exactly if a server names it.
pub rail_lem :
    (upper : Text → Text) (locale_compare : Text → Text → Sign) (order : IsOrder locale_compare)
    (servers : List Server) (selected_id : Option Text) (active : Bool) (n : Text)
    → lookup n (rail upper locale_compare servers selected_id active).tiles
      ≡ tiles_of (tile upper selected_id) (group group_name n servers)
unfolding rail
rail_lem upper locale_compare order servers selected_id active n =
    lookup-map (tile upper selected_id) n (groups locale_compare servers)
    ∙ ap (tiles_of (tile upper selected_id)) (groups_lem locale_compare order servers n).0
