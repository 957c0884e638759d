-- ===== src/Sidebar.antt =====
-- web/src/components/Sidebar.tsx: the groups of the server rail and the label of a game; the type
-- `Server` of web/src/api.ts. `upper` is `toUpperCase`, and `locale_compare` is `localeCompare`.
pub mod Groups
pub mod Label
pub mod Rail
use rcon_ui.Base.{
  ℕ, Bool, true, false, ◌&&◌, ◌||◌, Option, List, [], ◌∷◌, ◌++◌, map, ◌==◌, if◌then◌else◌, coalesce,
}
use rcon_ui.Text.{Text, ◌===◌, codes, is_empty}
use rcon_ui.Text.Trim.{is_space}
use rcon_ui.Text.Split.{join}
use rcon_ui.Grouping.{Sign, group_by, sort}

pub data Status : Type 0 where
  disconnected connecting connected auth_failed : Status

pub record Server : Type 0 where
  pub id : Text
  pub name : Text
  pub protocol : Text
  pub addr : Text
  pub group : Option Text
  pub created_at : Text
  pub updated_at : Text
  pub status : Status
  pub game : Option Text
  pub tls : Option Bool
  pub server_name : Option Text

-- `s.group || ""`
abbrev pub group_name : Server → Text
group_name s = coalesce s.group []

unfoldable pub groups : (Text → Text → Sign) → List Server → List (Text × List Server)
unfolding group_by sort
groups locale_compare servers = sort locale_compare (group_by group_name servers)

-- The class `[-_\s]`.
unfoldable pub is_separator : ℕ → Bool
unfolding is_space
is_separator c = (c == b'-') || ((c == b'_') || is_space c)

-- `split(/[-_\s]+/)`, the first word and the others: a run of separators ends a word. `inside` tells
-- that the scan is in such a run.
unfoldable pub words : Bool → Text → Text × List Text
words inside [] = ([], [])
words inside (c ∷ s) =
    let (head, rest) = words (is_separator c) s in
    if is_separator c
    then (if inside then (head, rest) else ([], head ∷ rest))
    else (c ∷ head, rest)

-- `w.charAt(0).toUpperCase() + w.slice(1)`
abbrev pub capitalize : (Text → Text) → Text → Text
capitalize upper [] = upper []
capitalize upper (c ∷ s) = upper (c ∷ []) ++ s

abbrev pub is_connecting : Status → Bool
is_connecting connecting = true
is_connecting _ = false

unfoldable pub fingerprint_label : (Text → Text) → Server → Text
unfolding words is_separator join
fingerprint_label upper server =
    let game = coalesce server.game [] in
    if is_connecting server.status && is_empty game
    then codes "scanning…"
    else if is_empty game || (game === codes "unknown")
    then codes "unidentified"
    else (let (head, rest) = words false game in
        join b' ' (capitalize upper head) (map (capitalize upper) rest))
