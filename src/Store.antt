-- ===== src/Store.antt =====
-- internal/store/store.go: the tables, the operations on servers and their passwords. A statement of SQL
-- is what the documentation of SQLite says of it, a table the list of its rows; the database is there
-- and takes the writes that its constraints allow. A text is compared by its code points, and sealed
-- as it stands.
pub mod Records
pub mod Sorting
pub mod Runs
pub mod Intact
pub mod Fresh
pub mod Integrity
pub mod Plain
pub mod Reads
pub mod Refines
pub mod Newest
pub mod Deleted
pub mod Hidden
pub mod Migrations
use rcon_ui.Base.Int.{ℤ}
use rcon_ui.Base.{
  ℕ, Bool, false, not, ◌||◌, Option, none, some, List, [], ◌∷◌, ◌++◌, if◌then◌else◌, filter,
}
use rcon_ui.Text.{◌===◌, Text, is_empty, codes}
use rcon_ui.Text.Keyed.{has_key, find_key}
use rcon_ui.Text.Table.{modify_key, remove_key}
use rcon_ui.Secret.{Bytes, Sealer}

-- `Server`, which has no password; times are in milliseconds.
pub record Profile : Type 0 where
  pub id : Text
  pub name : Text
  pub protocol : Text
  pub addr : Text
  pub group : Text
  pub game : Text
  pub tls : Bool
  pub server_name : Text
  pub created_at : ℕ
  pub updated_at : ℕ

-- A row of the table `servers`; `password` is sealed.
pub record ServerRow : Type 0 where
  pub profile : Profile
  pub password : Bytes

-- A row of `macros`; no server for a macro of every server.
pub record MacroRow : Type 0 where
  pub id : Text
  pub server_id : Option Text
  pub name : Text
  pub command : Text
  pub position : ℤ

-- A row of `history`, and `HistoryEntry`.
pub record HistoryEntry : Type 0 where
  pub id : ℕ
  pub server_id : Text
  pub command : Text
  pub at : ℕ

-- `last_id` is the largest id that `history` has had.
pub record Database : Type 0 where
  pub servers : List ServerRow
  pub macros : List MacroRow
  pub history : List HistoryEntry
  pub last_id : ℕ

-- What the clock and crypto/rand give in an operation.
pub record Draw : Type 0 where
  pub now : ℕ
  pub new_id : Text
  pub nonce : Option Bytes

-- No such row; a field that is empty; a password that cannot be sealed or opened; a constraint.
pub data StoreError : Type 0 where
  no_row : StoreError
  is_required : StoreError
  cannot_seal : StoreError
  refused : StoreError

pub data StoreResult (A : Type 0) : Type 0 where
  done : A → StoreResult A
  failed : StoreError → StoreResult A

abbrev pub row_id : ServerRow → Text
row_id r = r.profile.id

unfoldable pub get_server : Text → Database → StoreResult Profile
get_server id db = elim (find_key row_id id db.servers) [
  | none ↦ failed no_row
  | some r ↦ done r.profile
]

unfoldable pub password : Sealer → Text → Database → StoreResult Text
password s id db = elim (find_key row_id id db.servers) [
  | none ↦ failed no_row
  | some r ↦ elim (s.unseal r.password) [ none ↦ failed cannot_seal | some w ↦ done w ]
]

-- The INSERT; an id that is there is refused.
unfoldable pub insert_server : ServerRow → Database → StoreResult Profile × Database
insert_server r db =
    if has_key row_id (row_id r) db.servers
    then (failed refused, db)
    else (done r.profile, record db { servers = db.servers ++ r ∷ [] })

abbrev pub or_default : Text → Text → Text
or_default t d = if is_empty t then d else t

-- The profile that is inserted.
abbrev pub new_profile : Draw → Profile → Profile
new_profile draw srv = record srv {
  id = draw.new_id;
  protocol = or_default srv.protocol (codes "source");
  created_at = draw.now;
  updated_at = draw.now;
}

unfoldable pub create_server :
    Sealer → Draw → Profile → Text → Database → StoreResult Profile × Database
unfolding insert_server
create_server s draw srv w db =
    if is_empty srv.name || is_empty srv.addr
    then (failed is_required, db)
    else elim (s.seal draw.nonce w) [
      | none ↦ (failed cannot_seal, db)
      | some sealed ↦
          insert_server (record { profile = new_profile draw srv; password = sealed }) db
    ]

-- The profile that an update answers with: an empty name, address or protocol keeps the old one.
abbrev pub updated : ℕ → Profile → Profile → Profile
updated now srv existing = record existing {
  name = or_default srv.name existing.name;
  addr = or_default srv.addr existing.addr;
  protocol = or_default srv.protocol existing.protocol;
  group = srv.group;
  game = srv.game;
  tls = srv.tls;
  server_name = srv.server_name;
  updated_at = now;
}

-- The columns that the UPDATE sets.
abbrev pub set_columns : Profile → ServerRow → ServerRow
set_columns p r = record r {
  profile = record r.profile {
    name = p.name;
    protocol = p.protocol;
    addr = p.addr;
    group = p.group;
    game = p.game;
    tls = p.tls;
    server_name = p.server_name;
    updated_at = p.updated_at;
  };
}

abbrev pub modify_server : Text → (ServerRow → ServerRow) → Database → Database
modify_server id f db = record db { servers = modify_key row_id id f db.servers }

-- Both statements, where a password is given.
abbrev pub set_password : Text → Bytes → Database → Database
set_password id sealed db = modify_server id (λ r. record r { password = sealed }) db

-- The writes of an update to `p`.
unfoldable pub write_update :
    Sealer → Draw → Text → Profile → Option Text → Database → StoreResult Profile × Database
write_update s draw id p none db = (done p, modify_server id (set_columns p) db)
write_update s draw id p (some w) db = elim (s.seal draw.nonce w) [
  | none ↦ (failed cannot_seal, db)
  | some sealed ↦ (done p, modify_server id (set_columns p) (set_password id sealed db))
]

unfoldable pub update_server :
    Sealer → Draw → Text → Profile → Option Text → Database → StoreResult Profile × Database
unfolding get_server write_update
update_server s draw id srv w db = elim (get_server id db) [
  | failed e ↦ (failed e, db)
  | done existing ↦ write_update s draw id (updated draw.now srv existing) w db
]

unfoldable pub set_game : ℕ → Text → Text → Database → StoreResult Unit × Database
set_game now id game db =
    if has_key row_id id db.servers
    then (
      done tt,
      modify_server id
          (λ r. record r { profile = record r.profile { game = game; updated_at = now } }) db,
    )
    else (failed no_row, db)

abbrev pub is_server : Text → Option Text → Bool
is_server id none = false
is_server id (some server) = server === id

abbrev pub is_of : Text → MacroRow → Bool
is_of id m = is_server id m.server_id

-- The DELETE, which both foreign keys pass on to the rows of the server.
unfoldable pub delete_server : Text → Database → StoreResult Unit × Database
delete_server id db =
    if has_key row_id id db.servers
    then (
      done tt,
      record db {
        servers = remove_key row_id id db.servers;
        macros = filter (λ m. not (is_of id m)) db.macros;
        history = filter (λ h. not (h.server_id === id)) db.history;
      },
    )
    else (failed no_row, db)
